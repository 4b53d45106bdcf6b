-- ===== src/Legacy/Tests.antt =====
-- The legacy cipher on small inputs, and instances of its theorems.
use cccam_3_0_1_by_sharillas.Base.{◌≡◌, refl, true, none, [], ◌∷◌, arith, length}
use cccam_3_0_1_by_sharillas.Rc4.{counting}
use cccam_3_0_1_by_sharillas.Legacy.{Legacy, cc_crypt}
use cccam_3_0_1_by_sharillas.Legacy.Cipher.{cc_crypt_overrun}

abbrev start : Legacy
start = record { table = counting 256 0; state = 7; counter = 0; sum = 0 }

abbrev worn : Legacy
worn = record start { counter = 254 }

worn_sized : length worn.table ≡ 256
unfolding counting
worn_sized = refl

cc_crypt_overrun_example : cc_crypt true worn (5 ∷ 6 ∷ []) ≡ none
cc_crypt_overrun_example =
    cc_crypt_overrun true worn (5 ∷ 6 ∷ []) worn_sized (omega arith) (omega arith)
