-- ===== src/Users/Tests.antt =====
-- Accounts on small inputs, and instances of the theorems on them. The hash of these runs gives the
-- text back.
use cccam_3_0_1_by_sharillas.Base.{ℕ, zero, suc, ◌≡◌, refl, true, none, List, [], ◌∷◌, find_first}
use cccam_3_0_1_by_sharillas.Users.{Users, level_user, find_user}
use cccam_3_0_1_by_sharillas.Users.Step.{
  Call, adds, logs_in, detaches, registers, loads, ensures_admin,
}

abbrev nobody : Users
nobody = record { users = []; count = 0; next_id = 1; initialized = true }

abbrev plain : List ℕ → List ℕ
plain text = text

abbrev ana : List ℕ
ana = 97 ∷ 110 ∷ 97 ∷ []

abbrev calls : List Call
calls =
    adds ana ana level_user 2 10 true
    ∷ logs_in ana ana 11
    ∷ detaches
    ∷ registers (98 ∷ []) ana 12 true true
    ∷ loads (
        record {
          username = ana;
          password = ana;
          level = level_user;
          max_hops = 2;
          now = 12;
          allocated = true;
        }
        ∷ [])
    ∷ ensures_admin 12 true
    ∷ []

nobody_free : (name : List ℕ) → find_user nobody name ≡ none
unfolding find_user find_first
nobody_free name = refl

-- A name of `n` letters.
abbrev letters : ℕ → List ℕ
letters zero = []
letters (suc n) = 97 ∷ letters n
