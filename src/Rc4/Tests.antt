-- ===== src/Rc4/Tests.antt =====
-- Runs of RC4 on small inputs, and instances of its theorems.
use cccam_3_0_1_by_sharillas.Base.{◌≡◌, true, [], ◌∷◌}
use cccam_3_0_1_by_sharillas.Rc4.{Rc4, stream_loop, counting}
use cccam_3_0_1_by_sharillas.Rc4.Stream.{stream_loop_twice}

-- A state that a session may be in: the table that starts the schedule.
abbrev plain : Rc4
plain = record { s = counting 256 0; i = 0; j = 0; ready = true }

stream_loop_twice_example :
    stream_loop plain (stream_loop plain (1 ∷ 2 ∷ [])).1
    ≡ ((stream_loop plain (1 ∷ 2 ∷ [])).0, 1 ∷ 2 ∷ [])
stream_loop_twice_example = stream_loop_twice plain (1 ∷ 2 ∷ [])
