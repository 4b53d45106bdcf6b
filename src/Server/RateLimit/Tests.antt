-- ===== src/Server/RateLimit/Tests.antt =====
-- The limit of ECMs on a small session, and instances of its theorems.
use cccam_3_0_1_by_sharillas.Base.{ℕ, ◌≤◌, ◌≡◌, List, [], ◌∷◌, arith}
use cccam_3_0_1_by_sharillas.Server.RateLimit.{Window}
use cccam_3_0_1_by_sharillas.Server.RateLimit.Bounds.{
  served_at, served_at-le-limit, served_at-all_at, all_at,
}

abbrev times : List ℕ
times = 40 ∷ 41 ∷ 41 ∷ 41 ∷ 42 ∷ []

served_at-le-limit_example : served_at 41 2 (record { start = 0; count = 0 }) times ≤ 2
served_at-le-limit_example = served_at-le-limit 41 2 times (omega arith) (omega arith) (omega arith)

abbrev used_up : Window
used_up = record { start = 41; count = 2 }

served_at-all_at_example : served_at 43 2 used_up (all_at 43 2) ≡ 2
served_at-all_at_example = served_at-all_at 2 used_up 43 2 (omega arith) (omega arith)
