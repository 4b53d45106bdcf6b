-- ===== src/HopControl/Step.antt =====
-- The calls of cccam3_hop_control.c as one step, and runs of them.
use cccam_3_0_1_by_sharillas.Base.{ℕ, Bool, List, [], ◌∷◌}
use cccam_3_0_1_by_sharillas.HopControl.{
  HopControl, Request, check, register, clean_expired, set_limit, set_timeout, init, cleanup,
}

pub data Call : Type 0 where
  checks : ℕ → ℕ → Call
  registers : Request → ℕ → ℕ → Bool → Call
  cleans : ℕ → Call
  sets_limit sets_timeout : ℕ → Call
  inits cleans_up : Call

unfoldable pub step : HopControl → Call → HopControl
step s (checks hop now) = (check s hop now).0
step s (registers r hop now allocated) = (register s r hop now allocated).0
step s (cleans now) = (clean_expired s now).0
step s (sets_limit limit) = set_limit s limit
step s (sets_timeout seconds) = set_timeout s seconds
step s inits = init s
step s cleans_up = cleanup s

unfoldable pub run : HopControl → List Call → HopControl
run s [] = s
run s (k ∷ ks) = run (step s k) ks
