-- ===== src/Ecm/Invariant.antt =====
-- The invariant of the ECM handler: those of its components, and the order of the statistics.
use cccam_3_0_1_by_sharillas.Base.{ℕ, ◌+◌, ◌≤◌}
use cccam_3_0_1_by_sharillas.Cache.Invariant.{Inv}
use cccam_3_0_1_by_sharillas.HopControl.{HopControl, check}
use cccam_3_0_1_by_sharillas.HopControl.Step.{step, checks}
use cccam_3_0_1_by_sharillas.HopControl.Invariant.{HopInv, step-HopInv}
use cccam_3_0_1_by_sharillas.Readers.Invariant.{ReadersInv}
use cccam_3_0_1_by_sharillas.Ecm.{EcmState}

-- `lookups` and `asked` are 1 while the request that is counted by the coarser statistic has not
-- reached the finer one.
pub record EcmInvAt (lookups asked : ℕ) (s : EcmState) : Type 0 where
  pub cache_kept : Inv s.cache
  pub hops_kept : HopInv s.hops
  pub readers_kept : ReadersInv s.readers
  pub looked_up : s.cache_hits + s.cache_misses + lookups ≤ s.total_requests
  pub answers : s.reader_success + s.reader_fail + asked ≤ s.cache_misses

abbrev pub EcmInv : EcmState → Type 0
EcmInv s = EcmInvAt 0 0 s

pub check-HopInv : (s : HopControl) (hop now : ℕ) → HopInv s → HopInv (check s hop now).0
unfolding step
check-HopInv s hop now v = step-HopInv s (checks hop now) v
