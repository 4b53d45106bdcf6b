-- ===== src/HopControl/Limit.antt =====
-- The limit on hops, and the hop that a client is served at.
use cccam_3_0_1_by_sharillas.Base.{ℕ, ◌+◌, ◌≤◌, ◌<◌, ◌≡◌, ◌⊎◌, true, arith, leb, if◌then◌else◌}
use cccam_3_0_1_by_sharillas.HopControl.{HopControl, check, clean_expired, increment_hop}

-- `cccam_hop_control_check` allows a hop exactly when it is within the limit, and counts the
-- answer on one of its two counters.
pub check_lem :
    (s : HopControl) (hop now : ℕ)
    → ((check s hop now).1 ≡ leb hop s.max_hops)
      × ((check s hop now).0.total_checks ≡ s.total_checks + 1)
      × ((check s hop now).0.allowed ≡ (if leb hop s.max_hops then s.allowed + 1 else s.allowed))
      × ((check s hop now).0.blocked ≡ (if leb hop s.max_hops then s.blocked else s.blocked + 1))
unfolding check clean_expired
check_lem s hop now = ground arith

-- The served hop is one more than the source's, cut at the limit; a source at 255 wraps to 0.
pub increment_hop_lem :
    (s : HopControl) (current : ℕ)
    → current < 256
    → (increment_hop s current ≤ s.max_hops)
      × ((increment_hop s current ≡ current + 1)
          ⊎ (increment_hop s current ≡ s.max_hops)
          ⊎ ((current ≡ 255) × (increment_hop s current ≡ 0)))
unfolding increment_hop
increment_hop_lem s current h = ground arith

-- A hop that `increment_hop` returns always passes the check: the pair of calls that the ECM
-- handler makes never blocks a request, whatever the source's hop and the limit are.
pub check-increment_hop :
    (s : HopControl) (current now : ℕ)
    → ((check s (increment_hop s current) now).1 ≡ true)
      × ((check s (increment_hop s current) now).0.blocked ≡ s.blocked)
unfolding check clean_expired increment_hop
check-increment_hop s current now = ground arith

pub increment_hop_bounded : (s : HopControl) (current : ℕ) → increment_hop s current ≤ s.max_hops
unfolding increment_hop
increment_hop_bounded s current = ground arith

-- A check does not change the hop at which a source is served.
pub increment_hop-check :
    (s : HopControl) (hop now current : ℕ)
    → increment_hop (check s hop now).0 current ≡ increment_hop s current
unfolding check clean_expired increment_hop
increment_hop-check s hop now current = ground arith
