-- ===== src/HopControl/Tests.antt =====
-- Runs of the hop control on small inputs, and instances of its theorems.
use cccam_3_0_1_by_sharillas.Base.{◌≡◌, true}
use cccam_3_0_1_by_sharillas.HopControl.{initial, check, increment_hop}
use cccam_3_0_1_by_sharillas.HopControl.Limit.{check-increment_hop}

check-increment_hop_example :
    ((check initial (increment_hop initial 9) 10).1 ≡ true)
    × ((check initial (increment_hop initial 9) 10).0.blocked ≡ initial.blocked)
check-increment_hop_example = check-increment_hop initial 9 10
