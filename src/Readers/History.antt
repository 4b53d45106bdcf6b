-- ===== src/Readers/History.antt =====
-- Histories of calls of cccam3_card_manager.c.
use cccam_3_0_1_by_sharillas.Base.{refl, List, [], ◌∷◌}
use cccam_3_0_1_by_sharillas.Readers.{cleanup}
use cccam_3_0_1_by_sharillas.Readers.Emm.{Sender, send_emm-ReadersInv}
use cccam_3_0_1_by_sharillas.Readers.Invariant.{
  ReadersInv, get_cw-ReadersInv, add_reader-ReadersInv, remove_reader-ReadersInv,
  update_state-ReadersInv, init-ReadersInv, reload-ReadersInv,
}
use cccam_3_0_1_by_sharillas.Readers.Step.{
  Call, gets, sends_emm, adds, removes, updates, inits, reloads, cleans_up, step, run, Room, Roomy,
}

step-ReadersInv :
    (s : Sender) (k : Call) → Room s k → ReadersInv s.manager → ReadersInv (step s k).manager
unfolding step cleanup
step-ReadersInv s (gets caid provid now io) room v =
    get_cw-ReadersInv s.manager caid provid now io v
step-ReadersInv s (sends_emm caid bytes now io) room v = send_emm-ReadersInv s caid bytes now io v
step-ReadersInv s (adds r) room v = add_reader-ReadersInv s.manager r room v
step-ReadersInv s (removes id) room v = remove_reader-ReadersInv s.manager id v
step-ReadersInv s (updates id state) room v = update_state-ReadersInv s.manager id state v
step-ReadersInv s (inits file) room v = init-ReadersInv s.manager file room v
step-ReadersInv s (reloads file) room v = reload-ReadersInv s.manager file room
step-ReadersInv s cleans_up room v = record { counted = refl; ordered = tt; tallied = tt }

-- Every history of these calls, one after the other and with fewer than 2^32 ids given out since the
-- counter of ids was last reset, keeps the invariant of the card manager: requests for control words,
-- EMMs, added and removed readers, new states, the initialisation, reloads and the cleanup. The
-- invariant: the counter counts the list, reader ids are distinct and below the next one, and the
-- requests of each reader are its answers and its failures.
pub run-ReadersInv :
    (s : Sender) (ks : List Call)
    → Roomy s ks
    → ReadersInv s.manager
    → ReadersInv (run s ks).manager
unfolding run
run-ReadersInv s [] room v = v
run-ReadersInv s (k ∷ ks) room v =
    run-ReadersInv (step s k) ks room.1 (step-ReadersInv s k room.0 v)
