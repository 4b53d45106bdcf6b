-- ===== src/Readers/Step.antt =====
-- The calls of cccam3_card_manager.c as one step, and runs of them. A call that other threads' calls
-- interrupt is not modelled: the list of readers has no lock.
use cccam_3_0_1_by_sharillas.Base.{ℕ, ◌+◌, ◌<◌, ◌^◌, List, [], ◌∷◌, length}
use cccam_3_0_1_by_sharillas.Readers.{
  Readers, Reader, ReaderState, Io, get_cw, add_reader, remove_reader, update_state, unused, init,
  reload, cleanup,
}
use cccam_3_0_1_by_sharillas.Readers.Emm.{EmmIo, Sender, send_emm}

-- `adds` is given a reader as `calloc` and the configuration leave it, with its counters at zero;
-- `inits` and `reloads` are given the readers that the file describes.
pub data Call : Type 0 where
  gets : ℕ → ℕ → ℕ → Io → Call
  sends_emm : ℕ → List ℕ → ℕ → (Reader → EmmIo) → Call
  adds : Reader → Call
  removes : ℕ → Call
  updates : ℕ → ReaderState → Call
  inits reloads : List Reader → Call
  cleans_up : Call

-- The call on the card manager; the ring of EMM hashes is a part of the state.
abbrev pub on_manager : Sender → Readers → Sender
on_manager s m = record s { manager = m }

unfoldable pub step : Sender → Call → Sender
step s (gets caid provid now io) = on_manager s (get_cw s.manager caid provid now io).0
step s (sends_emm caid bytes now io) = (send_emm s caid bytes now io).0
step s (adds r) = on_manager s (add_reader s.manager (unused r))
step s (removes id) = on_manager s (remove_reader s.manager id).0
step s (updates id state) = on_manager s (update_state s.manager id state).0
step s (inits file) = on_manager s (init s.manager file)
step s (reloads file) = on_manager s (reload s.manager file)
step s cleans_up = on_manager s (cleanup s.manager)

unfoldable pub run : Sender → List Call → Sender
run s [] = s
run s (k ∷ ks) = run (step s k) ks

-- The id of a new reader is below 2^32, so that the counter does not start again at 0.
abbrev pub Room : Sender → Call → Type 0
Room s (adds r) = s.manager.next_id + 1 < 2 ^ 32
Room s (inits file) = length file + 1 < 2 ^ 32
Room s (reloads file) = length file + 1 < 2 ^ 32
Room s _ = Unit

-- That holds for each call of a history.
abbrev pub Roomy : Sender → List Call → Type 0
Roomy s [] = Unit
Roomy s (k ∷ ks) = Room s k × Roomy (step s k) ks
