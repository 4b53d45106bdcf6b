-- ===== src/Readers/Emm.antt =====
-- src/CCshare/cccam3_card_manager.c, cccam_card_manager_send_emm: the way of an EMM to the readers.
use cccam_3_0_1_by_sharillas.Base.{
  ℕ, ◌+◌, ◌<◌, ◌≡◌, refl, Bool, true, false, ◌&&◌, List, [], ◌∷◌, arith, ◌==◌, if◌then◌else◌,
  length, All, Pairwise, if_cases,
}
use cccam_3_0_1_by_sharillas.Readers.{Reader, Readers, ReaderType, remote, mark_failure}
use cccam_3_0_1_by_sharillas.Readers.Invariant.{ReadersInv, Counts, Newer}
use cccam_3_0_1_by_sharillas.Readers.Dedup.{
  Ring, emm_hash, seen_recently, remember, remember_all, seen-remember, dedup_slots, dedup_window,
}

-- What the outside world does for one reader: the connection, the login, whether the message can
-- be built (its size and the session's cipher), and whether it is sent whole.
pub record EmmIo : Type 0 where
  pub connects : Bool
  pub logs_in : Bool
  pub builds : Bool
  pub sends : Bool

abbrev pub is_remote : ReaderType → Bool
is_remote remote = true
is_remote _ = false

unfoldable pub takes_emm : ℕ → Reader → Bool
takes_emm caid r = is_remote r.kind && (r.enabled && (if r.caid == 0 then true else r.caid == caid))

-- From the login on, on an open connection.
unfoldable pub send_connected : Reader → ℕ → EmmIo → Reader × Bool
send_connected r now io =
    if (if r.logged_in then true else io.logs_in)
    then (record r { logged_in = true }, io.builds && io.sends)
    else (mark_failure (record r { connected = false; logged_in = false }) now, false)

-- The body of the loop for a reader that takes the EMM, under its lock.
unfoldable pub send_one : Reader → ℕ → EmmIo → Reader × Bool
unfolding send_connected mark_failure
send_one r now io =
    if r.connected
    then send_connected r now io
    else (if io.connects
        then send_connected (record r { connected = true; logged_in = false }) now io
        else (mark_failure (record r { logged_in = false }) now, false))

unfoldable pub send_all : ℕ → ℕ → (Reader → EmmIo) → List Reader → List Reader × ℕ
send_all caid now io [] = ([], 0)
send_all caid now io (r ∷ rs) =
    let rest = send_all caid now io rs in
    let one = send_one r now (io r) in
    if takes_emm caid r
    then (one.0 ∷ rest.0, (if one.1 then rest.1 + 1 else rest.1))
    else (r ∷ rest.0, rest.1)

pub data Sent : Type 0 where
  bad_arguments : Sent
  sent : ℕ → Sent

pub record Sender : Type 0 where
  pub manager : Readers
  pub ring : Ring

unfoldable pub send_new : Sender → ℕ → List ℕ → ℕ → (Reader → EmmIo) → Sender × Sent
send_new s caid bytes now io =
    let result = send_all caid now io s.manager.readers in
    (
      record {
        manager = record s.manager { readers = result.0 };
        ring = remember s.ring (emm_hash bytes) now;
      },
      sent result.1,
    )

unfoldable pub send_emm : Sender → ℕ → List ℕ → ℕ → (Reader → EmmIo) → Sender × Sent
unfolding send_new
send_emm s caid [] now io = (s, bad_arguments)
send_emm s caid (b ∷ bs) now io =
    if seen_recently s.ring (emm_hash (b ∷ bs)) now
    then (s, sent 0)
    else send_new s caid (b ∷ bs) now io

send_one_keeps :
    (r : Reader) (now : ℕ) (io : EmmIo)
    → ((send_one r now io).0.id ≡ r.id)
      × ((send_one r now io).0.ecm_requests ≡ r.ecm_requests)
      × ((send_one r now io).0.ecm_success ≡ r.ecm_success)
      × ((send_one r now io).0.ecm_fail ≡ r.ecm_fail)
unfolding send_one
send_one_keeps r now io = ground arith

-- An EMM that was passed on is not passed on again within a minute: a second call with the same
-- bytes sends nothing and changes no reader, also for another CAID.
pub send_emm_twice :
    (s : Sender) (caid caid' b : ℕ) (bs : List ℕ) (now later : ℕ) (io io' : Reader → EmmIo)
    → s.ring.slot < dedup_slots
    → seen_recently s.ring (emm_hash (b ∷ bs)) now ≡ false
    → later < now + dedup_window
    → send_emm (send_emm s caid (b ∷ bs) now io).0 caid' (b ∷ bs) later io'
      ≡ ((send_emm s caid (b ∷ bs) now io).0, sent 0)
unfolding send_emm remember_all
send_emm_twice s caid caid' b bs now later io io' slot fresh soon =
    rw (fresh, send_emm)
      (rw (seen-remember s.ring (emm_hash (b ∷ bs)) now later [] slot (omega arith) soon, send_emm)
        refl)

send_all-Newer :
    (caid now : ℕ) (io : Reader → EmmIo) (r s : Reader) (rs : List Reader)
    → s.id ≡ r.id
    → All (Newer r) rs
    → All (Newer s) (send_all caid now io rs).0
unfolding send_all
send_all-Newer caid now io r s [] e h = tt
send_all-Newer caid now io r s (x ∷ rs) e h =
    if_cases (λ (l : List Reader × ℕ). All (Newer s) l.0) (takes_emm caid x) _ _
      (λ _. (
        omega (arith, h.0, (send_one_keeps x now (io x)).0),
        send_all-Newer caid now io r s rs e h.1,
      ))
      (λ _. (omega (arith, h.0), send_all-Newer caid now io r s rs e h.1))

send_all-Pairwise :
    (caid now : ℕ) (io : Reader → EmmIo) (rs : List Reader)
    → Pairwise Newer rs
    → Pairwise Newer (send_all caid now io rs).0
unfolding send_all
send_all-Pairwise caid now io [] h = tt
send_all-Pairwise caid now io (x ∷ rs) h =
    let rest = send_all-Pairwise caid now io rs h.1 in
    if_cases (λ (l : List Reader × ℕ). Pairwise Newer l.0) (takes_emm caid x) _ _
      (λ _. (
        send_all-Newer caid now io x (send_one x now (io x)).0 rs (send_one_keeps x now (io x)).0
            h.0,
        rest,
      ))
      (λ _. (send_all-Newer caid now io x x rs refl h.0, rest))

send_all-Counts :
    (next caid now : ℕ) (io : Reader → EmmIo) (rs : List Reader)
    → All (Counts next) rs
    → All (Counts next) (send_all caid now io rs).0
unfolding send_all
send_all-Counts next caid now io [] h = tt
send_all-Counts next caid now io (x ∷ rs) h =
    let rest = send_all-Counts next caid now io rs h.1 in
    let (i, q, a, b) = send_one_keeps x now (io x) in
    if_cases (λ (l : List Reader × ℕ). All (Counts next) l.0) (takes_emm caid x) _ _
      (λ _. ((omega (arith, i, h.0), omega (arith, q, a, b, h.0)), rest)) (λ _. (h.0, rest))

length-send_all :
    (caid now : ℕ) (io : Reader → EmmIo) (rs : List Reader)
    → length (send_all caid now io rs).0 ≡ length rs
unfolding send_all
length-send_all caid now io [] = refl
length-send_all caid now io (x ∷ rs) = ground (arith, length-send_all caid now io rs)

-- Passing an EMM on keeps the invariant of the card manager: no reader is lost, and the counts of
-- ECM requests, answers and failures are not touched by EMM traffic.
pub send_emm-ReadersInv :
    (s : Sender) (caid : ℕ) (bytes : List ℕ) (now : ℕ) (io : Reader → EmmIo)
    → ReadersInv s.manager
    → ReadersInv (send_emm s caid bytes now io).0.manager
unfolding send_emm
send_emm-ReadersInv s caid [] now io v = v
send_emm-ReadersInv s caid (b ∷ bs) now io v =
    if_cases (λ (x : Sender × Sent). ReadersInv x.0.manager)
      (seen_recently s.ring (emm_hash (b ∷ bs)) now) _ _ (λ _. v)
      (λ _. record {
        counted = omega (arith, v.counted, length-send_all caid now io s.manager.readers);
        ordered = send_all-Pairwise caid now io s.manager.readers v.ordered;
        tallied = send_all-Counts s.manager.next_id caid now io s.manager.readers v.tallied;
      })
