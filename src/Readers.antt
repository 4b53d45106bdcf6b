-- ===== src/Readers.antt =====
-- src/CCshare/cccam3_card_manager.c and cccam3_card_manager.h: the list of readers, the choice of
-- a reader for an ECM, and what a served or failed request does to it. The singly linked list is
-- a list, newest first; a pointer into it is an index. time(NULL) is the argument `now`. What the
-- smart card, the emulator and the remote server answer is the argument `io`.
pub mod Remote
pub mod Selection
pub mod Step
pub mod History
pub mod Backoff
pub mod Invariant
pub mod Dedup
pub mod Emm
mod Tests
use cccam_3_0_1_by_sharillas.Base.{
  same_text, ℕ, ◌+◌, ◌-◌, ◌*◌, ◌%◌, ◌^◌, Bool, true, false, ◌&&◌, not, Option, none, some, List, [],
  ◌∷◌, ltb, leb, ◌==◌, if◌then◌else◌, set, unlink_first, find_first, update_first,
}

pub data ReaderType : Type 0 where
  local remote emu : ReaderType

pub data ReaderState : Type 0 where
  disabled ok error timed_out no_card : ReaderState

pub record Reader : Type 0 where
  pub id : ℕ
  pub name : List ℕ
  pub kind : ReaderType
  pub state : ReaderState
  pub caid : ℕ
  pub provid : ℕ
  pub hop : ℕ
  pub priority : ℕ
  pub enabled : Bool
  pub ecm_requests : ℕ
  pub ecm_success : ℕ
  pub ecm_fail : ℕ
  pub last_used : ℕ
  pub last_error : ℕ
  pub consecutive_failures : ℕ
  pub retry_after : ℕ
  -- `remote_fd >= 0` and `remote_logged_in`.
  pub connected : Bool
  pub logged_in : Bool

pub record Readers : Type 0 where
  pub readers : List Reader
  pub count : ℕ
  pub next_id : ℕ
  -- `g_initialized`
  pub initialized : Bool

abbrev pub max_consecutive_failures : ℕ
max_consecutive_failures = 3

abbrev pub retry_backoff_seconds : ℕ
retry_backoff_seconds = 30

-- A reader in error is passed over until its retry time, if it has one.
unfoldable pub state_serves : ReaderState → ℕ → ℕ → Bool
state_serves disabled retry_after now = false
state_serves error retry_after now = not (ltb 0 retry_after && ltb now retry_after)
state_serves _ retry_after now = true

unfoldable pub supports_caid : Reader → ℕ → ℕ → Bool
unfolding state_serves
supports_caid r caid now =
    r.enabled
    && (state_serves r.state r.retry_after now && (if r.caid == 0 then true else r.caid == caid))

unfoldable pub supports_provid : Reader → ℕ → Bool
supports_provid r provid = if r.provid == 0 then true else r.provid == provid

-- The bonus of a type, and the penalty of a state, in `reader_score`; 20 is added to each score so
-- that it is not negative.
unfoldable pub type_score : ReaderType → ℕ
type_score local = 0
type_score emu = 10
type_score remote = 30

unfoldable pub state_score : ReaderState → ℕ
state_score timed_out = 50
state_score error = 100
state_score _ = 0

-- `reader_score` plus 20.
unfoldable pub reader_score : Reader → ℕ
unfolding type_score state_score
reader_score r = r.priority * 10 + r.hop * 5 + type_score r.kind + state_score r.state

-- `best_score = 9999`, plus 20.
abbrev pub initial_best_score : ℕ
initial_best_score = 10019

-- The reader so far chosen, at its index.
abbrev pub Choice : Type 0
Choice = Option (ℕ × Reader)

-- The reader may be asked for this CAID and provider now.
unfoldable pub usable : ℕ → ℕ → ℕ → Reader → Bool
usable caid provid now r = supports_caid r caid now && supports_provid r provid

-- The loop of `cccam_card_manager_select_reader` at index `i`.
unfoldable pub select_from : ℕ → ℕ → ℕ → ℕ → List Reader → Choice → ℕ → Choice
select_from caid provid now i [] best best_score = best
select_from caid provid now i (r ∷ rs) best best_score =
    let better = usable caid provid now r && ltb (reader_score r) best_score in
    select_from caid provid now (i + 1) rs (if better then some (i, r) else best)
      (if better then reader_score r else best_score)

unfoldable pub select_reader : Readers → ℕ → ℕ → ℕ → Choice
select_reader m caid provid now = select_from caid provid now 0 m.readers none initial_best_score

unfoldable pub mark_failure : Reader → ℕ → Reader
mark_failure r now =
    let failures = r.consecutive_failures + 1 in
    let failed = record r { consecutive_failures = failures; last_error = now } in
    if leb max_consecutive_failures failures
    then record failed { state = error; retry_after = now + retry_backoff_seconds }
    else failed

unfoldable pub mark_success : Reader → Reader
mark_success r = record r { consecutive_failures = 0; retry_after = 0; state = ok }

-- What the outside world does during one request: whether the TCP connection and the login
-- succeed, and the control word and hop that come back.
pub record Io : Type 0 where
  pub connects : Bool
  pub logs_in : Bool
  pub reply : Option (List ℕ × ℕ)

-- A control word and the hop of its source.
abbrev pub Answer : Type 0
Answer = Option (List ℕ × ℕ)

-- `local_get_cw` and `emu_get_cw`: the hop is the reader's own.
abbrev pub own_hop : Reader → Answer → Answer
own_hop r none = none
own_hop r (some a) = some (a.0, r.hop)

-- `remote_get_cw` on an open connection: the login comes first where it is missing.
unfoldable pub remote_get_cw : Reader → Io → Reader × Answer
remote_get_cw r io =
    if r.logged_in
    then (r, io.reply)
    else (if io.logs_in then (record r { logged_in = true }, io.reply) else (r, none))

-- The remote case of `cccam_card_manager_get_cw` once connected: a failure closes the connection.
unfoldable pub remote_serve : Reader → Io → Reader × Answer
unfolding remote_get_cw
remote_serve r io =
    let result = remote_get_cw r io in
    elim result.1 [
      | none ↦ (record r { connected = false; logged_in = false }, none)
      | some a ↦ (result.0, some a)
    ]

-- The switch on the reader's type. `remote_connect` forgets the login and reopens the connection.
unfoldable pub serve_kind : ReaderType → Reader → Io → Reader × Answer
unfolding remote_serve
serve_kind local r io = (r, own_hop r io.reply)
serve_kind emu r io = (r, own_hop r io.reply)
serve_kind remote r io =
    if r.connected
    then remote_serve r io
    else (if io.connects
        then remote_serve (record r { connected = true; logged_in = false }) io
        else (record r { logged_in = false }, none))

-- The part of `cccam_card_manager_get_cw` under the reader's lock.
unfoldable pub serve : Reader → ℕ → Io → Reader × Answer
unfolding serve_kind mark_failure mark_success
serve r now io =
    let asked = record r { ecm_requests = r.ecm_requests + 1; last_used = now } in
    let result = serve_kind r.kind asked io in
    let s = result.0 in
    elim result.1 [
      | some a ↦ (mark_success (record s { ecm_success = s.ecm_success + 1 }), some a)
      | none ↦ (mark_failure (record s { ecm_fail = s.ecm_fail + 1 }) now, none)
    ]

unfoldable pub get_cw : Readers → ℕ → ℕ → ℕ → Io → Readers × Answer
get_cw m caid provid now io = elim (select_reader m caid provid now) [
  | none ↦ (m, none)
  | some (i, r) ↦ (record m { readers = set m.readers i (serve r now io).0 }, (serve r now io).1)
]

unfoldable pub cleanup : Readers → Readers
cleanup m = record m { readers = []; count = 0; initialized = false }

unfoldable pub add_reader : Readers → Reader → Readers
add_reader m r = record m {
  readers = record r { id = m.next_id; connected = false } ∷ m.readers;
  next_id = (m.next_id + 1) % 2 ^ 32;
  count = m.count + 1;
}

-- A reader as `calloc` and the file leave it: it has served no request and has no connection.
unfoldable pub unused : Reader → Reader
unused r = record r {
  ecm_requests = 0;
  ecm_success = 0;
  ecm_fail = 0;
  last_used = 0;
  last_error = 0;
  consecutive_failures = 0;
  retry_after = 0;
  logged_in = false;
}

-- `cccam_card_manager_load_from_config`, given the readers that the file describes, in its order; a
-- file that is missing describes none.
unfoldable pub load : Readers → List Reader → Readers
unfolding add_reader unused
load m [] = m
load m (r ∷ rs) = load (add_reader m (unused r)) rs

-- `cccam_card_manager_init`, with the readers that the file describes.
unfoldable pub init : Readers → List Reader → Readers
unfolding load
init m file =
    if m.initialized
    then m
    else load (record { readers = []; count = 0; next_id = 1; initialized = true }) file

-- `cccam_card_manager_reload`
unfoldable pub reload : Readers → List Reader → Readers
unfolding load
reload m file = load (record m { readers = []; count = 0; next_id = 1 }) file

abbrev pub has_id : ℕ → Reader → Bool
has_id id r = r.id == id

unfoldable pub remove_reader : Readers → ℕ → Readers × Bool
remove_reader m id = elim (unlink_first (has_id id) m.readers) [
  | none ↦ (m, false)
  | some (r, rest) ↦ (record m { readers = rest; count = m.count - 1 }, true)
]

unfoldable pub find_reader : Readers → ℕ → Option Reader
find_reader m id = find_first (has_id id) m.readers

unfoldable pub find_reader_by_name : Readers → List ℕ → Option Reader
find_reader_by_name m name = find_first (λ r. same_text r.name name) m.readers

abbrev pub is_ok : ReaderState → Bool
is_ok ok = true
is_ok _ = false

unfoldable pub set_state : ReaderState → Reader → Reader
set_state state r =
    if is_ok state
    then record r { state = state; consecutive_failures = 0; retry_after = 0 }
    else record r { state = state }

-- `true` is the return value 0.
unfoldable pub update_state : Readers → ℕ → ReaderState → Readers × Bool
unfolding set_state
update_state m id state = elim (find_reader m id) [
  | none ↦ (m, false)
  | some r ↦ (record m { readers = update_first (has_id id) (set_state state) m.readers }, true)
]
