-- ===== src/Server/LoginGuard.antt =====
-- src/core/cccam3_server.c: the guard against guessed passwords, server_login_failure,
-- server_login_success and server_login_blocked, and the order in which handle_client_login calls
-- them. The four arrays of 64 are one list of slots; an address is the number sin_addr.s_addr, and
-- a free slot has the address 0. The limit is g_config.max_login_failures, where 0 stands for every
-- value that is not positive. The arrays have no lock, and each client has a thread:
-- `attempt` is a login that no other interrupts, Threads has the calls of several logins in any order,
-- and no part models two calls of the guard at one time.
pub mod Slots
pub mod History
pub mod Threads
mod Tests
use cccam_3_0_1_by_sharillas.Base.{
  ℕ, suc, zero, ◌+◌, ◌%◌, Bool, true, false, ◌&&◌, ◌||◌, Option, none, some, List, [], ◌∷◌, ltb,
  leb, ◌==◌, if◌then◌else◌, get_elem?, set, map, not,
}

abbrev pub fail_slots : ℕ
fail_slots = 64

-- One index of g_fail_ip, g_fail_count, g_fail_since and g_fail_blocked_until.
pub record Slot : Type 0 where
  pub ip : ℕ
  pub count : ℕ
  pub since : ℕ
  pub blocked_until : ℕ

-- The first free slot is noted.
unfoldable pub note_free : ℕ → Slot → Option ℕ → Option ℕ
note_free i s (some slot) = some slot
note_free i s none = if s.ip == 0 then some i else none

-- The loop of `server_login_failure` from index `i`: the slot of the address, or else the first
-- free one.
unfoldable pub slot_of : ℕ → ℕ → Option ℕ → List Slot → Option ℕ
unfolding note_free
slot_of ip i slot [] = slot
slot_of ip i slot (s ∷ ss) =
    if s.ip == ip then some i else slot_of ip (i + 1) (note_free i s slot) ss

-- The limit that holds: 5 where none is configured.
unfoldable pub effective_limit : ℕ → ℕ
effective_limit configured = if configured == 0 then 5 else configured

-- The slot after a failure: a new count, or one more.
unfoldable pub count_failure : ℕ → ℕ → Slot → Slot
count_failure ip now s =
    if not (s.ip == ip) || ltb (s.since + 60) now
    then record s { ip = ip; count = 1; since = now }
    else record s { count = s.count + 1 }

unfoldable pub block_full : ℕ → ℕ → Slot → Slot
block_full configured now s =
    if leb (effective_limit configured) s.count then record s { blocked_until = now + 60 } else s

abbrev pub fail : ℕ → ℕ → ℕ → Slot → Slot
fail configured ip now s = block_full configured now (count_failure ip now s)

unfoldable pub write_slot : List Slot → ℕ → (Slot → Slot) → List Slot
write_slot g i f = elim (get_elem? g i) [ none ↦ g | some s ↦ set g i (f s) ]

-- `server_login_failure`
unfoldable pub login_failure : ℕ → List Slot → ℕ → ℕ → List Slot
login_failure configured g ip now = elim (slot_of ip 0 none g) [
  | some i ↦ write_slot g i (fail configured ip now)
  | none ↦ write_slot g (ip % fail_slots) (fail configured ip now)
]

unfoldable pub clear_ip : ℕ → Slot → Slot
clear_ip ip s = if s.ip == ip then record s { ip = 0; count = 0 } else s

-- `server_login_success`
unfoldable pub login_success : List Slot → ℕ → List Slot
login_success g ip = map (clear_ip ip) g

-- `server_login_blocked`
unfoldable pub login_blocked : List Slot → ℕ → ℕ → Bool
login_blocked [] ip now = false
login_blocked (s ∷ ss) ip now =
    let rest = login_blocked ss ip now in (s.ip == ip && ltb now s.blocked_until) || rest

-- What becomes of a login whose payload is well formed.
pub data Verdict : Type 0 where
  refused accepted rejected : Verdict

-- The calls of `handle_client_login`: an address that is blocked has no password tested. `correct`
-- says whether the user manager takes the name and the password, or registers them.
unfoldable pub attempt : ℕ → List Slot → ℕ → ℕ → Bool → List Slot × Verdict
attempt configured g ip now correct =
    if login_blocked g ip now
    then (g, refused)
    else (if correct
        then (login_success g ip, accepted)
        else (login_failure configured g ip now, rejected))

-- The arrays before any login: all bytes 0.
unfoldable pub free_slots : ℕ → List Slot
free_slots zero = []
free_slots (suc n) = record { ip = 0; count = 0; since = 0; blocked_until = 0 } ∷ free_slots n
