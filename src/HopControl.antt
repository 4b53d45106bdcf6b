-- ===== src/HopControl.antt =====
-- src/CCshare/cccam3_hop_control.c and cccam3_hop_control.h. The globals are the record's fields,
-- time(NULL) is the argument `now`, `allocated` says whether malloc succeeds. A hop is a uint8_t;
-- counters and times are unbounded numbers.
pub mod Step
pub mod Limit
pub mod Invariant
pub mod Requests
mod Tests
use cccam_3_0_1_by_sharillas.Base.{
  ℕ, ◌+◌, ◌-◌, ◌%◌, ◌^◌, Bool, true, false, ◌&&◌, Option, none, some, List, [], ◌∷◌, ltb, leb, ◌==◌,
  if◌then◌else◌, unlink_first, sweep, swept,
}

-- What identifies a request: the four arguments that `hop_match` compares.
pub record Request : Type 0 where
  pub caid : ℕ
  pub provid : ℕ
  pub sid : ℕ
  pub client_id : ℕ

pub record HopEntry : Type 0 where
  pub request : Request
  pub hop : ℕ
  pub timestamp : ℕ
  pub blocked : Bool

pub record HopControl : Type 0 where
  pub max_hops : ℕ
  pub timeout : ℕ
  pub entries : List HopEntry
  pub count : ℕ
  pub total_checks : ℕ
  pub blocked : ℕ
  pub allowed : ℕ

abbrev pub default_hop_limit : ℕ
default_hop_limit = 3

abbrev pub hop_timeout : ℕ
hop_timeout = 60

unfoldable pub initial : HopControl
initial = record {
  max_hops = default_hop_limit;
  timeout = hop_timeout;
  entries = [];
  count = 0;
  total_checks = 0;
  blocked = 0;
  allowed = 0;
}

unfoldable pub same_request : Request → Request → Bool
same_request a b =
    a.caid == b.caid && (a.provid == b.provid && (a.sid == b.sid && a.client_id == b.client_id))

unfoldable pub hop_match : Request → HopEntry → Bool
unfolding same_request
hop_match r e = same_request e.request r

-- The timeout survives `cccam_hop_control_init`.
pub init : HopControl → HopControl
init s = record s {
  max_hops = default_hop_limit;
  entries = [];
  count = 0;
  total_checks = 0;
  blocked = 0;
  allowed = 0;
}

pub cleanup : HopControl → HopControl
cleanup s = record s { entries = []; count = 0 }

pub is_valid : HopControl → ℕ → Bool
is_valid s hop = leb hop s.max_hops

-- `(now - current->timestamp) > g_hop_timeout`; a timestamp in the future is not out of date.
pub hop_expired : HopControl → ℕ → HopEntry → Bool
hop_expired s now e = ltb s.timeout (now - e.timestamp)

-- The new state and the number of entries freed.
pub clean_expired : HopControl → ℕ → HopControl × ℕ
clean_expired s now =
    let removed = swept (hop_expired s now) s.entries in
    (record s { entries = sweep (hop_expired s now) s.entries; count = s.count - removed }, removed)

-- `cccam_hop_control_check`, which reads only the hop of its arguments.
pub check : HopControl → ℕ → ℕ → HopControl × Bool
unfolding is_valid
check s hop now =
    let t = (clean_expired (record s { total_checks = s.total_checks + 1 }) now).0 in
    if is_valid t hop
    then (record t { allowed = t.allowed + 1 }, true)
    else (record t { blocked = t.blocked + 1 }, false)

-- The removal of the first entry for the same client and channel.
pub forget : HopControl → Request → HopControl
forget s r = elim (unlink_first (hop_match r) s.entries) [
  | none ↦ s
  | some (e, rest) ↦ record s { entries = rest; count = s.count - 1 }
]

pub new_hop_entry : Request → ℕ → ℕ → HopEntry
new_hop_entry r hop now = record { request = r; hop = hop; timestamp = now; blocked = false }

-- `true` is the return value 0. When malloc fails the old entry is gone already.
pub register : HopControl → Request → ℕ → ℕ → Bool → HopControl × Bool
unfolding is_valid
register s r hop now allocated =
    let t = forget (clean_expired s now).0 r in
    if is_valid s hop
    then (if allocated
        then (record t { entries = new_hop_entry r hop now ∷ t.entries; count = t.count + 1 }, true)
        else (t, false))
    else (s, false)

-- `uint8_t new_hop = current_hop + 1`, held to the limit.
pub increment_hop : HopControl → ℕ → ℕ
increment_hop s current =
    let new_hop = (current + 1) % 2 ^ 8 in if ltb s.max_hops new_hop then s.max_hops else new_hop

pub set_limit : HopControl → ℕ → HopControl
set_limit s limit = if ltb 0 limit && leb limit 20 then record s { max_hops = limit } else s

-- A timeout that is not positive is refused.
pub set_timeout : HopControl → ℕ → HopControl
set_timeout s seconds = if ltb 0 seconds then record s { timeout = seconds } else s
