-- ===== src/Cache.antt =====
-- src/CCshare/cccam3_cache.c and cccam3_cache.h: the control-word cache. The doubly linked list
-- between g_cache_head and g_cache_tail is a list, head first; the globals are the record's
-- fields; time(NULL) is the argument `now`, one reading for each call; `allocated` says whether
-- malloc succeeds. Counters are unbounded numbers.
pub mod Step
pub mod Invariant
pub mod Eviction
pub mod Preserved
pub mod Contents
pub mod Stores
pub mod Reads
mod Tests
use cccam_3_0_1_by_sharillas.Base.{
  ℕ, zero, suc, ◌+◌, ◌-◌, Bool, true, false, ◌&&◌, Option, none, some, List, [], ◌∷◌, ltb, ◌==◌,
  if◌then◌else◌, find_first, unlink_first, update_first, sweep, swept,
}

pub record Channel : Type 0 where
  pub caid : ℕ
  pub provid : ℕ
  pub sid : ℕ

pub same_channel : Channel → Channel → Bool
same_channel a b = a.caid == b.caid && (a.provid == b.provid && a.sid == b.sid)

pub record Entry : Type 0 where
  pub channel : Channel
  pub cw : List ℕ
  pub hop : ℕ
  pub timestamp : ℕ
  pub expires_at : ℕ
  pub valid : Bool

pub record Cache : Type 0 where
  pub entries : List Entry
  pub count : ℕ
  pub max_entries : ℕ
  pub timeout : ℕ
  pub hits : ℕ
  pub misses : ℕ
  pub enabled : Bool

abbrev pub cache_max_entries : ℕ
cache_max_entries = 1024

abbrev pub cache_default_timeout : ℕ
cache_default_timeout = 10

-- The globals as the program starts with them.
unfoldable pub initial : Cache
initial = record {
  entries = [];
  count = 0;
  max_entries = cache_max_entries;
  timeout = cache_default_timeout;
  hits = 0;
  misses = 0;
  enabled = true;
}

pub cache_match : Channel → Entry → Bool
cache_match ch e = e.valid && same_channel e.channel ch

-- The list after `cache_unlink` of its tail.
pub unlink_tail : List Entry → List Entry
unlink_tail [] = []
unlink_tail (e ∷ []) = []
unlink_tail (e ∷ f ∷ es) = e ∷ unlink_tail (f ∷ es)

unfoldable pub evict_lru : Cache → Cache
evict_lru c = elim c.entries [
  | [] ↦ c
  | e ∷ es ↦ record c { entries = unlink_tail (e ∷ es); count = c.count - 1 }
]

-- `while (g_cache_entries >= g_cache_max_entries) cache_evict_lru();` on fuel: `none` says that
-- the loop is still running.
pub evict_loop : ℕ → Cache → Option Cache
evict_loop zero c = if ltb c.count c.max_entries then some c else none
evict_loop (suc fuel) c =
    let rest = evict_loop fuel (evict_lru c) in if ltb c.count c.max_entries then some c else rest

pub init : Cache → Cache
init c = record c { entries = []; count = 0; hits = 0; misses = 0; enabled = true }

pub set_enabled : Cache → Bool → Cache
set_enabled c on = record c { enabled = on }

pub cleanup : Cache → Cache
cleanup c = record c { entries = []; count = 0; hits = 0; misses = 0 }

-- The return values 0 and -1.
pub data Status : Type 0 where
  done failed : Status

-- `expires_at > 0 ? expires_at : (time(NULL) + g_cache_timeout)`
pub deadline : Cache → ℕ → ℕ → ℕ
deadline c expires_at now = if ltb 0 expires_at then expires_at else now + c.timeout

pub refresh : Entry → List ℕ → ℕ → ℕ → ℕ → Entry
refresh e cw hop now until = record e {
  cw = cw;
  hop = hop;
  timestamp = now;
  expires_at = until;
  valid = true;
}

pub new_entry : Channel → List ℕ → ℕ → ℕ → ℕ → Entry
new_entry ch cw hop now until = record {
  channel = ch;
  cw = cw;
  hop = hop;
  timestamp = now;
  expires_at = until;
  valid = true;
}

-- What follows the eviction loop: the allocation, and the new head.
pub push_new : Cache → Entry → Bool → Cache × Status
push_new c e allocated =
    if allocated
    then (record c { entries = e ∷ c.entries; count = c.count + 1 }, done)
    else (c, failed)

-- `cccam_cache_add` past its two early returns. `none` says that the eviction loop never ends.
pub store : Cache → Channel → List ℕ → ℕ → ℕ → ℕ → Bool → Option (Cache × Status)
store c ch cw hop expires_at now allocated = elim (unlink_first (cache_match ch) c.entries) [
  | some (e, rest) ↦
      some (record c { entries = refresh e cw hop now (deadline c expires_at now) ∷ rest }, done)
  | none ↦ elim (evict_loop (suc c.count) c) [
    | none ↦ none
    | some d ↦ some (push_new d (new_entry ch cw hop now (deadline c expires_at now)) allocated)
  ]
]

-- `cccam_cache_add`; a null `cw` is `none`.
pub add : Cache → Channel → Option (List ℕ) → ℕ → ℕ → ℕ → Bool → Option (Cache × Status)
add c ch none hop expires_at now allocated = some (c, failed)
add c ch (some cw) hop expires_at now allocated =
    if c.enabled then store c ch cw hop expires_at now allocated else some (c, done)

-- The return values -1, 0 and 1, the last with what is written to `*cw` and `*hop`.
pub data Found : Type 0 where
  bad_arguments miss : Found
  hit : List ℕ → ℕ → Found

pub invalidate : Entry → Entry
invalidate e = record e { valid = false }

-- The body of the walk of `cccam_cache_find`, at the first match.
pub find_at : Cache → Channel → ℕ → Entry → Cache × Found
find_at c ch now e =
    if ltb e.expires_at now
    then (
      record c {
        entries = update_first (cache_match ch) invalidate c.entries;
        misses = c.misses + 1;
      },
      miss,
    )
    else (record c { hits = c.hits + 1 }, hit e.cw e.hop)

-- `cccam_cache_find`; `outputs` says that neither output pointer is null.
pub find : Cache → Channel → Bool → ℕ → Cache × Found
find c ch false now = (c, bad_arguments)
find c ch true now =
    if c.enabled
    then elim (find_first (cache_match ch) c.entries) [
      | none ↦ (record c { misses = c.misses + 1 }, miss)
      | some e ↦ find_at c ch now e
    ]
    else (record c { misses = c.misses + 1 }, miss)

pub remove : Cache → Channel → Cache × Bool
remove c ch = elim (unlink_first (cache_match ch) c.entries) [
  | none ↦ (c, false)
  | some (e, rest) ↦ (record c { entries = rest; count = c.count - 1 }, true)
]

pub expired : ℕ → Entry → Bool
expired now e = ltb e.expires_at now

-- The new cache and the number of entries freed.
pub clean_expired : Cache → ℕ → Cache × ℕ
clean_expired c now =
    let removed = swept (expired now) c.entries in
    (record c { entries = sweep (expired now) c.entries; count = c.count - removed }, removed)

-- A timeout that is not positive is refused.
pub set_timeout : Cache → ℕ → Cache
set_timeout c seconds = if ltb 0 seconds then record c { timeout = seconds } else c

pub get_stats : Cache → record { total : ℕ; hits : ℕ; misses : ℕ }
get_stats c = record { total = c.count; hits = c.hits; misses = c.misses }
