-- ===== src/Cache/Step.antt =====
-- The calls of cccam3_cache.c as one step, and runs of them. Each public function takes the
-- write lock or the read lock for its whole body, so a history is a sequence of calls.
use cccam_3_0_1_by_sharillas.Base.{ℕ, Bool, Option, none, some, List, [], ◌∷◌}
use cccam_3_0_1_by_sharillas.Cache.{
  Cache, Channel, Status, add, find, remove, clean_expired, set_timeout, set_enabled, init, cleanup,
}

pub data Call : Type 0 where
  adds : Channel → Option (List ℕ) → ℕ → ℕ → ℕ → Bool → Call
  finds : Channel → Bool → ℕ → Call
  removes : Channel → Call
  cleans : ℕ → Call
  sets_timeout : ℕ → Call
  sets_enabled : Bool → Call
  inits cleans_up : Call

abbrev pub state_of : Option (Cache × Status) → Option Cache
state_of none = none
state_of (some r) = some r.0

-- `none` says that a call never returns.
unfoldable pub step : Cache → Call → Option Cache
step c (adds ch cw hop expires_at now allocated) =
    state_of (add c ch cw hop expires_at now allocated)
step c (finds ch outputs now) = some (find c ch outputs now).0
step c (removes ch) = some (remove c ch).0
step c (cleans now) = some (clean_expired c now).0
step c (sets_timeout seconds) = some (set_timeout c seconds)
step c (sets_enabled on) = some (set_enabled c on)
step c inits = some (init c)
step c cleans_up = some (cleanup c)

unfoldable pub run : Cache → List Call → Option Cache
run c [] = some c
run c (k ∷ ks) = elim (step c k) [ none ↦ none | some d ↦ run d ks ]
