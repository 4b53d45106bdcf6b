-- ===== src/Cache/Preserved.antt =====
-- The calls of cccam3_cache.c on the invariant.
use cccam_3_0_1_by_sharillas.Base.{
  All-map, ℕ, ◌<◌, ◌≡◌, refl, Option, none, some, List, [], ◌∷◌, arith, ltb, Bool-cases, if_cases,
  inl, inr, true, false, Bool, All, Option-cases, unlink_first, Unlinks, unlink_first-Unlinks,
  unlink_first-none, length-unlink_first, length-sweep, length-update_first, Pairwise-Unlinks,
  Pairwise-sweep, Pairwise-unlinked, unlinked_holds, find_first-none, find_first,
}
use cccam_3_0_1_by_sharillas.Cache.{
  Cache, Channel, Entry, Found, done, cache_match, refresh, new_entry, push_new, deadline, store,
  add, find, find_at, remove, expired, clean_expired, init, invalidate, set_timeout, set_enabled,
  cleanup, initial,
}
use cccam_3_0_1_by_sharillas.Cache.Step.{
  Call, adds, finds, removes, cleans, sets_timeout, sets_enabled, inits, cleans_up, step, run,
  state_of,
}
use cccam_3_0_1_by_sharillas.Cache.Invariant.{
  Inv, Apart, Apart-sym, Apart-of_no_match, Apart-refresh, cache_match-valid, Pairwise-invalidate,
}
use cccam_3_0_1_by_sharillas.Cache.Eviction.{
  make_room, All-evict_lru, make_room-Inv, evict_loop-make_room,
}

-- `cccam_cache_add` on a channel that is cached: the entry is refreshed and moved to the head.
pub store_hit :
    (c : Cache) (ch : Channel) (cw : List ℕ) (hop until now : ℕ) (allocated : Bool) (e : Entry)
    (rest : List Entry)
    → unlink_first (cache_match ch) c.entries ≡ some (e, rest)
    → store c ch cw hop until now allocated
      ≡ some (record c { entries = refresh e cw hop now (deadline c until now) ∷ rest }, done)
unfolding store
store_hit c ch cw hop until now allocated e rest h = rw (h, store)

-- On a channel that is not cached, the eviction comes first.
pub store_miss :
    (c : Cache) (ch : Channel) (cw : List ℕ) (hop until now : ℕ) (allocated : Bool)
    → Inv c
    → unlink_first (cache_match ch) c.entries ≡ none
    → store c ch cw hop until now allocated
      ≡ some (push_new (make_room c) (new_entry ch cw hop now (deadline c until now)) allocated)
unfolding store
store_miss c ch cw hop until now allocated v h =
    rw (h, store) (rw (evict_loop-make_room c v, store))

refresh-Inv :
    (c : Cache) (ch : Channel) (e : Entry) (rest : List Entry) (cw : List ℕ) (hop now until : ℕ)
    → Inv c
    → unlink_first (cache_match ch) c.entries ≡ some (e, rest)
    → Inv (record c { entries = refresh e cw hop now until ∷ rest })
refresh-Inv c ch e rest cw hop now until v h = record {
  counted = omega (arith, v.counted, length-unlink_first (cache_match ch) c.entries e rest h);
  bounded = v.bounded;
  room = v.room;
  distinct = (
    All-map rest (λ f. Apart-refresh e f cw hop now until e_valid)
        (Pairwise-unlinked Apart Apart-sym u v.distinct),
    Pairwise-Unlinks Apart u v.distinct,
  );
}
  where
    u : Unlinks (cache_match ch) c.entries e rest
    u = unlink_first-Unlinks (cache_match ch) c.entries e rest h

    e_valid : e.valid ≡ true
    e_valid = cache_match-valid ch e (unlinked_holds u)

push_new-Inv :
    (c : Cache) (ch : Channel) (cw : List ℕ) (hop now until : ℕ) (allocated : Bool)
    → Inv c
    → c.count < c.max_entries
    → All (λ e. cache_match ch e ≡ false) c.entries
    → Inv (push_new c (new_entry ch cw hop now until) allocated).0
unfolding push_new new_entry
push_new-Inv c ch cw hop now until false v h absent = v
push_new-Inv c ch cw hop now until true v h absent = record {
  counted = omega (arith, v.counted);
  bounded = omega arith;
  room = v.room;
  distinct = (All-map c.entries (λ e. Apart-of_no_match _ e) absent, v.distinct);
}

absent-make_room :
    (c : Cache) (ch : Channel)
    → All (λ e. cache_match ch e ≡ false) c.entries
    → All (λ e. cache_match ch e ≡ false) (make_room c).entries
absent-make_room c ch h = elim (Bool-cases (ltb c.count c.max_entries)) [
  | inl room ↦ rw room h
  | inr full ↦ rw full (All-evict_lru _ c h)
]

-- A call that returned a cache with the invariant.
abbrev pub Returns : Option Cache → Type 0
Returns r = (d : Cache) × (r ≡ some d) × Inv d

store-Inv :
    (c : Cache) (ch : Channel) (cw : List ℕ) (hop until now : ℕ) (allocated : Bool)
    → Inv c
    → Returns (state_of (store c ch cw hop until now allocated))
store-Inv c ch cw hop until now allocated v =
    elim (Option-cases (unlink_first (cache_match ch) c.entries)) [
      | inl n ↦ rw (store_miss c ch cw hop until now allocated v n) (
        _,
        refl,
        push_new-Inv (make_room c) ch cw hop now (deadline c until now) allocated
            (make_room-Inv c v).0 (make_room-Inv c v).1
            (absent-make_room c ch (
              find_first-none (cache_match ch) c.entries
                (unlink_first-none (cache_match ch) c.entries n))),
      )
      | inr ((e, rest), s) ↦
          rw (store_hit c ch cw hop until now allocated e rest s)
            (_, refl, refresh-Inv c ch e rest cw hop now (deadline c until now) v s)
    ]

pub add-Inv :
    (c : Cache) (ch : Channel) (cw : Option (List ℕ)) (hop until now : ℕ) (allocated : Bool)
    → Inv c
    → Returns (state_of (add c ch cw hop until now allocated))
unfolding add
add-Inv c ch none hop until now allocated v = (c, refl, v)
add-Inv c ch (some cw) hop until now allocated v =
    if_cases (λ r. Returns (state_of r)) c.enabled _ _
      (λ _. store-Inv c ch cw hop until now allocated v) (λ _. (c, refl, v))

-- The invariant reads three fields only.
pub same_entries :
    (c d : Cache)
    → d.entries ≡ c.entries
    → d.count ≡ c.count
    → d.max_entries ≡ c.max_entries
    → Inv c
    → Inv d
same_entries c d e n m v = record {
  counted = rw e (omega (arith, v.counted));
  bounded = omega (arith, v.bounded);
  room = omega (arith, v.room);
  distinct = rw e (v.distinct);
}

find_at-Inv : (c : Cache) (ch : Channel) (now : ℕ) (e : Entry) → Inv c → Inv (find_at c ch now e).0
unfolding find_at
find_at-Inv c ch now e v =
    if_cases (λ (r : Cache × Found). Inv r.0) (ltb e.expires_at now) _ _
      (λ _. record {
        counted =
            omega (arith, v.counted, length-update_first (cache_match ch) invalidate c.entries);
        bounded = v.bounded;
        room = v.room;
        distinct = Pairwise-invalidate ch c.entries v.distinct;
      })
      (λ _. same_entries c _ refl refl refl v)

pub find-Inv :
    (c : Cache) (ch : Channel) (outputs : Bool) (now : ℕ) → Inv c → Inv (find c ch outputs now).0
unfolding find
find-Inv c ch false now v = v
find-Inv c ch true now v =
    if_cases (λ (r : Cache × Found). Inv r.0) c.enabled _ _
      (λ _. elim (Option-cases (find_first (cache_match ch) c.entries)) [
        | inl n ↦ rw (n, find) (same_entries c _ refl refl refl v)
        | inr (e, s) ↦ rw (s, find) (find_at-Inv c ch now e v)
      ])
      (λ _. same_entries c _ refl refl refl v)

remove-Inv : (c : Cache) (ch : Channel) → Inv c → Inv (remove c ch).0
unfolding remove
remove-Inv c ch v = elim (Option-cases (unlink_first (cache_match ch) c.entries)) [
  | inl n ↦ rw (n, remove) v
  | inr ((e, rest), s) ↦
      let size = length-unlink_first (cache_match ch) c.entries e rest s in
      rw (s, remove)
        (record {
          counted = omega (arith, v.counted, size);
          bounded = omega (arith, v.bounded);
          room = v.room;
          distinct =
              Pairwise-Unlinks Apart (unlink_first-Unlinks (cache_match ch) c.entries e rest s)
                v.distinct;
        })
]

clean_expired-Inv : (c : Cache) (now : ℕ) → Inv c → Inv (clean_expired c now).0
unfolding clean_expired
clean_expired-Inv c now v = record {
  counted = omega (arith, v.counted, length-sweep (expired now) c.entries);
  bounded = omega (arith, v.bounded);
  room = v.room;
  distinct = Pairwise-sweep Apart (expired now) c.entries v.distinct;
}

-- Every call of the cache returns, whatever its arguments, the clock and malloc do, and leaves a
-- cache whose counter counts its list, which holds at most `max_entries` entries and no two
-- valid entries for one channel.
pub step-Inv : (c : Cache) (k : Call) → Inv c → Returns (step c k)
unfolding step set_timeout set_enabled init cleanup
step-Inv c (adds ch cw hop until now allocated) v = add-Inv c ch cw hop until now allocated v
step-Inv c (finds ch outputs now) v = (_, refl, find-Inv c ch outputs now v)
step-Inv c (removes ch) v = (_, refl, remove-Inv c ch v)
step-Inv c (cleans now) v = (_, refl, clean_expired-Inv c now v)
step-Inv c (sets_timeout seconds) v =
    (_, refl, if_cases Inv (ltb 0 seconds) _ _ (λ _. same_entries c _ refl refl refl v) (λ _. v))
step-Inv c (sets_enabled on) v = (_, refl, same_entries c _ refl refl refl v)
step-Inv c inits v =
    (_, refl, record { counted = refl; bounded = omega arith; room = v.room; distinct = tt })
step-Inv c cleans_up v =
    (_, refl, record { counted = refl; bounded = omega arith; room = v.room; distinct = tt })

run-Returns : (c : Cache) (ks : List Call) → Inv c → Returns (run c ks)
unfolding run
run-Returns c [] v = (c, refl, v)
run-Returns c (k ∷ ks) v = let (d, e, w) = step-Inv c k v in rw (e, run) (run-Returns d ks w)

initial-Inv : Inv initial
unfolding initial
initial-Inv = record { counted = refl; bounded = omega arith; room = omega arith; distinct = tt }
