-- ===== src/Cache/Stores.antt =====
-- What cccam_cache_add does to every channel, on both of its paths.
use cccam_3_0_1_by_sharillas.Base.{
  ℕ, ◌≡◌, ◌∙◌, none, some, List, ◌∷◌, arith, ltb, if◌then◌else◌, Bool-cases, inl, inr, true,
  Option-cases, unlink_first, unlink_first-Unlinks, unlink_first-none, find_first,
  find_first-Unlinks, unlinked_holds, unlink_first-eq-find_first,
}
use cccam_3_0_1_by_sharillas.Cache.{
  Cache, Channel, Entry, done, same_channel, cache_match, evict_lru, refresh, new_entry, push_new,
  deadline, store, add,
}
use cccam_3_0_1_by_sharillas.Cache.Invariant.{Inv}
use cccam_3_0_1_by_sharillas.Cache.Eviction.{make_room}
use cccam_3_0_1_by_sharillas.Cache.Preserved.{store_hit, store_miss}
use cccam_3_0_1_by_sharillas.Cache.Contents.{
  cached, stored, tail_serves, cached-evict_lru, refresh-eq-new_entry, cache_match-new,
  no_match-of_other,
}

-- A new head answers for its own channel and hides no other.
find_first-new :
    (ch o : Channel) (cw : List ℕ) (hop now until : ℕ) (es : List Entry)
    → find_first (cache_match o) (new_entry ch cw hop now until ∷ es) ≡ (
        if same_channel ch o
        then some (new_entry ch cw hop now until)
        else find_first (cache_match o) es)
unfolding find_first
find_first-new ch o cw hop now until es = rw (cache_match-new ch o cw hop now until)

cached-make_room :
    (c : Cache) (o : Channel)
    → Inv c
    → cached (make_room c) o ≡ (
        if ltb c.count c.max_entries
        then cached c o
        else (if tail_serves o c.entries then none else cached c o))
cached-make_room c o v = elim (Bool-cases (ltb c.count c.max_entries)) [
  | inl room ↦ rw room
  | inr full ↦ rw full (cached-evict_lru c o v)
]

make_room-enabled : (c : Cache) → (make_room c).enabled ≡ c.enabled
unfolding evict_lru
make_room-enabled c = ground arith

module _ (c : Cache) (ch : Channel) (cw : List ℕ) (hop until now : ℕ) (o : Channel)
    (v : Inv c) where
  abbrev fresh : Entry
  fresh = new_entry ch cw hop now (deadline c until now)

  stored_hit :
      (e : Entry) (rest : List Entry)
      → unlink_first (cache_match ch) c.entries ≡ some (e, rest)
      → find_first (cache_match o) (refresh e cw hop now (deadline c until now) ∷ rest)
        ≡ stored c ch fresh o
  stored_hit e rest s =
      let u = unlink_first-Unlinks (cache_match ch) c.entries e rest s in
      rw
        (
          refresh-eq-new_entry ch e cw hop now (deadline c until now) (unlinked_holds u),
          find_first-new ch o cw hop now (deadline c until now) rest,
          unlink_first-eq-find_first (cache_match ch) c.entries e rest s,
        )
        (elim (Bool-cases (same_channel ch o)) [
          | inl t ↦ rw t
          | inr f ↦ rw f (find_first-Unlinks (cache_match o) (λ x. no_match-of_other ch o x f) u)
        ])

  stored_miss :
      unlink_first (cache_match ch) c.entries ≡ none
      → find_first (cache_match o) (fresh ∷ (make_room c).entries) ≡ stored c ch fresh o
  stored_miss n = rw (
    find_first-new ch o cw hop now (deadline c until now) (make_room c).entries,
    unlink_first-none (cache_match ch) c.entries n,
    cached-make_room c o v,
  )

  -- With the cache enabled and memory at hand, `cccam_cache_add` succeeds: the channel is served
  -- by the new control word until its deadline, a full cache that did not hold the channel loses
  -- its tail, and every other channel keeps the entry that it had.
  pub cached-add :
      c.enabled ≡ true
      → (d : Cache) × (add c ch (some cw) hop until now true ≡ some (d, done))
        × (cached d o ≡ stored c ch fresh o)
        × (d.enabled ≡ true)
  unfolding add push_new
  cached-add on = elim (Option-cases (unlink_first (cache_match ch) c.entries)) [
    | inr ((e, rest), s) ↦
        (_, ap_enabled ∙ store_hit c ch cw hop until now true e rest s, stored_hit e rest s, on)
    | inl n ↦ (
      _,
      ap_enabled ∙ store_miss c ch cw hop until now true v n,
      stored_miss n,
      make_room-enabled c ∙ on,
    )
  ]
    where
      ap_enabled : add c ch (some cw) hop until now true ≡ store c ch cw hop until now true
      ap_enabled = ground arith
