-- ===== src/Cache/Contents.antt =====
-- The cache as a map from channels to entries: what each writing call does to every channel.
use cccam_3_0_1_by_sharillas.Base.{
  All-map, ℕ, ◌≡◌, refl, Option, none, some, List, [], ◌∷◌, arith, ltb, if◌then◌else◌, Bool-cases,
  inl, inr, true, false, Bool, Pairwise, All, Option-cases, unlink_first, unlink_first-Unlinks,
  unlink_first-none, Pairwise-unlinked, find_first, find_first-Unlinks, unlinked_holds,
  find_first_absent, unlink_first-eq-find_first, is_some, ◌||◌, subst,
}
use cccam_3_0_1_by_sharillas.Cache.{
  Cache, Channel, Entry, same_channel, cache_match, unlink_tail, evict_lru, refresh, new_entry,
  remove,
}
use cccam_3_0_1_by_sharillas.Cache.Invariant.{Inv, Apart, clash, Apart-sym, evict_lru-shape}

-- The entry that serves a channel.
abbrev pub cached : Cache → Channel → Option Entry
cached c ch = find_first (cache_match ch) c.entries

-- Two entries that do not clash do not both serve a channel.
pub no_match-of_Apart :
    (ch : Channel) (e f : Entry) → cache_match ch e ≡ true → Apart e f → cache_match ch f ≡ false
unfolding clash cache_match same_channel
no_match-of_Apart ch e f h a = ground arith

-- An entry serves one channel.
pub no_match-of_other :
    (ch o : Channel) (e : Entry)
    → same_channel ch o ≡ false
    → cache_match ch e ≡ true
    → cache_match o e ≡ false
unfolding cache_match same_channel
no_match-of_other ch o e h m = ground arith

cache_match-refresh :
    (ch o : Channel) (e : Entry) (cw : List ℕ) (hop now until : ℕ)
    → cache_match ch e ≡ true
    → cache_match o (refresh e cw hop now until) ≡ same_channel ch o
unfolding cache_match same_channel refresh
cache_match-refresh ch o e cw hop now until m = ground arith

pub cache_match-new :
    (ch o : Channel) (cw : List ℕ) (hop now until : ℕ)
    → cache_match o (new_entry ch cw hop now until) ≡ same_channel ch o
unfolding cache_match same_channel new_entry
cache_match-new ch o cw hop now until = refl

pub same_channel_refl : (ch : Channel) → same_channel ch ch ≡ true
unfolding same_channel
same_channel_refl ch = ground arith

-- Unlinking the entry of a channel leaves none for it.
pub unlinked_gone :
    (c : Cache) (ch : Channel) (e : Entry) (rest : List Entry)
    → Inv c
    → unlink_first (cache_match ch) c.entries ≡ some (e, rest)
    → find_first (cache_match ch) rest ≡ none
unlinked_gone c ch e rest v s =
    let u = unlink_first-Unlinks (cache_match ch) c.entries e rest s in
    find_first_absent (cache_match ch) rest (
      All-map rest (λ f. no_match-of_Apart ch e f (unlinked_holds u))
        (Pairwise-unlinked Apart Apart-sym u v.distinct))

-- Channels that the test takes for equal are equal.
pub same_channel_eq : (a b : Channel) → same_channel a b ≡ true → a ≡ b
unfolding same_channel
same_channel_eq a b h = ground arith

-- `cccam_cache_remove` reports whether the channel was cached.
pub remove-is_some : (c : Cache) (ch : Channel) → (remove c ch).1 ≡ is_some (cached c ch)
unfolding remove
remove-is_some c ch = elim (Option-cases (unlink_first (cache_match ch) c.entries)) [
  | inl n ↦ rw (n, remove, unlink_first-none (cache_match ch) c.entries n)
  | inr ((e, rest), s) ↦
      rw (s, remove, unlink_first-eq-find_first (cache_match ch) c.entries e rest s)
]

-- After `cccam_cache_remove` the channel is not cached, and every other channel has the entry
-- that it had.
pub cached-remove :
    (c : Cache) (ch o : Channel)
    → Inv c
    → cached (remove c ch).0 o ≡ (if same_channel ch o then none else cached c o)
unfolding remove
cached-remove c ch o v = elim (Option-cases (unlink_first (cache_match ch) c.entries)) [
  | inl n ↦ rw (n, remove) (untouched (unlink_first-none (cache_match ch) c.entries n))
  | inr ((e, rest), s) ↦ rw (s, remove) (unlinked e rest s)
]
  where
    untouched : cached c ch ≡ none → cached c o ≡ (if same_channel ch o then none else cached c o)
    untouched gone = elim (Bool-cases (same_channel ch o)) [
      | inl t ↦ rw t (subst (λ x. cached c x ≡ none) (same_channel_eq ch o t) gone)
      | inr f ↦ rw f
    ]

    unlinked :
        (e : Entry) (rest : List Entry)
        → unlink_first (cache_match ch) c.entries ≡ some (e, rest)
        → find_first (cache_match o) rest ≡ (if same_channel ch o then none else cached c o)
    unlinked e rest s = elim (Bool-cases (same_channel ch o)) [
      | inl t ↦ rw t (
          subst (λ x. find_first (cache_match x) rest ≡ none) (same_channel_eq ch o t)
            (unlinked_gone c ch e rest v s))
      | inr f ↦ rw f (
          find_first-Unlinks (cache_match o) (λ x. no_match-of_other ch o x f)
            (unlink_first-Unlinks (cache_match ch) c.entries e rest s))
    ]

-- The tail, which is what `evict_lru` frees, serves the channel.
abbrev pub tail_serves : Channel → List Entry → Bool
tail_serves o [] = false
tail_serves o (e ∷ []) = cache_match o e
tail_serves o (e ∷ f ∷ es) = tail_serves o (f ∷ es)

tail_serves-absent :
    (o : Channel) (es : List Entry)
    → All (λ e. cache_match o e ≡ false) es
    → tail_serves o es ≡ false
tail_serves-absent o [] h = refl
tail_serves-absent o (e ∷ []) h = h.0
tail_serves-absent o (e ∷ f ∷ es) h = tail_serves-absent o (f ∷ es) h.1

find_first-unlink_tail :
    (o : Channel) (es : List Entry)
    → Pairwise Apart es
    → find_first (cache_match o) (unlink_tail es)
      ≡ (if tail_serves o es then none else find_first (cache_match o) es)
unfolding find_first unlink_tail
find_first-unlink_tail o [] p = refl
find_first-unlink_tail o (e ∷ []) p = elim (Bool-cases (cache_match o e)) [
  | inl t ↦ rw t
  | inr n ↦ rw n
]
find_first-unlink_tail o (e ∷ f ∷ es) p = elim (Bool-cases (cache_match o e)) [
  | inl t ↦
      let absent = All-map (f ∷ es) (λ g. no_match-of_Apart o e g t) p.0 in
      rw (t, tail_serves-absent o (f ∷ es) absent)
  | inr n ↦ rw n (find_first-unlink_tail o (f ∷ es) p.1)
]

cached-evict_from :
    (c : Cache) (es : List Entry) (o : Channel)
    → c.entries ≡ es
    → Pairwise Apart es
    → cached (evict_lru c) o ≡ (if tail_serves o es then none else find_first (cache_match o) es)
cached-evict_from c [] o h p = unfold evict_lru in rw (h, evict_lru) (rw h)
cached-evict_from c (e ∷ es) o h p =
    rw (evict_lru-shape c e es h) (find_first-unlink_tail o (e ∷ es) p)

-- An eviction takes the tail's channel out of the map and touches no other.
pub cached-evict_lru :
    (c : Cache) (o : Channel)
    → Inv c
    → cached (evict_lru c) o ≡ (if tail_serves o c.entries then none else cached c o)
cached-evict_lru c o v = cached-evict_from c c.entries o refl v.distinct

pub refresh-eq-new_entry :
    (ch : Channel) (e : Entry) (cw : List ℕ) (hop now until : ℕ)
    → cache_match ch e ≡ true
    → refresh e cw hop now until ≡ new_entry ch cw hop now until
unfolding refresh new_entry cache_match
refresh-eq-new_entry ch e cw hop now until m =
    let same = same_channel_eq e.channel ch (ground arith) in ground arith

-- What a call that stores a control word leaves for each channel.
abbrev pub stored : Cache → Channel → Entry → Channel → Option Entry
stored c ch e o =
    if same_channel ch o
    then some e
    else if is_some (cached c ch) || ltb c.count c.max_entries
    then cached c o
    else (if tail_serves o c.entries then none else cached c o)
