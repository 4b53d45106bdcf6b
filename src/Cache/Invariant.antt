-- ===== src/Cache/Invariant.antt =====
-- The invariant of cccam3_cache.c.
use cccam_3_0_1_by_sharillas.Base.{
  ℕ, ◌-◌, ◌≤◌, ◌<◌, ◌≡◌, refl, inl, inr, Bool, true, false, ◌&&◌, List, [], ◌∷◌, arith, length, All,
  All-map, Pairwise, Bool-cases, All-update_first, update_first,
}
use cccam_3_0_1_by_sharillas.Cache.{
  Cache, Channel, Entry, same_channel, cache_match, unlink_tail, evict_lru, refresh, invalidate,
}

-- Two valid entries for one channel.
unfoldable pub clash : Entry → Entry → Bool
unfolding cache_match same_channel
clash e f = e.valid && cache_match e.channel f

abbrev pub Apart : Entry → Entry → Type 0
Apart e f = clash e f ≡ false

pub record Inv (c : Cache) : Type 0 where
  pub counted : c.count ≡ length c.entries
  pub bounded : c.count ≤ c.max_entries
  pub room : 0 < c.max_entries
  pub distinct : Pairwise Apart c.entries

pub Apart-sym : (e f : Entry) → Apart e f → Apart f e
unfolding clash
Apart-sym e f h = ground arith

-- An entry that a search for the channel of `f` passes over does not clash with `f`.
pub Apart-of_no_match : (e f : Entry) → cache_match e.channel f ≡ false → Apart e f
unfolding clash
Apart-of_no_match e f h = ground arith

-- `refresh` keeps the channel, so it makes no new clash for an entry that matched.
pub Apart-refresh :
    (e f : Entry) (cw : List ℕ) (hop now until : ℕ)
    → e.valid ≡ true
    → Apart e f
    → Apart (refresh e cw hop now until) f
unfolding clash refresh
Apart-refresh e f cw hop now until v h = ground arith

pub cache_match-valid : (ch : Channel) (e : Entry) → cache_match ch e ≡ true → e.valid ≡ true
unfolding cache_match
cache_match-valid ch e h = ground arith

Apart-invalidate_left : (e f : Entry) → Apart (invalidate e) f
unfolding clash invalidate
Apart-invalidate_left e f = refl

Apart-invalidate : (e f : Entry) → Apart e f → Apart e (invalidate f)
unfolding clash invalidate
Apart-invalidate e f h = ground arith

pub length-unlink_tail : (e : Entry) (es : List Entry) → length (unlink_tail (e ∷ es)) ≡ length es
unfolding unlink_tail
length-unlink_tail e [] = refl
length-unlink_tail e (f ∷ es) = omega (arith, length-unlink_tail f es)

pub All-unlink_tail {ℓ} : (P : Entry → Type ℓ) (es : List Entry) → All P es → All P (unlink_tail es)
unfolding unlink_tail
All-unlink_tail P [] h = tt
All-unlink_tail P (e ∷ []) h = tt
All-unlink_tail P (e ∷ f ∷ es) h = (h.0, All-unlink_tail P (f ∷ es) h.1)

pub Pairwise-unlink_tail : (es : List Entry) → Pairwise Apart es → Pairwise Apart (unlink_tail es)
unfolding unlink_tail
Pairwise-unlink_tail [] h = tt
Pairwise-unlink_tail (e ∷ []) h = tt
Pairwise-unlink_tail (e ∷ f ∷ es) h =
    (All-unlink_tail (Apart e) (f ∷ es) h.0, Pairwise-unlink_tail (f ∷ es) h.1)

pub Pairwise-invalidate :
    (ch : Channel) (es : List Entry)
    → Pairwise Apart es
    → Pairwise Apart (update_first (cache_match ch) invalidate es)
unfolding update_first
Pairwise-invalidate ch [] h = tt
Pairwise-invalidate ch (e ∷ es) h = elim (Bool-cases (cache_match ch e)) [
  | inl t ↦ rw t (All-map es (λ f _. Apart-invalidate_left e f) h.0, h.1)
  | inr n ↦ rw n (
    All-update_first (Apart e) (cache_match ch) invalidate es (Apart-invalidate e) h.0,
    Pairwise-invalidate ch es h.1,
  )
]

-- One eviction from a full cache: the counter follows the list down by one.
pub evict_lru-shape :
    (c : Cache) (e : Entry) (es : List Entry)
    → c.entries ≡ e ∷ es
    → evict_lru c ≡ record c { entries = unlink_tail (e ∷ es); count = c.count - 1 }
unfolding evict_lru
evict_lru-shape c e es h = ground arith
