-- ===== src/Cache/Eviction.antt =====
-- The eviction loop of cccam_cache_add.
use cccam_3_0_1_by_sharillas.Base.{
  ℕ, zero, suc, ◌<◌, ◌≡◌, refl, some, List, [], ◌∷◌, arith, length, All, ltb, if◌then◌else◌,
  Bool-cases, inl, inr, ltb→lt, ltb→le, lt→ltb, false,
}
use cccam_3_0_1_by_sharillas.Cache.{Cache, Entry, unlink_tail, evict_lru, evict_loop}
use cccam_3_0_1_by_sharillas.Cache.Invariant.{
  Inv, length-unlink_tail, Pairwise-unlink_tail, All-unlink_tail, evict_lru-shape,
}

-- What the loop leaves: a full cache loses its tail, any other stays as it is.
abbrev pub make_room : Cache → Cache
make_room c = if ltb c.count c.max_entries then c else evict_lru c

All-of_tail {ℓ} :
    (P : Entry → Type ℓ) (c : Cache) (es : List Entry)
    → c.entries ≡ es
    → All P es
    → All P (evict_lru c).entries
All-of_tail P c [] h a = unfold evict_lru in rw (h, evict_lru) (rw h a)
All-of_tail P c (e ∷ es) h a = rw (evict_lru-shape c e es h) (All-unlink_tail P (e ∷ es) a)

pub All-evict_lru {ℓ} :
    (P : Entry → Type ℓ) (c : Cache) → All P c.entries → All P (evict_lru c).entries
All-evict_lru P c h = All-of_tail P c c.entries refl h

evicted :
    (c : Cache) (es : List Entry)
    → Inv c
    → c.entries ≡ es
    → ltb c.count c.max_entries ≡ false
    → Inv (evict_lru c) × ((evict_lru c).count < (evict_lru c).max_entries)
evicted c [] v e full =
    absurd (omega (arith, v.counted, v.room, ltb→le c.count c.max_entries full, ap_length c e))
  where
    ap_length : (d : Cache) → d.entries ≡ [] → length d.entries ≡ 0
    ap_length d h = rw h
evicted c (e ∷ es) v h full = rw (evict_lru-shape c e es h) (
  record {
    counted = omega (arith, shorter, v.counted, size);
    bounded = omega (arith, v.bounded);
    room = v.room;
    distinct = Pairwise-unlink_tail (e ∷ es) (rw h at (v.distinct));
  },
  omega (arith, v.bounded, v.room),
)
  where
    shorter : length (unlink_tail (e ∷ es)) ≡ length es
    shorter = length-unlink_tail e es

    size : length c.entries ≡ suc (length es)
    size = rw h

-- The cache that the loop leaves satisfies the invariant and has room for one more.
pub make_room-Inv :
    (c : Cache) → Inv c → Inv (make_room c) × ((make_room c).count < (make_room c).max_entries)
make_room-Inv c v = elim (Bool-cases (ltb c.count c.max_entries)) [
  | inl room ↦ rw room (v, ltb→lt c.count c.max_entries room)
  | inr full ↦ rw full (evicted c c.entries v refl full)
]

evict_loop_room : (fuel : ℕ) (c : Cache) → c.count < c.max_entries → evict_loop fuel c ≡ some c
unfolding evict_loop
evict_loop_room zero c h = rw (lt→ltb _ _ h)
evict_loop_room (suc fuel) c h = rw (lt→ltb _ _ h)

-- The fuel that `store` gives is enough, and the loop computes `make_room`.
pub evict_loop-make_room : (c : Cache) → Inv c → evict_loop (suc c.count) c ≡ some (make_room c)
unfolding evict_loop
evict_loop-make_room c v = elim (Bool-cases (ltb c.count c.max_entries)) [
  | inl room ↦ rw room
  | inr full ↦ rw full (evict_loop_room c.count (evict_lru c) (evicted c c.entries v refl full).1)
]
