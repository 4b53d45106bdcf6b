-- ===== src/Clients/References.antt =====
-- Reference counting in cccam3_client.c against the references that the program's threads hold.
use cccam_3_0_1_by_sharillas.Base.{
  ℕ, ◌+◌, ◌-◌, ◌<◌, ◌≡◌, refl, true, false, Option, none, some, arith, ltb, ◌==◌, get_elem?,
  if◌then◌else◌, length, Option-cases, inl, inr, ◌⊎◌, ==_iff, not,
}
use cccam_3_0_1_by_sharillas.Clients.{
  Client, Pointer, Pool, max_clients, modify, new_client, create, destroy, unref, acquire,
  find_by_id, get_by_index_ref, fill_slot, slot_with_id, authenticate, update_keepalive,
}
use cccam_3_0_1_by_sharillas.Clients.Slots.{
  uses, taken, uses-fill_slot, taken-fill_slot, uses-clear_slot, taken-clear_slot,
  slot_with_id-uses, get_elem?-uses,
}

-- The pool, and for each pointer the references that threads hold beside the pool's own.
pub record World : Type 0 where
  pub pool : Pool
  pub held : Pointer → ℕ

abbrev pub count_up : (Pointer → ℕ) → Pointer → Pointer → ℕ
count_up f p q = if p == q then f q + 1 else f q

abbrev pub count_down : (Pointer → ℕ) → Pointer → Pointer → ℕ
count_down f p q = if p == q then f q - 1 else f q

-- The reference that a call handed out.
abbrev pub handed : (Pointer → ℕ) → Option Pointer → Pointer → ℕ
handed f none = f
handed f (some p) = count_up f p

pub data Move : Type 0 where
  creates : ℕ → ℕ → Pointer → Move
  refs_again finds_by_id gets_by_index unrefs destroys authenticates : ℕ → Move
  keeps_alive : Pointer → ℕ → Move

unfoldable pub apply : World → Move → World
apply w (creates socket now p) = record w { pool = (create w.pool socket now (some p)).0 }
apply w (refs_again p) = let r = acquire w.pool p in record { pool = r.0; held = handed w.held r.1 }
apply w (finds_by_id id) =
    let r = find_by_id w.pool id in record { pool = r.0; held = handed w.held r.1 }
apply w (gets_by_index i) =
    let r = get_by_index_ref w.pool i in record { pool = r.0; held = handed w.held r.1 }
apply w (unrefs p) = record { pool = unref w.pool p; held = count_down w.held p }
apply w (destroys p) = record w { pool = destroy w.pool p }
apply w (authenticates p) = record w { pool = authenticate w.pool p }
apply w (keeps_alive p now) = record w { pool = update_keepalive w.pool p now }

-- The discipline of the callers, which the code does not enforce: calloc returns memory that is not in use, a pointer is used by whoever holds a
-- reference or finds it in the pool, a reference is given back once, and the owner of the pool
-- destroys a client that is in it.
abbrev pub Allowed : World → Move → Type 0
Allowed w (creates socket now p) = (w.pool.object p).freed ≡ true
Allowed w (refs_again p) = 0 < w.held p + uses p w.pool.slots
Allowed w (finds_by_id id) = Unit
Allowed w (gets_by_index i) = Unit
Allowed w (unrefs p) = 0 < w.held p
Allowed w (destroys p) = 0 < uses p w.pool.slots
Allowed w (authenticates p) = 0 < w.held p + uses p w.pool.slots
Allowed w (keeps_alive p now) = 0 < w.held p + uses p w.pool.slots

-- A client with `held` references beside `n` slots: gone, in the pool, or leaving.
abbrev pub Tracked : Client → ℕ → ℕ → Type 0
Tracked c held n =
    ((held ≡ 0) × (n ≡ 0) × (c.freed ≡ true))
    ⊎ ((n ≡ 1) × (c.refs ≡ held + 1) × (c.freed ≡ false) × (c.zombie ≡ false))
    ⊎ ((n ≡ 0) × (0 < held) × (c.refs ≡ held) × (c.freed ≡ false) × (c.zombie ≡ true))

pub record PoolInv (w : World) : Type 0 where
  pub tracked : (p : Pointer) → Tracked (w.pool.object p) (w.held p) (uses p w.pool.slots)
  pub counted : w.pool.count ≡ taken w.pool.slots
  pub sized : length w.pool.slots ≡ max_clients

module _ (w : World) (v : PoolInv w) where
  creates-Tracked :
      (socket now : ℕ) (p q : Pointer)
      → (w.pool.object p).freed ≡ true
      → Tracked
          ((create w.pool socket now (some p)).0.object q)
          (w.held q)
          (uses q (create w.pool socket now (some p)).0.slots)
  unfolding create new_client
  creates-Tracked socket now p q free = elim (Option-cases (fill_slot p w.pool.slots)) [
    | inl n ↦ ground (arith, v.tracked q, (==_iff p q), free, v.tracked p)
    | inr (ts, h) ↦
        ground (
          arith,
          v.tracked q,
          (==_iff p q),
          free,
          v.tracked p,
          uses-fill_slot p q w.pool.slots ts h,
        )
  ]

  acquire-Tracked :
      (p q : Pointer)
      → 0 < w.held p + uses p w.pool.slots
      → Tracked
          ((acquire w.pool p).0.object q)
          (handed w.held (acquire w.pool p).1 q)
          (uses q (acquire w.pool p).0.slots)
  unfolding acquire
  acquire-Tracked p q alive = ground (arith, v.tracked q, v.tracked p, ==_iff p q)

  unrefs-Tracked :
      (p q : Pointer)
      → 0 < w.held p
      → Tracked ((unref w.pool p).object q) (count_down w.held p q) (uses q w.pool.slots)
  unfolding unref
  unrefs-Tracked p q alive = ground (arith, v.tracked q, v.tracked p, ==_iff p q)

  destroys-Tracked :
      (p q : Pointer)
      → 0 < uses p w.pool.slots
      → Tracked ((destroy w.pool p).object q) (w.held q) (uses q (destroy w.pool p).slots)
  unfolding destroy
  destroys-Tracked p q alive =
      ground (arith, v.tracked q, v.tracked p, ==_iff p q, uses-clear_slot p q w.pool.slots)

  finds-Tracked :
      (id : ℕ) (q : Pointer)
      → Tracked
          ((find_by_id w.pool id).0.object q)
          (handed w.held (find_by_id w.pool id).1 q)
          (uses q (find_by_id w.pool id).0.slots)
  unfolding find_by_id
  finds-Tracked id q = elim (Option-cases (slot_with_id w.pool.object id w.pool.slots)) [
    | inl n ↦ rw (n, find_by_id) (v.tracked q)
    | inr (p, h) ↦
        let in_pool = slot_with_id-uses w.pool.object id w.pool.slots p h in
        rw (h, find_by_id) (acquire-Tracked p q (omega (arith, in_pool)))
  ]

  indexes-Tracked :
      (i : ℕ) (q : Pointer)
      → Tracked
          ((get_by_index_ref w.pool i).0.object q)
          (handed w.held (get_by_index_ref w.pool i).1 q)
          (uses q (get_by_index_ref w.pool i).0.slots)
  unfolding get_by_index_ref
  indexes-Tracked i q = elim (Option-cases (get_elem? w.pool.slots i)) [
    | inl n ↦ rw (n, get_by_index_ref) (v.tracked q)
    | inr (none, h) ↦ rw (h, get_by_index_ref) (v.tracked q)
    | inr (some p, h) ↦
        let in_pool = get_elem?-uses p w.pool.slots i h in
        rw (h, get_by_index_ref) (acquire-Tracked p q (omega (arith, in_pool)))
  ]

  -- A write to a field that the reference counting does not read.
  modify-Tracked :
      (f : Client → Client) (p q : Pointer)
      → ((c : Client) → ((f c).refs ≡ c.refs) × ((f c).freed ≡ c.freed) × ((f c).zombie ≡ c.zombie))
      → Tracked ((modify w.pool p f).object q) (w.held q) (uses q w.pool.slots)
  modify-Tracked f p q same = ground (arith, v.tracked q, ==_iff p q, same (w.pool.object p))

  creates-counted :
      (socket now : ℕ) (p : Pointer)
      → ((create w.pool socket now (some p)).0.count
          ≡ taken (create w.pool socket now (some p)).0.slots)
        × (length (create w.pool socket now (some p)).0.slots ≡ max_clients)
  unfolding create
  creates-counted socket now p = elim (Option-cases (fill_slot p w.pool.slots)) [
    | inl n ↦ ground (arith, v.counted, v.sized)
    | inr (ts, h) ↦ ground (arith, v.counted, v.sized, taken-fill_slot p w.pool.slots ts h)
  ]

  acquire-slots :
      (p : Pointer)
      → ((acquire w.pool p).0.slots ≡ w.pool.slots) × ((acquire w.pool p).0.count ≡ w.pool.count)
  unfolding acquire
  acquire-slots p = ground arith

  finds-slots :
      (id : ℕ)
      → ((find_by_id w.pool id).0.slots ≡ w.pool.slots)
        × ((find_by_id w.pool id).0.count ≡ w.pool.count)
  unfolding find_by_id acquire
  finds-slots id = ground arith

  indexes-slots :
      (i : ℕ)
      → ((get_by_index_ref w.pool i).0.slots ≡ w.pool.slots)
        × ((get_by_index_ref w.pool i).0.count ≡ w.pool.count)
  unfolding get_by_index_ref acquire
  indexes-slots i = ground arith

  destroys-counted :
      (p : Pointer)
      → ((destroy w.pool p).count ≡ taken (destroy w.pool p).slots)
        × (length (destroy w.pool p).slots ≡ max_clients)
  unfolding destroy
  destroys-counted p = ground (arith, v.counted, v.sized, taken-clear_slot p w.pool.slots)

  same_slots :
      (g : Pool)
      → g.slots ≡ w.pool.slots
      → g.count ≡ w.pool.count
      → (g.count ≡ taken g.slots) × (length g.slots ≡ max_clients)
  same_slots g e n = rw (e, n) (v.counted, v.sized)

  -- Every allowed call keeps the references right, whatever the other threads hold.
  pub apply-PoolInv : (k : Move) → Allowed w k → PoolInv (apply w k)
  unfolding apply unref authenticate update_keepalive
  apply-PoolInv (creates socket now p) a =
      let (n, l) = creates-counted socket now p in
      record { tracked = λ q. creates-Tracked socket now p q a; counted = n; sized = l }
  apply-PoolInv (refs_again p) a =
      let (n, l) = same_slots (acquire w.pool p).0 (acquire-slots p).0 (acquire-slots p).1 in
      record { tracked = λ q. acquire-Tracked p q a; counted = n; sized = l }
  apply-PoolInv (finds_by_id id) a =
      let (n, l) = same_slots (find_by_id w.pool id).0 (finds-slots id).0 (finds-slots id).1 in
      record { tracked = λ q. finds-Tracked id q; counted = n; sized = l }
  apply-PoolInv (gets_by_index i) a =
      let (n, l) =
        same_slots (get_by_index_ref w.pool i).0 (indexes-slots i).0 (indexes-slots i).1 in
      record { tracked = λ q. indexes-Tracked i q; counted = n; sized = l }
  apply-PoolInv (unrefs p) a = record {
    tracked = λ q. unrefs-Tracked p q a;
    counted = v.counted;
    sized = v.sized;
  }
  apply-PoolInv (destroys p) a =
      let (n, l) = destroys-counted p in
      record { tracked = λ q. destroys-Tracked p q a; counted = n; sized = l }
  apply-PoolInv (authenticates p) a = record {
    tracked =
        λ q. modify-Tracked (λ c. record c { authenticated = true }) p q (λ c. (refl, refl, refl));
    counted = v.counted;
    sized = v.sized;
  }
  apply-PoolInv (keeps_alive p now) a = record {
    tracked =
        λ q. modify-Tracked (λ c. record c { last_keepalive = now }) p q (λ c. (refl, refl, refl));
    counted = v.counted;
    sized = v.sized;
  }

-- The worlds that allowed calls lead to.
pub data Reach (start : World) : World → Type 0 where
  here : Reach start start
  next : {w : World} → Reach start w → (k : Move) → Allowed w k → Reach start (apply w k)

pub Reach-PoolInv : {start w : World} → PoolInv start → Reach start w → PoolInv w
Reach-PoolInv v here = v
Reach-PoolInv v (next {w = w} r k a) = apply-PoolInv w (Reach-PoolInv v r) k a

-- For threads that keep to the discipline of `Allowed` (a pointer is used only by a holder of a reference
-- or while it is in the pool, each reference is given back once, and only a client in the pool is
-- destroyed), in every world that creating, taking a reference (from a pointer, an id or an index),
-- giving one back, destroying and writing to a client lead to, in any order: a client's memory is in
-- use exactly while the pool or some thread refers to it, and the client counter is the number of
-- taken slots.
pub Reach-no_dangling :
    {start w : World} (p : Pointer)
    → PoolInv start
    → Reach start w
    → ((w.pool.object p).freed ≡ not (ltb 0 (w.held p + uses p w.pool.slots)))
      × (w.pool.count ≡ taken w.pool.slots)
Reach-no_dangling p v r = let u = Reach-PoolInv v r in (ground (arith, u.tracked p), u.counted)
