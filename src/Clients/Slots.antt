-- ===== src/Clients/Slots.antt =====
-- The slot array of the pool: how many slots hold a pointer, and how many are taken.
use cccam_3_0_1_by_sharillas.Base.{
  ℕ, zero, suc, get_elem?, ◌+◌, ◌-◌, ◌<◌, ◌≡◌, refl, false, Option, none, some, List, [], ◌∷◌,
  arith, ltb, ◌==◌, if◌then◌else◌, length, Option-cases, inl, inr, ◌⊎◌,
}
use cccam_3_0_1_by_sharillas.Clients.{
  Client, Pointer, points_to, fill_slot, clear_slot, in_slot, slot_with_id,
}

-- How many slots hold the pointer.
abbrev pub uses : Pointer → List (Option Pointer) → ℕ
uses p [] = 0
uses p (s ∷ ss) = let n = uses p ss in if points_to p s then n + 1 else n

pub get_elem?-uses :
    (p : Pointer) (ss : List (Option Pointer)) (i : ℕ)
    → get_elem? ss i ≡ some (some p)
    → 0 < uses p ss
get_elem?-uses p [] i e = absurd (ground (arith, e))
get_elem?-uses p (s ∷ ss) zero e = ground (arith, e)
get_elem?-uses p (s ∷ ss) (suc i) e = ground (arith, get_elem?-uses p ss i e)

-- How many slots are taken.
abbrev pub taken : List (Option Pointer) → ℕ
taken [] = 0
taken (none ∷ ss) = taken ss
taken (some p ∷ ss) = taken ss + 1

pub in_slot-uses : (p : Pointer) (ss : List (Option Pointer)) → in_slot p ss ≡ ltb 0 (uses p ss)
unfolding in_slot
in_slot-uses p [] = refl
in_slot-uses p (s ∷ ss) = ground (arith, in_slot-uses p ss)

module _ (p : Pointer) where
  pub uses-fill_slot :
      (q : Pointer) (ss ts : List (Option Pointer))
      → fill_slot p ss ≡ some ts
      → uses q ts ≡ (if p == q then uses q ss + 1 else uses q ss)
  unfolding fill_slot
  uses-fill_slot q [] ts e = cc
  uses-fill_slot q (none ∷ ss) ts e = ground arith
  uses-fill_slot q (some x ∷ ss) ts e = elim (Option-cases (fill_slot p ss)) [
    | inl n ↦ absurd (ground arith)
    | inr (us, h) ↦ ground (arith, uses-fill_slot q ss us)
  ]

  pub taken-fill_slot :
      (ss ts : List (Option Pointer))
      → fill_slot p ss ≡ some ts
      → (taken ts ≡ taken ss + 1) × (length ts ≡ length ss)
  unfolding fill_slot
  taken-fill_slot [] ts e = cc
  taken-fill_slot (none ∷ ss) ts e = ground arith
  taken-fill_slot (some x ∷ ss) ts e = elim (Option-cases (fill_slot p ss)) [
    | inl n ↦ absurd (ground arith)
    | inr (us, h) ↦ ground (arith, taken-fill_slot ss us)
  ]

  pub fill_slot-full : (ss : List (Option Pointer)) → fill_slot p ss ≡ none → taken ss ≡ length ss
  unfolding fill_slot
  fill_slot-full [] e = refl
  fill_slot-full (none ∷ ss) e = cc
  fill_slot-full (some x ∷ ss) e = ground (arith, fill_slot-full ss)

  pub uses-clear_slot :
      (q : Pointer) (ss : List (Option Pointer))
      → uses q (clear_slot p ss) ≡ (if p == q then uses q ss - 1 else uses q ss)
  unfolding clear_slot
  uses-clear_slot q [] = ground arith
  uses-clear_slot q (none ∷ ss) = ground (arith, uses-clear_slot q ss)
  uses-clear_slot q (some x ∷ ss) = ground (arith, uses-clear_slot q ss)

  pub taken-clear_slot :
      (ss : List (Option Pointer))
      → (taken (clear_slot p ss) ≡ (if in_slot p ss then taken ss - 1 else taken ss))
        × (length (clear_slot p ss) ≡ length ss)
        × ((in_slot p ss ≡ false) ⊎ (0 < taken ss))
  unfolding clear_slot in_slot
  taken-clear_slot [] = (refl, refl, inl refl)
  taken-clear_slot (none ∷ ss) = ground (arith, taken-clear_slot ss)
  taken-clear_slot (some x ∷ ss) = ground (arith, taken-clear_slot ss)

-- A client found by its id is in a slot.
pub slot_with_id-uses :
    (m : Pointer → Client) (id : ℕ) (ss : List (Option Pointer)) (p : Pointer)
    → slot_with_id m id ss ≡ some p
    → 0 < uses p ss
unfolding slot_with_id
slot_with_id-uses m id [] p e = absurd (cc)
slot_with_id-uses m id (none ∷ ss) p e = ground (arith, slot_with_id-uses m id ss p)
slot_with_id-uses m id (some x ∷ ss) p e = ground (arith, slot_with_id-uses m id ss p)
