-- ===== src/Base/Survivors.antt =====
-- What unlinking leaves: the nodes that stay keep their facts, and a walk for another test finds
-- what it found before.
use Prim.Native.Nat.{ℕ, zero, suc}
use mathlib.Core.Path.{◌≡◌, refl, subst}
use mathlib.Core.Bool.{Bool, true, false}
use mathlib.Core.List.{List, [], ◌∷◌}
use mathlib.Core.Logic.{inl, inr}
use mathlib.Core.Option.{some}
use native.Mathlib.Omega.{arith}
use cccam_3_0_1_by_sharillas.Base.Tests.{Bool-cases, Option-cases}
use cccam_3_0_1_by_sharillas.Base.Lists.{All, get_elem?, set}
use cccam_3_0_1_by_sharillas.Base.Chain.{Pairwise, find_first, unlink_first, sweep, update_first}

-- `unlink_first` as a relation: the chain, the node taken out, and the chain that stays.
pub data Unlinks {ℓ} {A : Type ℓ} (p : A → Bool) : List A → A → List A → Type ℓ where
  here : {x : A} {xs : List A} → p x ≡ true → Unlinks p (x ∷ xs) x xs
  there :
      {x a : A} {xs rest : List A}
      → p x ≡ false
      → Unlinks p xs a rest
      → Unlinks p (x ∷ xs) a (x ∷ rest)

unlink_first-head {ℓ} :
    {A : Type ℓ} (p : A → Bool) (x : A) (xs : List A) {a : A} {rest : List A}
    → p x ≡ true
    → unlink_first p (x ∷ xs) ≡ some (a, rest)
    → (x ≡ a) × (xs ≡ rest)
unfolding unlink_first
unlink_first-head p x xs t e = ground arith

unlink_first-tail {ℓ} :
    {A : Type ℓ} (p : A → Bool) (x : A) (xs : List A) {a : A} {rest : List A}
    → p x ≡ false
    → unlink_first p (x ∷ xs) ≡ some (a, rest)
    → (r : List A) × (unlink_first p xs ≡ some (a, r)) × (x ∷ r ≡ rest)
unfolding unlink_first
unlink_first-tail p x xs f e = elim (Option-cases (unlink_first p xs)) [
  | inl n ↦ absurd (ground arith)
  | inr ((m, r), s) ↦ (r, ground arith, ground arith)
]

pub unlink_first-Unlinks {ℓ} :
    {A : Type ℓ} (p : A → Bool) (xs : List A) (a : A) (rest : List A)
    → unlink_first p xs ≡ some (a, rest)
    → Unlinks p xs a rest
unlink_first-Unlinks p [] a rest e = absurd (unfold unlink_first in cc)
unlink_first-Unlinks p (x ∷ xs) a rest e = elim (Bool-cases (p x)) [
  | inl t ↦ let (same, left) = unlink_first-head p x xs t e in rw (← same, ← left) (here t)
  | inr f ↦
      let (r, s, left) = unlink_first-tail p x xs f e in
      rw (← left) (there f (unlink_first-Unlinks p xs a r s))
]

pub All-map {ℓ κ μ} :
    {A : Type ℓ} {P : A → Type κ} {Q : A → Type μ} (xs : List A)
    → ((x : A) → P x → Q x)
    → All P xs
    → All Q xs
All-map [] f h = tt
All-map (x ∷ xs) f h = (f x h.0, All-map xs f h.1)

module _ {ℓ κ} {A : Type ℓ} (P : A → Type κ) where
  pub All-of_find_first :
      (p : A → Bool) (xs : List A) (a : A) → find_first p xs ≡ some a → All P xs → P a
  unfolding find_first
  All-of_find_first p [] a e h = absurd (cc)
  All-of_find_first p (x ∷ xs) a e h = elim (Bool-cases (p x)) [
    | inl t ↦ let same : x ≡ a = ground arith in rw same at h.0
    | inr f ↦ All-of_find_first p xs a (ground arith) h.1
  ]

  pub All-Unlinks :
      {p : A → Bool} {xs : List A} {a : A} {rest : List A}
      → Unlinks p xs a rest
      → All P xs
      → All P rest
  All-Unlinks (here t) h = h.1
  All-Unlinks (there f u) h = (h.0, All-Unlinks u h.1)

  pub All-unlinked :
      {p : A → Bool} {xs : List A} {a : A} {rest : List A} → Unlinks p xs a rest → All P xs → P a
  All-unlinked (here t) h = h.0
  All-unlinked (there f u) h = All-unlinked u h.1

  pub All-sweep : (p : A → Bool) (xs : List A) → All P xs → All P (sweep p xs)
  unfolding sweep
  All-sweep p [] h = tt
  All-sweep p (x ∷ xs) h = elim (Bool-cases (p x)) [
    | inl t ↦ rw t (All-sweep p xs h.1)
    | inr f ↦ rw f (h.0, All-sweep p xs h.1)
  ]

  pub All-update_first :
      (p : A → Bool) (f : A → A) (xs : List A)
      → ((a : A) → P a → P (f a))
      → All P xs
      → All P (update_first p f xs)
  unfolding update_first
  All-update_first p f [] keep h = tt
  All-update_first p f (x ∷ xs) keep h = elim (Bool-cases (p x)) [
    | inl t ↦ rw t (keep x h.0, h.1)
    | inr n ↦ rw n (h.0, All-update_first p f xs keep h.1)
  ]

module _ {ℓ κ} {A : Type ℓ} (R : A → A → Type κ) where
  pub Pairwise-Unlinks :
      {p : A → Bool} {xs : List A} {a : A} {rest : List A}
      → Unlinks p xs a rest
      → Pairwise R xs
      → Pairwise R rest
  Pairwise-Unlinks (here t) h = h.1
  Pairwise-Unlinks (there {x = x} f u) h = (All-Unlinks (R x) u h.0, Pairwise-Unlinks u h.1)

  pub Pairwise-sweep : (p : A → Bool) (xs : List A) → Pairwise R xs → Pairwise R (sweep p xs)
  unfolding sweep
  Pairwise-sweep p [] h = tt
  Pairwise-sweep p (x ∷ xs) h = elim (Bool-cases (p x)) [
    | inl t ↦ rw t (Pairwise-sweep p xs h.1)
    | inr f ↦ rw f (All-sweep (R x) p xs h.0, Pairwise-sweep p xs h.1)
  ]

  -- The node taken out is unrelated to those that stay, in both directions.
  pub Pairwise-unlinked :
      {p : A → Bool} {xs : List A} {a : A} {rest : List A}
      → ((x y : A) → R x y → R y x)
      → Unlinks p xs a rest
      → Pairwise R xs
      → All (R a) rest
  Pairwise-unlinked swap (here t) h = h.0
  Pairwise-unlinked {a = a} swap (there {x = x} f u) h =
      (swap x a (All-unlinked (R x) u h.0), Pairwise-unlinked swap u h.1)

module _ {ℓ} {A : Type ℓ} where
  -- A test that fails on every node that `p` passes does not notice the unlinking.
  pub find_first-Unlinks :
      {p : A → Bool} (q : A → Bool) {xs : List A} {a : A} {rest : List A}
      → ((x : A) → p x ≡ true → q x ≡ false)
      → Unlinks p xs a rest
      → find_first q rest ≡ find_first q xs
  unfolding find_first
  find_first-Unlinks q apart (here {x = x} t) = rw (apart x t)
  find_first-Unlinks q apart (there f u) = rw (find_first-Unlinks q apart u)

  pub unlinked_holds :
      {p : A → Bool} {xs : List A} {a : A} {rest : List A} → Unlinks p xs a rest → p a ≡ true
  unlinked_holds (here t) = t
  unlinked_holds (there f u) = unlinked_holds u

  pub find_first-update_first :
      (p q : A → Bool) (f : A → A) (xs : List A)
      → ((x : A) → p x ≡ true → (q x ≡ false) × (q (f x) ≡ false))
      → find_first q (update_first p f xs) ≡ find_first q xs
  unfolding find_first update_first
  find_first-update_first p q f [] apart = refl
  find_first-update_first p q f (x ∷ xs) apart = elim (Bool-cases (p x)) [
    | inl t ↦ rw (t, (apart x t).0, (apart x t).1)
    | inr n ↦ rw (n, find_first-update_first p q f xs apart)
  ]

  -- A sweep hides no node that it has to keep.
  pub find_first-sweep :
      (p q : A → Bool) (xs : List A)
      → ((x : A) → q x ≡ true → p x ≡ false)
      → find_first q (sweep p xs) ≡ find_first q xs
  unfolding find_first sweep
  find_first-sweep p q [] keep = refl
  find_first-sweep p q (x ∷ xs) keep = elim (Bool-cases (q x)) [
    | inl t ↦ rw (keep x t, t)
    | inr n ↦ ground (arith, find_first-sweep p q xs keep)
  ]

module _ {ℓ} {A : Type ℓ} (p q : A → Bool) where
  -- The node that a walk finds is found again after a sweep that keeps it.
  pub find_first-sweep_kept :
      (xs : List A) (a : A)
      → find_first q xs ≡ some a
      → p a ≡ false
      → find_first q (sweep p xs) ≡ some a
  unfolding find_first sweep
  find_first-sweep_kept [] a e keep = cc
  find_first-sweep_kept (x ∷ xs) a e keep = elim (Bool-cases (q x)) [
    | inl t ↦
        let same : x ≡ a = ground arith in
        let kept : p x ≡ false = rw same keep in rw (kept, t) (rw same)
    | inr n ↦ ground (arith, find_first-sweep_kept xs a)
  ]

module _ {ℓ κ} {A : Type ℓ} (P : A → Type κ) where
  pub All-set : (xs : List A) (i : ℕ) (v : A) → P v → All P xs → All P (set xs i v)
  All-set [] i v p h = tt
  All-set (x ∷ xs) zero v p h = (p, h.1)
  All-set (x ∷ xs) (suc i) v p h = (h.0, All-set xs i v p h.1)

  pub All-get_elem? : (xs : List A) (i : ℕ) (x : A) → get_elem? xs i ≡ some x → All P xs → P x
  All-get_elem? [] i x e h = absurd (cc)
  All-get_elem? (y ∷ ys) zero x e h = let same : y ≡ x = ground arith in rw same at (h.0)
  All-get_elem? (y ∷ ys) (suc i) x e h = All-get_elem? ys i x e h.1

module _ {ℓ κ} {A : Type ℓ} (R : A → A → Type κ) where
  -- A node is overwritten by one that is related as it was.
  pub Pairwise-set :
      (xs : List A) (i : ℕ) (x v : A)
      → get_elem? xs i ≡ some x
      → ((y : A) → R x y → R v y)
      → ((y : A) → R y x → R y v)
      → Pairwise R xs
      → Pairwise R (set xs i v)
  Pairwise-set [] i x v e left right h = tt
  Pairwise-set (y ∷ ys) zero x v e left right h =
      let same : y ≡ x = ground arith in
      (All-map ys (λ z r. left z (subst (λ t. R t z) same r)) h.0, h.1)
  Pairwise-set (y ∷ ys) (suc i) x v e left right h = (
    All-set (R y) ys i v (right y (All-get_elem? (R y) ys i x e h.0)) h.0,
    Pairwise-set ys i x v e left right h.1,
  )

  pub Pairwise-update_first :
      (p : A → Bool) (f : A → A) (xs : List A)
      → ((x y : A) → R x y → R (f x) y)
      → ((x y : A) → R x y → R x (f y))
      → Pairwise R xs
      → Pairwise R (update_first p f xs)
  unfolding update_first
  Pairwise-update_first p f [] left right h = tt
  Pairwise-update_first p f (x ∷ xs) left right h = elim (Bool-cases (p x)) [
    | inl t ↦ rw t (All-map xs (left x) h.0, h.1)
    | inr n ↦
        rw n
          (All-update_first (R x) p f xs (right x) h.0, Pairwise-update_first p f xs left right h.1)
  ]
