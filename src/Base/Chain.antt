-- ===== src/Base/Chain.antt =====
-- A chain is a singly or doubly linked list that the program walks from its head: the first
-- node that passes a test, the chain after that node is unlinked, and a sweep that unlinks every
-- node that passes. The components instantiate the test.
use Prim.Native.Nat.{ℕ, suc, ◌+◌}
use mathlib.Core.Path.{◌≡◌, refl}
use mathlib.Core.Bool.{Bool, true, false}
use mathlib.Core.List.{List, [], ◌∷◌}
use mathlib.Core.Logic.{inl, inr}
use mathlib.Core.Option.{Option, none, some}
use native.Mathlib.Omega.{arith}
use cccam_3_0_1_by_sharillas.Base.Tests.{if◌then◌else◌, Bool-cases, Option-cases}
use cccam_3_0_1_by_sharillas.Base.Lists.{length, All}

abbrev pub Pairwise {ℓ κ} : {A : Type ℓ} → (A → A → Type κ) → List A → Type κ
Pairwise R [] = Unit
Pairwise R (x ∷ xs) = All (R x) xs × Pairwise R xs

module _ {ℓ} {A : Type ℓ} (p : A → Bool) where
  unfoldable pub find_first : List A → Option A
  find_first [] = none
  find_first (x ∷ xs) = if p x then some x else find_first xs

  abbrev pub push_rest : A → Option (A × List A) → Option (A × List A)
  push_rest x none = none
  push_rest x (some (m, rest)) = some (m, x ∷ rest)

  unfoldable pub unlink_first : List A → Option (A × List A)
  unlink_first [] = none
  unlink_first (x ∷ xs) = if p x then some (x, xs) else push_rest x (unlink_first xs)

  -- The nodes that stay.
  unfoldable pub sweep : List A → List A
  sweep [] = []
  sweep (x ∷ xs) = let rest = sweep xs in if p x then rest else x ∷ rest

  -- How many nodes a sweep unlinks.
  unfoldable pub swept : List A → ℕ
  swept [] = 0
  swept (x ∷ xs) = let n = swept xs in if p x then n + 1 else n

  -- The first node that passes is overwritten in place.
  unfoldable pub update_first : (A → A) → List A → List A
  update_first f [] = []
  update_first f (x ∷ xs) = if p x then f x ∷ xs else x ∷ update_first f xs

  pub find_first_holds : (xs : List A) (a : A) → find_first xs ≡ some a → p a ≡ true
  unfolding find_first
  find_first_holds [] a e = cc
  find_first_holds (x ∷ xs) a e = ground (arith, find_first_holds xs a)

  pub find_first-none : (xs : List A) → find_first xs ≡ none → All (λ a. p a ≡ false) xs
  unfolding find_first
  find_first-none [] e = tt
  find_first-none (x ∷ xs) e = ground (arith, find_first-none xs)

  pub find_first_absent : (xs : List A) → All (λ a. p a ≡ false) xs → find_first xs ≡ none
  unfolding find_first
  find_first_absent [] h = refl
  find_first_absent (x ∷ xs) h = ground (arith, find_first_absent xs h.1)

  pub unlink_first-eq-find_first :
      (xs : List A) (a : A) (rest : List A)
      → unlink_first xs ≡ some (a, rest)
      → find_first xs ≡ some a
  unfolding find_first unlink_first
  unlink_first-eq-find_first [] a rest e = cc
  unlink_first-eq-find_first (x ∷ xs) a rest e = elim (Bool-cases (p x)) [
    | inl t ↦ ground arith
    | inr f ↦ elim (Option-cases (unlink_first xs)) [
      | inl n ↦ ground arith
      | inr ((m, r), s) ↦ ground (arith, unlink_first-eq-find_first xs m r)
    ]
  ]

  pub unlink_first-none : (xs : List A) → unlink_first xs ≡ none → find_first xs ≡ none
  unfolding find_first unlink_first
  unlink_first-none [] e = refl
  unlink_first-none (x ∷ xs) e = ground (arith, unlink_first-none xs)

  pub length-unlink_first :
      (xs : List A) (a : A) (rest : List A)
      → unlink_first xs ≡ some (a, rest)
      → length xs ≡ suc (length rest)
  unfolding unlink_first
  length-unlink_first [] a rest e = cc
  length-unlink_first (x ∷ xs) a rest e = elim (Bool-cases (p x)) [
    | inl t ↦ ground arith
    | inr f ↦ elim (Option-cases (unlink_first xs)) [
      | inl n ↦ ground arith
      | inr ((m, r), s) ↦ ground (arith, length-unlink_first xs m r)
    ]
  ]

  pub length-sweep : (xs : List A) → length (sweep xs) + swept xs ≡ length xs
  unfolding sweep swept
  length-sweep [] = omega arith
  length-sweep (x ∷ xs) = ground (arith, length-sweep xs)

  pub length-update_first : (f : A → A) (xs : List A) → length (update_first f xs) ≡ length xs
  unfolding update_first
  length-update_first f [] = refl
  length-update_first f (x ∷ xs) = ground (arith, length-update_first f xs)
