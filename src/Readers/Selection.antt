-- ===== src/Readers/Selection.antt =====
-- What cccam_card_manager_select_reader chooses.
use cccam_3_0_1_by_sharillas.Base.{
  ℕ, suc, ◌+◌, ◌≤◌, ◌<◌, ◌≡◌, refl, ap, sym, subst, ◌⊎◌, inl, inr, Bool, true, false, ◌&&◌, none,
  some, List, [], ◌∷◌, arith, ltb, get_elem?, All, Bool-cases,
}
use cccam_3_0_1_by_sharillas.Readers.{
  Reader, Readers, ReaderType, ReaderState, Choice, usable, reader_score, type_score, state_score,
  select_from, select_reader, initial_best_score, local, remote, emu, timed_out,
}

abbrev pub choice_score : Choice → ℕ
choice_score none = initial_best_score
choice_score (some (i, r)) = reader_score r

-- No usable reader scores below `score`.
abbrev pub IsLeast : ℕ → ℕ → ℕ → ℕ → List Reader → Type 0
IsLeast caid provid now score rs =
    All (λ r. (usable caid provid now r && ltb (reader_score r) score) ≡ false) rs

type_score-le : (k : ReaderType) → type_score k ≤ 30
unfolding type_score
type_score-le local = omega arith
type_score-le remote = omega arith
type_score-le emu = omega arith

state_score-le : (s : ReaderState) → state_score s ≤ 100
unfolding state_score
state_score-le timed_out = omega arith
state_score-le _ = omega arith

-- With a uint8_t priority and hop, no score reaches the initial best one.
pub reader_score-lt :
    (r : Reader) → r.priority < 256 → r.hop < 256 → reader_score r < initial_best_score
unfolding reader_score
reader_score-lt r p h = omega (arith, type_score-le r.kind, state_score-le r.state)

module _ (caid provid now : ℕ) where
  -- One round of the loop, on each outcome of its test.
  select_from-better :
      (i : ℕ) (r : Reader) (rs : List Reader) (best : Choice) (score : ℕ)
      → (usable caid provid now r && ltb (reader_score r) score) ≡ true
      → select_from caid provid now i (r ∷ rs) best score
        ≡ select_from caid provid now (i + 1) rs (some (i, r)) (reader_score r)
  unfolding select_from
  select_from-better i r rs best score t = rw t

  select_from-worse :
      (i : ℕ) (r : Reader) (rs : List Reader) (best : Choice) (score : ℕ)
      → (usable caid provid now r && ltb (reader_score r) score) ≡ false
      → select_from caid provid now i (r ∷ rs) best score
        ≡ select_from caid provid now (i + 1) rs best score
  unfolding select_from
  select_from-worse i r rs best score f = rw f

  not_less_mono :
      (b : Bool) (x low high : ℕ)
      → low ≤ high
      → (b && ltb x high) ≡ false
      → (b && ltb x low) ≡ false
  not_less_mono b x low high h f = ground arith

  -- The choice scores at most `score`, and no usable reader of the list scores below it.
  abbrev Least : ℕ → List Reader → Choice → Type 0
  Least score rs c = (choice_score c ≤ score) × IsLeast caid provid now (choice_score c) rs

  select_from-IsLeast :
      (i : ℕ) (rs : List Reader) (best : Choice) (score : ℕ)
      → choice_score best ≡ score
      → Least score rs (select_from caid provid now i rs best score)
  select_from-IsLeast i [] best score e = (unfold select_from in omega arith, tt)
  select_from-IsLeast i (r ∷ rs) best score e =
      elim (Bool-cases (usable caid provid now r && ltb (reader_score r) score)) [
        | inl t ↦
            let (below, least) =
              select_from-IsLeast (i + 1) rs (some (i, r)) (reader_score r) refl in
            subst (Least score (r ∷ rs)) (sym (select_from-better i r rs best score t))
              (ground (arith, below), (ground (arith, below), least))
        | inr f ↦
            let (below, least) = select_from-IsLeast (i + 1) rs best score e in
            subst (Least score (r ∷ rs)) (sym (select_from-worse i r rs best score f))
              (below, (not_less_mono _ (reader_score r) _ score below f, least))
      ]

  -- The choice is the one at the start, or a usable reader at its index.
  select_from-source :
      (i : ℕ) (rs : List Reader) (best : Choice) (score : ℕ)
      → (select_from caid provid now i rs best score ≡ best)
        ⊎ ((k : ℕ) × (r : Reader) × (select_from caid provid now i rs best score ≡ some (i + k, r))
            × (get_elem? rs k ≡ some r)
            × (usable caid provid now r ≡ true))
  select_from-source i [] best score = inl (unfold select_from in refl)
  select_from-source i (r ∷ rs) best score =
      elim (Bool-cases (usable caid provid now r && ltb (reader_score r) score)) [
        | inl t ↦
            rw (select_from-better i r rs best score t)
              (elim (select_from-source (i + 1) rs (some (i, r)) (reader_score r)) [
                | inl e ↦ inr (0, r, ground (arith, e), refl, ground arith)
                | inr (k, x, e, at_k, u) ↦ inr (suc k, x, ground (arith, e), at_k, u)
              ])
        | inr f ↦
            rw (select_from-worse i r rs best score f)
              (elim (select_from-source (i + 1) rs best score) [
                | inl e ↦ inl e
                | inr (k, x, e, at_k, u) ↦ inr (suc k, x, ground (arith, e), at_k, u)
              ])
      ]

  -- The reader that is chosen stands at its index, may be asked, and no reader that may be asked
  -- has a lower score.
  pub select_reader-IsLeast :
      (m : Readers) (i : ℕ) (r : Reader)
      → select_reader m caid provid now ≡ some (i, r)
      → (get_elem? m.readers i ≡ some r)
        × (usable caid provid now r ≡ true)
        × IsLeast caid provid now (reader_score r) m.readers
  unfolding select_reader
  select_reader-IsLeast m i r e =
      let (below, least) = select_from-IsLeast 0 m.readers none initial_best_score refl in
      let same = ap choice_score e in
      elim (select_from-source 0 m.readers none initial_best_score) [
        | inl n ↦ absurd (ground arith)
        | inr (k, x, h, at_k, u) ↦ (ground arith, ground arith, rw same at least)
      ]

  All-unusable :
      (rs : List Reader)
      → All (λ r. (r.priority < 256) × (r.hop < 256)) rs
      → IsLeast caid provid now initial_best_score rs
      → All (λ r. usable caid provid now r ≡ false) rs
  All-unusable [] b h = tt
  All-unusable (r ∷ rs) b h =
      (ground (arith, h.0, reader_score-lt r b.0.0 b.0.1), All-unusable rs b.1 h.1)

  -- When no reader is chosen, none may be asked: with the byte-sized priority and hop that a reader
  -- has, no score reaches the 9999 that the search starts from.
  pub select_reader-none :
      (m : Readers)
      → All (λ r. (r.priority < 256) × (r.hop < 256)) m.readers
      → select_reader m caid provid now ≡ none
      → All (λ r. usable caid provid now r ≡ false) m.readers
  unfolding select_reader
  select_reader-none m bytes e =
      let (below, least) = select_from-IsLeast 0 m.readers none initial_best_score refl in
      All-unusable m.readers bytes (rw (ap choice_score e) at least)
