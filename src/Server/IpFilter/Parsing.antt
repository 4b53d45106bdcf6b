-- ===== src/Server/IpFilter/Parsing.antt =====
-- Reading back the entries of an address list.
use cccam_3_0_1_by_sharillas.Base.{
  ℕ, suc, zero, ◌+◌, ◌/◌, ◌%◌, ◌≤◌, ◌<◌, ◌≡◌, refl, true, Option, none, some, List, [], ◌∷◌, ◌++◌,
  ltb, ◌==◌, if◌then◌else◌, length, All, arith, length-append, ap, ◌∙◌, Option-cases, Bool-cases,
  inl, inr, subst,
}
use cccam_3_0_1_by_sharillas.Server.IpFilter.{
  is_digit, after_octet, prepend, span_digits, octet_of, digits_value, octets_from, parse_ip_entry,
}

-- A number below 256 in decimal digits, without leading zeros.
unfoldable pub decimal : ℕ → List ℕ
decimal n =
    if ltb n 10
    then (48 + n) ∷ []
    else (if ltb n 100
        then (48 + n / 10) ∷ (48 + n % 10) ∷ []
        else (48 + n / 100) ∷ (48 + n / 10 % 10) ∷ (48 + n % 10) ∷ [])

-- Octets with points between them, as an address is written.
unfoldable pub dotted : List ℕ → List ℕ
dotted [] = []
dotted (v ∷ []) = decimal v
dotted (v ∷ w ∷ vs) = decimal v ++ (46 ∷ dotted (w ∷ vs))

abbrev Digits : List ℕ → Type 0
Digits = All (λ c. is_digit c ≡ true)

span_digits_end : (ds : List ℕ) → Digits ds → span_digits ds ≡ (ds, [])
unfolding span_digits
span_digits_end [] h = refl
span_digits_end (d ∷ ds) h = rw (h.0, span_digits_end ds h.1) refl

span_digits_point :
    (ds rest : List ℕ) → Digits ds → span_digits (ds ++ (46 ∷ rest)) ≡ (ds, 46 ∷ rest)
unfolding span_digits is_digit
span_digits_point [] rest h = refl
span_digits_point (d ∷ ds) rest h = ground (arith, h.0, span_digits_point ds rest h.1)

decimal-Digits : (v : ℕ) → v < 256 → Digits (decimal v)
unfolding decimal is_digit
decimal-Digits v h = ground arith

octet_of-decimal : (v : ℕ) → v < 256 → octet_of (decimal v) ≡ some v
unfolding decimal octet_of digits_value
octet_of-decimal v h = ground arith

octets_from_first :
    (n v : ℕ) (p digits left : List ℕ)
    → span_digits p ≡ (digits, left)
    → octet_of digits ≡ some v
    → octets_from (suc n) p ≡ after_octet v (octets_from n) left
unfolding octets_from
octets_from_first n v p digits left s o =
    let first : octet_of (span_digits p).0 ≡ some v =
      ap (λ (r : List ℕ × List ℕ). octet_of r.0) s ∙ o in
    rw (first, octets_from) (ap (λ (r : List ℕ × List ℕ). after_octet v (octets_from n) r.1) s)

octets_from-decimal : (n v : ℕ) → v < 256 → octets_from (suc n) (decimal v) ≡ some (v ∷ [])
unfolding after_octet
octets_from-decimal n v h =
    octets_from_first n v (decimal v) (decimal v) []
      (span_digits_end (decimal v) (decimal-Digits v h)) (octet_of-decimal v h)

octets_from_point :
    (n v : ℕ) (p vs : List ℕ)
    → v < 256
    → octets_from n p ≡ some vs
    → octets_from (suc n) (decimal v ++ (46 ∷ p)) ≡ some (v ∷ vs)
unfolding after_octet
octets_from_point n v p vs h e =
    octets_from_first n v (decimal v ++ (46 ∷ p)) (decimal v) (46 ∷ p)
      (span_digits_point (decimal v) p (decimal-Digits v h)) (octet_of-decimal v h)
    ∙ ap (prepend v) e

abbrev pub Octets : List ℕ → Type 0
Octets = All (λ v. v < 256)

octets_from-dotted :
    (n v : ℕ) (vs : List ℕ)
    → Octets (v ∷ vs)
    → length vs ≤ n
    → octets_from (suc n) (dotted (v ∷ vs)) ≡ some (v ∷ vs)
unfolding dotted
octets_from-dotted n v [] h room = octets_from-decimal n v h.0
octets_from-dotted zero v (w ∷ vs) h room = absurd (omega (arith, room))
octets_from-dotted (suc n) v (w ∷ vs) h room =
    octets_from_point (suc n) v (dotted (w ∷ vs)) (w ∷ vs) h.0
      (octets_from-dotted n w vs h.1 (omega (arith, room)))

length-decimal : (v : ℕ) → 0 < length (decimal v)
unfolding decimal
length-decimal v = ground arith

length-dotted : (v : ℕ) (vs : List ℕ) → 0 < length (dotted (v ∷ vs))
unfolding dotted
length-dotted v [] = length-decimal v
length-dotted v (w ∷ vs) = omega (arith, length-append (decimal v) (46 ∷ dotted (w ∷ vs)))

parse_nonempty : (p : List ℕ) → 0 < length p → parse_ip_entry p ≡ octets_from 4 p
unfolding parse_ip_entry
parse_nonempty p h = ground arith

-- An address or a network of 1 to 4 octets, written with points, is read as it was written.
pub parse_ip_entry-dotted :
    (v : ℕ) (vs : List ℕ)
    → Octets (v ∷ vs)
    → length vs ≤ 3
    → parse_ip_entry (dotted (v ∷ vs)) ≡ some (v ∷ vs)
parse_ip_entry-dotted v vs h room =
    parse_nonempty (dotted (v ∷ vs)) (length-dotted v vs) ∙ octets_from-dotted 3 v vs h room

octet_of-lt : (ds : List ℕ) (v : ℕ) → octet_of ds ≡ some v → v < 256
unfolding octet_of
octet_of-lt ds v e = ground arith

abbrev Read : ℕ → Option (List ℕ) → Type 0
Read n none = Unit
Read n (some vs) = Octets vs × (length vs ≤ n)

after_octet-Read :
    (n v : ℕ) (left : List ℕ)
    → v < 256
    → ((q : List ℕ) → Read n (octets_from n q))
    → Read (suc n) (after_octet v (octets_from n) left)
unfolding after_octet
after_octet-Read n v [] h ih = ((h, tt), omega arith)
after_octet-Read n v (c ∷ cs) h ih = elim (Bool-cases (c == 46)) [
  | inr f ↦ rw f tt
  | inl t ↦ rw t (elim (Option-cases (octets_from n cs)) [
    | inl e ↦ rw e tt
    | inr (vs, e) ↦ let got = subst (Read n) e (ih cs) in rw e ((h, got.0), omega (arith, got.1))
  ])
]

octets_from-Read : (n : ℕ) (p : List ℕ) → Read n (octets_from n p)
unfolding octets_from
octets_from-Read zero [] = (tt, omega arith)
octets_from-Read zero (c ∷ cs) = tt
octets_from-Read (suc n) p = elim (Option-cases (octet_of (span_digits p).0)) [
  | inl e ↦ rw (e, octets_from) tt
  | inr (v, e) ↦
      rw (e, octets_from)
        (after_octet-Read n v (span_digits p).1 (octet_of-lt (span_digits p).0 v e)
          (octets_from-Read n))
]

-- What is read has at most 4 octets, each below 256.
pub parse_ip_entry-Octets :
    (p vs : List ℕ) → parse_ip_entry p ≡ some vs → Octets vs × (length vs ≤ 4)
unfolding parse_ip_entry
parse_ip_entry-Octets p vs e =
    let h : octets_from 4 p ≡ some vs = ground arith in subst (Read 4) h (octets_from-Read 4 p)

-- Octets with a point behind each.
unfoldable pub pointed : List ℕ → List ℕ
pointed [] = []
pointed (v ∷ vs) = decimal v ++ (46 ∷ pointed vs)

octets_from-pointed :
    (n : ℕ) (vs : List ℕ) → Octets vs → length vs ≡ n → octets_from n (pointed vs) ≡ some vs
unfolding pointed octets_from
octets_from-pointed zero [] h e = refl
octets_from-pointed (suc n) [] h e = absurd (omega (arith, e))
octets_from-pointed zero (v ∷ vs) h e = absurd (omega (arith, e))
octets_from-pointed (suc n) (v ∷ vs) h e =
    octets_from_point n v (pointed vs) vs h.0 (octets_from-pointed n vs h.1 (omega (arith, e)))

-- A whole address is taken also with one more point behind it: the test for a point at the end is
-- made only where fewer than 4 octets were read.
pub parse_ip_entry-pointed :
    (vs : List ℕ) → Octets vs → length vs ≡ 4 → parse_ip_entry (pointed vs) ≡ some vs
unfolding pointed
parse_ip_entry-pointed [] h e = absurd (omega (arith, e))
parse_ip_entry-pointed (v ∷ vs) h e =
    parse_nonempty (pointed (v ∷ vs)) (omega (arith, length-append (decimal v) (46 ∷ pointed vs)))
    ∙ octets_from-pointed 4 (v ∷ vs) h e
