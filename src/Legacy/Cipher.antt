-- ===== src/Legacy/Cipher.antt =====
-- The cipher of a legacy session: its two directions, and how far it can run.
use cccam_3_0_1_by_sharillas.Base.{
  ℕ, zero, suc, ◌+◌, ◌≤◌, ◌<◌, ◌≡◌, refl, sym, subst, ap, ◌∙◌, Bool, true, false, Option, none,
  some, List, [], ◌∷◌, arith, length, length-set, get_elem?, set, bit_xor, xor_twice, xor_swap,
  Option-cases, Bool-cases, ltb, ltb→le, ltb→lt, inl, inr,
}
use cccam_3_0_1_by_sharillas.Legacy.{Legacy, cc_crypt, turn, mix, mask, swapped}

-- Mixing the byte that went out gives the plain byte, and the same state.
mix_twice : (c : Legacy) (z : ℕ) → mix false c (mix true c z).1 ≡ ((mix true c z).0, z)
unfolding mix
mix_twice c z =
    let k = mask c.table c.counter c.sum in
    let back : bit_xor (bit_xor (bit_xor (bit_xor z k) c.state) k) c.state ≡ z =
      rw (xor_swap (bit_xor z k) c.state k, xor_twice z k) (xor_twice z c.state) in
    rw back refl

-- What a decryption in the state `c` reads of an encryption.
abbrev Decrypts : Legacy → List ℕ → Option (Legacy × List ℕ) → Type 0
Decrypts c zs none = Unit
Decrypts c zs (some r) = cc_crypt false c r.1 ≡ some (r.0, zs)

pub cc_crypt_first :
    (encrypts : Bool) (c d e : Legacy) (z : ℕ) (zs out : List ℕ)
    → turn c ≡ some d
    → cc_crypt encrypts (mix encrypts d z).0 zs ≡ some (e, out)
    → cc_crypt encrypts c (z ∷ zs) ≡ some (e, (mix encrypts d z).1 ∷ out)
unfolding cc_crypt
cc_crypt_first encrypts c d e z zs out t rest = rw (t, cc_crypt) (rw (rest, cc_crypt) refl)

cc_crypt-Decrypts : (c : Legacy) (zs : List ℕ) → Decrypts c zs (cc_crypt true c zs)
unfolding cc_crypt
cc_crypt-Decrypts c [] = refl
cc_crypt-Decrypts c (z ∷ zs) = elim (Option-cases (turn c)) [
  | inl n ↦ rw (n, cc_crypt) tt
  | inr (d, t) ↦ elim (Option-cases (cc_crypt true (mix true d z).0 zs)) [
    | inl n ↦ rw (t, n, cc_crypt) tt
    | inr ((e, out), r) ↦
        let (u, sent) = mix true d z in
        let rest : cc_crypt false u out ≡ some (e, zs) =
          subst (Decrypts u zs) r (cc_crypt-Decrypts u zs) in
        let same : mix false d sent ≡ (u, z) = mix_twice d z in
        let next : cc_crypt false (mix false d sent).0 out ≡ some (e, zs) =
          subst (λ (m : Legacy × ℕ). cc_crypt false m.0 out ≡ some (e, zs)) (sym same) rest in
        rw (t, r, cc_crypt)
          (cc_crypt_first false c d e sent out zs t next
            ∙ ap (λ (m : Legacy × ℕ). some (e, m.1 ∷ zs)) same)
  ]
]

-- What one end encrypts without a fault, the other end decrypts from the same state, and both are
-- then in one state.
pub cc_crypt_back :
    (c e : Legacy) (zs out : List ℕ)
    → cc_crypt true c zs ≡ some (e, out)
    → cc_crypt false c out ≡ some (e, zs)
cc_crypt_back c e zs out h = subst (Decrypts c zs) h (cc_crypt-Decrypts c zs)

get_elem?-beyond : (xs : List ℕ) (i : ℕ) → length xs ≤ i → get_elem? xs i ≡ none
get_elem?-beyond [] i h = refl
get_elem?-beyond (x ∷ xs) zero h = absurd (omega (arith, h))
get_elem?-beyond (x ∷ xs) (suc i) h = get_elem?-beyond xs i (omega (arith, h))

-- A round that does not fault moves the counter on by one, in a table of the same size.
abbrev Turned : Legacy → Option Legacy → Type 0
Turned c none = Unit
Turned c (some d) = (d.counter ≡ c.counter + 1) × (length d.table ≡ length c.table)

turn-Turned : (c : Legacy) → Turned c (turn c)
unfolding turn swapped
turn-Turned c = elim (Option-cases (get_elem? c.table (c.counter + 1))) [
  | inl n ↦ rw (n, turn) tt
  | inr (a, e) ↦ elim (Option-cases (get_elem? c.table (c.sum + a))) [
    | inl n ↦ rw (e, turn) (rw (n, turn) tt)
    | inr (b, f) ↦
        rw (e, turn)
          (rw (f, turn)
            (
              refl,
              omega (
                arith,
                length-set (set c.table (c.counter + 1) b) (c.sum + a) a,
                length-set c.table (c.counter + 1) b,
              ),
            ))
  ]
]

turn_faults : (c : Legacy) → length c.table ≤ c.counter + 1 → turn c ≡ none
unfolding turn
turn_faults c h = rw (get_elem?-beyond c.table (c.counter + 1) h, turn) refl

-- The counter is never taken back: with a table of 256 bytes, a call that would take it past 255
-- reads beyond the table, whatever its bytes are and whether it encrypts or decrypts.
pub cc_crypt_overrun :
    (encrypts : Bool) (c : Legacy) (zs : List ℕ)
    → length c.table ≡ 256
    → 255 < c.counter + length zs
    → c.counter ≤ 255
    → cc_crypt encrypts c zs ≡ none
unfolding cc_crypt mix
cc_crypt_overrun encrypts c [] sized long low = absurd (omega (arith, long, low))
cc_crypt_overrun encrypts c (z ∷ zs) sized long low = elim (Bool-cases (ltb c.counter 255)) [
  | inr last ↦
      let full = ltb→le c.counter 255 last in
      rw (turn_faults c (omega (arith, full, sized)), cc_crypt) refl
  | inl early ↦ elim (Option-cases (turn c)) [
    | inl n ↦ rw (n, cc_crypt) refl
    | inr (d, t) ↦
        let (next, same) = subst (Turned c) t (turn-Turned c) in
        let below = ltb→lt c.counter 255 early in
        let rest =
          cc_crypt_overrun encrypts (mix encrypts d z).0 zs (omega (arith, same, sized))
            (omega (arith, next, long)) (omega (arith, next, below)) in
        rw (t, cc_crypt) (rw (rest, cc_crypt) refl)
  ]
]
