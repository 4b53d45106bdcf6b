-- ===== src/Newcamd/Digest.antt =====
-- The first loop of md5_crypt, whose unsigned counter goes past 0.
use cccam_3_0_1_by_sharillas.Base.{
  ℕ, zero, suc, ◌+◌, ◌-◌, ◌*◌, ◌%◌, ◌^◌, ◌<◌, ◌≡◌, ◌≢◌, refl, none, List, arith, false, ◌==◌,
  is_some, subst, Option-cases, inl, inr, true,
}
use cccam_3_0_1_by_sharillas.Newcamd.{digest_loop}

-- For a password whose length is no multiple of 16 the loop never ends, however long it runs.
pub digest_loop_endless :
    (fuel length_ : ℕ) (digest : List ℕ)
    → length_ < 2 ^ 32
    → length_ % 16 ≢ 0
    → digest_loop fuel length_ digest ≡ none
unfolding digest_loop
digest_loop_endless zero length_ digest small odd = refl
digest_loop_endless (suc fuel) length_ digest small odd =
    let rest =
      digest_loop_endless fuel ((length_ + (2 ^ 32 - 16)) % 2 ^ 32) digest (omega arith)
        (λ h. odd (omega (arith, h))) in
    let more : (length_ == 0) ≡ false = ground (arith, odd) in rw (more, rest) refl

digest_loop_step :
    (fuel i : ℕ) (digest : List ℕ)
    → (i == 0) ≡ false
    → is_some (digest_loop fuel ((i + (2 ^ 32 - 16)) % 2 ^ 32) digest) ≡ true
    → is_some (digest_loop (suc fuel) i digest) ≡ true
unfolding digest_loop
digest_loop_step fuel i digest more h =
    elim (Option-cases (digest_loop fuel ((i + (2 ^ 32 - 16)) % 2 ^ 32) digest)) [
      | inl n ↦ absurd (ground (arith, h, n))
      | inr (bytes, e) ↦ rw (more, e, digest_loop) refl
    ]

-- For a multiple of 16 it ends after one round for each 16 bytes.
digest_loop_ends :
    (blocks : ℕ) (digest : List ℕ)
    → blocks < 2 ^ 28
    → is_some (digest_loop (suc blocks) (blocks * 16) digest) ≡ true
unfolding digest_loop
digest_loop_ends zero digest small = refl
digest_loop_ends (suc blocks) digest small =
    let back : blocks * 16 ≡ (suc blocks * 16 + (2 ^ 32 - 16)) % 2 ^ 32 = omega (arith, small) in
    digest_loop_step (suc blocks) (suc blocks * 16) digest (ground arith) (
      subst (λ i. is_some (digest_loop (suc blocks) i digest) ≡ true) back
        (digest_loop_ends blocks digest (omega (arith, small))))
