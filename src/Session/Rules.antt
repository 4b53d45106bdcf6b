-- ===== src/Session/Rules.antt =====
-- What the sessions rely on of OpenSSL: a block cipher in CBC and AES-GCM undo what they do, with
-- outputs as long as their inputs.
use cccam_3_0_1_by_sharillas.Base.{
  ℕ, ◌≡◌, refl, ap, true, false, some, List, [], ◌∷◌, ◌++◌, length, take, drop,
}
use cccam_3_0_1_by_sharillas.Session.{Suite, Algorithm, gcm_tag_len}

pub record SuiteLaws (suite : Suite) : Type 0 where
  pub cbc_inverse :
      (cipher : Algorithm) (key iv bytes out : List ℕ)
      → suite.cbc cipher true key iv bytes ≡ some out
      → suite.cbc cipher false key iv out ≡ some bytes
  pub cbc_length :
      (cipher : Algorithm) (key iv bytes out : List ℕ)
      → suite.cbc cipher true key iv bytes ≡ some out
      → length out ≡ length bytes
  pub gcm_inverse :
      (cipher : Algorithm) (key nonce aad bytes out tag : List ℕ)
      → suite.gcm_seal cipher key nonce aad bytes ≡ some (out, tag)
      → suite.gcm_open cipher key nonce aad out tag ≡ some bytes
  pub gcm_length :
      (cipher : Algorithm) (key nonce aad bytes out tag : List ℕ)
      → suite.gcm_seal cipher key nonce aad bytes ≡ some (out, tag)
      → (length out ≡ length bytes) × (length tag ≡ gcm_tag_len)

pub take-append : (xs ys : List ℕ) → take (length xs) (xs ++ ys) ≡ xs
take-append [] ys = refl
take-append (x ∷ xs) ys = ap (λ zs. x ∷ zs) (take-append xs ys)

pub drop-append : (xs ys : List ℕ) → drop (length xs) (xs ++ ys) ≡ ys
drop-append [] ys = refl
drop-append (x ∷ xs) ys = drop-append xs ys
