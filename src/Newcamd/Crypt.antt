-- ===== src/Newcamd/Crypt.antt =====
-- src/network/cccam3_newcamd.c: md5_crypt and md5_to64. MD5 is OpenSSL's and an argument, and so is
-- the fuel of the first loop, without which nothing comes of it.
use cccam_3_0_1_by_sharillas.Base.{
  ℕ, zero, suc, ◌+◌, ◌*◌, ◌/◌, ◌%◌, ◌^◌, ◌<◌, ◌≡◌, ◌≢◌, refl, Option, none, some, List, [], ◌∷◌,
  ◌++◌, ltb, ◌==◌, if◌then◌else◌, length, take,
}
use cccam_3_0_1_by_sharillas.Rc4.{byte_at}
use cccam_3_0_1_by_sharillas.Newcamd.{digest_loop}
use cccam_3_0_1_by_sharillas.Newcamd.Digest.{digest_loop_endless}

-- The loop over the bits of the length; the fuel is the length itself.
unfoldable pub length_bits : ℕ → ℕ → List ℕ → List ℕ
length_bits zero i pw = []
length_bits (suc fuel) i pw =
    let rest = length_bits fuel (i / 2) pw in
    if i == 0 then [] else (if i % 2 == 1 then 0 ∷ rest else take 1 pw ++ rest)

-- What round `i` of the thousand hashes.
unfoldable pub round_bytes : ℕ → List ℕ → List ℕ → List ℕ → List ℕ
round_bytes i pw salt digest =
    (if i % 2 == 1 then pw else digest)
    ++ ((if i % 3 == 0 then [] else salt)
        ++ ((if i % 7 == 0 then [] else pw) ++ (if i % 2 == 1 then digest else pw)))

unfoldable pub rounds : (List ℕ → List ℕ) → ℕ → ℕ → List ℕ → List ℕ → List ℕ → List ℕ
rounds md5 zero i pw salt digest = digest
rounds md5 (suc left) i pw salt digest =
    rounds md5 left (i + 1) pw salt (md5 (round_bytes i pw salt digest))

-- A character of "./0-9A-Za-z".
unfoldable pub itoa64 : ℕ → ℕ
itoa64 v = if ltb v 12 then v + 46 else (if ltb v 38 then v + 53 else v + 59)

-- `md5_to64`
unfoldable pub md5_to64 : ℕ → ℕ → List ℕ
md5_to64 v zero = []
md5_to64 v (suc n) = itoa64 (v % 2 ^ 6) ∷ md5_to64 (v / 2 ^ 6) n

-- Three bytes of the digest as four characters.
unfoldable pub triple : List ℕ → ℕ → ℕ → ℕ → List ℕ
triple d i j k = md5_to64 (byte_at d i * 2 ^ 16 + byte_at d j * 2 ^ 8 + byte_at d k) 4

-- "$1$", the salt, "$" and the digest.
unfoldable pub md5_text : List ℕ → List ℕ → List ℕ
md5_text salt d =
    36
    ∷ 49
    ∷ 36
    ∷ (salt
        ++ (36
            ∷ (triple d 0 6 12
                ++ (triple d 1 7 13
                    ++ (triple d 2 8 14
                        ++ (triple d 3 9 15 ++ (triple d 4 10 5 ++ md5_to64 (byte_at d 11) 2)))))))

-- The digest after the thousand rounds, from what the first loop hashed.
unfoldable pub final_digest : (List ℕ → List ℕ) → List ℕ → List ℕ → List ℕ → List ℕ
final_digest md5 pw salt looped =
    let first =
      pw ++ (36 ∷ 49 ∷ 36 ∷ (salt ++ (looped ++ length_bits (length pw) (length pw) pw))) in
    rounds md5 1000 0 pw salt (md5 first)

-- `md5_crypt`
unfoldable pub md5_crypt : (List ℕ → List ℕ) → ℕ → List ℕ → List ℕ → Option (List ℕ)
md5_crypt md5 fuel pw salt =
    let short = take 8 salt in
    elim (digest_loop fuel (length pw) (md5 (pw ++ (short ++ pw)))) [
      | none ↦ none
      | some looped ↦ some (md5_text short (final_digest md5 pw short looped))
    ]

-- For a password whose length is no multiple of 16, md5_crypt never returns, whatever MD5 gives.
pub md5_crypt_endless :
    (md5 : List ℕ → List ℕ) (fuel : ℕ) (pw salt : List ℕ)
    → length pw < 2 ^ 32
    → length pw % 16 ≢ 0
    → md5_crypt md5 fuel pw salt ≡ none
unfolding md5_crypt
md5_crypt_endless md5 fuel pw salt small odd =
    let endless =
      digest_loop_endless fuel (length pw) (md5 (pw ++ (take 8 salt ++ pw))) small odd in
    rw (endless, md5_crypt) refl
