-- ===== src/Handshake/Codec.antt =====
-- cccam_handshake_encrypt and cccam_handshake_decrypt, and the AES-GCM under them.
use cccam_3_0_1_by_sharillas.Base.{
  ℕ, ◌+◌, ◌-◌, ◌≡◌, refl, sym, subst, Bool, true, false, ◌||◌, not, Option, none, some, List, [],
  ◌++◌, arith, length, length-append, take, drop, ltb, ◌==◌, if_cases, Option-cases, Bool-cases,
  inl, inr, is_some,
}
use cccam_3_0_1_by_sharillas.Session.{Suite, Algorithm, aes_by_key}
use cccam_3_0_1_by_sharillas.Session.Rules.{SuiteLaws, take-append, drop-append}
use cccam_3_0_1_by_sharillas.Protocol.Wire.{append_assoc}
use cccam_3_0_1_by_sharillas.Protocol.Messages.{take_front}
use cccam_3_0_1_by_sharillas.Handshake.{
  HandshakeState, handshake_rsa_aes, handshake_aes_gcm, handshake_aes, handshake_rc4, gcm_encrypt,
  gcm_decrypt, handshake_encrypt, handshake_decrypt, cipher_part, tag_part, Digests,
}

-- What a handshake relies on: the laws of the ciphers, the lengths of the digests, and that AES-GCM
-- encrypts whatever it is given.
pub record HandshakeLaws (suite : Suite) (digests : Digests) : Type 0 where
  pub suite_laws : SuiteLaws suite
  pub pbkdf2_length :
      (password salt : List ℕ) (iterations size : ℕ)
      → length (digests.pbkdf2 password salt iterations size) ≡ size
  pub sha1_length : (bytes : List ℕ) → length (digests.sha1 bytes) ≡ 20
  pub sha256_length : (bytes : List ℕ) → length (suite.sha256 bytes) ≡ 32
  pub gcm_seals :
      (cipher : Algorithm) (key nonce aad bytes : List ℕ)
      → is_some (suite.gcm_seal cipher key nonce aad bytes) ≡ true

pub drop_front : (n : ℕ) (xs ys : List ℕ) → length xs ≡ n → drop n (xs ++ ys) ≡ ys
drop_front n xs ys e = subst (λ k. drop k (xs ++ ys) ≡ ys) e (drop-append xs ys)

pub drop_two :
    (m n : ℕ) (xs ys zs : List ℕ)
    → length xs ≡ m
    → length ys ≡ n
    → drop (m + n) (xs ++ (ys ++ zs)) ≡ zs
drop_two m n xs ys zs e f =
    subst (λ w. drop (m + n) w ≡ zs) (append_assoc xs ys zs)
      (drop_front (m + n) (xs ++ ys) zs (omega (arith, length-append xs ys, e, f)))

module _ (suite : Suite) (laws : SuiteLaws suite) where
  pub gcm_decrypt-gcm_encrypt :
      (key iv bytes out tag : List ℕ)
      → gcm_encrypt suite key iv bytes ≡ some (out, tag)
      → (length iv ≡ 12)
        × (gcm_decrypt suite key iv out tag ≡ some bytes)
        × (length out ≡ length bytes)
        × (length tag ≡ 16)
  unfolding gcm_encrypt gcm_decrypt
  gcm_decrypt-gcm_encrypt key iv bytes out tag h = elim (Bool-cases (length iv == 12)) [
    | inr off ↦ absurd (ground (arith, h, off))
    | inl on ↦ elim (Option-cases (aes_by_key (length key))) [
      | inl n ↦ absurd (ground (arith, h, on, n))
      | inr (cipher, e) ↦
          let sealed : suite.gcm_seal cipher key iv [] bytes ≡ some (out, tag) =
            ground (arith, h, on, e) in
          let (long, tagged) = laws.gcm_length cipher key iv [] bytes out tag sealed in
          (
            ground (arith, on),
            rw (on, tagged, e, gcm_decrypt)
                (laws.gcm_inverse cipher key iv [] bytes out tag sealed),
            long,
            tagged,
          )
    ]
  ]

  cipher_part-append :
      (iv out tag : List ℕ)
      → length iv ≡ 12
      → length tag ≡ 16
      → (cipher_part (iv ++ (out ++ tag)) ≡ out) × (tag_part (iv ++ (out ++ tag)) ≡ tag)
  unfolding cipher_part tag_part
  cipher_part-append iv out tag nonce tagged =
      let size : length (iv ++ (out ++ tag)) ≡ 12 + length out + 16 =
        omega (arith, length-append iv (out ++ tag), length-append out tag, nonce, tagged) in
      let middle : length (iv ++ (out ++ tag)) - 12 - 16 ≡ length out = omega (arith, size) in
      let end : length (iv ++ (out ++ tag)) - 16 ≡ 12 + length out = omega (arith, size) in
      (
        subst (λ k. take k (drop 12 (iv ++ (out ++ tag))) ≡ out) (sym middle)
            (rw (drop_front 12 iv (out ++ tag) nonce) (take-append out tag)),
        subst (λ k. drop k (iv ++ (out ++ tag)) ≡ tag) (sym end)
            (drop_two 12 (length out) iv out tag nonce refl),
      )

  -- What is read back of a message.
  abbrev Back : HandshakeState → List ℕ → Option (List ℕ) → Type 0
  Back s bytes none = Unit
  Back s bytes (some out) = handshake_decrypt suite s out true ≡ some bytes

  sealed-Back :
      (s : HandshakeState) (bytes iv out tag : List ℕ)
      → (s.handshake_mode == handshake_rsa_aes || s.handshake_mode == handshake_aes_gcm) ≡ true
      → gcm_encrypt suite s.session_key iv bytes ≡ some (out, tag)
      → Back s bytes (some (iv ++ (out ++ tag)))
  unfolding handshake_decrypt
  sealed-Back s bytes iv out tag on h =
      let (nonce, opened, long, tagged) =
        gcm_decrypt-gcm_encrypt s.session_key iv bytes out tag h in
      let size : length (iv ++ (out ++ tag)) ≡ 12 + length out + 16 =
        omega (arith, length-append iv (out ++ tag), length-append out tag, nonce, tagged) in
      let some_bytes : (length (iv ++ (out ++ tag)) == 0) ≡ false = ground (arith, size) in
      let long_enough : (ltb (length (iv ++ (out ++ tag))) 28 || false) ≡ false =
        ground (arith, size) in
      let parts = cipher_part-append iv out tag nonce tagged in
      rw (some_bytes, on, long_enough, parts.0, parts.1, take_front 12 iv (out ++ tag) nonce) opened

  handshake_encrypt-Back :
      (s : HandshakeState) (bytes iv : List ℕ) (capacity : ℕ) (allocated : Bool)
      → Back s bytes (handshake_encrypt suite s bytes capacity iv allocated)
  unfolding handshake_encrypt handshake_decrypt
  handshake_encrypt-Back s bytes iv capacity allocated =
      if_cases (Back s bytes) (length bytes == 0) _ _ (λ _. tt)
        (λ some_bytes.
          if_cases (Back s bytes)
            (s.handshake_mode == handshake_rsa_aes || s.handshake_mode == handshake_aes_gcm) _ _
            (λ on.
              if_cases (Back s bytes) (ltb capacity (length bytes + 12 + 16) || not allocated) _ _
                (λ _. tt)
                (λ _. elim (Option-cases (gcm_encrypt suite s.session_key iv bytes)) [
                  | inl n ↦ rw (n, handshake_encrypt) tt
                  | inr (r, e) ↦ rw (e, handshake_encrypt) (sealed-Back s bytes iv r.0 r.1 on e)
                ]))
            (λ off.
              if_cases (Back s bytes)
                (s.handshake_mode == handshake_aes || s.handshake_mode == handshake_rc4) _ _
                (λ _. tt) (λ legacy. plain_back s bytes some_bytes off legacy)))
    where
      plain_back :
          (s : HandshakeState) (bytes : List ℕ)
          → (length bytes == 0) ≡ false
          → (s.handshake_mode == handshake_rsa_aes || s.handshake_mode == handshake_aes_gcm) ≡ false
          → (s.handshake_mode == handshake_aes || s.handshake_mode == handshake_rc4) ≡ false
          → handshake_decrypt suite s bytes true ≡ some bytes
      plain_back s bytes a b c = rw (a, b, c, handshake_decrypt) refl

  -- Whatever cccam_handshake_encrypt encrypts, cccam_handshake_decrypt gives back under the same
  -- handshake, in every mode.
  pub handshake_decrypt-handshake_encrypt :
      (s : HandshakeState) (bytes iv out : List ℕ) (capacity : ℕ) (allocated : Bool)
      → handshake_encrypt suite s bytes capacity iv allocated ≡ some out
      → handshake_decrypt suite s out true ≡ some bytes
  handshake_decrypt-handshake_encrypt s bytes iv out capacity allocated e =
      subst (Back s bytes) e (handshake_encrypt-Back s bytes iv capacity allocated)
