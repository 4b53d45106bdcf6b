-- ===== src/Protocol/Limits.antt =====
-- When cccam_protocol_build_ecm, _emm and _cw succeed.
use cccam_3_0_1_by_sharillas.Base.{
  ℕ, ◌+◌, ◌%◌, ◌<◌, ◌≡◌, ◌⊎◌, refl, sym, subst, lt→ltb, true, false, ◌||◌, not, none, List, [], ◌∷◌,
  ◌++◌, arith, length, length-append, ltb, ◌==◌, if_cases, Option-cases, inl, inr,
}
use cccam_3_0_1_by_sharillas.Session.{
  CryptMode, aes, triple_des, aes_gcm, des_ede3, Algorithm, Session, Suite, encrypt, encrypt_in,
  aes_cbc, triple_des_cbc, evp_cbc, aes_by_key, tag_room, gcm_tag_len, be32,
}
use cccam_3_0_1_by_sharillas.Protocol.{
  buffer_size, build, seal_payload, zeros, CwMessage, cw_payload, build_cw, msg_cw, be16,
}

build-none :
    (suite : Suite) (c : Session) (capacity msg_id : ℕ) (payload : List ℕ)
    → seal_payload suite c.mode c payload msg_id ≡ none
    → build suite c capacity msg_id payload ≡ none
unfolding build
build-none suite c capacity msg_id payload h =
    if_cases (λ r. r ≡ none) (ltb capacity _ || ltb buffer_size _) _ _ (λ _. refl)
      (λ _. rw (h, build) refl)

encrypt-none :
    (suite : Suite) (m : CryptMode) (c : Session) (bytes : List ℕ) (capacity msg_id : ℕ)
    → c.mode ≡ m
    → encrypt_in suite m c bytes capacity msg_id ≡ none
    → encrypt suite c bytes capacity msg_id ≡ none
unfolding encrypt
encrypt-none suite m c bytes capacity msg_id on h =
    if_cases (λ r. r ≡ none) (length bytes == 0) _ _ (λ _. refl)
      (λ _. subst (λ k. encrypt_in suite k c bytes capacity msg_id ≡ none) (sym on) h)

gcm_short :
    (suite : Suite) (c : Session) (bytes : List ℕ) (capacity msg_id : ℕ)
    → capacity < length bytes + 16
    → encrypt_in suite aes_gcm c bytes capacity msg_id ≡ none
unfolding encrypt_in
gcm_short suite c bytes capacity msg_id h = rw (lt→ltb capacity (length bytes + gcm_tag_len) h) refl

pub seal-aes_gcm :
    (suite : Suite) (c : Session) (payload : List ℕ) (msg_id : ℕ)
    → c.mode ≡ aes_gcm
    → seal_payload suite aes_gcm c payload msg_id ≡ none
unfolding seal_payload tag_room zeros
seal-aes_gcm suite c payload msg_id on =
    encrypt-none suite aes_gcm c bytes (length payload + 16) msg_id on (
      gcm_short suite c bytes (length payload + 16) msg_id
        (omega (arith, length-append payload (zeros 16))))
  where
    bytes : List ℕ
    bytes = payload ++ zeros 16

-- In AES-GCM mode no ECM, EMM or CW is ever built: the room for the tag is counted in the length
-- of the message too, so cccam_protocol_encrypt finds its capacity 16 bytes short.
pub build-aes_gcm :
    (suite : Suite) (c : Session) (capacity msg_id : ℕ) (payload : List ℕ)
    → c.mode ≡ aes_gcm
    → build suite c capacity msg_id payload ≡ none
build-aes_gcm suite c capacity msg_id payload on = build-none suite c capacity msg_id payload (
    subst (λ m. seal_payload suite m c payload msg_id ≡ none) (sym on)
      (seal-aes_gcm suite c payload msg_id on))

evp_cbc_part :
    (suite : Suite) (cipher : Algorithm) (bytes key iv : List ℕ) (block : ℕ)
    → (length bytes % block == 0) ≡ false
    → evp_cbc suite cipher bytes key iv block true ≡ none
unfolding evp_cbc
evp_cbc_part suite cipher bytes key iv block h =
    if_cases (λ r. r ≡ none) (length bytes == 0 || not (length bytes % block == 0)) _ _ (λ _. refl)
      (λ whole. absurd (ground (arith, whole, h)))

-- A message that is not made of whole blocks is refused by the block ciphers.
pub encrypt_in-part :
    (suite : Suite) (c : Session) (bytes : List ℕ) (capacity msg_id : ℕ)
    → (length bytes % 8 == 0) ≡ false
    → (encrypt_in suite aes c bytes capacity msg_id ≡ none)
      × (encrypt_in suite triple_des c bytes capacity msg_id ≡ none)
unfolding encrypt_in aes_cbc triple_des_cbc
encrypt_in-part suite c bytes capacity msg_id h = (
  elim (Option-cases (aes_by_key (length c.key))) [
    | inl n ↦ rw (n, encrypt_in) refl
    | inr (cipher, e) ↦
        rw (e, encrypt_in)
          (rw (evp_cbc_part suite cipher bytes c.key _ 16 (ground (arith, h)), encrypt_in) refl)
  ],
  rw (evp_cbc_part suite des_ede3 bytes c.key _ 8 h, encrypt_in) refl,
)

three_parts :
    (t : ℕ) (cw rest : List ℕ) → length (be32 t ++ (cw ++ rest)) ≡ 4 + length cw + length rest
unfolding be32
three_parts t cw rest = omega (arith, length-append cw rest)

pub length-cw_payload : (m : CwMessage) → length m.cw ≡ 16 → length (cw_payload m) ≡ 27
unfolding cw_payload be16
length-cw_payload m h =
    let parts : length (cw_payload m) ≡ 4 + length m.cw + 7 =
      three_parts m.ecm_time m.cw (m.hop ∷ (be16 m.caid ++ (be16 m.provid ++ be16 m.sid))) in
    omega (arith, h, parts)

odd_size : (n : ℕ) → n ≡ 27 → (n % 8 == 0) ≡ false
odd_size n h = ground arith

-- The 27 bytes of a control-word message are no whole number of blocks, so no CW is ever built in
-- AES, 3DES or AES-GCM mode: only clear and RC4 sessions can be answered.
pub build_cw-block :
    (suite : Suite) (c : Session) (capacity : ℕ) (m : CwMessage)
    → length m.cw ≡ 16
    → (c.mode ≡ aes) ⊎ (c.mode ≡ triple_des) ⊎ (c.mode ≡ aes_gcm)
    → build_cw suite c capacity m ≡ none
unfolding build_cw seal_payload tag_room zeros
build_cw-block suite c capacity m sized (inl on) =
    build-none suite c capacity msg_cw (cw_payload m) (
      subst (λ k. seal_payload suite k c (cw_payload m) msg_cw ≡ none) (sym on)
        (encrypt-none suite aes c bytes (length (cw_payload m) + 0) msg_cw on
          (encrypt_in-part suite c bytes _ msg_cw (odd_size (length bytes) size)).0))
  where
    bytes : List ℕ
    bytes = cw_payload m ++ []

    size : length bytes ≡ 27
    size = omega (arith, length-append (cw_payload m) [], length-cw_payload m sized)
build_cw-block suite c capacity m sized (inr (inl on)) =
    build-none suite c capacity msg_cw (cw_payload m) (
      subst (λ k. seal_payload suite k c (cw_payload m) msg_cw ≡ none) (sym on)
        (encrypt-none suite triple_des c bytes (length (cw_payload m) + 0) msg_cw on
          (encrypt_in-part suite c bytes _ msg_cw (odd_size (length bytes) size)).1))
  where
    bytes : List ℕ
    bytes = cw_payload m ++ []

    size : length bytes ≡ 27
    size = omega (arith, length-append (cw_payload m) [], length-cw_payload m sized)
build_cw-block suite c capacity m sized (inr (inr on)) =
    build-aes_gcm suite c capacity msg_cw (cw_payload m) on
