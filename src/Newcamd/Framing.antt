-- ===== src/Newcamd/Framing.antt =====
-- Newcamd messages from one end to the other.
use cccam_3_0_1_by_sharillas.Base.{
  ℕ, ◌+◌, ◌-◌, ◌%◌, ◌≤◌, ◌<◌, ◌≡◌, ◌≢◌, refl, ap, ◌∙◌, false, ◌||◌, none, some, List, [], ◌∷◌, ◌++◌,
  arith, length, length-append, drop, ltb, ◌==◌, Option-cases, Bool-cases, if_cases, inl, inr,
}
use cccam_3_0_1_by_sharillas.Session.Rules.{take-append}
use cccam_3_0_1_by_sharillas.Protocol.{be16, read_be16}
use cccam_3_0_1_by_sharillas.Protocol.Framing.{read_be16-be16}
use cccam_3_0_1_by_sharillas.Newcamd.{
  NcdHost, NcdSession, plain_netbuf, ncd_send_message, ncd_decrypt_message, ncd_open,
  newcamd_payload, ncd_max_msg,
}

-- What cccam3_emu_des.c does: the encrypted buffer ends in whole blocks after its first two bytes,
-- has a checksum and a vector more, and stays below 1024 bytes; it is decrypted to what it was
-- and a padding, whatever its first two bytes have become; other sizes are refused.
pub record DesLaws (des : NcdHost) : Type 0 where
  pub sealed_size :
      (buf key out : List ℕ)
      → 11 ≤ length buf
      → des.encrypt buf key ≡ some out
      → ((length out - 2) % 8 ≡ 0) × (length buf + 9 ≤ length out) × (length out < 1024)
  pub opens :
      (buf key out : List ℕ) (high low : ℕ)
      → 11 ≤ length buf
      → des.encrypt buf key ≡ some out
      → (pad : List ℕ) × (des.decrypt (high ∷ low ∷ drop 2 out) key
          ≡ some (high ∷ low ∷ (drop 2 buf ++ pad)))
  pub refuses : (buf key : List ℕ) → (length buf - 2) % 8 ≢ 0 → des.decrypt buf key ≡ none

payload_fits :
    (n size l : ℕ)
    → size ≡ l
    → l < 1024
    → 2 + l ≤ n
    → (ltb n 2 || (ltb ncd_max_msg size || ltb n (2 + size))) ≡ false
payload_fits n size l a b c = ground arith

payload_whole :
    (rest more : List ℕ)
    → length rest < 1024
    → newcamd_payload (be16 (length rest) ++ (rest ++ more)) ≡ some rest
unfolding newcamd_payload be16
payload_whole rest more small =
    let bytes = be16 (length rest) ++ (rest ++ more) in
    let size : read_be16 bytes ≡ length rest =
      omega (arith, read_be16-be16 (length rest) (rest ++ more), small) in
    let fits =
      payload_fits (length bytes) (read_be16 bytes) (length rest) size small
        (omega (arith, length-append rest more)) in
    rw (fits, size, take-append rest more) refl

module _ (des : NcdHost) (laws : DesLaws des) where
  -- A payload of whole blocks is refused under every key.
  refused : (raw key : List ℕ) → length raw % 8 ≡ 0 → ncd_decrypt_message des raw key ≡ none
  unfolding ncd_decrypt_message
  refused raw key blocks =
      if_cases (λ r. r ≡ none) (ltb (length raw) 16 || ltb ncd_max_msg (length raw)) _ _ (λ _. refl)
        (λ fits.
          let long : 16 ≤ length raw = ground (arith, fits) in
          rw (laws.refuses raw key (λ h. omega (arith, h, blocks, long)), ncd_decrypt_message) refl)

  ncd_open-none : (s : NcdSession) (raw : List ℕ) → length raw % 8 ≡ 0 → ncd_open des s raw ≡ none
  unfolding ncd_open
  ncd_open-none s raw blocks = elim (Bool-cases s.logged_in) [
    | inl on ↦
        rw (on, refused raw s.session_key blocks, refused raw s.session_key_alt blocks, ncd_open)
          (if_cases (λ r. r ≡ none) (s.key_mode == 0) _ _ (λ _. refl) (λ _. refl))
    | inr off ↦ rw (off, refused raw s.login_key blocks, ncd_open) refl
  ]

  -- What a sent message is: after its length, an encrypted buffer without its first two bytes.
  abbrev Sent : ℕ → ℕ → List ℕ → ℕ → List ℕ → List ℕ → Type 0
  Sent msg_id cmd bytes sid key out =
      (a : ℕ) × (b : ℕ) × (rest : List ℕ) × (des.encrypt (plain_netbuf msg_id cmd bytes sid) key
        ≡ some (a ∷ b ∷ rest))
      × (out ≡ be16 (length rest) ++ rest)
      × (length bytes ≤ 0xfff)

  two_first :
      (enc : List ℕ) → 2 ≤ length enc → (a : ℕ) × (b : ℕ) × (rest : List ℕ) × (enc ≡ a ∷ b ∷ rest)
  two_first [] h = absurd (omega (arith, h))
  two_first (a ∷ []) h = absurd (omega (arith, h))
  two_first (a ∷ b ∷ rest) h = (a, b, rest, refl)

  after_two : (a b : ℕ) (rest : List ℕ) → length (a ∷ b ∷ rest) - 2 ≡ length rest
  after_two a b rest = omega arith

  plain_long :
      (msg_id cmd sid : ℕ) (bytes : List ℕ) → 11 ≤ length (plain_netbuf msg_id cmd bytes sid)
  unfolding plain_netbuf
  plain_long msg_id cmd sid bytes = omega arith

  sent_of :
      (key bytes out enc : List ℕ) (msg_id cmd sid : ℕ)
      → des.encrypt (plain_netbuf msg_id cmd bytes sid) key ≡ some enc
      → out ≡ be16 (length enc - 2) ++ drop 2 enc
      → length bytes ≤ 0xfff
      → Sent msg_id cmd bytes sid key out
  sent_of key bytes out enc msg_id cmd sid h e short =
      let (blocks, long, small) = laws.sealed_size _ key enc (plain_long msg_id cmd sid bytes) h in
      let (a, b, rest, shape) = two_first enc (omega (arith, long)) in
      (
        a,
        b,
        rest,
        h ∙ ap (λ x. some x) shape,
        e
            ∙ ap (λ x. be16 (length x - 2) ++ drop 2 x) shape
            ∙ ap (λ n. be16 n ++ rest) (after_two a b rest),
        short,
      )

  sent_parts :
      (key bytes out : List ℕ) (msg_id cmd sid : ℕ)
      → ncd_send_message des key msg_id cmd bytes sid ≡ some out
      → Sent msg_id cmd bytes sid key out
  unfolding ncd_send_message
  sent_parts key bytes out msg_id cmd sid e =
      elim (Bool-cases (ltb 0xfff (length bytes) || ltb ncd_max_msg (length bytes + 11 + 8))) [
        | inl long ↦ absurd (ground (arith, e, long))
        | inr fits ↦ elim (Option-cases (des.encrypt (plain_netbuf msg_id cmd bytes sid) key)) [
          | inl n ↦ absurd (ground (arith, e, fits, n))
          | inr (enc, h) ↦
              sent_of key bytes out enc msg_id cmd sid h (ground (arith, e, fits, h))
                (ground (arith, fits))
        ]
      ]

  -- A message that the code itself makes is refused by the server that reads it, in every state of
  -- the session and under every key: the payload that is handed over lacks the two bytes of
  -- its length, which the decryption expects in front of its blocks.
  pub ncd_open-newcamd_payload :
      (s : NcdSession) (key bytes out more : List ℕ) (msg_id cmd sid : ℕ)
      → ncd_send_message des key msg_id cmd bytes sid ≡ some out
      → (raw : List ℕ) × (newcamd_payload (out ++ more) ≡ some raw) × (ncd_open des s raw ≡ none)
  unfolding newcamd_payload be16
  ncd_open-newcamd_payload s key bytes out more msg_id cmd sid e =
      let (a, b, rest, h, shape, short) = sent_parts key bytes out msg_id cmd sid e in
      let (blocks, long, small) =
        laws.sealed_size _ key (a ∷ b ∷ rest) (plain_long msg_id cmd sid bytes) h in
      (
        rest,
        ap (λ x. newcamd_payload (x ++ more)) shape
            ∙ payload_whole rest more (omega (arith, small)),
        ncd_open-none s rest (omega (arith, blocks)),
      )
