-- ===== src/Protocol/Wire.antt =====
-- From the builders to the parser.
use cccam_3_0_1_by_sharillas.Base.{
  ℕ, ◌+◌, ◌-◌, ◌^◌, ◌≤◌, ◌<◌, ◌≡◌, ◌⊎◌, refl, sym, subst, ap, ◌∙◌, true, false, ◌||◌, Option, none,
  some, List, [], ◌∷◌, ◌++◌, arith, length, length-append, drop, take, ltb, ◌==◌, if_cases,
  Option-cases, inl, inr,
}
use cccam_3_0_1_by_sharillas.Session.{
  CryptMode, clear, rc4, aes, triple_des, aes_gcm, Session, Suite, mode_code, encrypt, decrypt,
  tag_room, be32,
}
use cccam_3_0_1_by_sharillas.Session.Rules.{SuiteLaws, take-append}
use cccam_3_0_1_by_sharillas.Session.Peer.{peer, decrypt-encrypt, length-encrypt}
use cccam_3_0_1_by_sharillas.Protocol.{
  Header, header_size, buffer_size, header_bytes, read_header, parse, open_payload, build,
  seal_payload, zeros, be16,
}
use cccam_3_0_1_by_sharillas.Protocol.Framing.{read_header-header_bytes}
use cccam_3_0_1_by_sharillas.Protocol.Limits.{seal-aes_gcm, build-aes_gcm}

append-nil : (xs : List ℕ) → xs ++ [] ≡ xs
append-nil [] = refl
append-nil (x ∷ xs) = ap (λ ys. x ∷ ys) (append-nil xs)

pub append_assoc : (xs ys zs : List ℕ) → (xs ++ ys) ++ zs ≡ xs ++ (ys ++ zs)
append_assoc [] ys zs = refl
append_assoc (x ∷ xs) ys zs = ap (λ ws. x ∷ ws) (append_assoc xs ys zs)

-- A whole message at the front of the buffer.
pub parse_whole :
    (suite : Suite) (d e : Session) (buffer x payload : List ℕ) (h : Header)
    → read_header buffer ≡ h
    → h.msg_len ≡ header_size + length x
    → header_size + length x ≤ length buffer
    → header_size + length x ≤ buffer_size
    → 0 < length x
    → take (length x) (drop header_size buffer) ≡ x
    → open_payload suite d.mode d x h.msg_id ≡ some (e, payload)
    → parse suite d buffer true ≡ some (e, h, payload)
unfolding parse
parse_whole suite d e buffer x payload h head len there small some_bytes cut opened =
    let size : h.msg_len - header_size ≡ length x = omega (arith, len) in
    rw (head, fits, longer, size, cut, opened, parse) (ap (λ k. some (e, k, payload)) head)
  where
    fits :
        (ltb (length buffer) header_size
          || (ltb h.msg_len header_size
              || (ltb buffer_size h.msg_len || ltb (length buffer) h.msg_len)))
        ≡ false
    fits = ground (arith, len, there, small)

    longer : (h.msg_len == header_size) ≡ false
    longer = ground (arith, len, some_bytes)

-- The header of the message that is built.
abbrev pub built_header : Session → ℕ → List ℕ → Header
built_header c msg_id payload = record {
  msg_id = msg_id;
  msg_len = header_size + length payload + tag_room c.mode;
  flags = 0;
  crypt_mode = mode_code c.mode;
  reserved = 0;
}

tagless_or_gcm : (m : CryptMode) → (tag_room m ≡ 0) ⊎ (m ≡ aes_gcm)
unfolding tag_room
tagless_or_gcm clear = inl refl
tagless_or_gcm rc4 = inl refl
tagless_or_gcm aes = inl refl
tagless_or_gcm triple_des = inl refl
tagless_or_gcm aes_gcm = inr refl

module _ (suite : Suite) (laws : SuiteLaws suite) (c b : Session) (payload : List ℕ)
    (msg_id : ℕ) where
  -- What the other end finds in a payload that was written in mode `m`.
  abbrev Opened : CryptMode → Option (Session × List ℕ) → Type 0
  Opened m none = Unit
  Opened m (some r) =
      (open_payload suite m (peer c b) r.1 msg_id ≡ some (peer r.0 b, payload))
      × (length r.1 ≡ length payload)

  encrypted_back :
      (u : Session) (out : List ℕ)
      → tag_room c.mode ≡ 0
      → encrypt suite c (payload ++ []) (length payload + 0) msg_id ≡ some (u, out)
      → (decrypt suite (peer c b) out msg_id ≡ some (peer u b, payload))
        × (length out ≡ length payload)
  encrypted_back u out no_tag e =
      let nil = append-nil payload in
      let size =
        length-encrypt suite laws c b (payload ++ []) msg_id (length payload + 0) u out e in
      (
        decrypt-encrypt suite laws c b (payload ++ []) msg_id (length payload + 0) u out e
            ∙ ap (λ p. some (peer u b, p)) nil,
        omega (arith, size, no_tag, ap length nil),
      )

  seal-Opened : (m : CryptMode) → c.mode ≡ m → Opened m (seal_payload suite m c payload msg_id)
  unfolding seal_payload open_payload tag_room zeros
  seal-Opened clear on = (refl, refl)
  seal-Opened aes_gcm on = rw (seal-aes_gcm suite c payload msg_id on) tt
  seal-Opened rc4 on =
      elim (Option-cases (encrypt suite c (payload ++ []) (length payload + 0) msg_id)) [
        | inl n ↦ rw (n, seal_payload) tt
        | inr ((u, out), e) ↦ rw (e, seal_payload) (encrypted_back u out (rw on refl) e)
      ]
  seal-Opened aes on =
      elim (Option-cases (encrypt suite c (payload ++ []) (length payload + 0) msg_id)) [
        | inl n ↦ rw (n, seal_payload) tt
        | inr ((u, out), e) ↦ rw (e, seal_payload) (encrypted_back u out (rw on refl) e)
      ]
  seal-Opened triple_des on =
      elim (Option-cases (encrypt suite c (payload ++ []) (length payload + 0) msg_id)) [
        | inl n ↦ rw (n, seal_payload) tt
        | inr ((u, out), e) ↦ rw (e, seal_payload) (encrypted_back u out (rw on refl) e)
      ]

  abbrev total : ℕ
  total = header_size + length payload + tag_room c.mode

  -- What the other end parses of a buffer that starts with the message.
  abbrev Parsed : List ℕ → Option (Session × List ℕ) → Type 0
  Parsed more none = Unit
  Parsed more (some r) =
      parse suite (peer c b) (r.1 ++ more) true
      ≡ some (peer r.0 b, (built_header c msg_id payload), payload)

  sent_back :
      (u : Session) (x more : List ℕ)
      → tag_room c.mode ≡ 0
      → msg_id < 2 ^ 32
      → 0 < length payload
      → total ≤ buffer_size
      → Opened c.mode (some (u, x))
      → Parsed more (some (u, header_bytes msg_id total c.mode ++ x))
  unfolding header_bytes be32 be16
  sent_back u x more tagless small some_bytes fits opened =
      let front : length (header_bytes msg_id total c.mode ++ (x ++ more))
          ≡ 12 + length (x ++ more) =
        omega arith in
      rw (append_assoc (header_bytes msg_id total c.mode) x more) (
        parse_whole suite (peer c b) (peer u b) (header_bytes msg_id total c.mode ++ (x ++ more)) x
          payload (built_header c msg_id payload)
          (read_header-header_bytes msg_id total c.mode (x ++ more) small (omega (arith, fits)))
          (omega (arith, opened.1, tagless)) (omega (arith, length-append x more, front))
          (omega (arith, fits, opened.1, tagless)) (omega (arith, opened.1, some_bytes))
          (take-append x more) opened.0)

  build-Parsed :
      (capacity : ℕ) (more : List ℕ)
      → msg_id < 2 ^ 32
      → 0 < length payload
      → Parsed more (build suite c capacity msg_id payload)
  unfolding build
  build-Parsed capacity more small some_bytes = elim (tagless_or_gcm c.mode) [
    | inr on ↦ subst (Parsed more) (sym (build-aes_gcm suite c capacity msg_id payload on)) tt
    | inl tagless ↦
        if_cases (Parsed more) (ltb capacity total || ltb buffer_size total) _ _ (λ _. tt)
          (λ fits. elim (Option-cases (seal_payload suite c.mode c payload msg_id)) [
            | inl n ↦ rw (n, build) tt
            | inr (r, e) ↦
                rw (e, build)
                  (sent_back r.0 r.1 more tagless small some_bytes (within fits)
                    (subst (Opened c.mode) e (seal-Opened c.mode refl)))
          ])
  ]
    where
      within : (ltb capacity total || ltb buffer_size total) ≡ false → total ≤ buffer_size
      within h = ground (arith, h)

  -- A message that one end builds, followed by anything, is parsed by the other end to its type,
  -- its length and its payload, and leaves both ends in step, in every mode in which it is built.
  pub parse-build :
      (capacity : ℕ) (sent : Session) (out more : List ℕ)
      → msg_id < 2 ^ 32
      → 0 < length payload
      → build suite c capacity msg_id payload ≡ some (sent, out)
      → parse suite (peer c b) (out ++ more) true
        ≡ some (peer sent b, (built_header c msg_id payload), payload)
  parse-build capacity sent out more small some_bytes e =
      subst (Parsed more) e (build-Parsed capacity more small some_bytes)
