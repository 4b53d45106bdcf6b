-- ===== src/Protocol/Framing.antt =====
-- The header on the wire, and what the parser accepts.
use cccam_3_0_1_by_sharillas.Base.{
  ℕ, ◌-◌, ◌%◌, ◌^◌, ◌≤◌, ◌<◌, ◌≡◌, refl, subst, Bool, false, ◌||◌, Option, none, some, List, [],
  ◌++◌, arith, length, drop, take, ltb, ◌==◌, if_cases, Option-cases, inl, inr,
}
use cccam_3_0_1_by_sharillas.Rc4.{byte_at}
use cccam_3_0_1_by_sharillas.Session.{CryptMode, Session, Suite, mode_code, be32, read_be32}
use cccam_3_0_1_by_sharillas.Session.Nonce.{read_be32-be32}
use cccam_3_0_1_by_sharillas.Protocol.{
  Header, header_size, buffer_size, header_bytes, read_header, be16, read_be16, parse, open_payload,
}

pub read_be16-be16 : (v : ℕ) (more : List ℕ) → read_be16 (be16 v ++ more) ≡ v % 2 ^ 16
unfolding read_be16 be16 byte_at
read_be16-be16 v more = omega arith

-- The parser's view of a header that a builder wrote.
pub read_header-header_bytes :
    (msg_id total : ℕ) (mode : CryptMode) (rest : List ℕ)
    → msg_id < 2 ^ 32
    → total < 2 ^ 32
    → read_header (header_bytes msg_id total mode ++ rest) ≡ record {
      msg_id = msg_id;
      msg_len = total;
      flags = 0;
      crypt_mode = mode_code mode;
      reserved = 0;
    }
unfolding read_header header_bytes be32 read_be32 byte_at read_be16 be16
read_header-header_bytes msg_id total mode rest p q =
    let id : read_be32 (be32 msg_id ++ be32 total) ≡ msg_id =
      omega (arith, read_be32-be32 msg_id (be32 total)) in
    let len : read_be32 (be32 total ++ []) ≡ total = omega (arith, read_be32-be32 total []) in
    ground (arith, id, len)

-- What a parser that succeeds says of its buffer.
abbrev Bounded : List ℕ → Option (Session × Header × List ℕ) → Type 0
Bounded buffer none = Unit
Bounded buffer (some r) =
    (r.1 ≡ read_header buffer)
    × (header_size ≤ r.1.msg_len)
    × (r.1.msg_len ≤ buffer_size)
    × (r.1.msg_len ≤ length buffer)

parse-Bounded :
    (suite : Suite) (c : Session) (buffer : List ℕ) (allocated : Bool)
    → Bounded buffer (parse suite c buffer allocated)
unfolding parse
parse-Bounded suite c buffer allocated =
    let h = read_header buffer in
    if_cases (Bounded buffer)
      (ltb (length buffer) header_size
        || (ltb h.msg_len header_size
            || (ltb buffer_size h.msg_len || ltb (length buffer) h.msg_len)))
      _ _ (λ _. tt)
      (λ fits.
        let (least, most, there) = within h.msg_len (length buffer) fits in
        if_cases (Bounded buffer) (h.msg_len == header_size) _ _ (λ _. (refl, least, most, there))
          (λ _.
            if_cases (Bounded buffer) allocated _ _
              (λ _.
                let payload = take (h.msg_len - header_size) (drop header_size buffer) in
                elim (Option-cases (open_payload suite c.mode c payload h.msg_id)) [
                  | inl n ↦ rw n tt
                  | inr (r, e) ↦ rw e (refl, least, most, there)
                ])
              (λ _. tt)))
  where
    within :
        (n size : ℕ)
        → (ltb size header_size || (ltb n header_size || (ltb buffer_size n || ltb size n))) ≡ false
        → (header_size ≤ n) × (n ≤ buffer_size) × (n ≤ size)
    within n size h = ground arith

-- A message that the parser accepts lies whole in its buffer: its length field is at least the
-- header's 12 bytes, at most 4096, and at most what was received.
pub parse_bounds :
    (suite : Suite) (c d : Session) (buffer payload : List ℕ) (allocated : Bool) (h : Header)
    → parse suite c buffer allocated ≡ some (d, h, payload)
    → (h ≡ read_header buffer)
      × (header_size ≤ h.msg_len)
      × (h.msg_len ≤ buffer_size)
      × (h.msg_len ≤ length buffer)
parse_bounds suite c d buffer payload allocated h e =
    subst (Bounded buffer) e (parse-Bounded suite c buffer allocated)
