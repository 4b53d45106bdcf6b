-- ===== src/Protocol/Messages.antt =====
-- What the receivers take out of an ECM and of a control-word message.
use cccam_3_0_1_by_sharillas.Base.{
  ℕ, zero, suc, ◌-◌, ◌%◌, ◌^◌, ◌≤◌, ◌<◌, ◌≡◌, refl, le→ltb, subst, ap, true, false, ◌||◌, some,
  List, [], ◌∷◌, ◌++◌, arith, length, take, ltb,
}
use cccam_3_0_1_by_sharillas.Rc4.{byte_at}
use cccam_3_0_1_by_sharillas.Session.{Session, Suite, be32}
use cccam_3_0_1_by_sharillas.Session.Rules.{SuiteLaws, take-append}
use cccam_3_0_1_by_sharillas.Session.Peer.{peer}
use cccam_3_0_1_by_sharillas.Protocol.{
  Header, parse, build_ecm, build_cw, msg_ecm, msg_cw, be16, read_be16, CwMessage, cw_payload,
  EcmMessage, parse_ecm_payload, read_cw,
}
use cccam_3_0_1_by_sharillas.Protocol.Framing.{read_be16-be16}
use cccam_3_0_1_by_sharillas.Protocol.Limits.{length-cw_payload}
use cccam_3_0_1_by_sharillas.Protocol.Wire.{parse-build}

pub take_all : (xs : List ℕ) → take (length xs) xs ≡ xs
take_all [] = refl
take_all (x ∷ xs) = ap (λ ys. x ∷ ys) (take_all xs)

-- The fields of an ECM, as the server reads them.
abbrev pub ecm_message : ℕ → ℕ → ℕ → List ℕ → EcmMessage
ecm_message caid provid sid ecm = record { caid = caid; provid = provid; sid = sid; bytes = ecm }

abbrev pub ecm_payload : ℕ → ℕ → ℕ → List ℕ → List ℕ
ecm_payload caid provid sid ecm = be16 caid ++ (be16 provid ++ (be16 sid ++ ecm))

payload_read :
    (caid provid sid : ℕ) (ecm : List ℕ)
    → caid < 2 ^ 16
    → provid < 2 ^ 16
    → sid < 2 ^ 16
    → length ecm ≤ 256
    → parse_ecm_payload (ecm_payload caid provid sid ecm) ≡ some (ecm_message caid provid sid ecm)
unfolding parse_ecm_payload be16
payload_read caid provid sid ecm p q r short =
    let n : (length (ecm_payload caid provid sid ecm) - 6) % 2 ^ 16 ≡ length ecm =
      omega (arith, short) in
    let c : read_be16 (ecm_payload caid provid sid ecm) ≡ caid =
      omega (arith, read_be16-be16 caid (be16 provid ++ (be16 sid ++ ecm))) in
    let v : read_be16 (be16 provid ++ (be16 sid ++ ecm)) ≡ provid =
      omega (arith, read_be16-be16 provid (be16 sid ++ ecm)) in
    let s : read_be16 (be16 sid ++ ecm) ≡ sid = omega (arith, read_be16-be16 sid ecm) in
    rw (n, c, v, s, take_all ecm, short_enough (length ecm) short) refl
  where
    short_enough :
        (n : ℕ) → n ≤ 256 → (ltb (suc (suc (suc (suc (suc (suc n)))))) 6 || ltb 256 n) ≡ false
    short_enough n h = ground arith

-- An ECM that a session builds reaches the server as it was: its message type, its CAID, provider,
-- service and up to 256 bytes, whatever follows it in the buffer.
pub parse_ecm_payload-build_ecm :
    (suite : Suite) (laws : SuiteLaws suite) (c b sent : Session) (capacity caid provid sid : ℕ)
    (ecm out more : List ℕ)
    → caid < 2 ^ 16
    → provid < 2 ^ 16
    → sid < 2 ^ 16
    → length ecm ≤ 256
    → build_ecm suite c capacity caid provid sid ecm ≡ some (sent, out)
    → (h : Header) × (payload : List ℕ) × (parse suite (peer c b) (out ++ more) true
        ≡ some (peer sent b, h, payload))
      × (h.msg_id ≡ msg_ecm)
      × (parse_ecm_payload payload ≡ some (ecm_message caid provid sid ecm))
unfolding build_ecm
parse_ecm_payload-build_ecm suite laws c b sent capacity caid provid sid ecm out more p q r short
      e =
    let payload = ecm_payload caid provid sid ecm in
    (
      _,
      payload,
      parse-build suite laws c b payload msg_ecm capacity sent out more (omega arith)
          (some_bytes caid provid sid ecm) e,
      refl,
      payload_read caid provid sid ecm p q r short,
    )
  where
    some_bytes : (caid provid sid : ℕ) (ecm : List ℕ) → 0 < length (ecm_payload caid provid sid ecm)
    some_bytes caid provid sid ecm = unfold be16 in omega arith

pub take_front : (n : ℕ) (xs ys : List ℕ) → length xs ≡ n → take n (xs ++ ys) ≡ xs
take_front n xs ys h = subst (λ k. take k (xs ++ ys) ≡ xs) h (take-append xs ys)

byte_at-append : (xs ys : List ℕ) (y : ℕ) (i : ℕ) → length xs ≡ i → byte_at (xs ++ (y ∷ ys)) i ≡ y
unfolding byte_at
byte_at-append [] ys y zero h = refl
byte_at-append [] ys y (suc i) h = absurd (omega (arith, h))
byte_at-append (x ∷ xs) ys y zero h = absurd (omega (arith, h))
byte_at-append (x ∷ xs) ys y (suc i) h = byte_at-append xs ys y i (omega (arith, h))

cw_read : (m : CwMessage) → length m.cw ≡ 16 → read_cw msg_cw (cw_payload m) ≡ some (m.cw, m.hop)
unfolding read_cw cw_payload be32
cw_read m sized =
    let tail = be16 m.caid ++ (be16 m.provid ++ be16 m.sid) in
    let long : ltb (length (cw_payload m)) 21 ≡ false =
      le→ltb (length (cw_payload m)) 21 (omega (arith, length-cw_payload m sized)) in
    let cw = take_front 16 m.cw (m.hop ∷ tail) sized in
    let hop = byte_at-append (be32 m.ecm_time ++ m.cw) tail m.hop 20 (omega (arith, sized)) in
    rw (long, cw, hop) refl

-- A control word that a session sends reaches the client's server as it was, with the hop at
-- which it was served.
pub read_cw-build_cw :
    (suite : Suite) (laws : SuiteLaws suite) (c b sent : Session) (capacity : ℕ) (m : CwMessage)
    (out more : List ℕ)
    → length m.cw ≡ 16
    → build_cw suite c capacity m ≡ some (sent, out)
    → (h : Header) × (payload : List ℕ) × (parse suite (peer c b) (out ++ more) true
        ≡ some (peer sent b, h, payload))
      × (read_cw h.msg_id payload ≡ some (m.cw, m.hop))
unfolding build_cw
read_cw-build_cw suite laws c b sent capacity m out more sized e = (
  _,
  cw_payload m,
  parse-build suite laws c b (cw_payload m) msg_cw capacity sent out more (omega arith)
      (omega (arith, length-cw_payload m sized)) e,
  cw_read m sized,
)
