-- ===== src/Newcamd/Tests.antt =====
-- Newcamd messages on concrete bytes, and instances of the theorems. The cipher of these runs pads
-- the bytes and leaves them as they are.
use cccam_3_0_1_by_sharillas.Base.{
  ℕ, ◌+◌, ◌-◌, ◌%◌, ◌≤◌, ◌<◌, ◌≡◌, ◌≢◌, refl, sym, ap, ◌∙◌, subst, true, false, Option, none, some,
  List, [], ◌∷◌, ◌++◌, arith, length, length-append, take, drop, ltb, ◌==◌, if◌then◌else◌,
  Bool-cases, inl, inr,
}
use cccam_3_0_1_by_sharillas.Session.Rules.{take-append}
use cccam_3_0_1_by_sharillas.Protocol.{zeros, be16}
use cccam_3_0_1_by_sharillas.Protocol.Wire.{append_assoc}
use cccam_3_0_1_by_sharillas.Handshake.Tests.{length-zeros}
use cccam_3_0_1_by_sharillas.Newcamd.{
  NcdHost, NcdSession, plain_netbuf, ncd_send_message, ncd_open, newcamd_payload,
}
use cccam_3_0_1_by_sharillas.Newcamd.Framing.{DesLaws, ncd_open-newcamd_payload}

padding : ℕ → ℕ
padding n = (8 - (n - 1) % 8) % 8

toy_encrypt : List ℕ → List ℕ → Option (List ℕ)
toy_encrypt buf key =
    let k = padding (length buf) in
    if ltb 1015 (length buf + k + 1) then none else some (buf ++ (zeros (k + 1) ++ zeros 8))

toy_decrypt : List ℕ → List ℕ → Option (List ℕ)
toy_decrypt buf key = if (length buf - 2) % 8 == 0 then some (take (length buf - 8) buf) else none

abbrev toy : NcdHost
toy = record {
  encrypt = toy_encrypt;
  decrypt = toy_decrypt;
  login_key = λ a b. a;
  stale = λ i b. 0;
}

-- What the toy cipher makes of a buffer.
toy_sealed :
    (buf key out : List ℕ)
    → toy_encrypt buf key ≡ some out
    → (out ≡ buf ++ (zeros (padding (length buf) + 1) ++ zeros 8))
      × (length buf + padding (length buf) + 1 ≤ 1015)
unfolding toy_encrypt
toy_sealed buf key out e = elim (Bool-cases (ltb 1015 (length buf + padding (length buf) + 1))) [
  | inl long ↦ absurd (ground (arith, e, long))
  | inr fits ↦ (ground (arith, e, fits), ground (arith, fits))
]

toy_length :
    (buf key out : List ℕ)
    → toy_encrypt buf key ≡ some out
    → length out ≡ length buf + padding (length buf) + 9
toy_length buf key out e =
    ap length (toy_sealed buf key out e).0
    ∙ omega (
      arith,
      length-append buf (zeros (padding (length buf) + 1) ++ zeros 8),
      length-append (zeros (padding (length buf) + 1)) (zeros 8),
      length-zeros (padding (length buf) + 1),
      length-zeros 8,
    )

toy_size :
    (buf key out : List ℕ)
    → 11 ≤ length buf
    → toy_encrypt buf key ≡ some out
    → ((length out - 2) % 8 ≡ 0) × (length buf + 9 ≤ length out) × (length out < 1024)
unfolding padding
toy_size buf key out long e =
    let size = toy_length buf key out e in
    let (shape, small) = toy_sealed buf key out e in
    (omega (arith, size, long), omega (arith, size), omega (arith, size, small))

toy_cut :
    (front back : List ℕ)
    → length back ≡ 8
    → take (length (front ++ back) - 8) (front ++ back) ≡ front
toy_cut front back e =
    subst (λ n. take n (front ++ back) ≡ front) (omega (arith, length-append front back, e))
      (take-append front back)

toy_whole :
    (front back key : List ℕ)
    → length back ≡ 8
    → (length (front ++ back) - 2) % 8 ≡ 0
    → toy_decrypt (front ++ back) key ≡ some front
unfolding toy_decrypt
toy_whole front back key e blocks =
    let whole : ((length (front ++ back) - 2) % 8 == 0) ≡ true = ground (arith, blocks) in
    rw (whole, toy_cut front back e, toy_decrypt) refl

toy_opens :
    (buf key out : List ℕ) (high low : ℕ)
    → 11 ≤ length buf
    → toy_encrypt buf key ≡ some out
    → (pad : List ℕ) × (toy_decrypt (high ∷ low ∷ drop 2 out) key
        ≡ some (high ∷ low ∷ (drop 2 buf ++ pad)))
toy_opens [] key out high low long e = absurd (omega (arith, long))
toy_opens (a ∷ []) key out high low long e = absurd (omega (arith, long))
toy_opens (a ∷ b ∷ r) key out high low long e = (
  zeros (padding (length (a ∷ b ∷ r)) + 1),
  ap (λ (x : List ℕ). toy_decrypt (high ∷ low ∷ drop 2 x) key) (toy_sealed (a ∷ b ∷ r) key out e).0
      ∙ ap (λ (x : List ℕ). toy_decrypt (high ∷ low ∷ x) key)
          (sym (append_assoc r (zeros (padding (length (a ∷ b ∷ r)) + 1)) (zeros 8)))
      ∙ toy_whole (high ∷ low ∷ (r ++ zeros (padding (length (a ∷ b ∷ r)) + 1))) (zeros 8) key
          (length-zeros 8)
          (omega (
            arith,
            (toy_size (a ∷ b ∷ r) key out long e).0,
            toy_length (a ∷ b ∷ r) key out e,
            length-append (r ++ zeros (padding (length (a ∷ b ∷ r)) + 1)) (zeros 8),
            length-append r (zeros (padding (length (a ∷ b ∷ r)) + 1)),
            length-zeros (padding (length (a ∷ b ∷ r)) + 1),
            length-zeros 8,
          )),
)

toy_refuses : (buf key : List ℕ) → (length buf - 2) % 8 ≢ 0 → toy_decrypt buf key ≡ none
unfolding toy_decrypt
toy_refuses buf key odd =
    let part : ((length buf - 2) % 8 == 0) ≡ false = ground (arith, odd) in
    rw (part, toy_decrypt) refl

toy-DesLaws : DesLaws toy
toy-DesLaws = record { sealed_size = toy_size; opens = toy_opens; refuses = toy_refuses }

abbrev session : NcdSession
session = record {
  logged_in = true;
  login_key = [];
  session_key = 1 ∷ [];
  session_key_alt = 2 ∷ [];
  key_mode = 0;
  last_msg_id = 0;
  username = [];
  client_id = 0;
  last_keepalive = 0;
}

-- A keepalive with two bytes: 13 bytes, four of padding, a checksum and a vector.
keepalive : List ℕ
keepalive = be16 24 ++ (0 ∷ 7 ∷ 0 ∷ 0 ∷ 0 ∷ 0 ∷ 0xfd ∷ 0 ∷ 2 ∷ 5 ∷ 6 ∷ zeros 13)

keepalive_sent : ncd_send_message toy (1 ∷ []) 7 0xfd (5 ∷ 6 ∷ []) 0 ≡ some keepalive
unfolding ncd_send_message plain_netbuf toy_encrypt padding zeros keepalive
keepalive_sent = refl

ncd_open-newcamd_payload_example :
    (raw : List ℕ) × (newcamd_payload (keepalive ++ []) ≡ some raw)
    × (ncd_open toy session raw ≡ none)
ncd_open-newcamd_payload_example =
    ncd_open-newcamd_payload toy toy-DesLaws session (1 ∷ []) (5 ∷ 6 ∷ []) keepalive [] 7 0xfd 0
      keepalive_sent
