-- ===== src/Server/Login/Reading.antt =====
-- From the client's LOGIN message to the fields that the server reads.
use cccam_3_0_1_by_sharillas.Base.{
  ℕ, ◌+◌, ◌^◌, ◌≤◌, ◌<◌, ◌≡◌, ◌≢◌, refl, true, false, ◌||◌, Option, none, some, List, [], ◌∷◌, ◌++◌,
  arith, length, length-append, ltb, leb, ◌==◌, take, drop, if_cases, subst, sym, ap,
}
use cccam_3_0_1_by_sharillas.Session.{Session, Suite, CryptMode, clear, be32, read_be32, mode_code}
use cccam_3_0_1_by_sharillas.Session.Rules.{take-append, drop-append}
use cccam_3_0_1_by_sharillas.Session.Nonce.{read_be32-be32}
use cccam_3_0_1_by_sharillas.Protocol.{
  Header, LoginMessage, header_size, buffer_size, header_bytes, parse, open_payload, build_login,
  msg_login, be16,
}
use cccam_3_0_1_by_sharillas.Protocol.Framing.{read_header-header_bytes}
use cccam_3_0_1_by_sharillas.Protocol.Wire.{parse_whole, append_assoc}
use cccam_3_0_1_by_sharillas.Protocol.Messages.{take_all}
use cccam_3_0_1_by_sharillas.Server.Login.{text_before, field, read_login}

-- A text without a final 0 inside.
pub data NoZero : List ℕ → Type 0 where
  ended : NoZero []
  more : {b : ℕ} {bs : List ℕ} → b ≢ 0 → NoZero bs → NoZero (b ∷ bs)

text_before-text :
    (text rest : List ℕ) → NoZero text → text_before (text ++ (0 ∷ rest)) ≡ some (text, rest)
unfolding text_before
text_before-text [] rest ended = refl
text_before-text (b ∷ bs) rest (more real tail) =
    ground (arith, real, text_before-text bs rest tail)

field-text :
    (text rest : List ℕ)
    → NoZero text
    → length text ≤ 63
    → field (text ++ (0 ∷ rest)) ≡ some (text, rest)
unfolding field
field-text text rest clean short =
    let small : leb 64 (length text) ≡ false = ground (arith, short) in
    rw (text_before-text text rest clean, small, field) refl

abbrev pub login_payload : List ℕ → List ℕ → ℕ → List ℕ → List ℕ
login_payload username password version handshake =
    handshake ++ (username ++ (0 ∷ (password ++ (0 ∷ be32 version))))

abbrev pub sent_login : List ℕ → List ℕ → ℕ → List ℕ → LoginMessage
sent_login username password version handshake = record {
  handshake = handshake;
  username = username;
  password = password;
  version = version;
}

pub opened_clear :
    (suite : Suite) (c : Session) (x : List ℕ) (id : ℕ) (m : CryptMode)
    → m ≡ clear
    → open_payload suite m c x id ≡ some (c, x)
unfolding open_payload
opened_clear suite c x id m on = rw on refl

pub length-header_bytes :
    (id total : ℕ) (m : CryptMode) (rest : List ℕ)
    → length (header_bytes id total m ++ rest) ≡ 12 + length rest
unfolding header_bytes be32 be16
length-header_bytes id total m rest = omega arith

module _ (username password handshake : List ℕ) (version : ℕ) (seed : length handshake ≡ 16)
    (name : NoZero username) (secret : NoZero password) (small : version < 2 ^ 32) where
  length-login_payload :
      header_size + length (login_payload username password version handshake)
      ≡ header_size + 16 + length username + 1 + length password + 1 + 4
  unfolding be32
  length-login_payload = omega (
    arith,
    seed,
    length-append handshake (username ++ (0 ∷ (password ++ (0 ∷ be32 version)))),
    length-append username (0 ∷ (password ++ (0 ∷ be32 version))),
    length-append password (0 ∷ be32 version),
  )

  read_login-payload :
      length username ≤ 63
      → length password ≤ 63
      → read_login (login_payload username password version handshake)
        ≡ some (sent_login username password version handshake)
  unfolding read_login be32
  read_login-payload a b =
      let user = field-text username (password ++ (0 ∷ be32 version)) name a in
      let pass = field-text password (be32 version) secret b in
      let number : read_be32 (be32 version ++ []) ≡ version =
        omega (arith, read_be32-be32 version [], small) in
      rw (long_enough, front, user, pass, seed_back)
        (ap (λ v. some (sent_login username password v handshake)) number)
    where
      long_enough : ltb (length (login_payload username password version handshake)) 22 ≡ false
      long_enough = ground (arith, length-login_payload)

      front :
          drop 16 (login_payload username password version handshake)
          ≡ username ++ (0 ∷ (password ++ (0 ∷ be32 version)))
      front =
          rw (sym seed) (drop-append handshake (username ++ (0 ∷ (password ++ (0 ∷ be32 version)))))

      seed_back : take 16 (login_payload username password version handshake) ≡ handshake
      seed_back =
          rw (sym seed) (take-append handshake (username ++ (0 ∷ (password ++ (0 ∷ be32 version)))))

  abbrev total : ℕ
  total = header_size + 16 + length username + 1 + length password + 1 + 4

  -- What the server finds in a buffer that starts with the message.
  abbrev Read : Suite → Session → List ℕ → Option (List ℕ) → Type 0
  Read suite c rest none = Unit
  Read suite c rest (some out) =
      (h : Header) × (payload : List ℕ) × (parse suite c (out ++ rest) true ≡ some (c, h, payload))
      × (h.msg_id ≡ msg_login)
      × (read_login payload ≡ some (sent_login username password version handshake))

  abbrev login_header : Header
  login_header = record {
    msg_id = msg_login;
    msg_len = total;
    flags = 0;
    crypt_mode = mode_code clear;
    reserved = 0;
  }

  sent-Read :
      (suite : Suite) (c : Session) (rest : List ℕ)
      → c.mode ≡ clear
      → length username ≤ 63
      → length password ≤ 63
      → Read suite c rest (
          some (
            header_bytes msg_login total clear
            ++ login_payload username password version handshake))
  unfolding header_bytes be32 be16
  sent-Read suite c rest on a b =
      let payload = login_payload username password version handshake in
      let size : header_size + length payload ≡ total = length-login_payload in
      let front = length-header_bytes msg_login total clear (payload ++ rest) in
      (
        login_header,
        payload,
        rw (append_assoc (header_bytes msg_login total clear) payload rest) (
            parse_whole suite c c (header_bytes msg_login total clear ++ (payload ++ rest)) payload
              payload login_header
              (read_header-header_bytes msg_login total clear (payload ++ rest) (omega arith)
                (omega (arith, a, b)))
              (omega (arith, size)) (omega (arith, front, length-append payload rest))
              (omega (arith, size, a, b)) (omega (arith, size)) (take-append payload rest)
              (opened_clear suite c payload msg_login c.mode on)),
        refl,
        read_login-payload a b,
      )

  build_login-Read :
      (suite : Suite) (c : Session) (rest : List ℕ) (capacity : ℕ)
      → c.mode ≡ clear
      → Read suite c rest (build_login capacity username password version handshake)
  unfolding build_login
  build_login-Read suite c rest capacity on =
      if_cases (Read suite c rest)
        (length username == 0
          || (length password == 0
              || (ltb 63 (length username)
                  || (ltb 63 (length password) || (ltb capacity total || ltb buffer_size total)))))
        _ _ (λ _. tt)
        (λ fits.
          let seeded : take 16 handshake ≡ handshake =
            subst (λ n. take n handshake ≡ handshake) seed (take_all handshake) in
          let bound = short fits in rw seeded (sent-Read suite c rest on bound.0 bound.1))
    where
      short :
          (length username == 0
              || (length password == 0
                  || (ltb 63 (length username)
                      || (ltb 63 (length password)
                          || (ltb capacity total || ltb buffer_size total)))))
            ≡ false
          → (length username ≤ 63) × (length password ≤ 63)
      short h = ground arith

  -- A LOGIN message that a client builds, followed by anything, is parsed by the server in the clear,
  -- and its payload reads back as the name, the password, the version and the 16 bytes of the
  -- handshake that were sent, for texts without a byte 0.
  pub read_login-build_login :
      (suite : Suite) (c : Session) (capacity : ℕ) (out rest : List ℕ)
      → c.mode ≡ clear
      → build_login capacity username password version handshake ≡ some out
      → (h : Header) × (payload : List ℕ) × (parse suite c (out ++ rest) true
          ≡ some (c, h, payload))
        × (h.msg_id ≡ msg_login)
        × (read_login payload ≡ some (sent_login username password version handshake))
  read_login-build_login suite c capacity out rest on e =
      subst (Read suite c rest) e (build_login-Read suite c rest capacity on)
