-- ===== src/Server/Accept/Remote.antt =====
-- Two servers: a reader of the one logs into the other.
use cccam_3_0_1_by_sharillas.Base.{
  ℕ, zero, suc, ◌≤◌, ◌≡◌, refl, subst, sym, ap, true, false, ◌||◌, some, List, [], ◌∷◌, ◌++◌, arith,
  length, length-append, take, drop, ltb, Bool-cases, inl, inr,
}
use cccam_3_0_1_by_sharillas.Session.{
  Suite, read_be32, Session, aes_gcm, clear, mode_code, mode_of, set_crypto, reset_crypto,
  crypt_mode_allowed, key_fits, be32,
}
use cccam_3_0_1_by_sharillas.Protocol.{
  Header, LoginMessage, read_header, zeros, buffer_size, header_bytes, be16, parse, build_login,
  build_login_ack, msg_login_ack,
}
use cccam_3_0_1_by_sharillas.Protocol.Framing.{read_header-header_bytes}
use cccam_3_0_1_by_sharillas.Protocol.Wire.{parse_whole}
use cccam_3_0_1_by_sharillas.Protocol.Messages.{take_all, take_front}
use cccam_3_0_1_by_sharillas.Users.{Users}
use cccam_3_0_1_by_sharillas.Handshake.{
  Digests, Random, HandshakeState, rsa_aes_response_len, derived_key, get_response_len,
  get_session_key, handle_login_response,
}
use cccam_3_0_1_by_sharillas.Handshake.Codec.{HandshakeLaws}
use cccam_3_0_1_by_sharillas.Handshake.Agreement.{Agreed-modern, modern, take_whole}
use cccam_3_0_1_by_sharillas.Server.Accept.{
  LoggedIn, answer_login, finish_login, fitted_key, hops_of,
}
use cccam_3_0_1_by_sharillas.Server.Login.Reading.{opened_clear, sent_login}
use cccam_3_0_1_by_sharillas.Server.Accept.Unanswered.{finish_login-after, wire_modern, answer_room}
use cccam_3_0_1_by_sharillas.Readers.Remote.{
  remote_read_message, remote_message, remote_session, remote_accepted, remote_ensure_login,
  remote_wire_mode,
}

take_short : (n : ℕ) (xs : List ℕ) → length xs ≤ n → take n xs ≡ xs
take_short zero [] h = refl
take_short zero (x ∷ xs) h = absurd (omega (arith, h))
take_short (suc n) [] h = refl
take_short (suc n) (x ∷ xs) h = ap (λ ys. x ∷ ys) (take_short n xs (omega (arith, h)))

-- The session that both ends hold.
abbrev pub gcm_session : List ℕ → Session
gcm_session key = record reset_crypto { mode = aes_gcm; key = key }

gcm_set :
    (bitmask : ℕ) (key : List ℕ)
    → crypt_mode_allowed bitmask aes_gcm ≡ true
    → length key ≡ 32
    → set_crypto bitmask (mode_code aes_gcm) key ≡ some (gcm_session key)
unfolding set_crypto mode_of mode_code key_fits reset_crypto
gcm_set bitmask key allowed long = rw (allowed, long, set_crypto) refl

abbrev ack_of : List ℕ → List ℕ
ack_of out = header_bytes msg_login_ack 72 clear ++ out

ack_fits :
    (n total : ℕ)
    → total ≡ 72
    → 72 ≤ n
    → (ltb n 12 || (ltb total 12 || (ltb 4096 total || ltb n total))) ≡ false
ack_fits n total a b = ground arith

-- A LOGIN_ACK parsed on its own.
ack_parsed :
    (suite : Suite) (c : Session) (out : List ℕ)
    → c.mode ≡ clear
    → length out ≡ rsa_aes_response_len
    → (h : Header) × (parse suite c (ack_of out) true ≡ some (c, h, out))
      × (h.msg_id ≡ msg_login_ack)
unfolding header_bytes be32 be16
ack_parsed suite c out on sized = (
  _,
  parse_whole suite c c (ack_of out) out out _
      (read_header-header_bytes msg_login_ack 72 clear out (omega arith) (omega arith))
      (omega (arith, sized)) (omega (arith, sized)) (omega (arith, sized)) (omega (arith, sized))
      (take_all out) (opened_clear suite c out msg_login_ack c.mode on),
  refl,
)

-- The reader's reading of a LOGIN_ACK with more behind it.
ack_read :
    (suite : Suite) (c : Session) (out more : List ℕ)
    → c.mode ≡ clear
    → length out ≡ rsa_aes_response_len
    → (h : Header) × (remote_read_message suite c (ack_of out ++ more) true ≡ some (c, h, out))
      × (h.msg_id ≡ msg_login_ack)
unfolding remote_read_message header_bytes be32 be16 read_header
ack_read suite c out more on sized =
    let (h, parsed, id) = ack_parsed suite c out on sized in
    let front : length (ack_of out) ≡ 72 = omega (arith, sized) in
    let total : read_be32 (drop 4 (ack_of out ++ more)) ≡ 72 =
      ap (λ (h : Header). h.msg_len)
        (read_header-header_bytes msg_login_ack 72 clear (out ++ more) (omega arith)
          (omega arith)) in
    (
      h,
      rw
          (
            ack_fits (length (ack_of out ++ more)) (read_be32 (drop 4 (ack_of out ++ more))) total
                (omega (arith, length-append (ack_of out) more, front)),
            total,
            take_front 72 (ack_of out) more front,
            remote_read_message,
          )
          parsed,
      id,
    )

remote_keys :
    (suite : Suite) (bitmask : ℕ) (crypto : Session) (digests : Digests) (m : LoginMessage)
    (r : Random)
    → crypt_mode_allowed bitmask aes_gcm ≡ true
    → length (derived_key digests m r.seed) ≡ 32
    → remote_session suite bitmask (modern digests m r) crypto
      ≡ some (gcm_session (derived_key digests m r.seed))
unfolding remote_session get_session_key remote_wire_mode fitted_key mode_code
remote_keys suite bitmask crypto digests m r allowed long =
    rw (long, remote_session)
      (rw (long, fitted_key) (gcm_set bitmask (derived_key digests m r.seed) allowed long))

answered :
    (suite : Suite) (bitmask : ℕ) (users : Users) (digests : Digests) (m : LoginMessage)
    (r : Random) (out : List ℕ)
    → crypt_mode_allowed bitmask aes_gcm ≡ true
    → length (derived_key digests m r.seed) ≡ 32
    → length out ≡ rsa_aes_response_len
    → (c : LoggedIn) × (answer_login suite bitmask users (modern digests m r) m out
        ≡ some (c, some (ack_of out)))
      × (c.crypto ≡ gcm_session (derived_key digests m r.seed))
unfolding answer_login get_response_len build_login_ack
answered suite bitmask users digests m r out allowed long sized = (
  record {
    crypto = gcm_session (derived_key digests m r.seed);
    username = m.username;
    version = m.version;
    crypt_mode = mode_code aes_gcm;
    hop_count = hops_of users m.username;
  },
  rw
      (
        wire_modern suite (derived_key digests m r.seed) long,
        gcm_set bitmask (derived_key digests m r.seed) allowed long,
        take_whole rsa_aes_response_len out sized,
        answer_login,
      )
      (rw (wire_modern suite (derived_key digests m r.seed) long, sized, build_login_ack) refl),
  refl,
)

build_login_short :
    (user pass seed sent : List ℕ)
    → build_login buffer_size user pass 301 seed ≡ some sent
    → (length user ≤ 63) × (length pass ≤ 63)
unfolding build_login
build_login_short user pass seed sent e =
    elim (Bool-cases (ltb 63 (length user) || ltb 63 (length pass))) [
      | inr fits ↦ ground (arith, fits)
      | inl long ↦ absurd (ground (arith, e, long))
    ]

module _ (suite : Suite) (digests : Digests) (laws : HandshakeLaws suite digests)
    (server_bits client_bits : ℕ) (users : Users) (s t : HandshakeState) (crypto : Session)
    (user pass seed sent more : List ℕ) (r : Random) (seeded : length r.seed ≡ 16)
    (nonce : length r.iv ≡ 12) where
  remote_message_sent :
      build_login buffer_size user pass 301 seed ≡ some sent
      → remote_message user pass seed ≡ sent_login user pass 301 seed
  unfolding remote_message
  remote_message_sent e =
      let (a, b) = build_login_short user pass seed sent e in
      rw (take_short 63 user a, take_short 63 pass b) refl

  -- A reader logs into a server with a login message that can be built: if both allow AES-GCM, the
  -- server answers, and the reader makes of its answer, whatever is behind it, the session that the
  -- server holds, with the same mode, key and counters.
  pub remote_ensure_login-finish_login :
      build_login buffer_size user pass 301 seed ≡ some sent
      → crypt_mode_allowed server_bits aes_gcm ≡ true
      → crypt_mode_allowed client_bits aes_gcm ≡ true
      → (c : LoggedIn) × (ack : List ℕ) × (agreed : HandshakeState) × (finish_login suite digests
            server_bits users s
            (sent_login user pass 301 seed)
            r
          ≡ (agreed, some (c, some ack)))
        × (remote_ensure_login suite digests client_bits t crypto user pass seed
              (some (ack ++ more))
              true
            ≡ (agreed, some c.crypto))
  unfolding zeros remote_ensure_login remote_accepted derived_key get_response_len reset_crypto
  remote_ensure_login-finish_login built theirs ours =
      let m = sent_login user pass 301 seed in
      let (out, sized, (sends, reads)) =
        Agreed-modern suite digests laws m r answer_room seeded nonce refl s t refl in
      let long : length (derived_key digests m r.seed) ≡ 32 = laws.pbkdf2_length _ _ _ _ in
      let (c, answer, key) = answered suite server_bits users digests m r out theirs long sized in
      let (h, shown, id) = ack_read suite reset_crypto out more refl sized in
      let reads_all : handle_login_response suite digests t m out ≡ (modern digests m r, true) =
        subst (λ k. handle_login_response suite digests t m k ≡ (modern digests m r, true))
          (take_whole rsa_aes_response_len out sized) reads in
      let session = remote_keys suite client_bits crypto digests m r ours long in
      (
        c,
        ack_of out,
        modern digests m r,
        rw
            (
              finish_login-after suite digests laws server_bits users s m r seeded nonce
                  (modern digests m r) out sends,
              answer,
            )
            refl,
        rw (built, remote_message_sent built, shown, remote_ensure_login)
            (rw (id, reads_all, session, remote_accepted)
              (ap (λ k. (modern digests m r, some k)) (sym key))),
      )
