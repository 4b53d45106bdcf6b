-- ===== src/Readers/Remote.antt =====
-- src/CCshare/cccam3_card_manager.c: remote_read_message and remote_ensure_login, by which a reader
-- logs into another server. What the socket receives after the LOGIN is an argument, `none` where
-- the sending or the receiving fails; without a context a message is parsed in the clear.
use cccam_3_0_1_by_sharillas.Base.{
  ℕ, Bool, ◌||◌, Option, none, some, List, ltb, ◌==◌, if◌then◌else◌, length, take, drop,
}
use cccam_3_0_1_by_sharillas.Session.{
  Suite, Session, mode_code, clear, rc4, aes, aes_gcm, set_crypto, reset_crypto, read_be32,
}
use cccam_3_0_1_by_sharillas.Protocol.{
  Header, LoginMessage, header_size, buffer_size, parse, build_login, msg_login_ack,
}
use cccam_3_0_1_by_sharillas.Handshake.{
  Digests, HandshakeState, handshake_legacy, handshake_rc4, handshake_aes, handshake_aes_gcm,
  handshake_rsa_aes, handle_login_response, get_session_key,
}
use cccam_3_0_1_by_sharillas.Server.Accept.{fitted_key}

-- `remote_read_message`, on what the socket holds.
unfoldable pub remote_read_message :
    Suite → Session → List ℕ → Bool → Option (Session × Header × List ℕ)
remote_read_message suite c bytes allocated =
    let total = read_be32 (drop 4 bytes) in
    if ltb (length bytes) header_size
      || (ltb total header_size || (ltb buffer_size total || ltb (length bytes) total))
    then none
    else parse suite c (take total bytes) allocated

unfoldable pub remote_wire_mode : ℕ → ℕ
remote_wire_mode mode =
    if mode == handshake_rsa_aes || (mode == handshake_aes_gcm || mode == handshake_legacy)
    then mode_code aes_gcm
    else (if mode == handshake_aes
        then mode_code aes
        else (if mode == handshake_rc4 then mode_code rc4 else mode_code clear))

-- The session after the handshake; without a key the reader keeps the context that it had.
unfoldable pub remote_session : Suite → ℕ → HandshakeState → Session → Option Session
remote_session suite bitmask h crypto = elim (get_session_key h 32) [
  | none ↦ some crypto
  | some key ↦
      let mode = remote_wire_mode h.handshake_mode in
      set_crypto bitmask mode (fitted_key suite mode key)
]

-- The message that the reader keeps of its login, its texts cut to 63 bytes.
unfoldable pub remote_message : List ℕ → List ℕ → List ℕ → LoginMessage
remote_message user pass seed = record {
  handshake = seed;
  username = take 63 user;
  password = take 63 pass;
  version = 301;
}

-- The LOGIN_ACK is read.
unfoldable pub remote_accepted :
    Suite
    → Digests
    → ℕ
    → HandshakeState
    → Session
    → LoginMessage
    → Option (Session × Header × List ℕ)
    → HandshakeState × Option Session
remote_accepted suite digests bitmask s crypto login none = (s, none)
remote_accepted suite digests bitmask s crypto login (some (c, h, payload)) =
    if h.msg_id == msg_login_ack
    then (let r = handle_login_response suite digests s login payload in
        (r.0, if r.1 then remote_session suite bitmask r.0 crypto else none))
    else (s, none)

-- `remote_ensure_login` of a reader that is not logged in yet.
unfoldable pub remote_ensure_login :
    Suite
    → Digests
    → ℕ
    → HandshakeState
    → Session
    → List ℕ
    → List ℕ
    → List ℕ
    → Option (List ℕ)
    → Bool
    → HandshakeState × Option Session
remote_ensure_login suite digests bitmask s crypto user pass seed received allocated =
    elim (build_login buffer_size user pass 301 seed) [
      | none ↦ (s, none)
      | some sent ↦ elim received [
        | none ↦ (s, none)
        | some bytes ↦
            remote_accepted suite digests bitmask s crypto (remote_message user pass seed)
              (remote_read_message suite reset_crypto bytes allocated)
      ]
    ]
