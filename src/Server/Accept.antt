-- ===== src/Server/Accept.antt =====
-- src/core/cccam3_server.c, handle_client_login from server_login_success on: the handshake, the
-- session's cipher and the LOGIN_ACK. The level of the user, which is only written to the log, is
-- left out.
pub mod Unanswered
pub mod Remote
mod Tests
use cccam_3_0_1_by_sharillas.Base.{
  ℕ, Bool, ◌&&◌, not, Option, none, some, List, [], ◌==◌, if◌then◌else◌, length, take,
}
use cccam_3_0_1_by_sharillas.Session.{
  Suite, Session, mode_code, clear, rc4, aes, aes_gcm, set_crypto,
}
use cccam_3_0_1_by_sharillas.Protocol.{LoginMessage, buffer_size, build_login_ack, zeros}
use cccam_3_0_1_by_sharillas.Users.{Users, get_max_hops}
use cccam_3_0_1_by_sharillas.Handshake.{
  Digests, Random, HandshakeState, handshake_legacy, handshake_rc4, handshake_aes,
  handshake_aes_gcm, handshake_rsa_aes, rsa_aes_response_len, handle_login, get_session_key,
  get_response_len,
}

-- What an accepted login writes to its client.
pub record LoggedIn : Type 0 where
  pub crypto : Session
  pub username : List ℕ
  pub version : ℕ
  pub crypt_mode : ℕ
  pub hop_count : ℕ

unfoldable pub handshake_mode_to_crypt_mode : ℕ → ℕ
handshake_mode_to_crypt_mode mode =
    if mode == handshake_legacy
    then mode_code aes_gcm
    else (if mode == handshake_rc4
        then mode_code rc4
        else (if mode == handshake_aes
            then mode_code aes
            else (if mode == handshake_aes_gcm
                then mode_code aes_gcm
                else (if mode == handshake_rsa_aes then mode_code aes_gcm else mode_code clear))))

-- A key that AES-GCM does not take is replaced by its SHA-256.
unfoldable pub fitted_key : Suite → ℕ → List ℕ → List ℕ
fitted_key suite wire_mode key =
    if wire_mode == mode_code aes_gcm
      && (not (length key == 16) && (not (length key == 24) && not (length key == 32)))
    then suite.sha256 key
    else key

-- The mode on the wire and the key.
unfoldable pub wire_keys : Suite → HandshakeState → ℕ × List ℕ
wire_keys suite h = elim (get_session_key h 32) [
  | none ↦ (mode_code clear, [])
  | some key ↦
      let mode = handshake_mode_to_crypt_mode h.handshake_mode in (mode, fitted_key suite mode key)
]

-- The user's limit, or 0.
unfoldable pub hops_of : Users → List ℕ → ℕ
hops_of users name = elim (get_max_hops users name) [ none ↦ 0 | some hops ↦ hops ]

-- From `cccam_protocol_set_crypto` on: the client and the LOGIN_ACK, which is sent if it was built.
unfoldable pub answer_login :
    Suite → ℕ → Users → HandshakeState → LoginMessage → List ℕ → Option (LoggedIn × Option (List ℕ))
answer_login suite bitmask users h m response =
    let wire = wire_keys suite h in
    elim (set_crypto bitmask wire.0 wire.1) [
      | none ↦ none
      | some session ↦ some (
        record {
          crypto = session;
          username = m.username;
          version = m.version;
          crypt_mode = wire.0;
          hop_count = hops_of users m.username;
        },
        build_login_ack buffer_size (take (get_response_len h) response),
      )
    ]

-- What follows the handshake.
unfoldable pub after_handshake :
    Suite
    → ℕ
    → Users
    → LoginMessage
    → HandshakeState × Option (List ℕ)
    → HandshakeState × Option (LoggedIn × Option (List ℕ))
after_handshake suite bitmask users m (h, none) = (h, none)
after_handshake suite bitmask users m (h, some response) =
    (h, answer_login suite bitmask users h m response)

-- The end of `handle_client_login`; `bitmask` are the modes that the server allows.
unfoldable pub finish_login :
    Suite
    → Digests
    → ℕ
    → Users
    → HandshakeState
    → LoginMessage
    → Random
    → HandshakeState × Option (LoggedIn × Option (List ℕ))
finish_login suite digests bitmask users s m r =
    after_handshake suite bitmask users m
      (handle_login suite digests s m r (zeros rsa_aes_response_len))
