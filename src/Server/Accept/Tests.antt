-- ===== src/Server/Accept/Tests.antt =====
-- Logins from one server into another, and instances of their theorems.
use cccam_3_0_1_by_sharillas.Base.{find_first, ℕ, ◌≡◌, refl, true, none, some, List, [], ◌∷◌, ◌++◌}
use cccam_3_0_1_by_sharillas.Session.{
  aes_gcm, clear, reset_crypto, crypt_mode_allowed, mode_bit, set_crypto, mode_of, mode_code,
  key_fits,
}
use cccam_3_0_1_by_sharillas.Session.Tests.{block}
use cccam_3_0_1_by_sharillas.Protocol.{
  CwMessage, build_cw, build_login, build_login_ack, buffer_size, header_bytes, msg_login, zeros,
}
use cccam_3_0_1_by_sharillas.Users.{Users, get_max_hops, find_user}
use cccam_3_0_1_by_sharillas.Handshake.{
  HandshakeState, handle_login, negotiate_mode, legacy_server, legacy_key, get_session_key,
  get_response_len,
}
use cccam_3_0_1_by_sharillas.Handshake.Tests.{
  zero_suite, zero_digests, zero-HandshakeLaws, dice, at_rest, old_client,
}
use cccam_3_0_1_by_sharillas.Server.Login.Reading.{sent_login, login_payload}
use cccam_3_0_1_by_sharillas.Server.Accept.{
  LoggedIn, finish_login, after_handshake, answer_login, wire_keys, handshake_mode_to_crypt_mode,
  fitted_key, hops_of,
}
use cccam_3_0_1_by_sharillas.Server.Accept.Unanswered.{finish_login_unanswered}
use cccam_3_0_1_by_sharillas.Server.Accept.Remote.{gcm_session, remote_ensure_login-finish_login}
use cccam_3_0_1_by_sharillas.Readers.Remote.{remote_ensure_login}

abbrev nobody : Users
nobody = record { users = []; count = 0; next_id = 1; initialized = true }

abbrev word : CwMessage
word = record { ecm_time = 1000; cw = block; hop = 2; caid = 0x1810; provid = 0; sid = 30 }

abbrev name : List ℕ
name = 101 ∷ 118 ∷ 101 ∷ []

sent : List ℕ
sent = header_bytes msg_login 40 clear ++ login_payload name name 301 block

built : build_login buffer_size name name 301 block ≡ some sent
unfolding build_login sent
built = refl

allowed_all : crypt_mode_allowed 0 aes_gcm ≡ true
unfolding crypt_mode_allowed
allowed_all = refl

allowed_gcm : crypt_mode_allowed 0x10 aes_gcm ≡ true
unfolding crypt_mode_allowed mode_bit
allowed_gcm = refl

remote_ensure_login-finish_login_example :
    (c : LoggedIn) × (ack : List ℕ) × (agreed : HandshakeState) × (finish_login zero_suite
        zero_digests 0 nobody at_rest
        (sent_login name name 301 block)
        dice
      ≡ (agreed, some (c, some ack)))
    × (remote_ensure_login zero_suite zero_digests 0x10 at_rest reset_crypto name name block
          (some (ack ++ block))
          true
        ≡ (agreed, some c.crypto))
remote_ensure_login-finish_login_example =
    remote_ensure_login-finish_login zero_suite zero_digests zero-HandshakeLaws 0 0x10 nobody
      at_rest at_rest reset_crypto name name block sent block dice refl refl built allowed_all
      allowed_gcm

abbrev old_logged : LoggedIn
old_logged = record {
  crypto = gcm_session (zeros 32);
  username = 97 ∷ [];
  version = 230;
  crypt_mode = 0x11;
  hop_count = 0;
}

old_finished :
    (finish_login zero_suite zero_digests 0 nobody at_rest old_client dice).1
    ≡ some (old_logged, build_login_ack buffer_size block)
unfolding finish_login after_handshake answer_login handle_login negotiate_mode legacy_server
    legacy_key wire_keys get_session_key handshake_mode_to_crypt_mode fitted_key set_crypto mode_of
    mode_code crypt_mode_allowed key_fits reset_crypto hops_of get_max_hops find_user
    get_response_len zeros find_first
old_finished = refl

finish_login_unanswered_example :
    (old_logged.crypto.mode ≡ aes_gcm) × (build_cw zero_suite old_logged.crypto 1024 word ≡ none)
finish_login_unanswered_example =
    finish_login_unanswered zero_suite zero_digests zero-HandshakeLaws 0 nobody at_rest old_client
      dice refl refl old_logged (build_login_ack buffer_size block) 1024 word old_finished
