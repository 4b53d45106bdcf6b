-- ===== src/Server/Accept/Unanswered.antt =====
-- A login and the control words after it.
use cccam_3_0_1_by_sharillas.Base.{
  ℕ, ◌≡◌, refl, subst, sym, ap, ◌&&◌, Option, none, some, List, arith, length, leb, Option-cases,
  Bool-cases, inl, inr, ◌∙◌,
}
use cccam_3_0_1_by_sharillas.Session.{
  Suite, Session, CryptMode, aes_gcm, mode_code, mode_of, set_crypto, crypt_mode_allowed, key_fits,
  reset_crypto,
}
use cccam_3_0_1_by_sharillas.Protocol.{LoginMessage, zeros, CwMessage, build_cw}
use cccam_3_0_1_by_sharillas.Protocol.Limits.{build-aes_gcm}
use cccam_3_0_1_by_sharillas.Users.{Users}
use cccam_3_0_1_by_sharillas.Handshake.{
  Digests, Random, HandshakeState, handshake_rsa_aes, handshake_legacy, rsa_aes_response_len,
  handle_login, get_session_key, derived_key, legacy_key,
}
use cccam_3_0_1_by_sharillas.Handshake.Codec.{HandshakeLaws}
use cccam_3_0_1_by_sharillas.Handshake.Agreement.{Agreed-modern, Agreed-old, modern, old}
use cccam_3_0_1_by_sharillas.Server.Accept.{
  LoggedIn, wire_keys, fitted_key, handshake_mode_to_crypt_mode, answer_login, after_handshake,
  finish_login,
}

abbrev mode_in : Option Session → CryptMode
mode_in none = aes_gcm
mode_in (some c) = c.mode

-- Every session that is set up in AES-GCM is in that mode.
set_crypto_mode :
    (bitmask : ℕ) (key : List ℕ) (c : Session)
    → set_crypto bitmask (mode_code aes_gcm) key ≡ some c
    → c.mode ≡ aes_gcm
unfolding set_crypto mode_of mode_code reset_crypto
set_crypto_mode bitmask key c e =
    elim (Bool-cases (crypt_mode_allowed bitmask aes_gcm && key_fits aes_gcm (length key))) [
      | inl on ↦ ap mode_in (sym e) ∙ rw (on, set_crypto) refl
      | inr off ↦ absurd (ground (arith, e, off))
    ]

-- The keys of the two handshakes on the wire.
pub wire_modern :
    (suite : Suite) (key : List ℕ)
    → length key ≡ 32
    → wire_keys suite (record { session_key = key; handshake_mode = handshake_rsa_aes })
      ≡ (mode_code aes_gcm, key)
unfolding wire_keys get_session_key handshake_mode_to_crypt_mode fitted_key mode_code
wire_modern suite key long = rw (long, wire_keys) (rw (long, fitted_key) refl)

wire_old :
    (suite : Suite) (key : List ℕ)
    → length key ≡ 20
    → wire_keys suite (record { session_key = key; handshake_mode = handshake_legacy })
      ≡ (mode_code aes_gcm, suite.sha256 key)
unfolding wire_keys get_session_key handshake_mode_to_crypt_mode fitted_key mode_code
wire_old suite key long = rw (long, wire_keys) (rw (long, fitted_key) refl)

-- The buffer for the response of the handshake.
abbrev pub answer_room : List ℕ
answer_room = zeros rsa_aes_response_len

-- The client of an answer is in AES-GCM mode.
abbrev InGcm : Option (LoggedIn × Option (List ℕ)) → Type 0
InGcm none = Unit
InGcm (some r) = r.0.crypto.mode ≡ aes_gcm

answer_login-InGcm :
    (suite : Suite) (bitmask : ℕ) (users : Users) (h : HandshakeState) (m : LoginMessage)
    (response key : List ℕ)
    → wire_keys suite h ≡ (mode_code aes_gcm, key)
    → InGcm (answer_login suite bitmask users h m response)
unfolding answer_login
answer_login-InGcm suite bitmask users h m response key wire =
    elim (Option-cases (set_crypto bitmask (mode_code aes_gcm) key)) [
      | inl n ↦ rw (wire, n, answer_login) tt
      | inr (c, e) ↦ rw (wire, e, answer_login) (set_crypto_mode bitmask key c e)
    ]

module _ (suite : Suite) (digests : Digests) (laws : HandshakeLaws suite digests) (bitmask : ℕ)
    (users : Users) (s : HandshakeState) (m : LoginMessage) (r : Random)
    (seeded : length r.seed ≡ 16) (nonce : length r.iv ≡ 12) where
  pub finish_login-after :
      (h : HandshakeState) (out : List ℕ)
      → handle_login suite digests s m r answer_room ≡ (h, some out)
      → finish_login suite digests bitmask users s m r
        ≡ (h, answer_login suite bitmask users h m out)
  unfolding finish_login after_handshake
  finish_login-after h out e = ap (after_handshake suite bitmask users m) e

  finish_login-InGcm : InGcm (finish_login suite digests bitmask users s m r).1
  unfolding zeros derived_key legacy_key
  finish_login-InGcm = elim (Bool-cases (leb 300 m.version)) [
    | inl new ↦
        let a = Agreed-modern suite digests laws m r answer_room seeded nonce refl s s new in
        rw (finish_login-after (modern digests m r) a.0 a.2.0) (
          answer_login-InGcm suite bitmask users (modern digests m r) m a.0 _
            (wire_modern suite (derived_key digests m r.seed) (laws.pbkdf2_length _ _ _ _)))
    | inr before ↦
        let a = Agreed-old suite digests laws m r answer_room seeded nonce refl s s before in
        rw (finish_login-after (old digests m r) _ a.0) (
          answer_login-InGcm suite bitmask users (old digests m r) m _ _
            (wire_old suite (legacy_key digests m r.seed) (laws.sha1_length _)))
  ]

  -- After any login that the server accepts, the session is in AES-GCM mode and no control word is
  -- ever built for the client: whatever the word and the room for the message, and for clients of
  -- any version.
  pub finish_login_unanswered :
      (c : LoggedIn) (ack : Option (List ℕ)) (capacity : ℕ) (w : CwMessage)
      → (finish_login suite digests bitmask users s m r).1 ≡ some (c, ack)
      → (c.crypto.mode ≡ aes_gcm) × (build_cw suite c.crypto capacity w ≡ none)
  unfolding build_cw
  finish_login_unanswered c ack capacity w e =
      let on = subst InGcm e finish_login-InGcm in
      (on, build-aes_gcm suite c.crypto capacity _ _ on)
