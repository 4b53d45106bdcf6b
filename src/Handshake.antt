-- ===== src/Handshake.antt =====
-- src/network/cccam3_handshake.c and cccam3_handshake_advanced.c: the agreement on the key of a
-- session. The global variables are a HandshakeState, whose key is the bytes of g_session_key up to
-- its length; what RAND_bytes gives is an argument. SHA-1, SHA-256, PBKDF2 and AES-GCM are
-- OpenSSL's. The RSA key, which only the two functions on signatures use, is left out.
pub mod Agreement
pub mod Codec
pub mod Tests
use cccam_3_0_1_by_sharillas.Base.{
  ℕ, ◌+◌, ◌-◌, Bool, true, false, ◌||◌, not, Option, none, some, List, [], ◌++◌, ltb, leb, ◌==◌,
  if◌then◌else◌, length, take, drop, bit_and, same_text,
}
use cccam_3_0_1_by_sharillas.Session.{Suite, aes_by_key}
use cccam_3_0_1_by_sharillas.Protocol.{LoginMessage}

-- PBKDF2 with HMAC-SHA-256, on the password, the salt, the iterations and the length of the key;
-- and SHA-1.
pub record Digests : Type 0 where
  pub pbkdf2 : List ℕ → List ℕ → ℕ → ℕ → List ℕ
  pub sha1 : List ℕ → List ℕ

-- What is random in a handshake, and the 16 bytes of `tag` on the stack before it is written.
pub record Random : Type 0 where
  pub seed : List ℕ
  pub iv : List ℕ
  pub stack : List ℕ

pub record HandshakeState : Type 0 where
  pub session_key : List ℕ
  pub handshake_mode : ℕ

-- The `HANDSHAKE_MODE_*`.
abbrev pub handshake_legacy : ℕ
handshake_legacy = 0x00

abbrev pub handshake_rc4 : ℕ
handshake_rc4 = 0x01

abbrev pub handshake_aes : ℕ
handshake_aes = 0x02

abbrev pub handshake_aes_gcm : ℕ
handshake_aes_gcm = 0x03

abbrev pub handshake_rsa_aes : ℕ
handshake_rsa_aes = 0x04

abbrev pub rsa_aes_response_len : ℕ
rsa_aes_response_len = 16 + 12 + 16 + 16

abbrev pub legacy_response_len : ℕ
legacy_response_len = 16

-- `cccam_crypto_aes_gcm_encrypt`, with the tag it writes.
unfoldable pub gcm_encrypt : Suite → List ℕ → List ℕ → List ℕ → Option (List ℕ × List ℕ)
gcm_encrypt suite key iv bytes =
    if not (length iv == 12) then none else elim (aes_by_key (length key)) [
      | none ↦ none
      | some cipher ↦ suite.gcm_seal cipher key iv [] bytes
    ]

-- `cccam_crypto_aes_gcm_decrypt`
unfoldable pub gcm_decrypt : Suite → List ℕ → List ℕ → List ℕ → List ℕ → Option (List ℕ)
gcm_decrypt suite key iv bytes tag =
    if not (length iv == 12) || not (length tag == 16)
    then none
    else elim (aes_by_key (length key)) [
      | none ↦ none
      | some cipher ↦ suite.gcm_open cipher key iv [] bytes tag
    ]

-- `cccam_handshake_advanced_init`; `generated` says whether there is an RSA key.
unfoldable pub advanced_init : HandshakeState → Bool → HandshakeState × Bool
advanced_init s generated =
    if generated
    then (record { session_key = []; handshake_mode = handshake_legacy }, true)
    else (s, false)

-- `cccam_handshake_advanced_cleanup`
unfoldable pub advanced_cleanup : HandshakeState → HandshakeState
advanced_cleanup s = record s { session_key = [] }

-- The key of the modern handshake, at both ends.
unfoldable pub derived_key : Digests → LoginMessage → List ℕ → List ℕ
derived_key digests login seed = digests.pbkdf2 login.password (login.handshake ++ seed) 10000 32

-- The key of the old one.
unfoldable pub legacy_key : Digests → LoginMessage → List ℕ → List ℕ
legacy_key digests login seed = digests.sha1 (login.handshake ++ (seed ++ login.password))

-- The encrypted seed and its tag, from byte 28 of the response. What `cccam_crypto_aes_gcm_encrypt`
-- returns is not tested: if it fails, the buffer and the stack keep what they had.
unfoldable pub sealed_seed : Suite → List ℕ → Random → List ℕ → List ℕ
sealed_seed suite key r buffer = elim (gcm_encrypt suite key r.iv r.seed) [
  | none ↦ take 16 (drop 28 buffer) ++ r.stack
  | some sealed ↦ sealed.0 ++ sealed.1
]

-- `cccam_handshake_rsa_server`, on the buffer for the response.
unfoldable pub rsa_server :
    Suite
    → Digests
    → HandshakeState
    → LoginMessage
    → Random
    → List ℕ
    → HandshakeState × Option (List ℕ)
rsa_server suite digests s login r buffer =
    if ltb (length buffer) rsa_aes_response_len then (s, none) else (
      record { session_key = derived_key digests login r.seed; handshake_mode = handshake_rsa_aes },
      some (
          r.seed
          ++ (r.iv
              ++ (sealed_seed suite (derived_key digests login r.seed) r buffer
                  ++ drop rsa_aes_response_len buffer))),
    )

-- `cccam_handshake_rsa_client`: the key is set before it is tested.
unfoldable pub rsa_client :
    Suite → Digests → HandshakeState → LoginMessage → List ℕ → HandshakeState × Bool
rsa_client suite digests s login response =
    let seed = take 16 response in
    let key = derived_key digests login seed in
    let keyed : HandshakeState = record s { session_key = key } in
    elim (gcm_decrypt suite key (take 12 (drop 16 response)) (take 16 (drop 28 response))
      (take 16 (drop 44 response))) [
        | none ↦ (keyed, false)
        | some found ↦
            if same_text found seed
            then (record keyed { handshake_mode = handshake_rsa_aes }, true)
            else (keyed, false)
      ]

-- `cccam_handshake_legacy_server`
unfoldable pub legacy_server :
    Digests → HandshakeState → LoginMessage → Random → List ℕ → HandshakeState × Option (List ℕ)
legacy_server digests s login r buffer = if ltb (length buffer) 16 then (s, none) else (
  record { session_key = legacy_key digests login r.seed; handshake_mode = handshake_legacy },
  some (r.seed ++ drop 16 buffer),
)

-- `cccam_handshake_legacy_client`
unfoldable pub legacy_client : Digests → LoginMessage → List ℕ → HandshakeState × Bool
legacy_client digests login response = (
  record {
    session_key = legacy_key digests login (take 16 response);
    handshake_mode = handshake_legacy;
  },
  true,
)

-- `cccam_handshake_negotiate_mode`, which tests the bits of the mode that it is given.
unfoldable pub negotiate_mode : ℕ → ℕ
negotiate_mode client_mode =
    if not (bit_and client_mode handshake_rsa_aes == 0)
    then handshake_rsa_aes
    else (if not (bit_and client_mode handshake_aes_gcm == 0)
        then handshake_aes_gcm
        else (if not (bit_and client_mode handshake_aes == 0)
            then handshake_aes
            else (if not (bit_and client_mode handshake_rc4 == 0)
                then handshake_rc4
                else handshake_legacy)))

-- `cccam_protocol_handle_login`
unfoldable pub handle_login :
    Suite
    → Digests
    → HandshakeState
    → LoginMessage
    → Random
    → List ℕ
    → HandshakeState × Option (List ℕ)
handle_login suite digests s login r buffer =
    let mode =
      negotiate_mode (if leb 300 login.version then handshake_rsa_aes else handshake_legacy) in
    let negotiated : HandshakeState = record s { handshake_mode = mode } in
    if length buffer == 0
    then (s, none)
    else (if leb handshake_rsa_aes mode
        then rsa_server suite digests negotiated login r buffer
        else legacy_server digests negotiated login r buffer)

-- `cccam_protocol_handle_login_response`
unfoldable pub handle_login_response :
    Suite → Digests → HandshakeState → LoginMessage → List ℕ → HandshakeState × Bool
handle_login_response suite digests s login response =
    if leb rsa_aes_response_len (length response)
    then rsa_client suite digests s login response
    else (if leb legacy_response_len (length response)
        then legacy_client digests login response
        else (s, false))

-- `cccam_handshake_get_response_len`
unfoldable pub get_response_len : HandshakeState → ℕ
get_response_len s = if leb handshake_rsa_aes s.handshake_mode then rsa_aes_response_len else 16

-- `cccam_handshake_get_session_key`, with the room for the key.
unfoldable pub get_session_key : HandshakeState → ℕ → Option (List ℕ)
get_session_key s room =
    if length s.session_key == 0
    then none
    else (if ltb room (length s.session_key) then none else some s.session_key)

-- `cccam_handshake_encrypt`; `allocated` says whether malloc succeeds.
unfoldable pub handshake_encrypt :
    Suite → HandshakeState → List ℕ → ℕ → List ℕ → Bool → Option (List ℕ)
handshake_encrypt suite s bytes capacity iv allocated =
    if length bytes == 0
    then none
    else (if s.handshake_mode == handshake_rsa_aes || s.handshake_mode == handshake_aes_gcm
        then (if ltb capacity (length bytes + 12 + 16) || not allocated
            then none
            else elim (gcm_encrypt suite s.session_key iv bytes) [
              | none ↦ none
              | some sealed ↦ some (iv ++ (sealed.0 ++ sealed.1))
            ])
        else (if s.handshake_mode == handshake_aes || s.handshake_mode == handshake_rc4
            then none
            else some bytes))

-- What lies between the nonce and the tag of an encrypted message, and the tag.
unfoldable pub cipher_part : List ℕ → List ℕ
cipher_part bytes = take (length bytes - 12 - 16) (drop 12 bytes)

unfoldable pub tag_part : List ℕ → List ℕ
tag_part bytes = drop (length bytes - 16) bytes

-- `cccam_handshake_decrypt`
unfoldable pub handshake_decrypt : Suite → HandshakeState → List ℕ → Bool → Option (List ℕ)
handshake_decrypt suite s bytes allocated =
    if length bytes == 0
    then none
    else (if s.handshake_mode == handshake_rsa_aes || s.handshake_mode == handshake_aes_gcm
        then (if ltb (length bytes) (12 + 16) || not allocated
            then none
            else gcm_decrypt suite s.session_key (take 12 bytes) (cipher_part bytes)
                (tag_part bytes))
        else (if s.handshake_mode == handshake_aes || s.handshake_mode == handshake_rc4
            then none
            else some bytes))
