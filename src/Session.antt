-- ===== src/Session.antt =====
-- src/network/cccam3_protocol.c, the cipher of a session, with the CBC functions of
-- cccam3_crypto.c and the GCM functions of cccam3_crypto_advanced.c. What OpenSSL computes is the
-- record Suite. A byte array is a list, `none` is the return value -1; a null context is one in
-- clear mode. The counters are unbounded numbers, written to the nonce as 64 bits.
pub mod Rules
pub mod Nonce
pub mod Peer
pub mod Setup
pub mod Tests
use cccam_3_0_1_by_sharillas.Base.{
  ℕ, ◌+◌, ◌-◌, ◌*◌, ◌/◌, ◌%◌, ◌^◌, Bool, true, false, ◌&&◌, ◌||◌, not, Option, none, some, List, [],
  ◌∷◌, ◌++◌, ltb, ◌==◌, if◌then◌else◌, length, take, drop, bit_and,
}
use cccam_3_0_1_by_sharillas.Rc4.{Rc4, rc4_init, rc4_stream, byte_at}

-- The `CCCAM_CRYPT_MODE_*` that a session can be in.
pub data CryptMode : Type 0 where
  clear rc4 aes triple_des aes_gcm : CryptMode

unfoldable pub mode_code : CryptMode → ℕ
mode_code clear = 0x00
mode_code rc4 = 0x01
mode_code aes = 0x02
mode_code triple_des = 0x10
mode_code aes_gcm = 0x11

unfoldable pub mode_of : ℕ → Option CryptMode
mode_of m =
    if m == 0x00
    then some clear
    else (if m == 0x01
        then some rc4
        else (if m == 0x02
            then some aes
            else (if m == 0x10
                then some triple_des
                else (if m == 0x11 then some aes_gcm else none))))

pub data Algorithm : Type 0 where
  aes_128 aes_192 aes_256 des_ede3 : Algorithm

-- OpenSSL: the block ciphers in CBC without padding, with `true` for encryption, AES-GCM with a tag of 16 bytes,
-- and SHA-256. Their arguments are the key, the initial vector or nonce, for GCM the further
-- authenticated data, the data, and for `gcm_open` the tag.
pub record Suite : Type 0 where
  pub cbc : Algorithm → Bool → List ℕ → List ℕ → List ℕ → Option (List ℕ)
  pub gcm_seal : Algorithm → List ℕ → List ℕ → List ℕ → List ℕ → Option (List ℕ × List ℕ)
  pub gcm_open : Algorithm → List ℕ → List ℕ → List ℕ → List ℕ → List ℕ → Option (List ℕ)
  pub sha256 : List ℕ → List ℕ

-- `cccam_crypto_ctx_t`; the length of `key` is `key_len`.
pub record Session : Type 0 where
  pub mode : CryptMode
  pub key : List ℕ
  pub tx_counter : ℕ
  pub rx_counter : ℕ
  pub tx : Rc4
  pub rx : Rc4

abbrev pub rc4_blank : Rc4
rc4_blank = record { s = []; i = 0; j = 0; ready = false }

unfoldable pub reset_crypto : Session
reset_crypto = record {
  mode = clear;
  key = [];
  tx_counter = 0;
  rx_counter = 0;
  tx = rc4_blank;
  rx = rc4_blank;
}

-- The bits of g_allowed_crypt_modes; 0 allows everything.
unfoldable pub mode_bit : CryptMode → ℕ
mode_bit clear = 0
mode_bit rc4 = 0x01
mode_bit aes = 0x02
mode_bit triple_des = 0x04
mode_bit aes_gcm = 0x10

unfoldable pub crypt_mode_allowed : ℕ → CryptMode → Bool
crypt_mode_allowed bitmask clear = true
crypt_mode_allowed bitmask m = bitmask == 0 || not (bit_and bitmask (mode_bit m) == 0)

-- The tests on the key of `cccam_protocol_set_crypto`.
unfoldable pub key_fits : CryptMode → ℕ → Bool
key_fits clear n = true
key_fits rc4 n = not (n == 0) && not (ltb 32 n)
key_fits triple_des n = n == 24
key_fits _ n = n == 16 || (n == 24 || n == 32)

-- `cccam_protocol_set_crypto` on a key that is not null.
unfoldable pub set_crypto : ℕ → ℕ → List ℕ → Option Session
set_crypto bitmask wire_mode key = elim (mode_of wire_mode) [
  | none ↦ none
  | some m ↦
      if crypt_mode_allowed bitmask m && key_fits m (length key)
      then some (record reset_crypto { mode = m; key = elim m [ clear ↦ [] | _ ↦ key ] })
      else none
]

-- `cccam_hton32` and the copy of its bytes.
unfoldable pub be32 : ℕ → List ℕ
be32 v = v / 2 ^ 24 % 2 ^ 8 ∷ v / 2 ^ 16 % 2 ^ 8 ∷ v / 2 ^ 8 % 2 ^ 8 ∷ v % 2 ^ 8 ∷ []

-- The bytes at the pointer, and `cccam_ntoh32`.
unfoldable pub read_be32 : List ℕ → ℕ
read_be32 bytes =
    byte_at bytes 0 * 2 ^ 24 + byte_at bytes 1 * 2 ^ 16 + byte_at bytes 2 * 2 ^ 8 + byte_at bytes 3

-- The loop that writes the 8 bytes of the counter.
unfoldable pub be64 : ℕ → List ℕ
unfolding be32
be64 v = be32 (v / 2 ^ 32) ++ be32 v

unfoldable pub gcm_build_nonce : ℕ → ℕ → List ℕ
unfolding be32 be64
gcm_build_nonce msg_id counter = be32 msg_id ++ be64 counter

unfoldable pub gcm_build_aad : ℕ → List ℕ
gcm_build_aad msg_id = be32 msg_id

unfoldable pub cbc_build_iv : Suite → ℕ → ℕ → ℕ → List ℕ
cbc_build_iv suite msg_id counter iv_len = take iv_len (suite.sha256 (be32 msg_id ++ be64 counter))

-- AES by the length of its key.
unfoldable pub aes_by_key : ℕ → Option Algorithm
aes_by_key n =
    if n == 16
    then some aes_128
    else (if n == 24 then some aes_192 else (if n == 32 then some aes_256 else none))

-- `evp_cbc`
unfoldable pub evp_cbc : Suite → Algorithm → List ℕ → List ℕ → List ℕ → ℕ → Bool → Option (List ℕ)
evp_cbc suite cipher bytes key iv block encrypts =
    if length bytes == 0 || not (length bytes % block == 0)
    then none
    else suite.cbc cipher encrypts key iv bytes

-- `cccam_crypto_aes_cbc`
unfoldable pub aes_cbc : Suite → List ℕ → List ℕ → List ℕ → Bool → Option (List ℕ)
aes_cbc suite bytes key iv encrypts = elim (aes_by_key (length key)) [
  | none ↦ none
  | some cipher ↦ evp_cbc suite cipher bytes key iv 16 encrypts
]

-- `cccam_crypto_3des_cbc`
unfoldable pub triple_des_cbc : Suite → List ℕ → List ℕ → List ℕ → Bool → Option (List ℕ)
triple_des_cbc suite bytes key iv encrypts = evp_cbc suite des_ede3 bytes key iv 8 encrypts

abbrev pub gcm_tag_len : ℕ
gcm_tag_len = 16

-- What the tag adds to a message in each mode.
unfoldable pub tag_room : CryptMode → ℕ
tag_room aes_gcm = gcm_tag_len
tag_room _ = 0

-- `cccam_crypto_rc4_init` where the key stream has not been started.
unfoldable pub start_stream : Rc4 → List ℕ → Option Rc4
start_stream t key = if t.ready then some t else rc4_init key

-- The RC4 case: the bytes, and the state that the key stream is left in.
unfoldable pub rc4_pass : Rc4 → List ℕ → List ℕ → Option (Rc4 × List ℕ)
rc4_pass t key bytes = elim (start_stream t key) [ none ↦ none | some u ↦ rc4_stream u bytes ]

-- The switch of `cccam_protocol_encrypt`. Its own test for whole blocks is the one that `evp_cbc`
-- makes again.
unfoldable pub encrypt_in : Suite → CryptMode → Session → List ℕ → ℕ → ℕ → Option (Session × List ℕ)
encrypt_in suite clear c bytes capacity msg_id = some (c, bytes)
encrypt_in suite rc4 c bytes capacity msg_id = elim (rc4_pass c.tx c.key bytes) [
  | none ↦ none
  | some r ↦ some (record c { tx = r.0 }, r.1)
]
encrypt_in suite aes c bytes capacity msg_id =
    elim (aes_cbc suite bytes c.key (cbc_build_iv suite msg_id c.tx_counter 16) true) [
      | none ↦ none
      | some out ↦ some (record c { tx_counter = c.tx_counter + 1 }, out)
    ]
encrypt_in suite triple_des c bytes capacity msg_id =
    elim (triple_des_cbc suite bytes c.key (cbc_build_iv suite msg_id c.tx_counter 8) true) [
      | none ↦ none
      | some out ↦ some (record c { tx_counter = c.tx_counter + 1 }, out)
    ]
encrypt_in suite aes_gcm c bytes capacity msg_id =
    if ltb capacity (length bytes + gcm_tag_len) then none else elim (aes_by_key (length c.key)) [
      | none ↦ none
      | some cipher ↦
          elim (suite.gcm_seal cipher c.key (gcm_build_nonce msg_id c.tx_counter)
            (gcm_build_aad msg_id) bytes) [
              | none ↦ none
              | some r ↦ some (record c { tx_counter = c.tx_counter + 1 }, r.0 ++ r.1)
            ]
    ]

-- `cccam_protocol_encrypt`
unfoldable pub encrypt : Suite → Session → List ℕ → ℕ → ℕ → Option (Session × List ℕ)
encrypt suite c bytes capacity msg_id =
    if length bytes == 0 then none else encrypt_in suite c.mode c bytes capacity msg_id

-- The switch of `cccam_protocol_decrypt`.
unfoldable pub decrypt_in : Suite → CryptMode → Session → List ℕ → ℕ → Option (Session × List ℕ)
decrypt_in suite clear c bytes msg_id = some (c, bytes)
decrypt_in suite rc4 c bytes msg_id = elim (rc4_pass c.rx c.key bytes) [
  | none ↦ none
  | some r ↦ some (record c { rx = r.0 }, r.1)
]
decrypt_in suite aes c bytes msg_id =
    elim (aes_cbc suite bytes c.key (cbc_build_iv suite msg_id c.rx_counter 16) false) [
      | none ↦ none
      | some out ↦ some (record c { rx_counter = c.rx_counter + 1 }, out)
    ]
decrypt_in suite triple_des c bytes msg_id =
    elim (triple_des_cbc suite bytes c.key (cbc_build_iv suite msg_id c.rx_counter 8) false) [
      | none ↦ none
      | some out ↦ some (record c { rx_counter = c.rx_counter + 1 }, out)
    ]
decrypt_in suite aes_gcm c bytes msg_id =
    if ltb (length bytes) gcm_tag_len then none else elim (aes_by_key (length c.key)) [
      | none ↦ none
      | some cipher ↦
          let n = length bytes - gcm_tag_len in
          elim (suite.gcm_open cipher c.key (gcm_build_nonce msg_id c.rx_counter)
            (gcm_build_aad msg_id) (take n bytes) (drop n bytes)) [
              | none ↦ none
              | some out ↦ some (record c { rx_counter = c.rx_counter + 1 }, out)
            ]
    ]

-- `cccam_protocol_decrypt`
unfoldable pub decrypt : Suite → Session → List ℕ → ℕ → Option (Session × List ℕ)
decrypt suite c bytes msg_id =
    if length bytes == 0 then none else decrypt_in suite c.mode c bytes msg_id
