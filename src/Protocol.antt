-- ===== src/Protocol.antt =====
-- src/network/cccam3_protocol.c, the messages: their header, the builders of LOGIN, LOGIN_ACK, ECM,
-- EMM and CW, and the parser; with parse_ecm_payload and the CCCAM_MSG_EMM case of
-- src/core/cccam3_server.c and the reading of a control word in remote_get_cw of
-- src/CCshare/cccam3_card_manager.c. A buffer is the list of its bytes, and `capacity` the value of
-- `*buf_len` on entry; `none` is the return value -1. A null context is one in clear mode, and the
-- callers' output pointers are never null.
pub mod Framing
pub mod Limits
pub mod Wire
pub mod Messages
mod Tests
use cccam_3_0_1_by_sharillas.Base.{
  ℕ, zero, suc, ◌+◌, ◌-◌, ◌*◌, ◌/◌, ◌%◌, ◌^◌, Bool, true, false, ◌||◌, Option, none, some, List, [],
  ◌∷◌, ◌++◌, ltb, ◌==◌, if◌then◌else◌, length, take, drop,
}
use cccam_3_0_1_by_sharillas.Rc4.{byte_at}
use cccam_3_0_1_by_sharillas.Session.{
  CryptMode, clear, rc4, aes, triple_des, aes_gcm, mode_code, Suite, Session, encrypt, decrypt,
  be32, read_be32, tag_room,
}

abbrev pub buffer_size : ℕ
buffer_size = 4096

abbrev pub header_size : ℕ
header_size = 12

abbrev pub msg_login : ℕ
msg_login = 0x01

abbrev pub msg_login_ack : ℕ
msg_login_ack = 0x02

abbrev pub msg_ecm : ℕ
msg_ecm = 0x03

abbrev pub msg_cw : ℕ
msg_cw = 0x04

abbrev pub msg_emm : ℕ
msg_emm = 0x05

-- `cccam_msg_header_t`
pub record Header : Type 0 where
  pub msg_id : ℕ
  pub msg_len : ℕ
  pub flags : ℕ
  pub crypt_mode : ℕ
  pub reserved : ℕ

unfoldable pub be16 : ℕ → List ℕ
be16 v = v / 2 ^ 8 % 2 ^ 8 ∷ v % 2 ^ 8 ∷ []

unfoldable pub read_be16 : List ℕ → ℕ
read_be16 bytes = byte_at bytes 0 * 2 ^ 8 + byte_at bytes 1

-- The 12 bytes that every builder writes first.
unfoldable pub header_bytes : ℕ → ℕ → CryptMode → List ℕ
unfolding be16 be32
header_bytes msg_id total mode = be32 msg_id ++ (be32 total ++ (0 ∷ (mode_code mode ∷ be16 0)))

unfoldable pub read_header : List ℕ → Header
read_header buffer = record {
  msg_id = read_be32 buffer;
  msg_len = read_be32 (drop 4 buffer);
  flags = byte_at buffer 8;
  crypt_mode = byte_at buffer 9;
  reserved = read_be16 (drop 10 buffer);
}

-- The payload as it lies in the buffer: decrypted, unless the session is in clear mode.
unfoldable pub open_payload : Suite → CryptMode → Session → List ℕ → ℕ → Option (Session × List ℕ)
open_payload suite clear c payload msg_id = some (c, payload)
open_payload suite _ c payload msg_id = decrypt suite c payload msg_id

-- `cccam_protocol_parse`; `allocated` says whether malloc succeeds.
unfoldable pub parse : Suite → Session → List ℕ → Bool → Option (Session × Header × List ℕ)
parse suite c buffer allocated =
    let h = read_header buffer in
    if ltb (length buffer) header_size
      || (ltb h.msg_len header_size || (ltb buffer_size h.msg_len || ltb (length buffer) h.msg_len))
    then none
    else (if h.msg_len == header_size
        then some (c, h, [])
        else (if allocated
            then elim (open_payload suite c.mode c
                (take (h.msg_len - header_size) (drop header_size buffer)) h.msg_id) [
                  | none ↦ none
                  | some r ↦ some (r.0, h, r.1)
                ]
            else none))

unfoldable pub zeros : ℕ → List ℕ
zeros zero = []
zeros (suc n) = 0 ∷ zeros n

-- The end of `cccam_protocol_build_ecm`, `_emm` and `_cw`: the payload is encrypted in place, with
-- the room for the tag counted both in its length and in its capacity. What the buffer holds in
-- that room is not known; it is written as zeros.
unfoldable pub seal_payload : Suite → CryptMode → Session → List ℕ → ℕ → Option (Session × List ℕ)
seal_payload suite clear c payload msg_id = some (c, payload)
seal_payload suite m c payload msg_id =
    let size = length payload + tag_room m in
    encrypt suite c (payload ++ zeros (tag_room m)) size msg_id

-- The three builders, on their message type and the payload that they write.
unfoldable pub build : Suite → Session → ℕ → ℕ → List ℕ → Option (Session × List ℕ)
build suite c capacity msg_id payload =
    let total = header_size + length payload + tag_room c.mode in
    if ltb capacity total || ltb buffer_size total
    then none
    else elim (seal_payload suite c.mode c payload msg_id) [
      | none ↦ none
      | some r ↦ some (r.0, header_bytes msg_id total c.mode ++ r.1)
    ]

-- `cccam_protocol_build_ecm`
unfoldable pub build_ecm : Suite → Session → ℕ → ℕ → ℕ → ℕ → List ℕ → Option (Session × List ℕ)
unfolding be16
build_ecm suite c capacity caid provid sid ecm =
    build suite c capacity msg_ecm (be16 caid ++ (be16 provid ++ (be16 sid ++ ecm)))

-- `cccam_protocol_build_emm`
unfoldable pub build_emm : Suite → Session → ℕ → ℕ → ℕ → List ℕ → Option (Session × List ℕ)
unfolding be16
build_emm suite c capacity caid provid emm =
    build suite c capacity msg_emm (be16 caid ++ (be16 provid ++ emm))

-- `cccam_cw_msg_t`; `cw` has 16 bytes.
pub record CwMessage : Type 0 where
  pub ecm_time : ℕ
  pub cw : List ℕ
  pub hop : ℕ
  pub caid : ℕ
  pub provid : ℕ
  pub sid : ℕ

unfoldable pub cw_payload : CwMessage → List ℕ
unfolding be16 be32
cw_payload m = be32 m.ecm_time ++ (m.cw ++ (m.hop ∷ (be16 m.caid ++ (be16 m.provid ++ be16 m.sid))))

-- `cccam_protocol_build_cw`
unfoldable pub build_cw : Suite → Session → ℕ → CwMessage → Option (Session × List ℕ)
build_cw suite c capacity m = build suite c capacity msg_cw (cw_payload m)

-- `cccam_protocol_build_login_ack`
unfoldable pub build_login_ack : ℕ → List ℕ → Option (List ℕ)
build_login_ack capacity handshake =
    let total = header_size + length handshake in
    if length handshake == 0 || (ltb capacity total || ltb buffer_size total)
    then none
    else some (header_bytes msg_login_ack total clear ++ handshake)

-- `cccam_login_msg_t`
pub record LoginMessage : Type 0 where
  pub handshake : List ℕ
  pub username : List ℕ
  pub password : List ℕ
  pub version : ℕ

-- `cccam_protocol_build_login`, on texts without their final 0; `handshake` has 16 bytes.
unfoldable pub build_login : ℕ → List ℕ → List ℕ → ℕ → List ℕ → Option (List ℕ)
build_login capacity username password version handshake =
    let total = header_size + 16 + length username + 1 + length password + 1 + 4 in
    if length username == 0
      || (length password == 0
          || (ltb 63 (length username)
              || (ltb 63 (length password) || (ltb capacity total || ltb buffer_size total))))
    then none
    else some (
        header_bytes msg_login total clear
        ++ (take 16 handshake ++ (username ++ (0 ∷ (password ++ (0 ∷ be32 version))))))

-- What a payload holds of an ECM.
pub record EcmMessage : Type 0 where
  pub caid : ℕ
  pub provid : ℕ
  pub sid : ℕ
  pub bytes : List ℕ

-- `parse_ecm_payload`: at most 256 bytes of ECM. The length is cut to 16 bits.
unfoldable pub parse_ecm_payload : List ℕ → Option EcmMessage
parse_ecm_payload payload =
    let n = (length payload - 6) % 2 ^ 16 in
    if ltb (length payload) 6 || ltb 256 n
    then none
    else some (record {
      caid = read_be16 payload;
      provid = read_be16 (drop 2 payload);
      sid = read_be16 (drop 4 payload);
      bytes = take n (drop 6 payload);
    })

-- The control word and the hop that `remote_get_cw` takes from a payload.
unfoldable pub read_cw : ℕ → List ℕ → Option (List ℕ × ℕ)
read_cw msg_id payload =
    if msg_id == msg_cw
    then (if ltb (length payload) 21
        then none
        else some (take 16 (drop 4 payload), byte_at payload 20))
    else none
