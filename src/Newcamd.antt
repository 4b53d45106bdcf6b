-- ===== src/Newcamd.antt =====
-- src/network/cccam3_newcamd.c: the messages of the Newcamd protocol and the digest of a password,
-- with the reading of a message in src/core/cccam3_server.c, handle_newcamd_message. The DES of
-- src/CCshare/cccam3_emu_des.c, which is OSCam's, is in the record NcdHost, and MD5 is OpenSSL's.
pub mod Framing
pub mod Digest
pub mod Crypt
pub mod Service
pub mod Login
pub mod Closed
mod Tests
mod ServiceTests
use cccam_3_0_1_by_sharillas.Base.{
  ℕ, zero, suc, ◌+◌, ◌-◌, ◌*◌, ◌/◌, ◌%◌, ◌^◌, Bool, ◌||◌, Option, none, some, List, [], ◌∷◌, ◌++◌,
  ltb, ◌==◌, if◌then◌else◌, length, take, drop,
}
use cccam_3_0_1_by_sharillas.Rc4.{byte_at}
use cccam_3_0_1_by_sharillas.Protocol.{be16, read_be16}

-- `cccam_newcamd_des_encrypt` and `cccam_newcamd_des_decrypt`, on the bytes of the buffer that are
-- used and the key, where `none` is -1; `cccam_newcamd_login_key`; and `stale`, what is read at an
-- index of a local array after its function has returned, given the byte that stood there before.
pub record NcdHost : Type 0 where
  pub encrypt : List ℕ → List ℕ → Option (List ℕ)
  pub decrypt : List ℕ → List ℕ → Option (List ℕ)
  pub login_key : List ℕ → List ℕ → List ℕ
  pub stale : ℕ → ℕ → ℕ

abbrev pub ncd_max_msg : ℕ
ncd_max_msg = 1024

-- The message before it is encrypted, its length still 0.
unfoldable pub plain_netbuf : ℕ → ℕ → List ℕ → ℕ → List ℕ
plain_netbuf msg_id cmd bytes sid =
    0
    ∷ 0
    ∷ msg_id / 2 ^ 8 % 2 ^ 8
    ∷ msg_id % 2 ^ 8
    ∷ sid / 2 ^ 8 % 2 ^ 8
    ∷ sid % 2 ^ 8
    ∷ 0
    ∷ 0
    ∷ cmd
    ∷ length bytes / 2 ^ 8 % 2 ^ 4
    ∷ length bytes % 2 ^ 8
    ∷ bytes

-- `ncd_send_message`: what is sent, or `none` for -1. A failure of the socket is left out.
unfoldable pub ncd_send_message : NcdHost → List ℕ → ℕ → ℕ → List ℕ → ℕ → Option (List ℕ)
ncd_send_message des key msg_id cmd bytes sid =
    if ltb 0xfff (length bytes) || ltb ncd_max_msg (length bytes + 11 + 8)
    then none
    else elim (des.encrypt (plain_netbuf msg_id cmd bytes sid) key) [
      | none ↦ none
      | some out ↦ some (be16 (length out - 2) ++ drop 2 out)
    ]

-- `ncd_msg_t`
pub record NcdMessage : Type 0 where
  pub cmd : ℕ
  pub msg_id : ℕ
  pub sid : ℕ
  pub bytes : List ℕ

-- What is read of an array that is gone, from the index `i` on.
unfoldable pub reread : (ℕ → ℕ → ℕ) → ℕ → List ℕ → List ℕ
reread stale i [] = []
reread stale i (b ∷ bs) = stale i b ∷ reread stale (i + 1) bs

-- The fields of a decrypted buffer. The code keeps a pointer to the data, into an array that is gone
-- when it returns, so that the handlers read what stands there then.
unfoldable pub ncd_fields : (ℕ → ℕ → ℕ) → List ℕ → Option NcdMessage
ncd_fields stale buf =
    let size = byte_at buf 9 % 2 ^ 4 * 2 ^ 8 + byte_at buf 10 in
    if ltb (length buf) 11 || ltb (length buf) (11 + size)
    then none
    else some (record {
      cmd = byte_at buf 8;
      msg_id = byte_at buf 2 * 2 ^ 8 + byte_at buf 3;
      sid = byte_at buf 4 * 2 ^ 8 + byte_at buf 5;
      bytes = reread stale 11 (take size (drop 11 buf));
    })

-- `ncd_decrypt_message`
unfoldable pub ncd_decrypt_message : NcdHost → List ℕ → List ℕ → Option NcdMessage
ncd_decrypt_message des raw key =
    if ltb (length raw) 16 || ltb ncd_max_msg (length raw)
    then none
    else elim (des.decrypt raw key) [ none ↦ none | some buf ↦ ncd_fields des.stale buf ]

-- `cccam_newcamd_session_t`
pub record NcdSession : Type 0 where
  pub logged_in : Bool
  pub login_key : List ℕ
  pub session_key : List ℕ
  pub session_key_alt : List ℕ
  pub key_mode : ℕ
  pub last_msg_id : ℕ
  pub username : List ℕ
  pub client_id : ℕ
  pub last_keepalive : ℕ

-- The beginning of `cccam_newcamd_process`: the message, under the key of the login, or else under
-- the session's and then the other one; `none` for -1.
unfoldable pub ncd_open : NcdHost → NcdSession → List ℕ → Option (NcdSession × NcdMessage)
ncd_open des s raw =
    if s.logged_in
    then elim (ncd_decrypt_message des raw s.session_key) [
      | some m ↦ some (record s { last_msg_id = m.msg_id }, m)
      | none ↦
          if s.key_mode == 0
          then elim (ncd_decrypt_message des raw s.session_key_alt) [
            | none ↦ none
            | some m ↦ some (record s { key_mode = 1; last_msg_id = m.msg_id }, m)
          ]
          else none
    ]
    else elim (ncd_decrypt_message des raw s.login_key) [
      | none ↦ none
      | some m ↦ some (record s { last_msg_id = m.msg_id }, m)
    ]

-- `handle_newcamd_message`: the payload that it reads from the socket and hands over.
unfoldable pub newcamd_payload : List ℕ → Option (List ℕ)
newcamd_payload bytes =
    let size = read_be16 bytes in
    if ltb (length bytes) 2 || (ltb ncd_max_msg size || ltb (length bytes) (2 + size))
    then none
    else some (take size (drop 2 bytes))

-- The first loop of `md5_crypt`: what it hashes of the digest, with `i` an unsigned number of 32
-- bits. `none` says that it has not ended within the fuel.
unfoldable pub digest_loop : ℕ → ℕ → List ℕ → Option (List ℕ)
digest_loop zero i digest = none
digest_loop (suc fuel) i digest =
    let rest = digest_loop fuel ((i + (2 ^ 32 - 16)) % 2 ^ 32) digest in
    if i == 0 then some [] else elim rest [
      | none ↦ none
      | some bytes ↦ some (take (if ltb 16 i then 16 else i) digest ++ bytes)
    ]
