-- ===== src/Protocol/Tests.antt =====
-- Messages on small inputs, and instances of their theorems.
use cccam_3_0_1_by_sharillas.Base.{ℕ, ◌≡◌, refl, inl, true, none, some, List, [], ◌∷◌, ◌++◌, arith}
use cccam_3_0_1_by_sharillas.Session.{
  Session, clear, tag_room, be32, read_be32, mode_code, encrypt, encrypt_in, aes_cbc, evp_cbc,
  aes_by_key,
}
use cccam_3_0_1_by_sharillas.Session.Tests.{plain, plain-SuiteLaws, server, block}
use cccam_3_0_1_by_sharillas.Session.Peer.{peer}
use cccam_3_0_1_by_sharillas.Rc4.{byte_at}
use cccam_3_0_1_by_sharillas.Protocol.{
  Header, header_bytes, read_header, be16, read_be16, parse, open_payload, build, seal_payload,
  zeros, build_ecm, build_cw, CwMessage, cw_payload, msg_ecm, msg_cw, parse_ecm_payload, read_cw,
}
use cccam_3_0_1_by_sharillas.Protocol.Limits.{build_cw-block}
use cccam_3_0_1_by_sharillas.Protocol.Messages.{
  ecm_message, ecm_payload, parse_ecm_payload-build_ecm, read_cw-build_cw,
}

abbrev open_session : Session
open_session = record server { mode = clear }

abbrev word : CwMessage
word = record { ecm_time = 1000; cw = block; hop = 2; caid = 0x1810; provid = 0; sid = 30 }

build_cw-block_example : build_cw plain server 1024 word ≡ none
build_cw-block_example = build_cw-block plain server 1024 word refl (inl refl)

abbrev ecm : List ℕ
ecm = 0x80 ∷ 0x70 ∷ 0x01 ∷ []

abbrev sent_ecm : List ℕ
sent_ecm =
    0 ∷ 0 ∷ 0 ∷ 3 ∷ 0 ∷ 0 ∷ 0 ∷ 21 ∷ 0 ∷ 0 ∷ 0 ∷ 0 ∷ 0x18 ∷ 0x10 ∷ 0 ∷ 0 ∷ 0 ∷ 30 ∷ 0x80 ∷ 0x70
    ∷ 0x01 ∷ []

ecm_built : build_ecm plain open_session 4096 0x1810 0 30 ecm ≡ some (open_session, sent_ecm)
unfolding build_ecm build seal_payload tag_room header_bytes be32 be16 mode_code
ecm_built = refl

parse_ecm_payload-build_ecm_example :
    (h : Header) × (payload : List ℕ) × (parse plain
        (peer open_session open_session)
        (sent_ecm ++ ecm)
        true
      ≡ some (peer open_session open_session, h, payload))
    × (h.msg_id ≡ msg_ecm)
    × (parse_ecm_payload payload ≡ some (ecm_message 0x1810 0 30 ecm))
parse_ecm_payload-build_ecm_example =
    parse_ecm_payload-build_ecm plain plain-SuiteLaws open_session open_session open_session 4096
      0x1810 0 30 ecm sent_ecm ecm (omega arith) (omega arith) (omega arith) (omega arith) ecm_built

abbrev sent_block : List ℕ
sent_block = 0 ∷ 0 ∷ 0 ∷ 5 ∷ 0 ∷ 0 ∷ 0 ∷ 28 ∷ 0 ∷ 2 ∷ 0 ∷ 0 ∷ block

block_built : build plain server 4096 5 block ≡ some (record server { tx_counter = 5 }, sent_block)
unfolding build seal_payload tag_room header_bytes be32 be16 zeros mode_code encrypt encrypt_in
    aes_cbc evp_cbc aes_by_key
block_built = refl

sent_word : List ℕ
sent_word = header_bytes msg_cw 39 clear ++ cw_payload word

word_built : build_cw plain open_session 1024 word ≡ some (open_session, sent_word)
unfolding build_cw build seal_payload tag_room sent_word cw_payload
word_built = refl

read_cw-build_cw_example :
    (h : Header) × (payload : List ℕ) × (parse plain
        (peer open_session open_session)
        (sent_word ++ [])
        true
      ≡ some (peer open_session open_session, h, payload))
    × (read_cw h.msg_id payload ≡ some (block, 2))
read_cw-build_cw_example =
    read_cw-build_cw plain plain-SuiteLaws open_session open_session open_session 1024 word
      sent_word [] refl word_built

ecm_parsed :
    parse plain open_session sent_ecm true
    ≡ some (open_session, read_header sent_ecm, ecm_payload 0x1810 0 30 ecm)
unfolding parse read_header read_be32 byte_at read_be16 open_payload be16
ecm_parsed = refl
