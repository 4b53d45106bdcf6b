-- ===== src/Server/Requests/Tests.antt =====
-- Requests of a client over its session, and instances of their theorems.
use cccam_3_0_1_by_sharillas.Base.{
  ℕ, zero, suc, ◌≡◌, refl, inl, true, false, some, List, [], ◌∷◌, arith,
}
use cccam_3_0_1_by_sharillas.Session.{Session, aes_gcm}
use cccam_3_0_1_by_sharillas.Session.Tests.{plain, server, block}
use cccam_3_0_1_by_sharillas.Protocol.{parse_ecm_payload, read_be16, be16}
use cccam_3_0_1_by_sharillas.Protocol.Messages.{ecm_message, ecm_payload}
use cccam_3_0_1_by_sharillas.Rc4.{byte_at}
use cccam_3_0_1_by_sharillas.Cache
use cccam_3_0_1_by_sharillas.Readers.{
  Io, get_cw, serve, serve_kind, select_reader, select_from, usable, supports_caid, supports_provid,
  reader_score,
}
use cccam_3_0_1_by_sharillas.Users.{User, level_user, register_ecm}
use cccam_3_0_1_by_sharillas.Ecm.{EcmState, EcmResponse, answered, process}
use cccam_3_0_1_by_sharillas.Ecm.Service.{served_response}
use cccam_3_0_1_by_sharillas.Ecm.Caching.{process_again}
use cccam_3_0_1_by_sharillas.Ecm.Example.{
  news, start, offline, start-EcmInv, news_valid, news_missed,
}
use cccam_3_0_1_by_sharillas.Legacy.Service.{ServerState, Surroundings}
use cccam_3_0_1_by_sharillas.Server.RateLimit.{ecm_allowed}
use cccam_3_0_1_by_sharillas.Server.Requests.{
  ServedClient, handled, client_request, handle_client_ecm,
}
use cccam_3_0_1_by_sharillas.Server.Requests.Delivery.{windowed, handle_client_ecm_silent}

-- The card answers with a word of 16 bytes.
abbrev card_answers : Io
card_answers = record { connects = true; logs_in = true; reply = some (block, 0) }

word_read : (get_cw start.readers 0x1810 0 50 card_answers).1 ≡ some (block, 1)
unfolding get_cw serve serve_kind select_reader select_from usable supports_caid supports_provid
    reader_score
word_read = refl

-- The client's account.
abbrev bob : User
bob = record {
  id = 1;
  username = 98 ∷ 111 ∷ 98 ∷ [];
  password_hash = [];
  password = 97 ∷ 98 ∷ [];
  level = level_user;
  max_hops = 2;
  enabled = true;
  created_at = 0;
  last_login = 0;
  login_count = 0;
  ecm_requests = 0;
  ecm_success = 0;
}

abbrev state : ServerState
state = record {
  ecm = start;
  users = record { users = bob ∷ []; count = 1; next_id = 2; initialized = true };
}

abbrev at_fifty : Surroundings
at_fifty = record { now = 50; io = card_answers; allocated = true }

abbrev client_in : Session → ServedClient
client_in crypto = record {
  client_id = 0;
  username = bob.username;
  hop_count = 0;
  is_authenticated = true;
  crypto = crypto;
  window = record { start = 0; count = 0 };
}

bytes_from : ℕ → List ℕ
bytes_from zero = []
bytes_from (suc n) = n ∷ bytes_from n

abbrev ecm : List ℕ
ecm = bytes_from 64

request_is_news : (c : Session) → client_request (client_in c) (ecm_message 0x1810 0 30 ecm) ≡ news
unfolding client_request bytes_from
request_is_news c = refl

answer : EcmResponse
answer = served_response start news 50 block 1

answering :
    (c : Session)
    → (e : EcmState) × (process state.ecm
          (client_request (client_in c) (ecm_message 0x1810 0 30 ecm))
          50
          card_answers
          true
        ≡ some (e, answered answer))
unfolding Cache.initial answer
answering c =
    let again =
      process_again start news 50 58 card_answers offline false block 1 start-EcmInv refl news_valid
        news_missed word_read (inl refl) (omega arith) in
    rw (request_is_news c) (again.0, again.2)

allowed : (c : Session) → (ecm_allowed 0 (client_in c).window 50).1 ≡ true
unfolding ecm_allowed
allowed c = refl

answer_found : answer.found ≡ true
unfolding answer
answer_found = refl

payload_read : parse_ecm_payload (ecm_payload 0x1810 0 30 ecm) ≡ some (ecm_message 0x1810 0 30 ecm)
unfolding parse_ecm_payload be16 bytes_from read_be16 byte_at
payload_read = refl

answered_state : (c : Session) → ServerState
answered_state c = record {
  ecm = (answering c).0;
  users = register_ecm state.users bob.username true;
}

abbrev gcm_session : Session
gcm_session = record server { mode = aes_gcm }

handle_client_ecm_silent_example :
    handle_client_ecm plain 0 state (client_in gcm_session) at_fifty (ecm_payload 0x1810 0 30 ecm)
    ≡ some (answered_state gcm_session, windowed 0 (client_in gcm_session) at_fifty, handled, [])
unfolding answered_state
handle_client_ecm_silent_example =
    handle_client_ecm_silent plain 0 state (client_in gcm_session) at_fifty
      (ecm_payload 0x1810 0 30 ecm) (ecm_message 0x1810 0 30 ecm) (answering gcm_session).0 answer
      refl refl (allowed gcm_session) payload_read (answering gcm_session).1 answer_found
