-- ===== src/Server/Requests.antt =====
-- src/core/cccam3_server.c, handle_client_ecm, with cccam_ecm_send_cw of src/CCshare/cccam3_ecm.c:
-- an ECM of a client that has logged in, on the states of the ECM handler and of the user manager.
-- What is written to the socket is part of the result; a failed write changes nothing else.
pub mod Delivery
mod Tests
use cccam_3_0_1_by_sharillas.Base.{
  ℕ, ◌%◌, ◌^◌, Bool, true, false, not, Option, none, some, List, [], if◌then◌else◌, length,
}
use cccam_3_0_1_by_sharillas.Session.{Suite, Session}
use cccam_3_0_1_by_sharillas.Protocol.{CwMessage, EcmMessage, build_cw, parse_ecm_payload}
use cccam_3_0_1_by_sharillas.Ecm.{EcmRequest, EcmResponse, Outcome, answered, process}
use cccam_3_0_1_by_sharillas.Users.{register_ecm}
use cccam_3_0_1_by_sharillas.Legacy.Service.{ServerState, Surroundings}
use cccam_3_0_1_by_sharillas.Server.RateLimit.{Window, ecm_allowed}

-- What the handler reads and changes of its `cccam_client_t`.
pub record ServedClient : Type 0 where
  pub client_id : ℕ
  pub username : List ℕ
  pub hop_count : ℕ
  pub is_authenticated : Bool
  pub crypto : Session
  pub window : Window

-- The return values: -1, 0, -1 and 0.
pub data EcmReply : Type 0 where
  unauthenticated over_limit unreadable handled : EcmReply

-- The message that `cccam_ecm_send_cw` makes of a response.
unfoldable pub cw_message : EcmResponse → CwMessage
cw_message r = record {
  ecm_time = r.generated_at % 2 ^ 32;
  cw = r.cw;
  hop = r.hop;
  caid = r.channel.caid;
  provid = r.channel.provid;
  sid = r.channel.sid;
}

-- `cccam_ecm_send_cw`, with its buffer of 1024 bytes.
unfoldable pub ecm_send_cw : Suite → Session → EcmResponse → Option (Session × List ℕ)
ecm_send_cw suite c r = if r.found then build_cw suite c 1024 (cw_message r) else none

unfoldable pub client_request : ServedClient → EcmMessage → EcmRequest
client_request c m = record {
  channel = record { caid = m.caid; provid = m.provid; sid = m.sid };
  ecm_len = length m.bytes;
  client_id = c.client_id;
  hop = c.hop_count;
}

abbrev pub EcmResult : Type 0
EcmResult = ServerState × ServedClient × EcmReply × List ℕ

-- The control word is sent; what comes of it is not tested.
unfoldable pub send_response : Suite → ServedClient → EcmResponse → ServedClient × List ℕ
send_response suite c r = elim (ecm_send_cw suite c.crypto r) [
  | none ↦ (c, [])
  | some s ↦ (record c { crypto = s.0 }, s.1)
]

abbrev counted : ServerState → List ℕ → Bool → ServerState
counted st name served = record st { users = register_ecm st.users name served }

-- What follows `cccam_ecm_process`.
unfoldable pub reply_ecm : Suite → ServerState → ServedClient → Outcome → EcmResult
reply_ecm suite st c (answered r) =
    if r.found
    then (let s = send_response suite c r in (counted st c.username true, s.0, handled, s.1))
    else (counted st c.username false, c, handled, [])
reply_ecm suite st c _ = (counted st c.username false, c, handled, [])

-- The payload is read, and the request is handed over.
unfoldable pub request_ecm :
    Suite → ServerState → ServedClient → Surroundings → List ℕ → Option EcmResult
request_ecm suite st c at payload = elim (parse_ecm_payload payload) [
  | none ↦ some (st, c, unreadable, [])
  | some m ↦ elim (process st.ecm (client_request c m) at.now at.io at.allocated) [
    | none ↦ none
    | some r ↦ some (reply_ecm suite (record st { ecm = r.0 }) c r.1)
  ]
]

-- `handle_client_ecm`, with g_config.max_ecm_per_sec; `none` says that `cccam_ecm_process` never
-- returns.
unfoldable pub handle_client_ecm :
    Suite → ℕ → ServerState → ServedClient → Surroundings → List ℕ → Option EcmResult
handle_client_ecm suite limit st c at payload =
    let w = ecm_allowed limit c.window at.now in
    if not c.is_authenticated
    then some (st, c, unauthenticated, [])
    else (let d : ServedClient = record c { window = w.0 } in
        if w.1 then request_ecm suite st d at payload else some (st, d, over_limit, []))
