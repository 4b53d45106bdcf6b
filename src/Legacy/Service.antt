-- ===== src/Legacy/Service.antt =====
-- src/network/cccam3_cc_legacy.c: ccl_handle_ecm, ccl_handle_message and the loop of cclegacy_serve,
-- on the states of the ECM handler and of the user manager. The state of the server is returned
-- also where the session ends. An ECM that cccam_ecm_process never answered would be a `fault`.
use cccam_3_0_1_by_sharillas.Base.{
  ℕ, ◌-◌, ◌%◌, ◌^◌, Bool, true, false, ◌||◌, none, some, List, [], ◌∷◌, ltb, ◌==◌, if◌then◌else◌,
  length, drop,
}
use cccam_3_0_1_by_sharillas.Readers.{Io}
use cccam_3_0_1_by_sharillas.Clients.{Pointer, is_timeout, update_keepalive}
use cccam_3_0_1_by_sharillas.Ecm.{EcmState, EcmRequest, Outcome, answered, process}
use cccam_3_0_1_by_sharillas.Users.{Users, get_max_hops, register_ecm}
use cccam_3_0_1_by_sharillas.Session.{read_be32}
use cccam_3_0_1_by_sharillas.Protocol.{read_be16}
use cccam_3_0_1_by_sharillas.Legacy.{cc_cw_crypt}
use cccam_3_0_1_by_sharillas.Legacy.Messages.{
  LegacySession, Connection, Result, on, ended, fault, ◌>>=◌, crypt, send_message, Message,
  recv_message,
}

abbrev pub msg_cli_data : ℕ
msg_cli_data = 0x01

abbrev pub msg_cw_ecm : ℕ
msg_cw_ecm = 0x02

abbrev pub msg_keepalive : ℕ
msg_keepalive = 0x06

abbrev pub msg_cw_nok1 : ℕ
msg_cw_nok1 = 0xfe

-- CCCAM3_CLIENT_TIMEOUT
abbrev pub client_timeout : ℕ
client_timeout = 120

pub record ServerState : Type 0 where
  pub ecm : EcmState
  pub users : Users

abbrev pub Reply : Type 0
Reply = ServerState × Result (LegacySession × Connection)

-- What the clock, the chosen reader and malloc answer while a message is handled.
pub record Surroundings : Type 0 where
  pub now : ℕ
  pub io : Io
  pub allocated : Bool

-- The ECM's length, cut to 16 bits and then to the room of the request.
unfoldable pub ecm_length : List ℕ → ℕ
ecm_length payload = let n = (length payload - 13) % 2 ^ 16 in if ltb 256 n then 256 else n

unfoldable pub user_hops : Users → List ℕ → ℕ
user_hops users name = elim (get_max_hops users name) [ none ↦ 0 | some hops ↦ hops ]

unfoldable pub legacy_request : Users → LegacySession → ℕ → List ℕ → EcmRequest
unfolding ecm_length user_hops
legacy_request users s client_id payload = record {
  channel = record {
    caid = read_be16 payload;
    provid = read_be16 (drop 2 payload);
    sid = read_be16 (drop 10 payload);
  };
  ecm_len = ecm_length payload;
  client_id = client_id;
  hop = user_hops users s.username;
}

-- The control word as it goes out: scrambled in the classic mode.
unfoldable pub outgoing_cw : LegacySession → ℕ → List ℕ → List ℕ
outgoing_cw s card_id cw = if s.extended then cw else cc_cw_crypt cw card_id s.node_id

-- The classic mode's step of synchronisation: the word goes through the cipher once more.
unfoldable pub sync : LegacySession → List ℕ → Result LegacySession
sync s cw = if s.extended then on s else (crypt true s.enc cw >>= λ r. on (record s { enc = r.0 }))

-- A control word is sent, in the user's count if that succeeds.
unfoldable pub send_cw :
    LegacySession → Connection → ℕ → List ℕ → Result (LegacySession × Connection)
unfolding sync
send_cw s k flag cw = send_message s k flag msg_cw_ecm cw >>= λ r. sync r.0 cw >>= λ t. on (t, r.1)

abbrev pub count_if_on : ServerState → List ℕ → Result (LegacySession × Connection) → Reply
count_if_on st name (on r) = (record st { users = register_ecm st.users name true }, on r)
count_if_on st name ended = (st, ended)
count_if_on st name fault = (st, fault)

-- The answer to an ECM.
unfoldable pub answer_ecm : ServerState → LegacySession → Connection → ℕ → ℕ → Outcome → Reply
answer_ecm st s k flag card_id (answered r) =
    count_if_on st s.username (send_cw s k flag (outgoing_cw s card_id r.cw))
answer_ecm st s k flag card_id _ = (
  record st { users = register_ecm st.users s.username false },
  send_message s k flag msg_cw_nok1 [],
)

-- `ccl_handle_ecm`
unfoldable pub handle_ecm :
    ServerState → LegacySession → Connection → ℕ → Surroundings → ℕ → List ℕ → Reply
unfolding legacy_request
handle_ecm st s k client_id at flag payload =
    if ltb (length payload) 13
    then (st, on (s, k))
    else elim (process st.ecm (legacy_request st.users s client_id payload) at.now at.io
        at.allocated) [
          | none ↦ (st, fault)
          | some r ↦ answer_ecm (record st { ecm = r.0 }) s k flag (read_be32 (drop 6 payload)) r.1
        ]

-- `ccl_handle_message`
unfoldable pub handle_message :
    ServerState → LegacySession → Connection → ℕ → Surroundings → Message → Reply
handle_message st s k client_id at m =
    if m.cmd == msg_cw_ecm
    then handle_ecm st s k client_id at m.flag m.payload
    else (if m.cmd == msg_keepalive
        then (st, send_message s k m.flag msg_keepalive [])
        else (st, on (s, k)))

abbrev touch : Pointer → ℕ → ServerState → ServerState
touch client now st = record st {
  ecm = record st.ecm { clients = update_keepalive st.ecm.clients client now };
}

-- One round of the loop of `cclegacy_serve` in which a message is there to be read.
unfoldable pub serve_message :
    ServerState → LegacySession → Connection → Pointer → Surroundings → Reply
serve_message st s k client at = elim (recv_message s k) [
  | on r ↦
      let h = handle_message st r.0 r.1 (st.ecm.clients.object client).client_id at r.2 in
      elim h.1 [ on t ↦ (touch client at.now h.0, on t) | ended ↦ h | fault ↦ h ]
  | ended ↦ (st, ended)
  | fault ↦ (st, fault)
]

-- What select() reports: a message, nothing within its second or a signal, or an error.
pub data Activity : Type 0 where
  readable idle broken : Activity

-- A round of the loop: whether `to_kick` or `zombie` is set, select(), and the surroundings.
pub record Round : Type 0 where
  pub stopped : Bool
  pub activity : Activity
  pub at : Surroundings

unfoldable pub serve_activity :
    ServerState → LegacySession → Connection → Pointer → Surroundings → Activity → Reply
unfolding serve_message
serve_activity st s k client at readable = serve_message st s k client at
serve_activity st s k client at idle = (st, on (s, k))
serve_activity st s k client at broken = (st, ended)

-- The loop goes on with `rest` unless the round has ended the session.
unfoldable pub go_on :
    (ServerState → LegacySession × Connection → Reply × Bool) → Reply → Reply × Bool
go_on rest (st, on u) = rest st u
go_on rest (st, ended) = ((st, ended), false)
go_on rest (st, fault) = ((st, fault), false)

-- The loop of `cclegacy_serve` over its rounds, and whether it has returned 0.
unfoldable pub serve_rounds :
    ServerState → LegacySession → Connection → Pointer → List Round → Reply × Bool
unfolding serve_activity go_on
serve_rounds st s k client [] = ((st, on (s, k)), false)
serve_rounds st s k client (r ∷ rs) =
    let rest =
      λ (t : ServerState) (u : LegacySession × Connection). serve_rounds t u.0 u.1 client rs in
    if r.stopped || is_timeout st.ecm.clients client client_timeout r.at.now
    then ((st, on (s, k)), true)
    else go_on rest (serve_activity st s k client r.at r.activity)
