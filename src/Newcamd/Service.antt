-- ===== src/Newcamd/Service.antt =====
-- src/network/cccam3_newcamd.c: the handlers of a card request and an ECM and the dispatch of
-- cccam_newcamd_process, on the states of the ECM handler and of the user manager. An EMM is
-- returned, for cccam_ecm_forward_emm.
use cccam_3_0_1_by_sharillas.Base.{
  ℕ, ◌+◌, ◌/◌, ◌%◌, ◌^◌, Bool, true, false, ◌&&◌, ◌||◌, not, Option, none, some, List, [], ◌∷◌, ltb,
  ◌==◌, if◌then◌else◌, length, take,
}
use cccam_3_0_1_by_sharillas.Ecm.{EcmRequest, Outcome, answered, process}
use cccam_3_0_1_by_sharillas.Users.{Users, get_max_hops, register_ecm}
use cccam_3_0_1_by_sharillas.Legacy.Service.{ServerState, Surroundings}
use cccam_3_0_1_by_sharillas.Newcamd.{NcdHost, NcdSession, NcdMessage, ncd_send_message}

-- The settings of the port, which are the DES key of the server, its CAID and whether new names are
-- registered; and the ciphers and digests, with the fuel of md5_crypt.
pub record Port : Type 0 where
  pub des : NcdHost
  pub des_key : List ℕ
  pub caid : ℕ
  pub registers : Bool
  pub sha256 : List ℕ → List ℕ
  pub md5 : List ℕ → List ℕ
  pub fuel : ℕ

-- The ends of a handler: 0 and -1, with what was sent; `stuck` is a handler that never ends.
pub data End : Type 0 where
  goes_on closes : List ℕ → End
  stuck : End

abbrev pub NcdResult : Type 0
NcdResult = ServerState × NcdSession × End

-- A handler that ends with what `ncd_send_message` returns.
unfoldable pub send_and_end : Port → NcdSession → NcdMessage → ℕ → List ℕ → End
send_and_end port s m cmd bytes =
    elim (ncd_send_message port.des s.session_key m.msg_id cmd bytes 0) [
      | none ↦ closes []
      | some out ↦ goes_on out
    ]

-- `ncd_handle_card_req`
unfoldable pub ncd_handle_card_req : Port → NcdSession → NcdMessage → End
ncd_handle_card_req port s m =
    send_and_end port s m 0xe4
      (1 ∷ port.caid / 2 ^ 8 % 2 ^ 8 ∷ port.caid % 2 ^ 8 ∷ 0 ∷ 0 ∷ 0 ∷ 0 ∷ 0 ∷ 0 ∷ 0 ∷ [])

unfoldable pub ncd_request : Port → Users → NcdSession → NcdMessage → EcmRequest
ncd_request port users s m = record {
  channel = record { caid = port.caid; provid = 0; sid = m.sid };
  ecm_len = length m.bytes + 3;
  client_id = s.client_id;
  hop = elim (get_max_hops users s.username) [ none ↦ 3 | some hops ↦ hops ];
}

abbrev counted : ServerState → NcdSession → Bool → ServerState
counted st s served = record st { users = register_ecm st.users s.username served }

-- The answer to an ECM, under the table of the request.
unfoldable pub ncd_answer : Port → ServerState → NcdSession → NcdMessage → Outcome → NcdResult
ncd_answer port st s m (answered r) =
    if r.found
    then (counted st s true, s, send_and_end port s m m.cmd (take 16 r.cw))
    else (counted st s false, s, send_and_end port s m m.cmd [])
ncd_answer port st s m _ = (counted st s false, s, send_and_end port s m m.cmd [])

-- `ncd_handle_ecm`
unfoldable pub ncd_handle_ecm :
    Port → ServerState → NcdSession → Surroundings → NcdMessage → NcdResult
ncd_handle_ecm port st s at m =
    if ltb (length m.bytes) 8 || ltb 256 (length m.bytes)
    then (st, s, goes_on [])
    else elim (process st.ecm (ncd_request port st.users s m) at.now at.io at.allocated) [
      | none ↦ (st, s, stuck)
      | some r ↦ ncd_answer port (record st { ecm = r.0 }) s m r.1
    ]

-- The commands 0xE0, 0xE3, 0x80, 0x81, 0xFD and 0xEB, with the test of the session's state.
unfoldable pub ncd_dispatch :
    Port
    → ServerState
    → NcdSession
    → Surroundings
    → NcdMessage
    → (NcdSession → NcdMessage → NcdResult)
    → NcdResult × Option (List ℕ)
ncd_dispatch port st s at m handle_login =
    if m.cmd == 0xe0
    then (handle_login s m, none)
    else (if m.cmd == 0xe3
        then ((st, s, (if s.logged_in then ncd_handle_card_req port s m else closes [])), none)
        else (if m.cmd == 0x80 || m.cmd == 0x81
            then ((if s.logged_in then ncd_handle_ecm port st s at m else (st, s, closes [])), none)
            else (if m.cmd == 0xfd
                then (
                  (st, record s { last_keepalive = at.now }, send_and_end port s m 0xfe []),
                  none,
                )
                else (if m.cmd == 0xeb
                    then (
                      (st, s, send_and_end port s m 0xeb []),
                      (if s.logged_in && not (ltb (length m.bytes) 3) then some m.bytes else none),
                    )
                    else ((st, s, goes_on []), none)))))
