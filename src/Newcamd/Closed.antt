-- ===== src/Newcamd/Closed.antt =====
-- The messages of a Newcamd client that has not logged in: src/network/cccam3_newcamd.c,
-- cccam_newcamd_process.
use cccam_3_0_1_by_sharillas.Base.{
  ℕ, ◌≡◌, refl, Bool, true, false, ◌||◌, none, List, [], ◌==◌, Bool-cases, Option-cases, inl, inr,
}
use cccam_3_0_1_by_sharillas.Legacy.Login.{stored_password}
use cccam_3_0_1_by_sharillas.Legacy.Service.{ServerState, Surroundings}
use cccam_3_0_1_by_sharillas.Newcamd.{
  NcdSession, NcdMessage, ncd_send_message, ncd_decrypt_message, ncd_open,
}
use cccam_3_0_1_by_sharillas.Newcamd.Service.{Port, NcdResult, ncd_dispatch}
use cccam_3_0_1_by_sharillas.Newcamd.Login.{
  crypted, ncd_credentials, ncd_authenticate, ncd_ack, ncd_login_as, ncd_handle_login,
  cccam_newcamd_process,
}

ncd_ack-ecm :
    (port : Port) (st : ServerState) (s : NcdSession) (m : NcdMessage) (name stored : List ℕ)
    (now : ℕ)
    → (ncd_ack port st s m name stored now).0.ecm ≡ st.ecm
unfolding ncd_ack
ncd_ack-ecm port st s m name stored now =
    elim (Option-cases (ncd_send_message port.des s.session_key m.msg_id 0xe1 [] 0)) [
      | inl e ↦ rw (ncd_ack, e) refl
      | inr (out, e) ↦ elim (Option-cases (crypted port stored)) [
        | inl f ↦ rw (ncd_ack, e, f) refl
        | inr (x, f) ↦ rw (ncd_ack, e, f) refl
      ]
    ]

ncd_login_as-ecm :
    (port : Port) (st : ServerState) (s : NcdSession) (at : Surroundings) (opened : Bool)
    (m : NcdMessage) (name password : List ℕ)
    → (ncd_login_as port st s at opened m name password).0.ecm ≡ st.ecm
unfolding ncd_login_as
ncd_login_as-ecm port st s at opened m name password =
    elim (Option-cases (ncd_authenticate port st.users name password at opened)) [
      | inl e ↦ rw (ncd_login_as, e) refl
      | inr ((g, true), e) ↦
          rw (ncd_login_as, e)
            (ncd_ack-ecm port (record st { users = g }) s m name (stored_password st.users name)
              at.now)
      | inr ((g, false), e) ↦ rw (ncd_login_as, e) refl
    ]

ncd_handle_login-ecm :
    (port : Port) (st : ServerState) (s : NcdSession) (at : Surroundings) (opened : Bool)
    (m : NcdMessage)
    → (ncd_handle_login port st s at opened m).0.ecm ≡ st.ecm
unfolding ncd_handle_login
ncd_handle_login-ecm port st s at opened m = elim (Option-cases (ncd_credentials m.bytes)) [
  | inl e ↦ rw (ncd_handle_login, e) refl
  | inr (c, e) ↦ rw (ncd_handle_login, e) (ncd_login_as-ecm port st s at opened m c.0 c.1)
]

-- The dispatch of a message, for a session that has not logged in.
ncd_dispatch-ecm :
    (port : Port) (st : ServerState) (s : NcdSession) (at : Surroundings) (m : NcdMessage)
    (handle_login : NcdSession → NcdMessage → NcdResult)
    → s.logged_in ≡ false
    → (handle_login s m).0.ecm ≡ st.ecm
    → ((ncd_dispatch port st s at m handle_login).0.0.ecm ≡ st.ecm)
      × ((ncd_dispatch port st s at m handle_login).1 ≡ none)
unfolding ncd_dispatch
ncd_dispatch-ecm port st s at m handle_login out kept = elim (Bool-cases (m.cmd == 0xe0)) [
  | inl a ↦ rw (ncd_dispatch, a) (kept, refl)
  | inr a ↦ elim (Bool-cases (m.cmd == 0xe3)) [
    | inl b ↦ rw (ncd_dispatch, a, b) (refl, refl)
    | inr b ↦ elim (Bool-cases (m.cmd == 0x80 || m.cmd == 0x81)) [
      | inl c ↦ rw (ncd_dispatch, a, b, c, out) (refl, refl)
      | inr c ↦ elim (Bool-cases (m.cmd == 0xfd)) [
        | inl d ↦ rw (ncd_dispatch, a, b, c, d) (refl, refl)
        | inr d ↦ elim (Bool-cases (m.cmd == 0xeb)) [
          | inl f ↦ rw (ncd_dispatch, a, b, c, d, f, out) (refl, refl)
          | inr f ↦ rw (ncd_dispatch, a, b, c, d, f) (refl, refl)
        ]
      ]
    ]
  ]
]

-- A client that has not logged in reaches no part of the ECM handler: whatever bytes it sends, the
-- cache, the readers, the hops and the counters stay as they are, and no EMM is forwarded.
pub cccam_newcamd_process-closed :
    (port : Port) (st : ServerState) (s : NcdSession) (at : Surroundings) (opened : Bool)
    (raw : List ℕ)
    → s.logged_in ≡ false
    → ((cccam_newcamd_process port st s at opened raw).0.0.ecm ≡ st.ecm)
      × ((cccam_newcamd_process port st s at opened raw).1 ≡ none)
unfolding cccam_newcamd_process ncd_open
cccam_newcamd_process-closed port st s at opened raw out =
    elim (Option-cases (ncd_decrypt_message port.des raw s.login_key)) [
      | inl e ↦ rw (cccam_newcamd_process, ncd_open, out, e) (refl, refl)
      | inr (m, e) ↦
          rw (cccam_newcamd_process, ncd_open, out, e)
            (ncd_dispatch-ecm port st (record s { last_msg_id = m.msg_id }) at m
              (λ s' m'. ncd_handle_login port st s' at opened m') out
              (ncd_handle_login-ecm port st (record s { last_msg_id = m.msg_id }) at opened m))
    ]
