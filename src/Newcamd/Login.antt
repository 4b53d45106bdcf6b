-- ===== src/Newcamd/Login.antt =====
-- src/network/cccam3_newcamd.c: ncd_handle_login, and cccam_newcamd_process with all its handlers. The
-- text that a registration appends to the file of users is left out here.
use cccam_3_0_1_by_sharillas.Base.{
  ℕ, ◌+◌, ◌%◌, ◌^◌, ◌<◌, ◌≡◌, ◌≢◌, refl, Bool, true, false, ◌||◌, not, Option, none, some, List, [],
  ◌∷◌, leb, ltb, ◌==◌, if◌then◌else◌, length, drop, same_text, Option-cases, inl, inr,
}
use cccam_3_0_1_by_sharillas.Users.{User, Users, find_user}
use cccam_3_0_1_by_sharillas.Users.Register.{
  Registration, registered, turned_down, name_taken, auto_register,
}
use cccam_3_0_1_by_sharillas.Legacy.Login.{c_string, stored_password}
use cccam_3_0_1_by_sharillas.Legacy.Service.{ServerState, Surroundings}
use cccam_3_0_1_by_sharillas.Newcamd.{NcdSession, NcdMessage, ncd_send_message, ncd_open}
use cccam_3_0_1_by_sharillas.Newcamd.Crypt.{md5_crypt, md5_crypt_endless}
use cccam_3_0_1_by_sharillas.Newcamd.Service.{
  Port, End, goes_on, closes, stuck, NcdResult, ncd_dispatch,
}

-- The name and the password of a login, each with its final 0.
unfoldable pub ncd_credentials : List ℕ → Option (List ℕ × List ℕ)
ncd_credentials bytes =
    let name = c_string bytes in
    let rest = drop (length name + 1) bytes in
    let password = c_string rest in
    if ltb (length bytes) 2
    then none
    else (if length name == 0 || (leb 64 (length name) || leb (length bytes) (length name))
        then none
        else (if leb (length bytes) (length name + 1)
            then none
            else (if length password == 0
                  || (leb 128 (length password) || leb (length rest) (length password))
                then none
                else some (name, password))))

-- "abcdefgh"
abbrev pub ncd_salt : List ℕ
ncd_salt = 97 ∷ 98 ∷ 99 ∷ 100 ∷ 101 ∷ 102 ∷ 103 ∷ 104 ∷ []

unfoldable pub crypted : Port → List ℕ → Option (List ℕ)
crypted port password = md5_crypt port.md5 port.fuel password ncd_salt

unfoldable pub was_registered : Registration → Bool
was_registered registered = true
was_registered turned_down = false
was_registered name_taken = false

-- Whether a known account takes the password, as it is or as md5_crypt gives it; `none` where
-- md5_crypt never returns.
unfoldable pub known_user : Port → User → List ℕ → Option Bool
known_user port u password =
    if not u.enabled
    then some false
    else (if same_text u.password password then some true else elim (crypted port u.password) [
      | none ↦ none
      | some expected ↦ some (same_text expected password)
    ])

-- The test of a login, with the registration of a new name.
unfoldable pub ncd_authenticate :
    Port → Users → List ℕ → List ℕ → Surroundings → Bool → Option (Users × Bool)
ncd_authenticate port g name password at opened = elim (find_user g name) [
  | some u ↦ elim (known_user port u password) [ none ↦ none | some ok ↦ some (g, ok) ]
  | none ↦
      if port.registers
      then (let r = auto_register port.sha256 g name password at.now at.allocated opened in
          some (r.0, was_registered r.1))
      else some (g, false)
]

-- The end of a login: `closes` after the NAK, if it could be sent.
unfoldable pub ncd_nak : Port → NcdSession → NcdMessage → End
ncd_nak port s m = elim (ncd_send_message port.des s.session_key m.msg_id 0xe2 [] 0) [
  | none ↦ closes []
  | some out ↦ closes out
]

-- The session of a login that succeeds, with its two keys.
unfoldable pub ncd_logged_in : Port → NcdSession → List ℕ → List ℕ → List ℕ → ℕ → NcdSession
ncd_logged_in port s name stored expected now = record s {
  session_key = port.des.login_key port.des_key stored;
  session_key_alt = port.des.login_key port.des_key expected;
  key_mode = 0;
  logged_in = true;
  username = name;
  last_keepalive = now;
}

-- The ACK and the keys, from the password that was stored before the login.
unfoldable pub ncd_ack :
    Port → ServerState → NcdSession → NcdMessage → List ℕ → List ℕ → ℕ → NcdResult
ncd_ack port st s m name stored now =
    elim (ncd_send_message port.des s.session_key m.msg_id 0xe1 [] 0) [
      | none ↦ (st, s, closes [])
      | some out ↦ elim (crypted port stored) [
        | none ↦ (st, s, stuck)
        | some expected ↦ (st, ncd_logged_in port s name stored expected now, goes_on out)
      ]
    ]

unfoldable pub ncd_login_as :
    Port → ServerState → NcdSession → Surroundings → Bool → NcdMessage → List ℕ → List ℕ → NcdResult
ncd_login_as port st s at opened m name password =
    elim (ncd_authenticate port st.users name password at opened) [
      | none ↦ (st, s, stuck)
      | some r ↦
          if r.1
          then ncd_ack port (record st { users = r.0 }) s m name (stored_password st.users name)
              at.now
          else (record st { users = r.0 }, s, ncd_nak port s m)
    ]

-- `ncd_handle_login`; `opened` says whether the file of users could be opened.
unfoldable pub ncd_handle_login :
    Port → ServerState → NcdSession → Surroundings → Bool → NcdMessage → NcdResult
ncd_handle_login port st s at opened m = elim (ncd_credentials m.bytes) [
  | none ↦ (st, s, closes [])
  | some c ↦ ncd_login_as port st s at opened m c.0 c.1
]

-- `cccam_newcamd_process`, with the EMM to forward.
unfoldable pub cccam_newcamd_process :
    Port → ServerState → NcdSession → Surroundings → Bool → List ℕ → NcdResult × Option (List ℕ)
cccam_newcamd_process port st s at opened raw = elim (ncd_open port.des s raw) [
  | none ↦ ((st, s, closes []), none)
  | some r ↦ ncd_dispatch port st r.0 at r.1 (λ s' m. ncd_handle_login port st s' at opened m)
]

ncd_ack-session :
    (port : Port) (st : ServerState) (s : NcdSession) (m : NcdMessage) (name stored : List ℕ)
    (now : ℕ)
    → crypted port stored ≡ none
    → (ncd_ack port st s m name stored now).1 ≡ s
unfolding ncd_ack
ncd_ack-session port st s m name stored now endless =
    elim (Option-cases (ncd_send_message port.des s.session_key m.msg_id 0xe1 [] 0)) [
      | inl e ↦ rw (ncd_ack, e) refl
      | inr (out, e) ↦ rw (ncd_ack, e, endless) refl
    ]

-- No login to an account whose password has a length that is no multiple of 16 leads to a session
-- that has logged in: the session stays what it was, whatever password the client sends.
pub ncd_handle_login-known :
    (port : Port) (st : ServerState) (s : NcdSession) (at : Surroundings) (opened : Bool)
    (m : NcdMessage) (name password : List ℕ) (u : User)
    → ncd_credentials m.bytes ≡ some (name, password)
    → find_user st.users name ≡ some u
    → length u.password < 2 ^ 32
    → length u.password % 16 ≢ 0
    → (ncd_handle_login port st s at opened m).1 ≡ s
unfolding ncd_handle_login ncd_login_as ncd_authenticate stored_password crypted
ncd_handle_login-known port st s at opened m name password u sent known small odd =
    let endless = md5_crypt_endless port.md5 port.fuel u.password ncd_salt small odd in
    let opens : ncd_handle_login port st s at opened m
        ≡ ncd_login_as port st s at opened m name password =
      rw (ncd_handle_login, sent) refl in
    let stored : stored_password st.users name ≡ u.password = rw (stored_password, known) refl in
    let none_stored : crypted port (stored_password st.users name) ≡ none = rw (stored) endless in
    rw (opens) (elim (Option-cases (known_user port u password)) [
      | inl e ↦ rw (ncd_login_as, ncd_authenticate, known, e) refl
      | inr (true, e) ↦
          rw (ncd_login_as, ncd_authenticate, known, e)
            (ncd_ack-session port st s m name (stored_password st.users name) at.now none_stored)
      | inr (false, e) ↦ rw (ncd_login_as, ncd_authenticate, known, e) refl
    ])
