-- ===== src/Server/Login.antt =====
-- src/core/cccam3_server.c, handle_client_login as far as server_login_success: the reading of a
-- LOGIN payload, and the decision about the login, composed of the guard against guessed passwords
-- and of the user manager. One reading of the clock serves both. What follows an accepted login
-- (the handshake, the session's key and the reply) is in Server.Accept. The guard's arrays have
-- no lock and each client has a thread: `enter` and `decide` are the parts of a login between which
-- other threads' parts may come, as they do in Server.Login.Threads.
pub mod Guarded
pub mod Threads
pub mod Reading
mod Tests
use cccam_3_0_1_by_sharillas.Base.{
  ℕ, suc, zero, ◌+◌, ◌-◌, Bool, true, false, ◌||◌, Option, none, some, List, [], ◌∷◌, ltb, leb,
  ◌==◌, if◌then◌else◌, length, take, drop,
}
use cccam_3_0_1_by_sharillas.Session.{read_be32}
use cccam_3_0_1_by_sharillas.Protocol.{LoginMessage}
use cccam_3_0_1_by_sharillas.Users.{Users}
use cccam_3_0_1_by_sharillas.Users
use cccam_3_0_1_by_sharillas.Users.Register.{Registration, registered, auto_register}
use cccam_3_0_1_by_sharillas.Server.LoginGuard.{
  Slot, Verdict, refused, accepted, rejected, login_blocked, login_success, login_failure,
}

-- `strnlen` over the bytes that remain, with the text that it measures and what follows its final 0;
-- `none` where there is no 0, or the text has no room in an array of 64 bytes.
unfoldable pub text_before : List ℕ → Option (List ℕ × List ℕ)
text_before [] = none
text_before (b ∷ bs) =
    let rest = text_before bs in
    if b == 0 then some ([], bs) else elim rest [ none ↦ none | some r ↦ some (b ∷ r.0, r.1) ]

unfoldable pub field : List ℕ → Option (List ℕ × List ℕ)
unfolding text_before
field bytes = elim (text_before bytes) [
  | none ↦ none
  | some r ↦ if leb 64 (length r.0) then none else some r
]

-- The fields of a payload of at least 22 bytes.
unfoldable pub read_login : List ℕ → Option LoginMessage
unfolding field
read_login payload = if ltb (length payload) 22 then none else elim (field (drop 16 payload)) [
  | none ↦ none
  | some u ↦ elim (field u.1) [
    | none ↦ none
    | some p ↦
        if ltb (length p.1) 4
        then none
        else some (record {
          handshake = take 16 payload;
          username = u.0;
          password = p.0;
          version = read_be32 p.1;
        })
  ]
]

-- The name and the password are known, or are registered where the configuration lets them.
unfoldable pub admits :
    (List ℕ → List ℕ) → Bool → Users → LoginMessage → ℕ → Bool → Bool → Users × Bool
admits sha256 registers g m now allocated opened =
    let r = Users.authenticate sha256 g m.username m.password now in
    elim r.1 [
      | Users.Login.accepted ↦ (r.0, true)
      | _ ↦
          if registers
          then (let a = auto_register sha256 r.0 m.username m.password now allocated opened in
              (a.0, elim a.1 [ registered ↦ true | _ ↦ false ]))
          else (r.0, false)
    ]

-- What a login reads and changes of the server.
pub record LoginServer : Type 0 where
  pub guard : List Slot
  pub users : Users

-- A LOGIN message: its address and its time, whether the client is authenticated already, the
-- payload, and whether memory for a user and the file of users are there to register one.
pub record ClientLogin : Type 0 where
  pub ip : ℕ
  pub now : ℕ
  pub is_authenticated : Bool
  pub payload : List ℕ
  pub allocated : Bool
  pub opened : Bool

-- How `handle_client_login` leaves; `let_in` goes on to the handshake.
pub data LoginOutcome : Type 0 where
  already_in locked_out malformed turned_away : LoginOutcome
  let_in : LoginMessage → LoginOutcome

-- The end of the part that is modelled: the password's test, and the guard told of it.
unfoldable pub settle :
    ℕ → List Slot → ClientLogin → LoginMessage → Users × Bool → LoginServer × LoginOutcome
settle configured guard l m (users, true) =
    (record { guard = login_success guard l.ip; users = users }, let_in m)
settle configured guard l m (users, false) =
    (record { guard = login_failure configured guard l.ip l.now; users = users }, turned_away)

-- How far a thread comes before the password is tested: it leaves, or goes on with the message.
pub data Entered : Type 0 where
  leaves : LoginOutcome → Entered
  goes_on : LoginMessage → Entered

-- The beginning of `handle_client_login`, which reads the guard once.
unfoldable pub enter : List Slot → ClientLogin → Entered
enter guard l =
    if l.is_authenticated
    then leaves already_in
    else (if login_blocked guard l.ip l.now
        then leaves locked_out
        else elim (read_login l.payload) [ none ↦ leaves malformed | some m ↦ goes_on m ])

-- The rest, on the server as it is when the thread comes there.
unfoldable pub decide :
    (List ℕ → List ℕ)
    → Bool
    → ℕ
    → LoginServer
    → ClientLogin
    → LoginMessage
    → LoginServer × LoginOutcome
unfolding settle
decide sha256 registers configured s l m =
    settle configured s.guard l m (admits sha256 registers s.users m l.now l.allocated l.opened)

-- `handle_client_login` as far as `server_login_success`, where no other login comes between.
unfoldable pub client_login :
    (List ℕ → List ℕ) → Bool → ℕ → LoginServer → ClientLogin → LoginServer × LoginOutcome
unfolding enter decide
client_login sha256 registers configured s l = elim (enter s.guard l) [
  | leaves o ↦ (s, o)
  | goes_on m ↦ decide sha256 registers configured s l m
]
