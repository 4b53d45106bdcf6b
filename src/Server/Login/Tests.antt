-- ===== src/Server/Login/Tests.antt =====
-- Logins on concrete messages, and instances of their theorems.
use cccam_3_0_1_by_sharillas.Base.{ℕ, ◌≡◌, refl, true, false, some, List, [], ◌∷◌, ◌++◌, arith}
use cccam_3_0_1_by_sharillas.Session.{Session, clear}
use cccam_3_0_1_by_sharillas.Session.Tests.{plain, server}
use cccam_3_0_1_by_sharillas.Protocol.{
  LoginMessage, Header, parse, build_login, msg_login, header_bytes,
}
use cccam_3_0_1_by_sharillas.Server.LoginGuard.{free_slots}
use cccam_3_0_1_by_sharillas.Users
use cccam_3_0_1_by_sharillas.Server.Login.Threads.{LoginPart, arrives, decides}
use cccam_3_0_1_by_sharillas.Server.LoginGuard.History.{wrong_tested}
use cccam_3_0_1_by_sharillas.Server.Login.{LoginServer, ClientLogin, read_login}
use cccam_3_0_1_by_sharillas.Server.Login.Reading.{
  NoZero, ended, more, sent_login, login_payload, read_login-build_login,
}
use cccam_3_0_1_by_sharillas.Server.Login.Guarded.{
  serve_logins, turned_away_from, all_seen, guard_after, serve_logins_refine,
}

abbrev open_session : Session
open_session = record server { mode = clear }

abbrev seed : List ℕ
seed = 1 ∷ 2 ∷ 3 ∷ 4 ∷ 5 ∷ 6 ∷ 7 ∷ 8 ∷ 9 ∷ 10 ∷ 11 ∷ 12 ∷ 13 ∷ 14 ∷ 15 ∷ 16 ∷ []

abbrev eve : List ℕ
eve = 101 ∷ 118 ∷ 101 ∷ []

eve-NoZero : NoZero eve
eve-NoZero =
    more (λ h. omega (arith, h)) (more (λ h. omega (arith, h)) (more (λ h. omega (arith, h)) ended))

sent : List ℕ
sent = header_bytes msg_login 40 clear ++ login_payload eve eve 3 seed

login_built : build_login 4096 eve eve 3 seed ≡ some sent
unfolding build_login sent
login_built = refl

read_login-build_login_example :
    (h : Header) × (payload : List ℕ) × (parse plain open_session (sent ++ eve) true
      ≡ some (open_session, h, payload))
    × (h.msg_id ≡ msg_login)
    × (read_login payload ≡ some (sent_login eve eve 3 seed))
read_login-build_login_example =
    read_login-build_login eve eve seed 3 refl eve-NoZero eve-NoZero (omega arith) plain
      open_session 4096 sent eve refl login_built

abbrev nobody : LoginServer
nobody = record {
  guard = free_slots 64;
  users = record { users = []; count = 0; next_id = 1; initialized = true };
}

abbrev login_from : ℕ → List ℕ → ClientLogin
login_from now payload = record {
  ip = 9;
  now = now;
  is_authenticated = false;
  payload = payload;
  allocated = true;
  opened = true;
}

-- A login with a wrong name, and one whose payload is short.
abbrev logins : List ClientLogin
logins = login_from 100 (login_payload eve eve 3 seed) ∷ login_from 101 eve ∷ []

serve_logins_refine_example :
    ((serve_logins (λ x. x) false 5 nobody logins).guard
      ≡ guard_after 5 (free_slots 64) (all_seen (λ x. x) false 5 nobody logins))
    × (turned_away_from (λ x. x) false 5 9 nobody logins
        ≡ wrong_tested 5 9 (free_slots 64) (all_seen (λ x. x) false 5 nobody logins))
serve_logins_refine_example = serve_logins_refine (λ x. x) false 5 9 nobody logins

-- Two threads come to the guard before either password is tested, both with a wrong name; a third then
-- finds the address blocked, at a limit of 2.
abbrev wrong : LoginMessage
wrong = sent_login eve eve 3 seed

abbrev parts : List LoginPart
parts =
    arrives (login_from 100 (login_payload eve eve 3 seed))
    ∷ arrives (login_from 101 (login_payload eve eve 3 seed))
    ∷ decides (login_from 101 (login_payload eve eve 3 seed)) wrong
    ∷ decides (login_from 102 (login_payload eve eve 3 seed)) wrong
    ∷ arrives (login_from 103 eve)
    ∷ []
