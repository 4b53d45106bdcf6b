-- ===== src/Newcamd/ServiceTests.antt =====
-- Newcamd sessions on concrete states, and instances of the theorems about them.
use cccam_3_0_1_by_sharillas.Base.{
  ℕ, ◌+◌, ◌≡◌, refl, arith, true, false, none, some, List, [], ◌∷◌, length, drop,
}
use cccam_3_0_1_by_sharillas.Base
use cccam_3_0_1_by_sharillas.Users.{User, level_user, find_user}
use cccam_3_0_1_by_sharillas.Legacy.Login.{c_string}
use cccam_3_0_1_by_sharillas.Legacy.Service.{ServerState, Surroundings}
use cccam_3_0_1_by_sharillas.Ecm.Example.{start, online}
use cccam_3_0_1_by_sharillas.Newcamd.{NcdHost, NcdSession, NcdMessage}
use cccam_3_0_1_by_sharillas.Newcamd.Service.{Port}
use cccam_3_0_1_by_sharillas.Newcamd.Login.{
  ncd_credentials, ncd_handle_login, ncd_handle_login-known, cccam_newcamd_process,
}
use cccam_3_0_1_by_sharillas.Newcamd.Closed.{cccam_newcamd_process-closed}

abbrev open_text : NcdHost
open_text = record {
  encrypt = λ buf key. some buf;
  decrypt = λ buf key. some buf;
  login_key = λ a b. a;
  stale = λ i b. b;
}

abbrev port : Port
port = record {
  des = open_text;
  des_key = 1 ∷ 2 ∷ [];
  caid = 0x1810;
  registers = false;
  sha256 = λ x. x;
  md5 = λ x. x;
  fuel = 40;
}

-- "bob" with the password "ab".
abbrev bob : User
bob = record {
  id = 1;
  username = 98 ∷ 111 ∷ 98 ∷ [];
  password_hash = [];
  password = 97 ∷ 98 ∷ [];
  level = level_user;
  max_hops = 2;
  enabled = true;
  created_at = 0;
  last_login = 0;
  login_count = 0;
  ecm_requests = 0;
  ecm_success = 0;
}

abbrev known_to : ServerState
known_to = record {
  ecm = start;
  users = record { users = bob ∷ []; count = 1; next_id = 2; initialized = true };
}

abbrev at_fifty : Surroundings
at_fifty = record { now = 50; io = online; allocated = true }

abbrev arrived : NcdSession
arrived = record {
  logged_in = false;
  login_key = [];
  session_key = 1 ∷ [];
  session_key_alt = 2 ∷ [];
  key_mode = 0;
  last_msg_id = 0;
  username = [];
  client_id = 0;
  last_keepalive = 0;
}

-- An ECM with eight bytes.
abbrev early_ecm : List ℕ
early_ecm = 0 ∷ 17 ∷ 0 ∷ 7 ∷ 0 ∷ 0 ∷ 0 ∷ 0 ∷ 0x80 ∷ 0 ∷ 8 ∷ 1 ∷ 2 ∷ 3 ∷ 4 ∷ 5 ∷ 6 ∷ 7 ∷ 8 ∷ []

abbrev login : NcdMessage
login = record { cmd = 0xe0; msg_id = 1; sid = 0; bytes = 98 ∷ 111 ∷ 98 ∷ 0 ∷ 97 ∷ 98 ∷ 0 ∷ [] }

login_read : ncd_credentials login.bytes ≡ some (bob.username, bob.password)
unfolding ncd_credentials c_string
login_read = refl

bob_found : find_user known_to.users bob.username ≡ some bob
unfolding find_user Base.find_first
bob_found = refl

ncd_handle_login-known_example :
    (ncd_handle_login port known_to arrived at_fifty true login).1 ≡ arrived
ncd_handle_login-known_example =
    ncd_handle_login-known port known_to arrived at_fifty true login bob.username bob.password bob
      login_read bob_found (omega arith) (λ h. omega (arith, h))

cccam_newcamd_process-closed_example :
    ((cccam_newcamd_process port known_to arrived at_fifty true early_ecm).0.0.ecm ≡ known_to.ecm)
    × ((cccam_newcamd_process port known_to arrived at_fifty true early_ecm).1 ≡ none)
cccam_newcamd_process-closed_example =
    cccam_newcamd_process-closed port known_to arrived at_fifty true early_ecm refl
