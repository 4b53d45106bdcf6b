-- ===== src/Server/Login/Threads.antt =====
-- The logins of many threads against the guard's calls: src/core/cccam3_server.c, handle_client_login in
-- two parts, before and after the test of the password, which come in any order.
use cccam_3_0_1_by_sharillas.Base.{ℕ, ◌+◌, ◌≡◌, Bool, List, [], ◌∷◌, ◌++◌, if◌then◌else◌, ◌==◌}
use cccam_3_0_1_by_sharillas.Users.{Users}
use cccam_3_0_1_by_sharillas.Protocol.{LoginMessage}
use cccam_3_0_1_by_sharillas.Server.LoginGuard.{Slot}
use cccam_3_0_1_by_sharillas.Server.LoginGuard.Threads.{
  GuardCall, tests, fails, succeeds, called, failures,
}
use cccam_3_0_1_by_sharillas.Server.LoginGuard.Threads
use cccam_3_0_1_by_sharillas.Server.Login.{
  LoginServer, ClientLogin, Entered, goes_on, turned_away, already_in, locked_out, malformed,
  let_in, enter, decide, admits,
}
use cccam_3_0_1_by_sharillas.Server.Login.Guarded.{is_turned_away}

-- A thread comes to the guard's test, or to the test of the password with the message that it read.
pub data LoginPart : Type 0 where
  arrives : ClientLogin → LoginPart
  decides : ClientLogin → LoginMessage → LoginPart

-- The table after calls of the guard.
unfoldable pub guard_run : ℕ → List Slot → List GuardCall → List Slot
guard_run configured g [] = g
guard_run configured g (c ∷ cs) = guard_run configured (called configured g c) cs

-- A thread that was let through and leaves, for its payload cannot be read.
unfoldable pub leaving_calls : ℕ → Entered → List GuardCall
leaving_calls ip (Entered.leaves malformed) = Threads.leaves ip ∷ []
leaving_calls ip (Entered.leaves already_in) = []
leaving_calls ip (Entered.leaves locked_out) = []
leaving_calls ip (Entered.leaves turned_away) = []
leaving_calls ip (Entered.leaves (let_in m)) = []
leaving_calls ip (goes_on m) = []

-- The calls of the guard that an arriving thread makes.
unfoldable pub entry_calls : List Slot → ClientLogin → List GuardCall
entry_calls g l =
    if l.is_authenticated then [] else tests l.ip l.now ∷ leaving_calls l.ip (enter g l)

module _ (sha256 : List ℕ → List ℕ) (registers : Bool) (configured : ℕ) where
  unfoldable pub part_step : LoginServer → LoginPart → LoginServer
  part_step s (arrives l) = s
  part_step s (decides l m) = (decide sha256 registers configured s l m).0

  unfoldable pub part_calls : LoginServer → LoginPart → List GuardCall
  part_calls s (arrives l) = entry_calls s.guard l
  part_calls s (decides l m) =
      if (admits sha256 registers s.users m l.now l.allocated l.opened).1
      then succeeds l.ip ∷ []
      else fails l.ip l.now ∷ []

  -- Whether the part turns away a login from the address for a wrong name or password.
  unfoldable pub part_refuses : ℕ → LoginServer → LoginPart → ℕ
  part_refuses ip s (arrives l) = 0
  part_refuses ip s (decides l m) =
      if is_turned_away (decide sha256 registers configured s l m).1
      then (if l.ip == ip then 1 else 0)
      else 0

  unfoldable pub parts_run : LoginServer → List LoginPart → LoginServer
  parts_run s [] = s
  parts_run s (e ∷ es) = parts_run (part_step s e) es

  unfoldable pub parts_calls : LoginServer → List LoginPart → List GuardCall
  parts_calls s [] = []
  parts_calls s (e ∷ es) = part_calls s e ++ parts_calls (part_step s e) es

  unfoldable pub parts_refuse : ℕ → LoginServer → List LoginPart → ℕ
  parts_refuse ip s [] = 0
  parts_refuse ip s (e ∷ es) = part_refuses ip s e + parts_refuse ip (part_step s e) es

  -- Calls that leave the table as it is, and are no failures.
  abbrev Idle : ℕ → List Slot → List GuardCall → Type 0
  Idle ip g cs = (guard_run configured g cs ≡ g) × (failures ip cs ≡ 0)
