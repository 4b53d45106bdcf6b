-- ===== src/Server/LoginGuard/History.antt =====
-- How many wrong passwords an address can try, over histories of logins one after the other.
use cccam_3_0_1_by_sharillas.Base.{
  ℕ, ◌+◌, ◌%◌, ◌<◌, ◌≡◌, ◌≢◌, Bool, true, false, ◌&&◌, none, some, List, [], ◌∷◌, ◌==◌, get_elem?,
  arith,
}
use cccam_3_0_1_by_sharillas.Server.LoginGuard.{
  Slot, Verdict, refused, accepted, rejected, slot_of, login_blocked, login_failure, fail,
  count_failure, block_full, attempt, effective_limit, fail_slots,
}
use cccam_3_0_1_by_sharillas.Server.LoginGuard.Slots.{entry, login_failure_full, blocked_of_entry}

-- A login: the address, the time, and whether its password is correct.
pub record LoginAttempt : Type 0 where
  pub ip : ℕ
  pub now : ℕ
  pub correct : Bool

abbrev pub one_if : Bool → ℕ
one_if true = 1
one_if false = 0

abbrev pub is_rejected : Verdict → Bool
is_rejected rejected = true
is_rejected accepted = false
is_rejected refused = false

-- How many passwords of the address the server tests and finds wrong.
unfoldable pub wrong_tested : ℕ → ℕ → List Slot → List LoginAttempt → ℕ
wrong_tested configured ip g [] = 0
wrong_tested configured ip g (l ∷ ls) =
    let r = attempt configured g l.ip l.now l.correct in
    one_if (l.ip == ip && is_rejected r.1) + wrong_tested configured ip r.0 ls

-- In a full table an address without an entry takes over another's slot with the time until which
-- that one is blocked: its first wrong password then blocks it too, below its own limit.
pub taken_over_blocked :
    (configured ip now : ℕ) (g : List Slot) (s : Slot)
    → entry ip g ≡ none
    → slot_of ip 0 none g ≡ none
    → get_elem? g (ip % fail_slots) ≡ some s
    → s.ip ≢ ip
    → now < s.blocked_until
    → 1 < effective_limit configured
    → login_blocked (login_failure configured g ip now) ip now ≡ true
unfolding count_failure block_full
taken_over_blocked configured ip now g s new full got other until above =
    let at = login_failure_full configured ip now g s new full got in
    blocked_of_entry ip now (login_failure configured g ip now) (fail configured ip now s) at.0
      (ground arith)
