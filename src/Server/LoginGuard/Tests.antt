-- ===== src/Server/LoginGuard/Tests.antt =====
-- The guard against guessed passwords on concrete tables, and instances of its theorems.
use cccam_3_0_1_by_sharillas.Base.{
  ℕ, suc, zero, ◌+◌, ◌≡◌, refl, true, false, List, [], ◌∷◌, arith, find_first,
}
use cccam_3_0_1_by_sharillas.Server.LoginGuard.{
  Slot, slot_of, login_blocked, login_success, login_failure, count_failure, block_full, write_slot,
  attempt, effective_limit, free_slots, clear_ip,
}
use cccam_3_0_1_by_sharillas.Server.LoginGuard.Slots.{entry}
use cccam_3_0_1_by_sharillas.Server.LoginGuard.History.{
  LoginAttempt, wrong_tested, taken_over_blocked,
}

abbrev guesses : List LoginAttempt
guesses =
    record { ip = 9; now = 100; correct = false }
    ∷ record { ip = 9; now = 101; correct = false }
    ∷ record { ip = 7; now = 102; correct = true }
    ∷ record { ip = 9; now = 103; correct = false }
    ∷ []

-- With a limit of 2 the third guess is refused.
guesses_tested : wrong_tested 2 9 (free_slots 64) guesses ≡ 2
unfolding wrong_tested attempt login_blocked login_failure login_success clear_ip slot_of write_slot
    count_failure block_full effective_limit free_slots
guesses_tested = refl

-- A table of 64 other addresses, all of them blocked until 150.
taken_slots : ℕ → List Slot
taken_slots zero = []
taken_slots (suc n) =
    record { ip = 1000 + n; count = 5; since = 90; blocked_until = 150 } ∷ taken_slots n

abbrev owner : Slot
owner = record { ip = 1054; count = 5; since = 90; blocked_until = 150 }

taken_over_blocked_example : login_blocked (login_failure 5 (taken_slots 64) 9 100) 9 100 ≡ true
unfolding taken_slots entry find_first slot_of effective_limit
taken_over_blocked_example =
    taken_over_blocked 5 9 100 (taken_slots 64) owner refl refl refl (λ h. omega (arith, h))
      (omega arith) (omega arith)
