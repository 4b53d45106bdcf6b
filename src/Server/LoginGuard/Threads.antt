-- ===== src/Server/LoginGuard/Threads.antt =====
-- How many wrong passwords an address can try, where its logins run on many threads: each login is a
-- call of server_login_blocked and then, if it is let through, one of server_login_failure or
-- server_login_success, or none, and the calls of different threads come in any order. A call runs to its
-- end before the next one begins, which no lock of the code ensures.
use cccam_3_0_1_by_sharillas.Base.{
  ℕ, ◌+◌, ◌-◌, ◌≤◌, ◌<◌, ◌≡◌, ◌≢◌, refl, true, false, ◌&&◌, not, Option, none, some, List, [], ◌∷◌,
  ltb, ◌==◌, inl, inr, if◌then◌else◌, arith, Bool-cases, Option-cases, is_some, subst, ltb→lt,
  ltb→le, if_cases, ==_iff, find_first_holds, sym,
}
use cccam_3_0_1_by_sharillas.Server.LoginGuard.{
  Slot, slot_of, login_blocked, login_success, login_failure, fail, count_failure, block_full,
  effective_limit,
}
use cccam_3_0_1_by_sharillas.Server.LoginGuard.Slots.{
  entry, login_failure_known, login_failure_new, blocked_of_entry, entry-login_success,
}

-- A call of the guard by some thread, with the address and the time; `leaves` is a login that was let
-- through and ends without telling the guard, for its payload cannot be read.
pub data GuardCall : Type 0 where
  tests fails : ℕ → ℕ → GuardCall
  succeeds leaves : ℕ → GuardCall

unfoldable pub called : ℕ → List Slot → GuardCall → List Slot
called configured g (tests who now) = g
called configured g (fails who now) = login_failure configured g who now
called configured g (succeeds who) = login_success g who
called configured g (leaves who) = g

-- How many logins of the address are let through and have not ended, after a call.
unfoldable pub running : ℕ → List Slot → ℕ → GuardCall → ℕ
running ip g p (tests who now) = if who == ip && not (login_blocked g who now) then p + 1 else p
running ip g p (fails who now) = if who == ip then p - 1 else p
running ip g p (succeeds who) = if who == ip then p - 1 else p
running ip g p (leaves who) = if who == ip then p - 1 else p

-- How many wrong passwords of the address were tested.
unfoldable pub failures : ℕ → List GuardCall → ℕ
failures ip [] = 0
failures ip (fails who now ∷ cs) = (if who == ip then 1 else 0) + failures ip cs
failures ip (_ ∷ cs) = failures ip cs

-- What is asked of one call: it falls into the minute, at most `most` logins of the address run at once,
-- only a login that was let through ends, none of the address has a correct password, and an address
-- that fails has a slot or finds a free one.
abbrev pub Proceeds : ℕ → ℕ → ℕ → List Slot → ℕ → GuardCall → Type 0
Proceeds ip from most g p (tests who now) =
    (from ≤ now) × (now < from + 60) × (running ip g p (tests who now) ≤ most)
Proceeds ip from most g p (fails who now) =
    (from ≤ now) × (now < from + 60) × (who ≡ ip → 0 < p) × (is_some (slot_of who 0 none g) ≡ true)
Proceeds ip from most g p (succeeds who) = who ≢ ip
Proceeds ip from most g p (leaves who) = who ≡ ip → 0 < p

-- That holds for each call of a history.
abbrev pub Minute : ℕ → ℕ → ℕ → ℕ → List Slot → ℕ → List GuardCall → Type 0
Minute configured ip from most g p [] = Unit
Minute configured ip from most g p (c ∷ cs) =
    Proceeds ip from most g p c
    × Minute configured ip from most (called configured g c) (running ip g p c) cs

-- What the table says of the address when `n` of its passwords were wrong since `from`, and `p` of its
-- logins run.
abbrev Pressed : ℕ → ℕ → ℕ → ℕ → ℕ → Option Slot → Type 0
Pressed configured from most n p none = (n ≡ 0) × (p ≤ most)
Pressed configured from most n p (some s) =
    (s.count ≡ n)
    × (from ≤ s.since)
    × (p ≤ most)
    × (effective_limit configured ≤ n
        → (n + p + 1 ≤ effective_limit configured + most) × (from + 60 ≤ s.blocked_until))

one-le-effective_limit : (configured : ℕ) → 1 ≤ effective_limit configured
unfolding effective_limit
one-le-effective_limit configured = ground arith

Pressed-le :
    (configured from most n p : ℕ) (o : Option Slot)
    → Pressed configured from most n p o
    → n + 1 ≤ effective_limit configured + most
Pressed-le configured from most n p none c =
    let h = one-le-effective_limit configured in omega (arith, c.0, h)
Pressed-le configured from most n p (some s) c =
    elim (Bool-cases (ltb n (effective_limit configured))) [
      | inl t ↦ let h = ltb→lt n (effective_limit configured) t in omega (arith, h)
      | inr f ↦ let h = c.3 (ltb→le n (effective_limit configured) f) in omega (arith, h.0)
    ]

-- One more wrong password of the address.
fail-Pressed_more :
    (configured ip now from most n p : ℕ) (s : Slot)
    → s.ip ≡ ip
    → from ≤ now
    → now < from + 60
    → 0 < p
    → Pressed configured from most n p (some s)
    → Pressed configured from most (n + 1) (p - 1) (some (fail configured ip now s))
unfolding count_failure block_full
fail-Pressed_more configured ip now from most n p s same a b some_running c = ground arith

-- The first wrong password of an address, in a slot that was not its own.
fail-Pressed_first :
    (configured ip now from most p : ℕ) (s : Slot)
    → s.ip ≢ ip
    → from ≤ now
    → now < from + 60
    → 0 < p
    → p ≤ most
    → Pressed configured from most 1 (p - 1) (some (fail configured ip now s))
unfolding count_failure block_full
fail-Pressed_first configured ip now from most p s other a b some_running few =
    ground (arith, one-le-effective_limit configured)

entry-ip : (ip : ℕ) (g : List Slot) (s : Slot) → entry ip g ≡ some s → s.ip ≡ ip
unfolding entry
entry-ip ip g s e = (==_iff s.ip ip).0 (find_first_holds (λ (x : Slot). x.ip == ip) g s e)

-- The entry of the address after one of its own passwords was found wrong.
own_failure :
    (configured ip now from most n p : ℕ) (g : List Slot)
    → ip ≢ 0
    → from ≤ now
    → now < from + 60
    → 0 < p
    → is_some (slot_of ip 0 none g) ≡ true
    → Pressed configured from most n p (entry ip g)
    → Pressed configured from most (n + 1) (p - 1) (entry ip (login_failure configured g ip now))
own_failure configured ip now from most n p g real a b some_running room c =
    elim (Option-cases (entry ip g)) [
      | inl e ↦
          let zero_yet = subst (Pressed configured from most n p) e c in
          let (s, free, at) = login_failure_new configured ip now g e room in
          rw (at.0, zero_yet.0)
            (fail-Pressed_first configured ip now from most p s (λ h. real (omega (arith, h, free)))
              a b some_running zero_yet.1)
      | inr (s, e) ↦
          let known = subst (Pressed configured from most n p) e c in
          let at = login_failure_known configured ip now g s e in
          rw (at.0) (
            fail-Pressed_more configured ip now from most n p s (entry-ip ip g s e) a b some_running
              known)
    ]

-- Another address's failure, as long as it finds a slot, leaves the entry alone.
other_failure :
    (configured ip k now : ℕ) (g : List Slot)
    → ip ≢ 0
    → ip ≢ k
    → is_some (slot_of k 0 none g) ≡ true
    → entry ip (login_failure configured g k now) ≡ entry ip g
other_failure configured ip k now g real apart room = elim (Option-cases (entry k g)) [
  | inl e ↦
      let (s, free, at) = login_failure_new configured k now g e room in
      at.1 ip apart (λ h. real (omega (arith, h, free)))
  | inr (s, e) ↦
      let named = entry-ip k g s e in
      (login_failure_known configured k now g s e).1 ip apart (λ h. apart (omega (arith, h, named)))
]

-- A login of the address that is let through.
let_through :
    (configured ip now from most n p : ℕ) (g : List Slot)
    → now < from + 60
    → login_blocked g ip now ≡ false
    → p + 1 ≤ most
    → Pressed configured from most n p (entry ip g)
    → Pressed configured from most n (p + 1) (entry ip g)
let_through configured ip now from most n p g b open_now few c = elim (Option-cases (entry ip g)) [
  | inl e ↦
      let known = subst (Pressed configured from most n p) e c in
      subst (Pressed configured from most n (p + 1)) (sym e) (known.0, few)
  | inr (s, e) ↦
      let known = subst (Pressed configured from most n p) e c in
      let impossible : effective_limit configured ≤ n → ⊥ = λ full.
        let shut = blocked_of_entry ip now g s e (omega (arith, (known.3 full).1, b)) in cc in
      subst (Pressed configured from most n (p + 1)) (sym e)
        (known.0, known.1, few, λ full. absurd (impossible full))
]

fewer :
    (configured from most n p : ℕ) (o : Option Slot)
    → Pressed configured from most n p o
    → Pressed configured from most n (p - 1) o
fewer configured from most n p none c = (c.0, omega (arith, c.1))
fewer configured from most n p (some s) c =
    (c.0, c.1, omega (arith, c.2), λ full. (omega (arith, (c.3 full).0), (c.3 full).1))

-- How many wrong passwords of the address one call adds.
pub one_more : ℕ → GuardCall → ℕ
one_more ip (fails who now) = if who == ip then 1 else 0
one_more ip _ = 0

stays :
    (configured from most n p : ℕ) (o : Option Slot)
    → Pressed configured from most n p o
    → Pressed configured from most (n + 0) p o
stays configured from most n p o v = subst (λ m. Pressed configured from most m p o) (omega arith) v

tested :
    (configured ip from most n p : ℕ) (g : List Slot) (who now : ℕ)
    → now < from + 60
    → running ip g p (tests who now) ≤ most
    → Pressed configured from most n p (entry ip g)
    → Pressed configured from most (n + 0) (running ip g p (tests who now)) (entry ip g)
unfolding running
tested configured ip from most n p g who now b few v =
    stays configured from most n (running ip g p (tests who now)) (entry ip g)
      (elim (Bool-cases (who == ip && not (login_blocked g who now))) [
        | inr f ↦ rw f v
        | inl t ↦
            let same : who ≡ ip = ground (arith, t) in
            let open_now : login_blocked g who now ≡ false = ground (arith, t) in
            rw t (
              let_through configured ip now from most n p g b
                (subst (λ w. login_blocked g w now ≡ false) same open_now) (ground (arith, few, t))
                v)
      ])

failed :
    (configured ip from most n p : ℕ) (g : List Slot) (who now : ℕ)
    → ip ≢ 0
    → Proceeds ip from most g p (fails who now)
    → Pressed configured from most n p (entry ip g)
    → Pressed configured from most
        (n + (if who == ip then 1 else 0))
        (if who == ip then p - 1 else p)
        (entry ip (login_failure configured g who now))
failed configured ip from most n p g who now real (a, b, runs, room) v =
    elim (Bool-cases (who == ip)) [
      | inl t ↦
          let same : who ≡ ip = (==_iff who ip).0 t in
          rw t (
            subst
              (λ w.
                Pressed configured from most (n + 1) (p - 1)
                  (entry ip (login_failure configured g w now)))
              (sym same)
              (own_failure configured ip now from most n p g real a b (runs same)
                (subst (λ w. is_some (slot_of w 0 none g) ≡ true) same room) v))
      | inr f ↦ rw f (
          subst (Pressed configured from most (n + 0) p)
            (sym (other_failure configured ip who now g real (λ h. ground (arith, f, h)) room))
            (stays configured from most n p (entry ip g) v))
    ]

step-Pressed :
    (configured ip from most n p : ℕ) (g : List Slot) (c : GuardCall)
    → ip ≢ 0
    → Proceeds ip from most g p c
    → Pressed configured from most n p (entry ip g)
    → Pressed configured from most
        (n + one_more ip c)
        (running ip g p c)
        (entry ip (called configured g c))
unfolding called running one_more
step-Pressed configured ip from most n p g (tests who now) real ok v =
    tested configured ip from most n p g who now ok.1 ok.2 v
step-Pressed configured ip from most n p g (fails who now) real ok v =
    failed configured ip from most n p g who now real ok v
step-Pressed configured ip from most n p g (succeeds who) real ok v =
    let other : (who == ip) ≡ false = ground (arith, ok) in
    rw other (
      subst (Pressed configured from most (n + 0) p)
        (sym (entry-login_success ip who g (λ h. ok (sym h)) real))
        (stays configured from most n p (entry ip g) v))
step-Pressed configured ip from most n p g (leaves who) real ok v =
    stays configured from most n (if who == ip then p - 1 else p) (entry ip g) (
      if_cases (λ q. Pressed configured from most n q (entry ip g)) (who == ip) _ _
        (λ _. fewer configured from most n p (entry ip g) v) (λ _. v))

pub failures-more :
    (ip : ℕ) (c : GuardCall) (cs : List GuardCall)
    → failures ip (c ∷ cs) ≡ one_more ip c + failures ip cs
unfolding failures one_more
failures-more ip (tests who now) cs = omega arith
failures-more ip (fails who now) cs = omega arith
failures-more ip (succeeds who) cs = omega arith
failures-more ip (leaves who) cs = omega arith

failures-Pressed :
    (configured ip from most n p : ℕ) (g : List Slot) (cs : List GuardCall)
    → ip ≢ 0
    → Pressed configured from most n p (entry ip g)
    → Minute configured ip from most g p cs
    → n + failures ip cs + 1 ≤ effective_limit configured + most
unfolding failures
failures-Pressed configured ip from most n p g [] real v m =
    let h = Pressed-le configured from most n p (entry ip g) v in omega (arith, h)
failures-Pressed configured ip from most n p g (c ∷ cs) real v m =
    let h =
      failures-Pressed configured ip from most (n + one_more ip c) (running ip g p c)
        (called configured g c) cs real (step-Pressed configured ip from most n p g c real m.0 v)
        m.1 in
    omega (arith, h, failures-more ip c cs)

-- Where the logins of an address run on several threads, at most `most` at once, and the calls of the
-- guard come in any order, within a minute in which the address has no correct login and each address
-- that fails has a slot or finds a free one: the server tests fewer wrong passwords of an address that
-- had no entry before than its limit and `most` together (5 where no limit is configured). For logins one
-- after the other that is the limit.
pub failures-lt-limit :
    (configured ip from most : ℕ) (g : List Slot) (cs : List GuardCall)
    → ip ≢ 0
    → entry ip g ≡ none
    → Minute configured ip from most g 0 cs
    → failures ip cs + 1 ≤ effective_limit configured + most
failures-lt-limit configured ip from most g cs real new m =
    let start : Pressed configured from most 0 0 (entry ip g) =
      subst (Pressed configured from most 0 0) (sym new) (refl, omega arith) in
    let h = failures-Pressed configured ip from most 0 0 g cs real start m in omega (arith, h)
