-- ===== src/Server/Login/Guarded.antt =====
-- The logins of a server, one after the other, against the guard on its own.
use cccam_3_0_1_by_sharillas.Base.{
  ℕ, ◌+◌, ◌≡◌, refl, Bool, true, false, ◌&&◌, Option, none, some, List, [], ◌∷◌, inl, inr,
  if◌then◌else◌, ◌==◌, Bool-cases, Option-cases, arith, subst, ap, ◌∙◌,
}
use cccam_3_0_1_by_sharillas.Users.{Users}
use cccam_3_0_1_by_sharillas.Server.LoginGuard.{
  Slot, Verdict, accepted, rejected, login_blocked, login_success, login_failure, attempt,
}
use cccam_3_0_1_by_sharillas.Server.LoginGuard.History.{
  LoginAttempt, one_if, is_rejected, wrong_tested,
}
use cccam_3_0_1_by_sharillas.Protocol.{LoginMessage}
use cccam_3_0_1_by_sharillas.Server.Login.{
  LoginServer, ClientLogin, LoginOutcome, already_in, locked_out, malformed, turned_away, let_in,
  settle, client_login, enter, decide, leaves, goes_on, admits, read_login,
}

abbrev pub is_turned_away : LoginOutcome → Bool
is_turned_away turned_away = true
is_turned_away already_in = false
is_turned_away locked_out = false
is_turned_away malformed = false
is_turned_away (let_in m) = false

-- The table after logins that the guard sees on its own.
unfoldable pub guard_after : ℕ → List Slot → List LoginAttempt → List Slot
guard_after configured g [] = g
guard_after configured g (a ∷ more) =
    guard_after configured (attempt configured g a.ip a.now a.correct).0 more

uncounted : (k b : Bool) (x y : ℕ) → b ≡ false → x ≡ y → one_if (k && b) + x ≡ y
uncounted true b x y off e = rw off (omega (arith, e))
uncounted false b x y off e = omega (arith, e)

counted :
    (ip p q : ℕ) (b c : Bool) (x y : ℕ)
    → p ≡ q
    → b ≡ c
    → x ≡ y
    → one_if (q == ip && b) + x ≡ one_if (p == ip && c) + y
counted ip p q b c x y same says e = cc

pub enter_authenticated :
    (g : List Slot) (l : ClientLogin) → l.is_authenticated ≡ true → enter g l ≡ leaves already_in
unfolding enter
enter_authenticated g l y = rw (enter, y) refl

pub enter_blocked :
    (g : List Slot) (l : ClientLogin)
    → l.is_authenticated ≡ false
    → login_blocked g l.ip l.now ≡ true
    → enter g l ≡ leaves locked_out
unfolding enter
enter_blocked g l n blocked = rw (enter, n, blocked) refl

pub enter_malformed :
    (g : List Slot) (l : ClientLogin)
    → l.is_authenticated ≡ false
    → login_blocked g l.ip l.now ≡ false
    → read_login l.payload ≡ none
    → enter g l ≡ leaves malformed
unfolding enter
enter_malformed g l n free e = rw (enter, n, free, e) refl

pub enter_read :
    (g : List Slot) (l : ClientLogin) (m : LoginMessage)
    → l.is_authenticated ≡ false
    → login_blocked g l.ip l.now ≡ false
    → read_login l.payload ≡ some m
    → enter g l ≡ goes_on m
unfolding enter
enter_read g l m n free e = rw (enter, n, free, e) refl

module _ (sha256 : List ℕ → List ℕ) (registers : Bool) (configured : ℕ) where
  -- The login that the guard sees, if it sees one. A payload that cannot be read is turned away
  -- by the guard while the address is blocked, and changes nothing otherwise.
  abbrev pub seen : LoginServer → ClientLogin → Option LoginAttempt
  seen s l = if l.is_authenticated then none else elim (read_login l.payload) [
    | none ↦
        if login_blocked s.guard l.ip l.now
        then some (record { ip = l.ip; now = l.now; correct = false })
        else none
    | some m ↦ some (record {
      ip = l.ip;
      now = l.now;
      correct = (admits sha256 registers s.users m l.now l.allocated l.opened).1;
    })
  ]

  -- A server that works off the logins of its clients.
  unfoldable pub serve_logins : LoginServer → List ClientLogin → LoginServer
  serve_logins s [] = s
  serve_logins s (l ∷ ls) = serve_logins (client_login sha256 registers configured s l).0 ls

  -- How many of the logins from the address are turned away for a wrong name or password.
  unfoldable pub turned_away_from : ℕ → LoginServer → List ClientLogin → ℕ
  turned_away_from ip s [] = 0
  turned_away_from ip s (l ∷ ls) =
      let r = client_login sha256 registers configured s l in
      one_if (l.ip == ip && is_turned_away r.1) + turned_away_from ip r.0 ls

  abbrev put : Option LoginAttempt → List LoginAttempt → List LoginAttempt
  put none more = more
  put (some a) more = a ∷ more

  -- The logins that the guard sees.
  unfoldable pub all_seen : LoginServer → List ClientLogin → List LoginAttempt
  all_seen s [] = []
  all_seen s (l ∷ ls) =
      put (seen s l) (all_seen (client_login sha256 registers configured s l).0 ls)

  -- One login, and what the guard makes of what it sees.
  abbrev Follows :
      LoginServer → ClientLogin → Option LoginAttempt → LoginServer × LoginOutcome → Type 0
  Follows s l none r = (r.0.guard ≡ s.guard) × (is_turned_away r.1 ≡ false)
  Follows s l (some a) r =
      (a.ip ≡ l.ip)
      × (r.0.guard ≡ (attempt configured s.guard a.ip a.now a.correct).0)
      × (is_turned_away r.1 ≡ is_rejected (attempt configured s.guard a.ip a.now a.correct).1)

  settle_guarded :
      (s : LoginServer) (l : ClientLogin) (m : LoginMessage) (r : Users × Bool)
      → let a : List Slot × Verdict =
          (if r.1
            then (login_success s.guard l.ip, accepted)
            else (login_failure configured s.guard l.ip l.now, rejected)) in
        ((settle configured s.guard l m r).0.guard ≡ a.0)
        × (is_turned_away (settle configured s.guard l m r).1 ≡ is_rejected a.1)
  unfolding settle
  settle_guarded s l m (users, true) = (refl, refl)
  settle_guarded s l m (users, false) = (refl, refl)

  leaving :
      (s : LoginServer) (l : ClientLogin) (o : LoginOutcome)
      → enter s.guard l ≡ leaves o
      → client_login sha256 registers configured s l ≡ (s, o)
  unfolding client_login
  leaving s l o e = rw (client_login, e) refl

  going_on :
      (s : LoginServer) (l : ClientLogin) (m : LoginMessage)
      → enter s.guard l ≡ goes_on m
      → client_login sha256 registers configured s l ≡ decide sha256 registers configured s l m
  unfolding client_login
  going_on s l m e = rw (client_login, e) refl

  client_login-Follows :
      (s : LoginServer) (l : ClientLogin)
      → Follows s l (seen s l) (client_login sha256 registers configured s l)
  unfolding attempt decide
  client_login-Follows s l = elim (Bool-cases l.is_authenticated) [
    | inl y ↦ rw (leaving s l already_in (enter_authenticated s.guard l y)) (rw y (refl, refl))
    | inr n ↦ elim (Bool-cases (login_blocked s.guard l.ip l.now)) [
      | inl blocked ↦
          rw (leaving s l locked_out (enter_blocked s.guard l n blocked))
            (elim (Option-cases (read_login l.payload)) [
              | inl e ↦ rw (n, e, blocked) (rw blocked (refl, refl, refl))
              | inr (m, e) ↦ rw (n, e, blocked) (refl, refl, refl)
            ])
      | inr free ↦ elim (Option-cases (read_login l.payload)) [
        | inl e ↦
            rw (leaving s l malformed (enter_malformed s.guard l n free e))
              (rw (n, e, free) (refl, refl))
        | inr (m, e) ↦ rw (going_on s l m (enter_read s.guard l m n free e)) (
            rw (n, e, free)
              (let h =
                  settle_guarded s l m
                    (admits sha256 registers s.users m l.now l.allocated l.opened) in
                (refl, h.0, h.1)))
      ]
    ]
  ]

  -- Over any sequence of logins, one after the other, whatever their payloads, the server's table of addresses is the
  -- one that the guard alone makes of the logins that it sees, and the logins of an address that are
  -- turned away are those whose password the guard counts as wrong.
  pub serve_logins_refine :
      (ip : ℕ) (s : LoginServer) (ls : List ClientLogin)
      → ((serve_logins s ls).guard ≡ guard_after configured s.guard (all_seen s ls))
        × (turned_away_from ip s ls ≡ wrong_tested configured ip s.guard (all_seen s ls))
  unfolding serve_logins turned_away_from all_seen guard_after wrong_tested
  serve_logins_refine ip s [] = (refl, refl)
  serve_logins_refine ip s (l ∷ ls) =
      let ih = serve_logins_refine ip (client_login sha256 registers configured s l).0 ls in
      let here = client_login-Follows s l in
      elim (Option-cases (seen s l)) [
        | inl e ↦
            (let h =
                subst (λ o. Follows s l o (client_login sha256 registers configured s l)) e here in
              rw e (
                ih.0
                    ∙ ap
                        (λ g.
                          guard_after configured g
                            (all_seen (client_login sha256 registers configured s l).0 ls))
                        h.0,
                uncounted (l.ip == ip) _ _ _ h.1 (
                    ih.1
                    ∙ ap
                        (λ g.
                          wrong_tested configured ip g
                            (all_seen (client_login sha256 registers configured s l).0 ls))
                        h.0),
              ))
        | inr (a, e) ↦
            (let h =
                subst (λ o. Follows s l o (client_login sha256 registers configured s l)) e here in
              rw e (
                ih.0
                    ∙ ap
                        (λ g.
                          guard_after configured g
                            (all_seen (client_login sha256 registers configured s l).0 ls))
                        h.1,
                counted ip _ _ _ _ _ _ h.0 h.2 (
                    ih.1
                    ∙ ap
                        (λ g.
                          wrong_tested configured ip g
                            (all_seen (client_login sha256 registers configured s l).0 ls))
                        h.1),
              ))
      ]
