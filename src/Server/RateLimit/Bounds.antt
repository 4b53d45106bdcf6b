-- ===== src/Server/RateLimit/Bounds.antt =====
-- The limit of ECMs per second over a client's whole session.
use cccam_3_0_1_by_sharillas.Base.{
  ℕ, zero, suc, ==_refl, refl, ◌+◌, ◌-◌, ◌≤◌, ◌<◌, ◌≡◌, true, List, [], ◌∷◌, arith, ltb, ◌==◌,
  if◌then◌else◌, ◌&&◌,
}
use cccam_3_0_1_by_sharillas.Server.RateLimit.{Window, ecm_allowed}

-- How many of the requests, which come at the times of the list, are let through at the time `t`.
pub served_at : ℕ → ℕ → Window → List ℕ → ℕ
served_at t limit w [] = 0
served_at t limit w (now ∷ later) =
    let r = ecm_allowed limit w now in
    (if r.1 && now == t then 1 else 0) + served_at t limit r.0 later

-- The times of a list do not go back, and none is before `from`.
abbrev pub Ordered : ℕ → List ℕ → Type 0
Ordered from [] = Unit
Ordered from (now ∷ later) = (from ≤ now) × Ordered now later

-- What is left of the limit in the second `t`, when the clock has reached `from`.
left_at : ℕ → ℕ → Window → ℕ
left_at t limit w = if w.start == t then limit - w.count else (if ltb t w.start then 0 else limit)

Ordered-from : (a b : ℕ) (times : List ℕ) → a ≤ b → Ordered b times → Ordered a times
Ordered-from a b [] h o = tt
Ordered-from a b (now ∷ later) h o = (omega (arith, o.0), o.1)

ecm_allowed-start :
    (limit : ℕ) (w : Window) (now : ℕ) → w.start ≤ now → (ecm_allowed limit w now).0.start ≤ now
unfolding ecm_allowed
ecm_allowed-start limit w now h = ground arith

-- One request takes at most what it is counted for.
step_left :
    (t limit : ℕ) (w : Window) (now rest : ℕ)
    → 0 < t
    → 0 < limit
    → w.start ≤ now
    → rest ≤ left_at t limit (ecm_allowed limit w now).0
    → (if (ecm_allowed limit w now).1 && now == t then 1 else 0) + rest ≤ left_at t limit w
unfolding left_at ecm_allowed
step_left t limit w now rest p q o h = ground arith

served_at-le-left_at :
    (t limit : ℕ) (w : Window) (times : List ℕ)
    → 0 < t
    → 0 < limit
    → Ordered w.start times
    → served_at t limit w times ≤ left_at t limit w
unfolding served_at left_at
served_at-le-left_at t limit w [] p q o = omega arith
served_at-le-left_at t limit w (now ∷ later) p q o =
    let w' = (ecm_allowed limit w now).0 in
    let moved = ecm_allowed-start limit w now o.0 in
    step_left t limit w now (served_at t limit w' later) p q o.0
      (served_at-le-left_at t limit w' later p q (Ordered-from w'.start now later moved o.1))

-- In every second of a session whose clock does not go back, at most `limit` requests are let
-- through, however many come and whenever they come.
pub served_at-le-limit :
    (t limit : ℕ) (times : List ℕ)
    → 0 < t
    → 0 < limit
    → Ordered 0 times
    → served_at t limit (record { start = 0; count = 0 }) times ≤ limit
unfolding left_at
served_at-le-limit t limit times p q o =
    let h = served_at-le-left_at t limit (record { start = 0; count = 0 }) times p q o in
    ground (arith, h)

-- `n` requests at the time `t`.
pub all_at : ℕ → ℕ → List ℕ
all_at t zero = []
all_at t (suc n) = t ∷ all_at t n

begun :
    (limit : ℕ) (w : Window) (t : ℕ)
    → w.start ≡ t
    → 0 < t
    → w.count < limit
    → ecm_allowed limit w t ≡ (record { start = t; count = w.count + 1 }, true)
unfolding ecm_allowed
begun limit w t same p room = ground arith

fresh :
    (limit : ℕ) (w : Window) (t : ℕ)
    → w.start < t
    → 0 < limit
    → ecm_allowed limit w t ≡ (record { start = t; count = 1 }, true)
unfolding ecm_allowed
fresh limit w t later p = ground arith

rest_served :
    (limit : ℕ) (w : Window) (t n : ℕ)
    → w.start ≡ t
    → 0 < t
    → w.count + n ≤ limit
    → served_at t limit w (all_at t n) ≡ n
unfolding served_at all_at
rest_served limit w t zero same p room = refl
rest_served limit w t (suc n) same p room =
    let h =
      rest_served limit (record { start = t; count = w.count + 1 }) t n refl p
        (omega (arith, room)) in
    rw (begun limit w t same p (omega (arith, room)), ==_refl t, h) (omega arith)

-- Whatever a client has asked for before, once the clock has moved on, its next `n` requests of that
-- second are all let through, for every `n` up to the limit.
pub served_at-all_at :
    (limit : ℕ) (w : Window) (later n : ℕ)
    → w.start < later
    → n ≤ limit
    → served_at later limit w (all_at later n) ≡ n
unfolding served_at all_at
served_at-all_at limit w later zero after room = refl
served_at-all_at limit w later (suc n) after room =
    let h =
      rest_served limit (record { start = later; count = 1 }) later n refl (omega (arith, after))
        (omega (arith, room)) in
    rw (fresh limit w later after (omega (arith, room)), ==_refl later, h) (omega arith)
