-- ===== src/HopControl/Invariant.antt =====
-- The invariant of cccam3_hop_control.c, and the calls on it.
use cccam_3_0_1_by_sharillas.Base.{
  ℕ, ◌+◌, ◌≤◌, ◌≡◌, refl, inl, inr, Bool, true, false, none, List, [], ◌∷◌, arith, ltb, leb, ◌&&◌,
  length, Pairwise, if_cases, Option-cases, unlink_first, unlink_first-Unlinks, unlink_first-none,
  length-unlink_first, length-sweep, Pairwise-Unlinks, Pairwise-sweep, Pairwise-unlinked,
  unlinked_holds, find_first, find_first-none, find_first_absent, All-map,
}
use cccam_3_0_1_by_sharillas.HopControl.{
  HopControl, HopEntry, Request, hop_match, hop_expired, clean_expired, check, forget,
  new_hop_entry, register, set_limit, set_timeout, init, cleanup, initial,
}
use cccam_3_0_1_by_sharillas.HopControl.Step.{
  Call, checks, registers, cleans, sets_limit, sets_timeout, inits, cleans_up, step, run,
}

abbrev pub Apart : HopEntry → HopEntry → Type 0
Apart e f = hop_match e.request f ≡ false

pub record HopInv (s : HopControl) : Type 0 where
  pub counted : s.count ≡ length s.entries
  pub distinct : Pairwise Apart s.entries
  pub checked : s.total_checks ≡ s.allowed + s.blocked
  pub limited : (1 ≤ s.max_hops) × (s.max_hops ≤ 20)

pub Apart-sym : (e f : HopEntry) → Apart e f → Apart f e
unfolding hop_match
Apart-sym e f h = ground arith

pub no_match-of_Apart :
    (r : Request) (e f : HopEntry) → hop_match r e ≡ true → Apart e f → hop_match r f ≡ false
unfolding hop_match
no_match-of_Apart r e f m a = ground arith

-- The lists of entries that the operations leave.
record Lists (s : HopControl) : Type 0 where
  lists_counted : s.count ≡ length s.entries
  lists_distinct : Pairwise Apart s.entries

clean_expired-Lists : (s : HopControl) (now : ℕ) → Lists s → Lists (clean_expired s now).0
unfolding clean_expired
clean_expired-Lists s now v = record {
  lists_counted = omega (arith, v.lists_counted, length-sweep (hop_expired s now) s.entries);
  lists_distinct = Pairwise-sweep Apart (hop_expired s now) s.entries v.lists_distinct;
}

forget-Lists : (s : HopControl) (r : Request) → Lists s → Lists (forget s r)
unfolding forget
forget-Lists s r v = elim (Option-cases (unlink_first (hop_match r) s.entries)) [
  | inl n ↦ rw (n, forget) v
  | inr ((e, rest), h) ↦
      let size = length-unlink_first (hop_match r) s.entries e rest h in
      let u = unlink_first-Unlinks (hop_match r) s.entries e rest h in
      rw (h, forget)
        (record {
          lists_counted = omega (arith, v.lists_counted, size);
          lists_distinct = Pairwise-Unlinks Apart u v.lists_distinct;
        })
]

-- After `forget` no entry is left for the request.
pub forget_gone :
    (s : HopControl) (r : Request)
    → Pairwise Apart s.entries
    → find_first (hop_match r) (forget s r).entries ≡ none
unfolding forget
forget_gone s r p = elim (Option-cases (unlink_first (hop_match r) s.entries)) [
  | inl n ↦ rw (n, forget) (unlink_first-none (hop_match r) s.entries n)
  | inr ((e, rest), h) ↦
      let u = unlink_first-Unlinks (hop_match r) s.entries e rest h in
      rw (h, forget)
        (find_first_absent (hop_match r) rest (
          All-map rest (λ f. no_match-of_Apart r e f (unlinked_holds u))
            (Pairwise-unlinked Apart Apart-sym u p)))
]

register-Lists :
    (s : HopControl) (r : Request) (hop now : ℕ) (allocated : Bool)
    → Lists s
    → Lists (register s r hop now allocated).0
unfolding register new_hop_entry
register-Lists s r hop now allocated v =
    if_cases (λ (x : HopControl × Bool). Lists x.0) (leb hop s.max_hops) _ _
      (λ _.
        if_cases (λ (x : HopControl × Bool). Lists x.0) allocated _ _
          (λ _. record {
            lists_counted = omega (arith, t_Lists.lists_counted);
            lists_distinct = (
              find_first-none (hop_match r) t.entries (forget_gone _ r c_Lists.lists_distinct),
              t_Lists.lists_distinct,
            );
          })
          (λ _. t_Lists))
      (λ _. v)
  where
    c_Lists : Lists (clean_expired s now).0
    c_Lists = clean_expired-Lists s now v

    t : HopControl
    t = forget (clean_expired s now).0 r

    t_Lists : Lists t
    t_Lists = forget-Lists (clean_expired s now).0 r c_Lists

step-Lists : (s : HopControl) (k : Call) → Lists s → Lists (step s k)
unfolding step check set_limit set_timeout init cleanup
step-Lists s (checks hop now) v =
    let w =
      clean_expired-Lists (record s { total_checks = s.total_checks + 1 }) now
        (record { lists_counted = v.lists_counted; lists_distinct = v.lists_distinct }) in
    if_cases (λ (x : HopControl × Bool). Lists x.0) (leb hop _) _ _
      (λ _. record { lists_counted = w.lists_counted; lists_distinct = w.lists_distinct })
      (λ _. record { lists_counted = w.lists_counted; lists_distinct = w.lists_distinct })
step-Lists s (registers r hop now allocated) v = register-Lists s r hop now allocated v
step-Lists s (cleans now) v = clean_expired-Lists s now v
step-Lists s (sets_limit limit) v =
    if_cases Lists (ltb 0 limit && leb limit 20) _ _
      (λ _. record { lists_counted = v.lists_counted; lists_distinct = v.lists_distinct }) (λ _. v)
step-Lists s (sets_timeout seconds) v =
    if_cases Lists (ltb 0 seconds) _ _
      (λ _. record { lists_counted = v.lists_counted; lists_distinct = v.lists_distinct }) (λ _. v)
step-Lists s inits v = record { lists_counted = refl; lists_distinct = tt }
step-Lists s cleans_up v = record { lists_counted = refl; lists_distinct = tt }

step-checked :
    (s : HopControl) (k : Call)
    → s.total_checks ≡ s.allowed + s.blocked
    → (step s k).total_checks ≡ (step s k).allowed + (step s k).blocked
unfolding step check clean_expired register forget set_limit set_timeout init cleanup
step-checked s (checks hop now) h = ground arith
step-checked s k h = ground arith

step-limited :
    (s : HopControl) (k : Call)
    → (1 ≤ s.max_hops) × (s.max_hops ≤ 20)
    → (1 ≤ (step s k).max_hops) × ((step s k).max_hops ≤ 20)
unfolding step check clean_expired register forget set_limit set_timeout init cleanup
step-limited s (checks hop now) h = ground arith
step-limited s k h = ground arith

-- Every call of the hop control keeps its invariant: the counter counts the list, no client has
-- two entries for one channel, each check is counted as allowed or as blocked and never as both,
-- and the limit stays between 1 and 20.
pub step-HopInv : (s : HopControl) (k : Call) → HopInv s → HopInv (step s k)
step-HopInv s k v =
    let w = step-Lists s k (record { lists_counted = v.counted; lists_distinct = v.distinct }) in
    record {
      counted = w.lists_counted;
      distinct = w.lists_distinct;
      checked = step-checked s k v.checked;
      limited = step-limited s k v.limited;
    }

run-from : (s : HopControl) (ks : List Call) → HopInv s → HopInv (run s ks)
unfolding run
run-from s [] v = v
run-from s (k ∷ ks) v = run-from (step s k) ks (step-HopInv s k v)

-- So the invariant holds after every history of calls from the program's start.
pub run-initial-HopInv : (ks : List Call) → HopInv (run initial ks)
unfolding initial
run-initial-HopInv ks =
    run-from initial ks
      (record { counted = refl; distinct = tt; checked = omega arith; limited = omega arith })
