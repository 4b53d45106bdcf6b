-- ===== src/HopControl/Requests.antt =====
-- The registered requests as a map: what cccam_hop_control_register does to every request.
use cccam_3_0_1_by_sharillas.Base.{
  ℕ, ◌≤◌, ◌≡◌, refl, inl, inr, true, false, Option, some, List, ◌∷◌, arith, if◌then◌else◌,
  Bool-cases, Option-cases, unlink_first, unlink_first-Unlinks, find_first, find_first-Unlinks,
  find_first-sweep_kept,
}
use cccam_3_0_1_by_sharillas.HopControl.{
  HopControl, HopEntry, Request, same_request, hop_match, hop_expired, clean_expired, forget,
  new_hop_entry, register,
}

abbrev pub registered : HopControl → Request → Option HopEntry
registered s r = find_first (hop_match r) s.entries

same_request_eq : (a b : Request) → same_request a b ≡ true → a ≡ b
unfolding same_request
same_request_eq a b h = ground arith

no_match-of_other :
    (r o : Request) (e : HopEntry)
    → same_request r o ≡ false
    → hop_match r e ≡ true
    → hop_match o e ≡ false
unfolding hop_match
no_match-of_other r o e h m = ground arith

registered-forget_other :
    (s : HopControl) (r o : Request)
    → same_request r o ≡ false
    → registered (forget s r) o ≡ registered s o
unfolding forget
registered-forget_other s r o d = elim (Option-cases (unlink_first (hop_match r) s.entries)) [
  | inl n ↦ rw (n, forget) refl
  | inr ((e, rest), h) ↦
      rw (h, forget)
        (find_first-Unlinks (hop_match o) (λ x. no_match-of_other r o x d)
          (unlink_first-Unlinks (hop_match r) s.entries e rest h))
]

register_valid :
    (s : HopControl) (r : Request) (hop now : ℕ)
    → hop ≤ s.max_hops
    → (register s r hop now true).0.entries
      ≡ new_hop_entry r hop now ∷ (forget (clean_expired s now).0 r).entries
unfolding register
register_valid s r hop now h = ground arith

find_first-new :
    (r o : Request) (hop now : ℕ) (es : List HopEntry)
    → find_first (hop_match o) (new_hop_entry r hop now ∷ es)
      ≡ (if same_request r o then some (new_hop_entry r hop now) else find_first (hop_match o) es)
unfolding find_first hop_match new_hop_entry
find_first-new r o hop now es = refl

-- Registering a hop within the limit makes it the one entry of its client and channel; any other
-- request keeps what the sweep of out-of-date entries leaves it.
pub registered-register :
    (s : HopControl) (r o : Request) (hop now : ℕ)
    → hop ≤ s.max_hops
    → registered (register s r hop now true).0 o ≡ (
        if same_request r o
        then some (new_hop_entry r hop now)
        else registered (clean_expired s now).0 o)
registered-register s r o hop now h =
    rw
      (
        register_valid s r hop now h,
        find_first-new r o hop now (forget (clean_expired s now).0 r).entries,
      )
      (elim (Bool-cases (same_request r o)) [
        | inl t ↦ rw t
        | inr f ↦ rw f (registered-forget_other (clean_expired s now).0 r o f)
      ])

-- A request whose entry is still in time survives the sweep of out-of-date entries.
pub registered-clean_expired :
    (s : HopControl) (r : Request) (now : ℕ) (e : HopEntry)
    → registered s r ≡ some e
    → hop_expired s now e ≡ false
    → registered (clean_expired s now).0 r ≡ some e
unfolding clean_expired
registered-clean_expired s r now e found fresh =
    find_first-sweep_kept (hop_expired s now) (hop_match r) s.entries e found fresh
