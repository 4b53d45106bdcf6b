-- ===== src/Server/LoginGuard/Slots.antt =====
-- The slot of an address: what a failure and a success write, and what they leave to others.
use cccam_3_0_1_by_sharillas.Base.{
  ℕ, suc, zero, ◌+◌, ◌≡◌, refl, true, false, Option, none, some, List, [], ◌∷◌, ◌==◌, inl, inr,
  get_elem?, set, arith, find_first, Bool-cases, Option-cases, is_some, ◌≢◌, subst, ap, ◌<◌, ◌%◌,
}
use cccam_3_0_1_by_sharillas.Server.LoginGuard.{
  Slot, note_free, slot_of, write_slot, login_blocked, clear_ip, login_success, login_failure, fail,
  count_failure, block_full, fail_slots,
}

-- The entry of an address.
unfoldable pub entry : ℕ → List Slot → Option Slot
entry ip g = find_first (λ (s : Slot). s.ip == ip) g

-- The place of a slot that no earlier slot of the address hides.
pub data Place (ip : ℕ) : List Slot → ℕ → Slot → Type 0 where
  here : {x : Slot} {xs : List Slot} → Place ip (x ∷ xs) zero x
  there :
      {x s : Slot} {xs : List Slot} {j : ℕ}
      → (x.ip == ip) ≡ false
      → Place ip xs j s
      → Place ip (x ∷ xs) (suc j) s

Place-get_elem? :
    {ip : ℕ} {g : List Slot} {j : ℕ} {s : Slot} → Place ip g j s → get_elem? g j ≡ some s
Place-get_elem? here = refl
Place-get_elem? (there f p) = Place-get_elem? p

-- What is written to a place becomes the entry of the address.
entry-set_self :
    {ip : ℕ} {g : List Slot} {j : ℕ} {s : Slot} (v : Slot)
    → Place ip g j s
    → v.ip ≡ ip
    → entry ip (set g j v) ≡ some v
unfolding entry find_first
entry-set_self v here e = ground arith
entry-set_self v (there f p) e = ground (arith, entry-set_self v p e)

-- The address that had the slot may lose its entry; all others keep theirs.
entry-set_other :
    {ip : ℕ} {g : List Slot} {j : ℕ} {s : Slot} (k : ℕ) (v : Slot)
    → Place ip g j s
    → v.ip ≡ ip
    → k ≢ ip
    → k ≢ s.ip
    → entry k (set g j v) ≡ entry k g
unfolding entry find_first
entry-set_other k v here e p q = ground arith
entry-set_other k v (there {x = x} f at) e p q = ground (arith, entry-set_other k v at e p q)

Place-entry :
    (ip i : ℕ) (acc : Option ℕ) (g : List Slot) (s : Slot)
    → entry ip g ≡ some s
    → (j : ℕ) × (slot_of ip i acc g ≡ some (i + j)) × Place ip g j s
unfolding slot_of entry find_first
Place-entry ip i acc [] s e = absurd (cc)
Place-entry ip i acc (x ∷ xs) s e = elim (Bool-cases (x.ip == ip)) [
  | inl t ↦
      let same : x ≡ s = ground arith in
      (0, ground arith, subst (λ y. Place ip (x ∷ xs) 0 y) same here)
  | inr f ↦
      let (j, at, p) = Place-entry ip (i + 1) (note_free i x acc) xs s (ground arith) in
      (suc j, ground (arith, at), there f p)
]

Place-absent :
    (ip : ℕ) (g : List Slot) (j : ℕ) (s : Slot)
    → entry ip g ≡ none
    → get_elem? g j ≡ some s
    → Place ip g j s
unfolding entry find_first
Place-absent ip [] j s e h = absurd (cc)
Place-absent ip (x ∷ xs) zero s e h =
    let same : x ≡ s = ground arith in subst (λ y. Place ip (x ∷ xs) 0 y) same here
Place-absent ip (x ∷ xs) (suc j) s e h =
    there (ground arith) (Place-absent ip xs j s (ground arith) h)

-- With no entry of the address, the loop keeps the free slot that it has noted, or finds the first.
slot_of_noted : (ip i a : ℕ) (g : List Slot) → entry ip g ≡ none → slot_of ip i (some a) g ≡ some a
unfolding slot_of entry find_first
slot_of_noted ip i a [] e = refl
slot_of_noted ip i a (x ∷ xs) e = ground (arith, slot_of_noted ip (i + 1) a xs)

slot_of_free :
    (ip i k : ℕ) (g : List Slot)
    → entry ip g ≡ none
    → slot_of ip i none g ≡ some k
    → (j : ℕ) × (s : Slot) × (k ≡ i + j) × (get_elem? g j ≡ some s) × (s.ip ≡ 0)
unfolding slot_of entry find_first
slot_of_free ip i k [] e h = absurd (cc)
slot_of_free ip i k (x ∷ xs) e h = elim (Bool-cases (x.ip == 0)) [
  | inl t ↦ (0, x, ground (arith, slot_of_noted ip (i + 1) i xs), refl, ground arith)
  | inr f ↦
      let (j, s, at, got, free) = slot_of_free ip (i + 1) k xs (ground arith) (ground arith) in
      (suc j, s, omega (arith, at), got, free)
]

-- A failure finds a slot: that of the address, or a free one. What it writes is the new entry of the
-- address, and every other address keeps its entry.
abbrev pub FailsAt : ℕ → List Slot → ℕ → ℕ → Slot → Type 0
FailsAt configured g ip now s =
    (entry ip (login_failure configured g ip now) ≡ some (fail configured ip now s))
    × ((k : ℕ) → k ≢ ip → k ≢ s.ip → entry k (login_failure configured g ip now) ≡ entry k g)

fail-ip : (configured ip now : ℕ) (s : Slot) → (fail configured ip now s).ip ≡ ip
unfolding count_failure block_full
fail-ip configured ip now s = ground arith

write_slot_lem :
    {ip : ℕ} {g : List Slot} {j : ℕ} {s : Slot} (f : Slot → Slot)
    → Place ip g j s
    → write_slot g j f ≡ set g j (f s)
unfolding write_slot
write_slot_lem {g = g} {j = j} f p = rw (Place-get_elem? p, write_slot) refl

FailsAt-Place :
    (configured : ℕ) {ip : ℕ} {g : List Slot} {j : ℕ} {s : Slot} (now : ℕ)
    → Place ip g j s
    → login_failure configured g ip now ≡ write_slot g j (fail configured ip now)
    → FailsAt configured g ip now s
FailsAt-Place configured {ip} {g} {j} {s} now p e =
    let v = fail configured ip now s in
    let named = fail-ip configured ip now s in
    rw (e, write_slot_lem (fail configured ip now) p)
      (entry-set_self v p named, λ k a b. entry-set_other k v p named a b)

pub login_failure_known :
    (configured ip now : ℕ) (g : List Slot) (s : Slot)
    → entry ip g ≡ some s
    → FailsAt configured g ip now s
unfolding login_failure
login_failure_known configured ip now g s e =
    let (j, at, p) = Place-entry ip 0 none g s e in
    FailsAt-Place configured now p
      (rw (at, login_failure) (ap (λ n. write_slot g n (fail configured ip now)) (omega arith)))

pub login_failure_new :
    (configured ip now : ℕ) (g : List Slot)
    → entry ip g ≡ none
    → is_some (slot_of ip 0 none g) ≡ true
    → (s : Slot) × (s.ip ≡ 0) × FailsAt configured g ip now s
unfolding login_failure
login_failure_new configured ip now g e found = elim (Option-cases (slot_of ip 0 none g)) [
  | inl n ↦ absurd (ground arith)
  | inr (k, h) ↦
      let (j, s, at, got, free) = slot_of_free ip 0 k g e h in
      (
        s,
        free,
        FailsAt-Place configured now (Place-absent ip g j s e got) (
            rw (h, login_failure)
              (ap (λ n. write_slot g n (fail configured ip now)) (omega (arith, at)))),
      )
]

-- In a full table the address takes over the slot at its remainder by 64.
pub login_failure_full :
    (configured ip now : ℕ) (g : List Slot) (s : Slot)
    → entry ip g ≡ none
    → slot_of ip 0 none g ≡ none
    → get_elem? g (ip % fail_slots) ≡ some s
    → FailsAt configured g ip now s
unfolding login_failure
login_failure_full configured ip now g s e full got =
    FailsAt-Place configured now (Place-absent ip g (ip % fail_slots) s e got)
      (rw (full, login_failure) refl)

pub blocked_of_entry :
    (ip now : ℕ) (g : List Slot) (s : Slot)
    → entry ip g ≡ some s
    → now < s.blocked_until
    → login_blocked g ip now ≡ true
unfolding entry find_first login_blocked
blocked_of_entry ip now [] s e h = absurd (cc)
blocked_of_entry ip now (x ∷ xs) s e h = ground (arith, blocked_of_entry ip now xs s)

pub entry-login_success :
    (k ip : ℕ) (g : List Slot) → k ≢ ip → k ≢ 0 → entry k (login_success g ip) ≡ entry k g
unfolding entry find_first login_success clear_ip
entry-login_success k ip [] p q = refl
entry-login_success k ip (x ∷ xs) p q = ground (arith, entry-login_success k ip xs p q)
