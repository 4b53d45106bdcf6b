-- ===== src/Readers/Invariant.antt =====
-- The invariant of cccam3_card_manager.c, and the calls on it.
use cccam_3_0_1_by_sharillas.Base.{
  ℕ, ◌+◌, ◌^◌, if_cases, ◌<◌, ◌≡◌, refl, inl, inr, true, false, none, some, List, [], ◌∷◌, arith,
  length, set, length-set, get_elem?, All, All-map, All-set, All-get_elem?, All-Unlinks,
  All-update_first, Pairwise, Pairwise-set, Pairwise-update_first, Pairwise-Unlinks, Option-cases,
  unlink_first, Unlinks, here, there, subst, unlink_first-Unlinks, unlink_first-none,
  length-unlink_first, length-update_first, find_first, find_first_absent, find_first-Unlinks,
  if◌then◌else◌, ◌==◌, Bool-cases, ==_iff,
}
use cccam_3_0_1_by_sharillas.Readers.{
  Reader, Readers, ReaderState, Io, serve, get_cw, select_reader, add_reader, has_id, remove_reader,
  find_reader, set_state, update_state, unused, load, init, reload,
}
use cccam_3_0_1_by_sharillas.Readers.Selection.{select_reader-IsLeast}
use cccam_3_0_1_by_sharillas.Readers.Backoff.{serve_counts}

-- The list is newest first, so ids fall along it.
abbrev pub Newer : Reader → Reader → Type 0
Newer r s = s.id < r.id

abbrev pub Counts : ℕ → Reader → Type 0
Counts next r = (r.id < next) × (r.ecm_requests ≡ r.ecm_success + r.ecm_fail)

pub record ReadersInv (m : Readers) : Type 0 where
  pub counted : m.count ≡ length m.readers
  pub ordered : Pairwise Newer m.readers
  pub tallied : All (Counts m.next_id) m.readers

set_served :
    (m : Readers) (i : ℕ) (r : Reader) (now : ℕ) (io : Io)
    → get_elem? m.readers i ≡ some r
    → ReadersInv m
    → ReadersInv (record m { readers = set m.readers i (serve r now io).0 })
set_served m i r now io at_i v =
    let (requests, results, same_id) = serve_counts r now io in
    let old = All-get_elem? (Counts m.next_id) m.readers i r at_i v.tallied in
    record {
      counted = omega (arith, v.counted, length-set m.readers i (serve r now io).0);
      ordered =
          Pairwise-set Newer m.readers i r (serve r now io).0 at_i (λ s h. omega (arith, same_id))
            (λ s h. omega (arith, same_id)) v.ordered;
      tallied =
          All-set (Counts m.next_id) m.readers i (serve r now io).0
            (omega (arith, same_id, old), omega (arith, requests, results, old)) v.tallied;
    }

pub get_cw-ReadersInv :
    (m : Readers) (caid provid now : ℕ) (io : Io)
    → ReadersInv m
    → ReadersInv (get_cw m caid provid now io).0
unfolding get_cw
get_cw-ReadersInv m caid provid now io v = elim (Option-cases (select_reader m caid provid now)) [
  | inl n ↦ rw (n, get_cw) v
  | inr ((i, r), e) ↦
      rw (e, get_cw) (set_served m i r now io (select_reader-IsLeast caid provid now m i r e).0 v)
]

pub add_reader-ReadersInv :
    (m : Readers) (r : Reader)
    → m.next_id + 1 < 2 ^ 32
    → ReadersInv m
    → ReadersInv (add_reader m (unused r))
unfolding add_reader unused
add_reader-ReadersInv m r room v = record {
  counted = omega (arith, v.counted);
  ordered = (All-map m.readers (λ s h. h.0) v.tallied, v.ordered);
  tallied = (
    (omega (arith, room), omega arith),
    All-map m.readers (λ s h. (omega (arith, h.0, room), h.1)) v.tallied,
  );
}

pub remove_reader-ReadersInv :
    (m : Readers) (id : ℕ) → ReadersInv m → ReadersInv (remove_reader m id).0
unfolding remove_reader
remove_reader-ReadersInv m id v = elim (Option-cases (unlink_first (has_id id) m.readers)) [
  | inl n ↦ rw (n, remove_reader) v
  | inr ((r, rest), h) ↦
      let size = length-unlink_first (has_id id) m.readers r rest h in
      let u = unlink_first-Unlinks (has_id id) m.readers r rest h in
      rw (h, remove_reader)
        (record {
          counted = omega (arith, v.counted, size);
          ordered = Pairwise-Unlinks Newer u v.ordered;
          tallied = All-Unlinks (Counts m.next_id) u v.tallied;
        })
]

set_state_keeps :
    (state : ReaderState) (r : Reader)
    → ((set_state state r).id ≡ r.id)
      × ((set_state state r).ecm_requests ≡ r.ecm_requests)
      × ((set_state state r).ecm_success ≡ r.ecm_success)
      × ((set_state state r).ecm_fail ≡ r.ecm_fail)
unfolding set_state
set_state_keeps state r = ground arith

set_state-Newer_left :
    (state : ReaderState) (r s : Reader) → Newer r s → Newer (set_state state r) s
set_state-Newer_left state r s h = omega (arith, (set_state_keeps state r).0)

set_state-Newer_right :
    (state : ReaderState) (r s : Reader) → Newer r s → Newer r (set_state state s)
set_state-Newer_right state r s h = omega (arith, (set_state_keeps state s).0)

set_state-Counts :
    (next : ℕ) (state : ReaderState) (r : Reader) → Counts next r → Counts next (set_state state r)
set_state-Counts next state r h =
    let (i, q, a, b) = set_state_keeps state r in (omega (arith, h.0), omega (arith, h.1))

pub update_state-ReadersInv :
    (m : Readers) (id : ℕ) (state : ReaderState)
    → ReadersInv m
    → ReadersInv (update_state m id state).0
unfolding update_state
update_state-ReadersInv m id state v = elim (Option-cases (find_reader m id)) [
  | inl n ↦ rw (n, update_state) v
  | inr (r, e) ↦
      rw (e, update_state)
        (record {
          counted =
              omega (arith, v.counted, length-update_first (has_id id) (set_state state) m.readers);
          ordered =
              Pairwise-update_first Newer (has_id id) (set_state state) m.readers
                (set_state-Newer_left state) (set_state-Newer_right state) v.ordered;
          tallied =
              All-update_first (Counts m.next_id) (has_id id) (set_state state) m.readers
                (set_state-Counts m.next_id state) v.tallied;
        })
]

load-ReadersInv :
    (m : Readers) (file : List Reader)
    → m.next_id + length file < 2 ^ 32
    → ReadersInv m
    → ReadersInv (load m file)
unfolding load add_reader
load-ReadersInv m [] room v = v
load-ReadersInv m (r ∷ rs) room v =
    load-ReadersInv (add_reader m (unused r)) rs (omega (arith, room))
      (add_reader-ReadersInv m r (omega (arith, room)) v)

pub init-ReadersInv :
    (m : Readers) (file : List Reader)
    → length file + 1 < 2 ^ 32
    → ReadersInv m
    → ReadersInv (init m file)
unfolding init
init-ReadersInv m file room v =
    if_cases ReadersInv m.initialized _ _ (λ _. v)
      (λ _.
        load-ReadersInv _ file (omega (arith, room))
          (record { counted = refl; ordered = tt; tallied = tt }))

pub reload-ReadersInv :
    (m : Readers) (file : List Reader) → length file + 1 < 2 ^ 32 → ReadersInv (reload m file)
unfolding reload
reload-ReadersInv m file room =
    load-ReadersInv _ file (omega (arith, room))
      (record { counted = refl; ordered = tt; tallied = tt })

has_id-of_Newer : (id : ℕ) (r s : Reader) → has_id id r ≡ true → Newer r s → has_id id s ≡ false
has_id-of_Newer id r s h n = ground arith

removed_gone :
    (id : ℕ) {xs : List Reader} {r : Reader} {rest : List Reader}
    → Unlinks (has_id id) xs r rest
    → Pairwise Newer xs
    → find_first (has_id id) rest ≡ none
unfolding find_first
removed_gone id (here {x = x} {xs = xs} t) p =
    find_first_absent (has_id id) xs (All-map xs (λ s. has_id-of_Newer id x s t) p.0)
removed_gone id (there {x = x} {rest = rest} f u) p = rw (f, find_first) (removed_gone id u p.1)

has_id-other :
    (id other : ℕ) (r : Reader)
    → (id == other) ≡ false
    → has_id id r ≡ true
    → has_id other r ≡ false
has_id-other id other r d h = ground arith

-- After `cccam_card_manager_remove_reader` no reader has the id, and every other id finds the
-- reader that it found.
pub find_reader-remove_reader :
    (m : Readers) (id other : ℕ)
    → ReadersInv m
    → find_reader (remove_reader m id).0 other ≡ (if id == other then none else find_reader m other)
unfolding remove_reader find_reader
find_reader-remove_reader m id other v = elim (Option-cases (unlink_first (has_id id) m.readers)) [
  | inl n ↦ rw (n, remove_reader) (untouched (unlink_first-none (has_id id) m.readers n))
  | inr ((r, rest), h) ↦
      rw (h, remove_reader) (unlinked r rest (unlink_first-Unlinks (has_id id) m.readers r rest h))
]
  where
    untouched :
        find_reader m id ≡ none
        → find_reader m other ≡ (if id == other then none else find_reader m other)
    untouched gone = elim (Bool-cases (id == other)) [
      | inl t ↦ rw t (subst (λ x. find_reader m x ≡ none) ((==_iff id other).0 t) gone)
      | inr f ↦ rw f
    ]

    unlinked :
        (r : Reader) (rest : List Reader)
        → Unlinks (has_id id) m.readers r rest
        → find_first (has_id other) rest ≡ (if id == other then none else find_reader m other)
    unlinked r rest u = elim (Bool-cases (id == other)) [
      | inl t ↦ rw t (
          subst (λ x. find_first (has_id x) rest ≡ none) ((==_iff id other).0 t)
            (removed_gone id u v.ordered))
      | inr f ↦ rw f (find_first-Unlinks (has_id other) (λ s. has_id-other id other s f) u)
    ]
