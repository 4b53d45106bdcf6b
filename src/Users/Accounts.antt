-- ===== src/Users/Accounts.antt =====
-- A new account, and a name that does not fit its array.
use cccam_3_0_1_by_sharillas.Base.{
  ℕ, ◌%◌, ◌^◌, zero, suc, ◌+◌, ◌≤◌, ◌<◌, ◌≡◌, refl, ap, Bool, true, false, ◌||◌, not, none, List,
  [], ◌∷◌, arith, leb, ◌==◌, if◌then◌else◌, length, map, take, same_text, same_text_eq, Bool-cases,
  Option-cases, inl, inr, find_first,
}
use cccam_3_0_1_by_sharillas.Users.{
  Users, Level, Login, accepted, wrong_password, user_disabled, max_users, username_room, find_user,
  new_user, add_user, named, authenticate, hash_of,
}
use cccam_3_0_1_by_sharillas.Users.Invariant.{take_short}

-- The end of a login, with the users in each case.
abbrev judged : Bool → Bool → Users → Users → Users × Login
judged on right a b =
    if on then (if right then (a, accepted) else (b, wrong_password)) else (b, user_disabled)

-- The verdict does not depend on the users that go with it.
same_verdict :
    (on right : Bool) (a b c d : Users) → (judged on right a b).1 ≡ (judged on right c d).1
same_verdict true true a b c d = refl
same_verdict true false a b c d = refl
same_verdict false right a b c d = refl

one_verdict :
    (right : Bool) (a b : Users)
    → (judged true right a b).1 ≡ (if right then accepted else wrong_password)
one_verdict true a b = refl
one_verdict false a b = refl

module _ (sha256 : List ℕ → List ℕ) (g : Users) (username password : List ℕ) (level : Level)
    (hops now : ℕ) where
  -- The users after an addition that succeeds.
  abbrev pub added : Users
  added = record {
    users = new_user sha256 g.next_id username password level hops now ∷ g.users;
    count = g.count + 1;
    next_id = (g.next_id + 1) % 2 ^ 32;
    initialized = g.initialized;
  }

  add_user_free :
      0 < length username
      → 0 < length password
      → find_user g username ≡ none
      → g.count < max_users
      → add_user sha256 g username password level hops now true ≡ (added, true)
  unfolding add_user
  add_user_free some_name some_password free room =
      rw
        (
          texts (length username) (length password) some_name some_password,
          free,
          place g.count room,
          add_user,
        )
        refl
    where
      texts : (a b : ℕ) → 0 < a → 0 < b → (a == 0 || b == 0) ≡ false
      texts a b p q = ground arith

      place : (n : ℕ) → n < max_users → (leb max_users n || not true) ≡ false
      place n h = ground arith

  login_added :
      (name attempt : List ℕ) (later : ℕ)
      → length username ≤ username_room
      → (authenticate sha256 added name attempt later).1 ≡ (
          if same_text username name
          then (if same_text (hash_of sha256 password) (hash_of sha256 attempt)
              then accepted
              else wrong_password)
          else (authenticate sha256 g name attempt later).1)
  unfolding authenticate find_user find_first new_user
  login_added name attempt later short =
      rw (take_short username_room username short) (elim (Bool-cases (same_text username name)) [
        | inr other ↦
            rw (other, authenticate)
              (elim (Option-cases (find_first (named name) g.users)) [
                | inl n ↦ rw (n, authenticate) refl
                | inr (u, e) ↦
                    rw (e, authenticate)
                      (same_verdict u.enabled (same_text u.password_hash (hash_of sha256 attempt)) _
                        _ _ _)
              ])
        | inl same ↦
            rw (same, authenticate)
              (one_verdict (same_text (hash_of sha256 password) (hash_of sha256 attempt)) _ _)
      ])

  -- Adding an account with a name of 1 to 63 bytes that is free, a password and room for it
  -- succeeds; from then on a login under the name succeeds exactly when the passwords have the
  -- same hash, and a login under any other name is answered as before.
  pub authenticate-add_user :
      (name attempt : List ℕ) (later : ℕ)
      → 0 < length username
      → length username ≤ username_room
      → 0 < length password
      → find_user g username ≡ none
      → g.count < max_users
      → (h : Users) × (add_user sha256 g username password level hops now true ≡ (h, true))
        × ((authenticate sha256 h name attempt later).1 ≡ (
            if same_text username name
            then (if same_text (hash_of sha256 password) (hash_of sha256 attempt)
                then accepted
                else wrong_password)
            else (authenticate sha256 g name attempt later).1))
  authenticate-add_user name attempt later some_name short some_password free room =
      (added, add_user_free some_name some_password free room, login_added name attempt later short)

length-take_most : (n : ℕ) (xs : List ℕ) → length (take n xs) ≤ n
length-take_most zero xs = omega arith
length-take_most (suc n) [] = omega arith
length-take_most (suc n) (x ∷ xs) = omega (arith, length-take_most n xs)

cut_differs :
    (xs : List ℕ) → username_room < length xs → same_text (take username_room xs) xs ≡ false
cut_differs xs long = elim (Bool-cases (same_text (take username_room xs) xs)) [
  | inr f ↦ f
  | inl t ↦ absurd (
      omega (
        arith,
        long,
        ap length (same_text_eq (take username_room xs) xs t),
        length-take_most username_room xs,
      ))
]

still_free :
    (sha256 : List ℕ → List ℕ) (g : Users) (username password : List ℕ) (level : Level)
    (hops now : ℕ)
    → username_room < length username
    → find_user g username ≡ none
    → find_user (added sha256 g username password level hops now) username ≡ none
unfolding find_user find_first new_user
still_free sha256 g username password level hops now long free = rw (cut_differs username long) free

-- A name of more than 63 bytes is cut when it is stored but compared whole when it is added: it can
-- be added twice, which leaves two users of one name.
pub add_user_twice :
    (sha256 : List ℕ → List ℕ) (g : Users) (username password : List ℕ) (level : Level)
    (hops now : ℕ)
    → username_room < length username
    → 0 < length password
    → find_user g username ≡ none
    → g.count + 1 < max_users
    → (h k : Users) × (add_user sha256 g username password level hops now true ≡ (h, true))
      × (add_user sha256 h username password level hops now true ≡ (k, true))
      × (map (λ u. u.username) k.users
          ≡ take username_room username
            ∷ take username_room username
            ∷ map (λ u. u.username) g.users)
unfolding new_user
add_user_twice sha256 g username password level hops now long some_password free room =
    let h = added sha256 g username password level hops now in
    (
      h,
      added sha256 h username password level hops now,
      add_user_free sha256 g username password level hops now (omega (arith, long)) some_password
          free (omega (arith, room)),
      add_user_free sha256 h username password level hops now (omega (arith, long)) some_password
          (still_free sha256 g username password level hops now long free) room,
      refl,
    )
