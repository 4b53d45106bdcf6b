-- ===== src/Users/Invariant.antt =====
-- The invariant of cccam3_user_manager.c, and the calls on it.
use cccam_3_0_1_by_sharillas.Base.{
  ℕ, zero, suc, ◌≤◌, ◌<◌, ◌≡◌, refl, false, List, [], ◌∷◌, arith, length, take, same_text, All,
  Pairwise,
}
use cccam_3_0_1_by_sharillas.Users.{User, Users, max_users}

-- The list is newest first, and no two users have one name.
abbrev pub Apart : User → User → Type 0
Apart u v = (v.id < u.id) × (same_text v.username u.username ≡ false)

pub record UsersInv (g : Users) : Type 0 where
  pub counted : g.count ≡ length g.users
  pub bounded : g.count ≤ max_users
  pub apart : Pairwise Apart g.users
  pub below : All (λ u. u.id < g.next_id) g.users

pub take_short : (n : ℕ) (xs : List ℕ) → length xs ≤ n → take n xs ≡ xs
take_short zero [] h = refl
take_short (suc n) [] h = refl
take_short zero (x ∷ xs) h = absurd (omega (arith, h))
take_short (suc n) (x ∷ xs) h = rw (take_short n xs (omega (arith, h))) refl

-- A write that leaves the id and the name as they are.
abbrev Keeps : (User → User) → Type 0
Keeps f = (u : User) → ((f u).id ≡ u.id) × ((f u).username ≡ u.username)
