-- ===== src/Users/Register.antt =====
-- src/CCshare/cccam3_user_manager.c: cccam_user_manager_auto_register, with the tests of names and
-- passwords. The text that it appends to the file of users is part of the result; `none` is a
-- file that could not be opened, or no registration. isalnum is that of the C locale.
use cccam_3_0_1_by_sharillas.Base.{
  ℕ, Bool, true, ◌&&◌, ◌||◌, not, Option, none, some, List, [], ◌∷◌, ◌++◌, leb, ltb, ◌==◌,
  if◌then◌else◌, length, is_some,
}
use cccam_3_0_1_by_sharillas.Users.{
  Users, level_user, username_room, password_room, find_user, add_user,
}

unfoldable pub is_alnum : ℕ → Bool
is_alnum c = leb 48 c && leb c 57 || (leb 65 c && leb c 90 || leb 97 c && leb c 122)

-- Letters, digits, and the bytes '.', '_' and '-'.
unfoldable pub name_byte : ℕ → Bool
unfolding is_alnum
name_byte c = is_alnum c || (c == 46 || (c == 95 || c == 45))

unfoldable pub all_bytes : (ℕ → Bool) → List ℕ → Bool
all_bytes p [] = true
all_bytes p (c ∷ cs) = let rest = all_bytes p cs in p c && rest

-- `valid_username`
unfoldable pub valid_username : List ℕ → Bool
unfolding name_byte all_bytes
valid_username name = not (length name == 0) && all_bytes name_byte name

-- `valid_password`: no line break.
unfoldable pub valid_password : List ℕ → Bool
unfolding all_bytes
valid_password password =
    not (length password == 0) && all_bytes (λ c. not (c == 10 || c == 13)) password

-- The return values 0, -1 and -2.
pub data Registration : Type 0 where
  registered turned_down name_taken : Registration

-- "\n[name]\npassword = password\nlevel = 1\nmax_hops = 2\n"
unfoldable pub account_text : List ℕ → List ℕ → List ℕ
account_text name password =
    10
    ∷ 91
    ∷ (name
        ++ (93
            ∷ 10
            ∷ 112
            ∷ 97
            ∷ 115
            ∷ 115
            ∷ 119
            ∷ 111
            ∷ 114
            ∷ 100
            ∷ 32
            ∷ 61
            ∷ 32
            ∷ (password
                ++ (10 ∷ 108 ∷ 101 ∷ 118 ∷ 101 ∷ 108 ∷ 32 ∷ 61 ∷ 32 ∷ 49 ∷ 10 ∷ 109 ∷ 97 ∷ 120 ∷ 95
                    ∷ 104 ∷ 111 ∷ 112 ∷ 115 ∷ 32 ∷ 61 ∷ 32 ∷ 50 ∷ 10 ∷ []))))

-- `cccam_user_manager_auto_register`; `opened` says whether the file of users could be opened.
unfoldable pub auto_register :
    (List ℕ → List ℕ)
    → Users
    → List ℕ
    → List ℕ
    → ℕ
    → Bool
    → Bool
    → Users × Registration × Option (List ℕ)
auto_register sha256 g name password now allocated opened =
    if not (valid_username name) || not (valid_password password)
    then (g, turned_down, none)
    else (if ltb username_room (length name) || ltb password_room (length password)
        then (g, turned_down, none)
        else (if is_some (find_user g name)
            then (g, name_taken, none)
            else (let r = add_user sha256 g name password level_user 2 now allocated in
                if r.1
                then (r.0, registered, (if opened then some (account_text name password) else none))
                else (r.0, turned_down, none))))
