-- ===== src/Users.antt =====
-- src/CCshare/cccam3_user_manager.c and cccam3_user_manager.h: the list of users, newest first, and
-- the login. A text is the list of its bytes without the final 0; time(NULL) is the argument
-- `now`, `allocated` says whether calloc succeeds, and SHA-256 is the argument `sha256`.
pub mod Step
pub mod Invariant
pub mod Accounts
pub mod Register
mod Tests
use cccam_3_0_1_by_sharillas.Base.{
  ℕ, ◌+◌, ◌-◌, ◌/◌, ◌%◌, ◌^◌, Bool, true, false, ◌||◌, not, Option, none, some, List, [], ◌∷◌, ltb,
  leb, ◌==◌, if◌then◌else◌, length, take, same_text, find_first, unlink_first, update_first,
}

abbrev pub max_users : ℕ
max_users = 256

-- CCCAM_MAX_USERNAME and CCCAM_MAX_PASSWORD without the final 0.
abbrev pub username_room : ℕ
username_room = 63

abbrev pub password_room : ℕ
password_room = 127

pub data Level : Type 0 where
  level_disabled level_user level_admin level_root : Level

pub record User : Type 0 where
  pub id : ℕ
  pub username : List ℕ
  pub password_hash : List ℕ
  pub password : List ℕ
  pub level : Level
  pub max_hops : ℕ
  pub enabled : Bool
  pub created_at : ℕ
  pub last_login : ℕ
  pub login_count : ℕ
  pub ecm_requests : ℕ
  pub ecm_success : ℕ

pub record Users : Type 0 where
  pub users : List User
  pub count : ℕ
  pub next_id : ℕ
  -- `g_initialized`
  pub initialized : Bool

unfoldable pub hex_digit : ℕ → ℕ
hex_digit d = if ltb d 10 then 48 + d else 87 + d

-- "%02x" of each byte.
unfoldable pub hex_bytes : List ℕ → List ℕ
hex_bytes [] = []
hex_bytes (b ∷ bs) = hex_digit (b / 16) ∷ hex_digit (b % 16) ∷ hex_bytes bs

-- `password_hash`, into an array of 65 bytes.
unfoldable pub hash_of : (List ℕ → List ℕ) → List ℕ → List ℕ
hash_of sha256 password = hex_bytes (sha256 password)

abbrev pub named : List ℕ → User → Bool
named name u = same_text u.username name

-- `find_user_locked`
unfoldable pub find_user : Users → List ℕ → Option User
find_user g name = find_first (named name) g.users

-- The user that `add_user_locked` fills in: `strncpy` cuts the name and the password.
unfoldable pub new_user : (List ℕ → List ℕ) → ℕ → List ℕ → List ℕ → Level → ℕ → ℕ → User
new_user sha256 id username password level max_hops now = record {
  id = id;
  username = take username_room username;
  password_hash = hash_of sha256 password;
  password = take password_room password;
  level = level;
  max_hops = max_hops;
  enabled = true;
  created_at = now;
  last_login = 0;
  login_count = 0;
  ecm_requests = 0;
  ecm_success = 0;
}

-- `add_user_locked`; `true` is the return value 0.
unfoldable pub add_user :
    (List ℕ → List ℕ) → Users → List ℕ → List ℕ → Level → ℕ → ℕ → Bool → Users × Bool
add_user sha256 g username password level max_hops now allocated =
    if length username == 0 || length password == 0
    then (g, false)
    else elim (find_user g username) [
      | some u ↦ (g, false)
      | none ↦ if leb max_users g.count || not allocated then (g, false) else (
        record {
          users = new_user sha256 g.next_id username password level max_hops now ∷ g.users;
          count = g.count + 1;
          next_id = (g.next_id + 1) % 2 ^ 32;
          initialized = g.initialized;
        },
        true,
      )
    ]

unfoldable pub remove_user : Users → List ℕ → Users × Bool
remove_user g name = elim (unlink_first (named name) g.users) [
  | none ↦ (g, false)
  | some (u, rest) ↦ (record g { users = rest; count = g.count - 1 }, true)
]

-- The return values 0, -1, -2 and -3.
pub data Login : Type 0 where
  accepted unknown_user user_disabled wrong_password : Login

-- A write to the first user of the name.
abbrev pub modify : Users → List ℕ → (User → User) → Users
modify g name f = record g { users = update_first (named name) f g.users }

abbrev pub note_login : ℕ → User → User
note_login now u = record u { last_login = now; login_count = u.login_count + 1 }

-- `cccam_user_manager_authenticate`
unfoldable pub authenticate : (List ℕ → List ℕ) → Users → List ℕ → List ℕ → ℕ → Users × Login
authenticate sha256 g name password now = elim (find_user g name) [
  | none ↦ (g, unknown_user)
  | some u ↦
      if u.enabled
      then (if same_text u.password_hash (hash_of sha256 password)
          then (modify g name (note_login now), accepted)
          else (g, wrong_password))
      else (g, user_disabled)
]

unfoldable pub get_max_hops : Users → List ℕ → Option ℕ
get_max_hops g name = elim (find_user g name) [ none ↦ none | some u ↦ some u.max_hops ]

-- The setters return -1 for a name that is not there, where `modify` changes nothing.
unfoldable pub set_level : Users → List ℕ → Level → Users
set_level g name level = modify g name (λ u. record u { level = level })

unfoldable pub set_max_hops : Users → List ℕ → ℕ → Users
set_max_hops g name hops = modify g name (λ u. record u { max_hops = hops })

unfoldable pub set_enabled : Users → List ℕ → Bool → Users
set_enabled g name on = modify g name (λ u. record u { enabled = on })

unfoldable pub register_ecm : Users → List ℕ → Bool → Users
register_ecm g name success = modify g name (λ u. record u {
  ecm_requests = u.ecm_requests + 1;
  ecm_success = (if success then u.ecm_success + 1 else u.ecm_success);
})

unfoldable pub cleanup : Users → Users
cleanup g = record g { users = []; count = 0; initialized = false }

-- An account as the file of users describes it, with what time(NULL) and calloc answer for it.
pub record Account : Type 0 where
  pub username : List ℕ
  pub password : List ℕ
  pub level : Level
  pub max_hops : ℕ
  pub now : ℕ
  pub allocated : Bool

-- `cccam_user_manager_load_from_config`, given the accounts that the file describes, in its order; a
-- file that is missing describes none.
unfoldable pub load : (List ℕ → List ℕ) → Users → List Account → Users
load sha256 g [] = g
load sha256 g (a ∷ file) =
    load sha256 (add_user sha256 g a.username a.password a.level a.max_hops a.now a.allocated).0
      file

-- `cccam_user_manager_init` takes the lock three times; this is the first, and the file is loaded
-- under the second, both only if the manager was not initialised.
unfoldable pub init_start : Users → Users
init_start g = if g.initialized then g else record g { count = 0; next_id = 1; initialized = true }

-- `cccam_user_manager_reload` takes the lock three times; this is the first, and the file is loaded
-- under the second. The old list is freed later.
unfoldable pub detach : Users → Users
detach g = record g { users = []; count = 0; next_id = 1 }

-- "admin" and "admin123"
abbrev pub admin_name : List ℕ
admin_name = 97 ∷ 100 ∷ 109 ∷ 105 ∷ 110 ∷ []

abbrev pub admin_password : List ℕ
admin_password = 97 ∷ 100 ∷ 109 ∷ 105 ∷ 110 ∷ 49 ∷ 50 ∷ 51 ∷ []

-- The third part of both.
unfoldable pub ensure_admin : (List ℕ → List ℕ) → Users → ℕ → Bool → Users
ensure_admin sha256 g now allocated =
    if g.count == 0
    then (add_user sha256 g admin_name admin_password level_root 0 now allocated).0
    else g
