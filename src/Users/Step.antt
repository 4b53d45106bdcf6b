-- ===== src/Users/Step.antt =====
-- The calls of cccam3_user_manager.c as data, and a history of calls. Each is what is done under the lock
-- at once: an initialisation and a reload are three calls, between which others may come.
use cccam_3_0_1_by_sharillas.Base.{
  ℕ, ◌+◌, ◌≤◌, ◌<◌, ◌^◌, ◌≡◌, Bool, false, List, [], ◌∷◌, length, All,
}
use cccam_3_0_1_by_sharillas.Users.{
  Users, Level, Account, username_room, add_user, remove_user, authenticate, set_level,
  set_max_hops, set_enabled, register_ecm, cleanup, load, init_start, detach, ensure_admin,
}
use cccam_3_0_1_by_sharillas.Users.Register.{auto_register}

pub data Call : Type 0 where
  adds : List ℕ → List ℕ → Level → ℕ → ℕ → Bool → Call
  registers : List ℕ → List ℕ → ℕ → Bool → Bool → Call
  removes : List ℕ → Call
  logs_in : List ℕ → List ℕ → ℕ → Call
  sets_level : List ℕ → Level → Call
  sets_max_hops : List ℕ → ℕ → Call
  sets_enabled registers_ecm : List ℕ → Bool → Call
  loads : List Account → Call
  ensures_admin : ℕ → Bool → Call
  starts detaches cleans_up : Call

unfoldable pub step : (List ℕ → List ℕ) → Users → Call → Users
step sha256 g (adds username password level max_hops now allocated) =
    (add_user sha256 g username password level max_hops now allocated).0
step sha256 g (registers name password now allocated opened) =
    (auto_register sha256 g name password now allocated opened).0
step sha256 g (removes name) = (remove_user g name).0
step sha256 g (logs_in name password now) = (authenticate sha256 g name password now).0
step sha256 g (sets_level name level) = set_level g name level
step sha256 g (sets_max_hops name hops) = set_max_hops g name hops
step sha256 g (sets_enabled name on) = set_enabled g name on
step sha256 g (registers_ecm name success) = register_ecm g name success
step sha256 g (loads file) = load sha256 g file
step sha256 g (ensures_admin now allocated) = ensure_admin sha256 g now allocated
step sha256 g starts = init_start g
step sha256 g detaches = detach g
step sha256 g cleans_up = cleanup g

unfoldable pub run : (List ℕ → List ℕ) → Users → List Call → Users
run sha256 g [] = g
run sha256 g (k ∷ ks) = run sha256 (step sha256 g k) ks

-- The name of a new user fits its array, which holds of every name that is registered or loaded; the id
-- of a new user is below 2^32; and an initialisation finds no users unless it was done before.
abbrev pub Fits : Users → Call → Type 0
Fits g (adds username password level hops now allocated) =
    (length username ≤ username_room) × (g.next_id + 1 < 2 ^ 32)
Fits g (registers name password now allocated opened) = g.next_id + 1 < 2 ^ 32
Fits g (loads file) =
    All (λ (a : Account). length a.username ≤ username_room) file
    × (g.next_id + length file < 2 ^ 32)
Fits g (ensures_admin now allocated) = g.next_id + 1 < 2 ^ 32
Fits g starts = g.initialized ≡ false → g.users ≡ []
Fits g _ = Unit

-- That holds for each call of a history.
abbrev pub AllFit : (List ℕ → List ℕ) → Users → List Call → Type 0
AllFit sha256 g [] = Unit
AllFit sha256 g (k ∷ ks) = Fits g k × AllFit sha256 (step sha256 g k) ks
