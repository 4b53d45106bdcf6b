-- ===== src/Legacy/Login.antt =====
-- src/network/cccam3_cc_legacy.c, ccl_login and cclegacy_serve: the login and the session of a CCcam
-- 2.x client. SHA-1 is the argument `sha1`, and the 14 random bytes are an argument. A text is the
-- list of its bytes without the final 0.
use cccam_3_0_1_by_sharillas.Base.{
  ℕ, zero, suc, ◌+◌, ◌/◌, ◌%◌, ◌^◌, Bool, true, false, ◌&&◌, none, some, List, [], ◌∷◌, ◌++◌, ◌==◌,
  if◌then◌else◌, take, same_text,
}
use cccam_3_0_1_by_sharillas.Users.{Users, find_user}
use cccam_3_0_1_by_sharillas.Clients.{Pointer, authenticate, update_keepalive}
use cccam_3_0_1_by_sharillas.Legacy.Service.{ServerState, Reply, Round, serve_rounds}
use cccam_3_0_1_by_sharillas.Legacy.{Legacy, cc_init_crypt, cc_xor, cccam}
use cccam_3_0_1_by_sharillas.Legacy.Messages.{
  LegacySession, Connection, Result, on, ended, fault, ◌>>=◌, crypt, ccl_send_all, ccl_recv_exact,
}

-- The sum of the random bytes in 16 bits, from 0x1234.
unfoldable pub seed_sum : ℕ → List ℕ → ℕ
seed_sum sum [] = sum
seed_sum sum (b ∷ bs) = seed_sum ((sum + b) % 2 ^ 16) bs

unfoldable pub make_seed : List ℕ → List ℕ
unfolding seed_sum
make_seed random = let sum = seed_sum 0x1234 random in random ++ (sum / 2 ^ 8 ∷ (sum % 2 ^ 8 ∷ []))

-- The two directions after the seed: step 2 of the login, and the hash.
pub record Keys : Type 0 where
  pub dec : Legacy
  pub enc : Legacy
  pub hash : List ℕ

unfoldable pub derive_keys : (List ℕ → List ℕ) → List ℕ → Result Keys
derive_keys sha1 seed =
    let hash = sha1 (cc_xor seed) in
    crypt false (cc_init_crypt hash) seed >>= λ d.
    crypt false (cc_init_crypt d.1) hash >>= λ e. on (record { dec = d.0; enc = e.0; hash = e.1 })

-- A field of `n` bytes from the client, deciphered.
unfoldable pub recv_field : Legacy → Connection → ℕ → Result (Legacy × Connection × List ℕ)
recv_field c k n = ccl_recv_exact k n >>= λ p. crypt false c p.0 >>= λ r. on (r.0, p.1, r.1)

-- A field of 20 bytes as a C string: what stands before the first 0.
unfoldable pub c_string : List ℕ → List ℕ
c_string [] = []
c_string (b ∷ bs) = let rest = c_string bs in if b == 0 then [] else b ∷ rest

-- The password of the name, empty if it is not known, and whether the account can be used.
unfoldable pub stored_password : Users → List ℕ → List ℕ
stored_password users name = elim (find_user users name) [ none ↦ [] | some u ↦ u.password ]

unfoldable pub can_log_in : Users → List ℕ → Bool
can_log_in users name = elim (find_user users name) [ none ↦ false | some u ↦ u.enabled ]

-- "CCcam" and the start of "CCcam3v3.0.2[EXT]", 20 bytes.
abbrev pub login_reply : List ℕ
login_reply =
    67 ∷ 67 ∷ 99 ∷ 97 ∷ 109 ∷ 67 ∷ 67 ∷ 99 ∷ 97 ∷ 109 ∷ 51 ∷ 118 ∷ 51 ∷ 46 ∷ 48 ∷ 46 ∷ 50 ∷ 91 ∷ 69
    ∷ 88 ∷ []

-- Step 5: the password goes through the cipher, and then the challenge, which is sent; the client's
-- answer has to be "CCcam" and its final 0.
unfoldable pub check_password : Legacy → Connection → List ℕ → Bool → Result (Legacy × Connection)
unfolding recv_field
check_password c k password allowed = crypt true c password >>= λ p. crypt true p.0 cccam >>= λ q.
    ccl_send_all k q.1 >>= λ k'.
    recv_field q.0 k' 6 >>= λ r. if same_text r.2 cccam && allowed then on (r.0, r.1) else ended

-- Step 6: the reply, and the session that has logged in.
unfoldable pub finish_login :
    LegacySession → List ℕ → Legacy → Legacy × Connection → Result (LegacySession × Connection)
finish_login s name enc p = crypt true enc login_reply >>= λ e. ccl_send_all p.1 e.1 >>= λ k1.
    on (record s { dec = p.0; enc = e.0; logged_in = true; extended = true; username = name }, k1)

-- Steps 5 and 6, after the name.
unfoldable pub login_as :
    Users
    → LegacySession
    → Legacy
    → Legacy × Connection × List ℕ
    → Result (LegacySession × Connection)
unfolding c_string stored_password can_log_in check_password finish_login
login_as users s enc user =
    let name = take 63 (c_string user.2) in
    check_password user.0 user.1 (stored_password users name) (can_log_in users name) >>= λ p.
    finish_login s name enc p

-- Steps 3 to 6: the echo of the hash, and the name.
unfoldable pub login_with :
    Users → LegacySession → Connection → Keys → Result (LegacySession × Connection)
unfolding recv_field login_as
login_with users s k keys = recv_field keys.dec k 20 >>= λ echo.
    if same_text echo.2 keys.hash
    then (recv_field echo.0 echo.1 20 >>= λ user. login_as users s keys.enc user)
    else ended

-- `ccl_login`
unfoldable pub login :
    (List ℕ → List ℕ)
    → Users
    → List ℕ
    → LegacySession
    → Connection
    → Result (LegacySession × Connection)
unfolding make_seed derive_keys login_with
login sha1 users random s k =
    let seed = make_seed random in
    ccl_send_all k seed >>= λ k0. derive_keys sha1 seed >>= λ keys. login_with users s k0 keys

unfoldable pub zero_bytes : ℕ → List ℕ
zero_bytes zero = []
zero_bytes (suc n) = 0 ∷ zero_bytes n

-- `memset(session, 0, sizeof(*session))`
abbrev pub no_cipher : Legacy
no_cipher = record { table = zero_bytes 256; state = 0; counter = 0; sum = 0 }

abbrev pub blank_session : LegacySession
blank_session = record {
  dec = no_cipher;
  enc = no_cipher;
  node_id = 0;
  logged_in = false;
  extended = false;
  username = [];
}

-- The client that has logged in, for the pool.
unfoldable pub admit_client : ServerState → Pointer → ℕ → ServerState
admit_client st client now = record st {
  ecm = record st.ecm {
    clients = update_keepalive (authenticate st.ecm.clients client) client now;
  };
}

-- `cclegacy_serve`
unfoldable pub serve_client :
    (List ℕ → List ℕ) → ServerState → List ℕ → Connection → Pointer → ℕ → List Round → Reply × Bool
unfolding admit_client login
serve_client sha1 st random k client now rounds =
    elim (login sha1 st.users random blank_session k) [
      | on r ↦ serve_rounds (admit_client st client now) r.0 r.1 client rounds
      | ended ↦ ((st, ended), false)
      | fault ↦ ((st, fault), false)
    ]
