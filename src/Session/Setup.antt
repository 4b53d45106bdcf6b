-- ===== src/Session/Setup.antt =====
-- cccam_protocol_set_crypto: which modes and keys are taken, and how both ends start.
use cccam_3_0_1_by_sharillas.Base.{
  ℕ, ◌≡◌, refl, subst, true, ◌&&◌, Option, none, some, List, [], arith, length, Option-cases, inl,
  inr, if_cases,
}
use cccam_3_0_1_by_sharillas.Session.{
  CryptMode, clear, rc4, aes, triple_des, aes_gcm, Session, mode_of, mode_code, reset_crypto,
  crypt_mode_allowed, key_fits, set_crypto,
}
use cccam_3_0_1_by_sharillas.Session.Peer.{peer}

-- A session that is accepted for a wire mode and a key.
abbrev Accepted : ℕ → ℕ → List ℕ → Option Session → Type 0
Accepted bitmask wire_mode key none = Unit
Accepted bitmask wire_mode key (some a) =
    (peer a a ≡ a)
    × (mode_code a.mode ≡ wire_mode)
    × (crypt_mode_allowed bitmask a.mode ≡ true)
    × (key_fits a.mode (length a.key) ≡ true)

mode_of_lem : (wire_mode : ℕ) (m : CryptMode) → mode_of wire_mode ≡ some m → mode_code m ≡ wire_mode
unfolding mode_of mode_code
mode_of_lem wire_mode m h = ground arith

fits_stored :
    (m : CryptMode) (key : List ℕ)
    → key_fits m (length key) ≡ true
    → key_fits m (length (elim m as (λ _. List ℕ) [ clear ↦ [] | _ ↦ key ])) ≡ true
unfolding key_fits
fits_stored clear key h = refl
fits_stored rc4 key h = h
fits_stored aes key h = h
fits_stored triple_des key h = h
fits_stored aes_gcm key h = h

set_crypto-Accepted :
    (bitmask wire_mode : ℕ) (key : List ℕ)
    → Accepted bitmask wire_mode key (set_crypto bitmask wire_mode key)
unfolding set_crypto reset_crypto
set_crypto-Accepted bitmask wire_mode key = elim (Option-cases (mode_of wire_mode)) [
  | inl n ↦ rw (n, set_crypto) tt
  | inr (m, e) ↦
      rw (e, set_crypto)
        (if_cases (Accepted bitmask wire_mode key)
          (crypt_mode_allowed bitmask m && key_fits m (length key)) _ _
          (λ t. (
            refl,
            mode_of_lem wire_mode m e,
            ground (arith, t),
            fits_stored m key (ground (arith, t)),
          ))
          (λ _. tt))
]

-- A session that is set up is in step with an end that set the same mode and key; its mode is
-- the one asked for and is allowed, and its key has a length that the mode takes.
pub set_crypto-peer :
    (bitmask wire_mode : ℕ) (key : List ℕ) (a : Session)
    → set_crypto bitmask wire_mode key ≡ some a
    → (peer a a ≡ a)
      × (mode_code a.mode ≡ wire_mode)
      × (crypt_mode_allowed bitmask a.mode ≡ true)
      × (key_fits a.mode (length a.key) ≡ true)
set_crypto-peer bitmask wire_mode key a h =
    subst (Accepted bitmask wire_mode key) h (set_crypto-Accepted bitmask wire_mode key)
