-- ===== src/Session/Nonce.antt =====
-- The numbers on the wire, and the layout of the nonce of AES-GCM.
use cccam_3_0_1_by_sharillas.Base.{
  ℕ, ◌/◌, ◌%◌, ◌^◌, ◌<◌, ◌≡◌, ◌∙◌, sym, ap, List, ◌++◌, arith, drop,
}
use cccam_3_0_1_by_sharillas.Rc4.{byte_at}
use cccam_3_0_1_by_sharillas.Session.{be32, read_be32, gcm_build_nonce}

-- A number is read back as it was written, modulo 2^32.
pub read_be32-be32 : (v : ℕ) (more : List ℕ) → read_be32 (be32 v ++ more) ≡ v % 2 ^ 32
unfolding read_be32 be32 byte_at
read_be32-be32 v more = omega arith

-- Two nonces are the same only for the same message type and the same counter.
pub gcm_build_nonce_injective :
    (id id_2 counter counter_2 : ℕ)
    → id < 2 ^ 32
    → id_2 < 2 ^ 32
    → counter < 2 ^ 64
    → counter_2 < 2 ^ 64
    → gcm_build_nonce id counter ≡ gcm_build_nonce id_2 counter_2
    → (id ≡ id_2) × (counter ≡ counter_2)
unfolding gcm_build_nonce be32
gcm_build_nonce_injective id id_2 counter counter_2 p q r s h =
    let first = part id id_2 _ _ h in
    let high = part (counter / 2 ^ 32) (counter_2 / 2 ^ 32) _ _ (ap (drop 4) h) in
    let low = part counter counter_2 _ _ (ap (drop 8) h) in
    (omega (arith, first), omega (arith, high, low))
  where
    part :
        (v w : ℕ) (more other : List ℕ) → be32 v ++ more ≡ be32 w ++ other → v % 2 ^ 32 ≡ w % 2 ^ 32
    part v w more other e = sym (read_be32-be32 v more) ∙ ap read_be32 e ∙ read_be32-be32 w other
