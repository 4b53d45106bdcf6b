-- ===== src/Session/Tests.antt =====
-- Sessions on small inputs, and instances of their theorems. The cipher suite of these runs leaves
-- the bytes as they are.
use cccam_3_0_1_by_sharillas.Base.{ℕ, ◌^◌, ◌≡◌, refl, false, some, List, [], ◌∷◌, arith}
use cccam_3_0_1_by_sharillas.Session.{
  Suite, Session, aes, encrypt, encrypt_in, aes_cbc, evp_cbc, aes_by_key,
}
use cccam_3_0_1_by_sharillas.Session.Rules.{SuiteLaws}
use cccam_3_0_1_by_sharillas.Session.Peer.{peer, encrypt_all, decrypt_all, decrypt_all-encrypt_all}
use cccam_3_0_1_by_sharillas.Session.Nonce.{gcm_build_nonce_injective}

abbrev pub block : List ℕ
block = 1 ∷ 2 ∷ 3 ∷ 4 ∷ 5 ∷ 6 ∷ 7 ∷ 8 ∷ 9 ∷ 10 ∷ 11 ∷ 12 ∷ 13 ∷ 14 ∷ 15 ∷ 16 ∷ []

abbrev pub plain : Suite
plain = record {
  cbc = λ cipher encrypts key iv bytes. some bytes;
  gcm_seal = λ cipher key nonce aad bytes. some (bytes, block);
  gcm_open = λ cipher key nonce aad bytes tag. some bytes;
  sha256 = λ bytes. bytes;
}

pub plain-SuiteLaws : SuiteLaws plain
plain-SuiteLaws = record {
  cbc_inverse = λ cipher key iv bytes out h. ground (arith, h);
  cbc_length = λ cipher key iv bytes out h. ground (arith, h);
  gcm_inverse = λ cipher key nonce aad bytes out tag h. ground (arith, h);
  gcm_length = λ cipher key nonce aad bytes out tag h. ground (arith, h);
}

abbrev pub server : Session
server = record {
  mode = aes;
  key = block;
  tx_counter = 4;
  rx_counter = 0;
  tx = record { s = []; i = 0; j = 0; ready = false };
  rx = record { s = []; i = 0; j = 0; ready = false };
}

two_sent :
    encrypt_all plain server 0 ((3, block) ∷ (5, block) ∷ [])
    ≡ some (record server { tx_counter = 6 }, (3, block) ∷ (5, block) ∷ [])
unfolding encrypt_all encrypt encrypt_in aes_cbc evp_cbc aes_by_key
two_sent = refl

decrypt_all-encrypt_all_example :
    decrypt_all plain (peer server server) ((3, block) ∷ (5, block) ∷ [])
    ≡ some (peer (record server { tx_counter = 6 }) server, (3, block) ∷ (5, block) ∷ [])
decrypt_all-encrypt_all_example =
    decrypt_all-encrypt_all plain plain-SuiteLaws server server (record server { tx_counter = 6 }) 0
      ((3, block) ∷ (5, block) ∷ []) ((3, block) ∷ (5, block) ∷ []) two_sent

abbrev same_counter : ℕ
same_counter = 7

gcm_build_nonce_injective_example : (same_counter ≡ 7) × (2 ^ 40 ≡ 2 ^ 40)
gcm_build_nonce_injective_example =
    gcm_build_nonce_injective same_counter 7 (2 ^ 40) (2 ^ 40) (omega arith) (omega arith)
      (omega arith) (omega arith) refl
