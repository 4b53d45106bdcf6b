-- ===== src/Handshake/Tests.antt =====
-- Handshakes on small inputs, and instances of their theorems. The digests of these runs are zeros,
-- and the ciphers leave the bytes as they are.
use cccam_3_0_1_by_sharillas.Base.{
  ℕ, zero, suc, ◌≡◌, refl, ap, true, some, List, [], ◌∷◌, ◌++◌, length, take,
}
use cccam_3_0_1_by_sharillas.Session.{Suite, aes_by_key}
use cccam_3_0_1_by_sharillas.Session.Tests.{plain, plain-SuiteLaws, block}
use cccam_3_0_1_by_sharillas.Protocol.{LoginMessage, zeros}
use cccam_3_0_1_by_sharillas.Handshake.{
  Digests, Random, HandshakeState, handle_login, handle_login_response, get_response_len,
  handshake_encrypt, gcm_encrypt,
}
use cccam_3_0_1_by_sharillas.Handshake.Codec.{HandshakeLaws}
use cccam_3_0_1_by_sharillas.Handshake.Agreement.{handle_login_response-handle_login}

pub length-zeros : (n : ℕ) → length (zeros n) ≡ n
unfolding zeros
length-zeros zero = refl
length-zeros (suc n) = ap suc (length-zeros n)

abbrev pub zero_suite : Suite
zero_suite = record plain { sha256 = λ bytes. zeros 32 }

abbrev pub zero_digests : Digests
zero_digests = record {
  pbkdf2 = λ password salt iterations size. zeros size;
  sha1 = λ bytes. zeros 20;
}

pub zero-HandshakeLaws : HandshakeLaws zero_suite zero_digests
zero-HandshakeLaws = record {
  suite_laws = record {
    cbc_inverse = plain-SuiteLaws.cbc_inverse;
    cbc_length = plain-SuiteLaws.cbc_length;
    gcm_inverse = plain-SuiteLaws.gcm_inverse;
    gcm_length = plain-SuiteLaws.gcm_length;
  };
  pbkdf2_length = λ password salt iterations size. length-zeros size;
  sha1_length = λ bytes. length-zeros 20;
  sha256_length = λ bytes. length-zeros 32;
  gcm_seals = λ cipher key nonce aad bytes. refl;
}

abbrev pub dice : Random
dice = record { seed = block; iv = take 12 block; stack = [] }

abbrev pub at_rest : HandshakeState
at_rest = record { session_key = []; handshake_mode = 0 }

abbrev pub old_client : LoginMessage
old_client = record { handshake = block; username = 97 ∷ []; password = 98 ∷ []; version = 230 }

handle_login_response-handle_login_example :
    (agreed : HandshakeState) × (out : List ℕ) × (handle_login zero_suite zero_digests at_rest
        old_client dice
        (block ++ (block ++ (block ++ take 12 block)))
      ≡ (agreed, some out))
    × (handle_login_response zero_suite zero_digests at_rest old_client
          (take (get_response_len agreed) out)
        ≡ (agreed, true))
handle_login_response-handle_login_example =
    handle_login_response-handle_login zero_suite zero_digests zero-HandshakeLaws old_client dice
      (block ++ (block ++ (block ++ take 12 block))) refl refl refl at_rest at_rest

abbrev keyed : HandshakeState
keyed = record { session_key = block; handshake_mode = 4 }

sealed :
    handshake_encrypt plain keyed block 64 (take 12 block) true
    ≡ some (take 12 block ++ (block ++ block))
unfolding handshake_encrypt gcm_encrypt aes_by_key
sealed = refl
