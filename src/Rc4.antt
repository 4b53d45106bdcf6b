-- ===== src/Rc4.antt =====
-- src/network/cccam3_crypto.c and cccam3_crypto.h: RC4 with a key stream that goes on from one
-- message to the next. A byte array is a list; an index is a uint8_t, so it stays in the table.
-- Null pointers are left out; the CBC modes are OpenSSL calls.
pub mod Table
pub mod Stream
mod Tests
use cccam_3_0_1_by_sharillas.Base.{
  ℕ, zero, suc, ◌+◌, ◌%◌, ◌^◌, Bool, true, false, ◌||◌, Option, none, some, List, [], ◌∷◌, ltb,
  ◌==◌, if◌then◌else◌, length, get_elem?, set, bit_xor,
}

-- `cccam_rc4_state_t`
pub record Rc4 : Type 0 where
  pub s : List ℕ
  pub i : ℕ
  pub j : ℕ
  pub ready : Bool

abbrev pub rc4_size : ℕ
rc4_size = 256

-- A read of an array; beyond its end, where no index of this code points, it is 0.
unfoldable pub byte_at : List ℕ → ℕ → ℕ
byte_at bytes n = elim (get_elem? bytes n) [ none ↦ 0 | some b ↦ b ]

unfoldable pub swap : List ℕ → ℕ → ℕ → List ℕ
unfolding byte_at
swap s a b = set (set s a (byte_at s b)) b (byte_at s a)

-- 0, 1, 2, and so on, `n` of them from `first`.
unfoldable pub counting : ℕ → ℕ → List ℕ
counting zero first = []
counting (suc n) first = first ∷ counting n (first + 1)

-- The second loop of `cccam_crypto_rc4_init`, with `n` rounds to go from round `i`.
unfoldable pub schedule : List ℕ → ℕ → ℕ → List ℕ → ℕ → List ℕ
schedule key zero i s j = s
schedule key (suc n) i s j =
    let k = (j + byte_at s i + byte_at key (i % length key)) % 2 ^ 8 in
    schedule key n (i + 1) (swap s i k) k

-- `cccam_crypto_rc4_init`; `none` is the return value -1.
unfoldable pub rc4_init : List ℕ → Option Rc4
rc4_init key =
    if length key == 0 || ltb rc4_size (length key)
    then none
    else some
        (record { s = schedule key rc4_size 0 (counting rc4_size 0) 0; i = 0; j = 0; ready = true })

-- One round of the loop of `cccam_crypto_rc4_stream`: the new state.
unfoldable pub advance : Rc4 → Rc4
advance t =
    let i = (t.i + 1) % 2 ^ 8 in
    let j = (t.j + byte_at t.s i) % 2 ^ 8 in record t { s = swap t.s i j; i = i; j = j }

-- The key byte that a round leaves.
unfoldable pub key_byte : Rc4 → ℕ
key_byte t = byte_at t.s ((byte_at t.s t.i + byte_at t.s t.j) % 2 ^ 8)

unfoldable pub stream_loop : Rc4 → List ℕ → Rc4 × List ℕ
stream_loop t [] = (t, [])
stream_loop t (b ∷ bs) =
    let u = advance t in let rest = stream_loop u bs in (rest.0, bit_xor b (key_byte u) ∷ rest.1)

-- `cccam_crypto_rc4_stream`; `none` is the return value -1, of a state that is not set up.
unfoldable pub rc4_stream : Rc4 → List ℕ → Option (Rc4 × List ℕ)
unfolding stream_loop
rc4_stream t bytes = if t.ready then some (stream_loop t bytes) else none
