-- ===== src/Legacy.antt =====
-- src/network/cccam3_cc_legacy.c: the cipher of the CCcam 2.x protocol and the scrambling of control
-- words. An int of the session is a number; an index beyond the table of 256 bytes is a fault,
-- `none`. The node id is the number that the 8 bytes spell.
pub mod Cipher
pub mod Messages
pub mod Service
pub mod Login
mod Tests
use cccam_3_0_1_by_sharillas.Base.{
  ℕ, zero, suc, ◌+◌, ◌*◌, ◌/◌, ◌%◌, ◌^◌, Bool, true, false, Option, none, some, List, [], ◌∷◌, ◌==◌,
  if◌then◌else◌, get_elem?, set, take, ◌++◌, bit_xor,
}
use cccam_3_0_1_by_sharillas.Rc4.{byte_at, counting, schedule}

-- One direction of a session: a table, `state`, `counter` and `sum` of `cclegacy_session_t`.
pub record Legacy : Type 0 where
  pub table : List ℕ
  pub state : ℕ
  pub counter : ℕ
  pub sum : ℕ

-- `cc_init_crypt`, whose table is mixed as RC4's is.
unfoldable pub cc_init_crypt : List ℕ → Legacy
cc_init_crypt key = record {
  table = schedule key 256 0 (counting 256 0) 0;
  state = byte_at key 0;
  counter = 0;
  sum = 0;
}

-- The table after `cc_swapc` of the entries `a` at the counter and `b` at the sum.
unfoldable pub swapped : List ℕ → ℕ → ℕ → ℕ → ℕ → List ℕ
swapped table counter a sum b = set (set table counter b) sum a

-- The key byte of a round.
unfoldable pub mask : List ℕ → ℕ → ℕ → ℕ
mask table counter sum = byte_at table ((byte_at table counter + byte_at table sum) % 2 ^ 8)

-- The end of the loop's body: the byte that goes out, and the new `state`, which takes in the plain
-- byte in both directions.
unfoldable pub mix : Bool → Legacy → ℕ → Legacy × ℕ
unfolding mask
mix encrypts c z =
    let out = bit_xor (bit_xor z (mask c.table c.counter c.sum)) c.state in
    (record c { state = bit_xor c.state (if encrypts then z else out) }, out)

-- The start of the loop's body: counter, sum and table move on.
unfoldable pub turn : Legacy → Option Legacy
unfolding swapped
turn c = elim (get_elem? c.table (c.counter + 1)) [
  | none ↦ none
  | some a ↦ elim (get_elem? c.table (c.sum + a)) [
    | none ↦ none
    | some b ↦ some (record c {
      table = swapped c.table (c.counter + 1) a (c.sum + a) b;
      counter = c.counter + 1;
      sum = c.sum + a;
    })
  ]
]

-- `cc_crypt`; the mode is whether it encrypts.
unfoldable pub cc_crypt : Bool → Legacy → List ℕ → Option (Legacy × List ℕ)
cc_crypt encrypts c [] = some (c, [])
cc_crypt encrypts c (z ∷ zs) = elim (turn c) [
  | none ↦ none
  | some d ↦
      let r = mix encrypts d z in
      elim (cc_crypt encrypts r.0 zs) [ none ↦ none | some rest ↦ some (rest.0, r.1 ∷ rest.1) ]
]

-- The loop of `cc_cw_crypt` from byte `i`. Its two branches shift the same number, since a node id of
-- at most 2^63 - 1 is not negative as an int64_t. `~` on a byte is an exclusive or with 0xff.
unfoldable pub cw_crypt_from : ℕ → ℕ → ℕ → List ℕ → List ℕ
cw_crypt_from cardid node_id i [] = []
cw_crypt_from cardid node_id i (w ∷ ws) =
    let tmp = bit_xor w (node_id / 2 ^ (4 * i) % 2 ^ 8) in
    let flipped = if i % 2 == 1 then bit_xor tmp 0xff else tmp in
    bit_xor (cardid / 2 ^ (2 * i) % 2 ^ 8) flipped ∷ cw_crypt_from cardid node_id (i + 1) ws

-- `cc_cw_crypt`
unfoldable pub cc_cw_crypt : List ℕ → ℕ → ℕ → List ℕ
unfolding cw_crypt_from
cc_cw_crypt cws cardid node_id = cw_crypt_from cardid node_id 0 cws

-- The products that `cc_xor` writes behind the first 8 bytes, from index `i`.
unfoldable pub products : ℕ → List ℕ → List ℕ
products i [] = []
products i (b ∷ bs) = i * b % 2 ^ 8 ∷ products (i + 1) bs

-- The bytes of the first text combined with the start of the second.
unfoldable pub combine : List ℕ → List ℕ → List ℕ
combine [] bs = bs
combine (c ∷ cs) [] = []
combine (c ∷ cs) (b ∷ bs) = bit_xor b c ∷ combine cs bs

-- "CCcam" and its final 0, which the loop reads at index 5.
abbrev pub cccam : List ℕ
cccam = 0x43 ∷ 0x43 ∷ 0x63 ∷ 0x61 ∷ 0x6d ∷ 0 ∷ []

-- `cc_xor` on a seed of 16 bytes, of which it reads 8.
unfoldable pub cc_xor : List ℕ → List ℕ
cc_xor buf = combine cccam (take 8 buf) ++ products 0 (take 8 buf)
