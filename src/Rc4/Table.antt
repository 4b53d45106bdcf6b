-- ===== src/Rc4/Table.antt =====
-- The table of RC4: its size and its bytes.
use cccam_3_0_1_by_sharillas.Base.{
  ℕ, zero, suc, ◌+◌, ◌%◌, ◌^◌, ◌≤◌, ◌<◌, ◌≡◌, refl, true, some, List, [], ◌∷◌, arith, ltb, ◌||◌,
  ◌==◌, length, get_elem?, set, length-set, All, All-set, All-get_elem?, Option-cases, inl, inr,
  false, ap, xor_byte,
}
use cccam_3_0_1_by_sharillas.Rc4.{
  Rc4, rc4_size, byte_at, swap, counting, schedule, rc4_init, advance, key_byte, stream_loop,
}

abbrev pub Byte : ℕ → Type 0
Byte b = b < 256

pub record Rc4Inv (t : Rc4) : Type 0 where
  pub sized : length t.s ≡ rc4_size
  pub bytes : All Byte t.s
  pub i_Byte : Byte t.i
  pub j_Byte : Byte t.j
  pub is_ready : t.ready ≡ true

pub byte_at-Byte : (s : List ℕ) (n : ℕ) → All Byte s → Byte (byte_at s n)
unfolding byte_at
byte_at-Byte s n h = elim (Option-cases (get_elem? s n)) [
  | inl none_there ↦ rw (none_there, byte_at) (omega arith)
  | inr (b, e) ↦ rw (e, byte_at) (All-get_elem? Byte s n b e h)
]

length-swap : (s : List ℕ) (a b : ℕ) → length (swap s a b) ≡ length s
unfolding swap
length-swap s a b =
    omega (arith, length-set (set s a (byte_at s b)) b (byte_at s a), length-set s a (byte_at s b))

swap-Byte : (s : List ℕ) (a b : ℕ) → All Byte s → All Byte (swap s a b)
unfolding swap
swap-Byte s a b h =
    All-set Byte (set s a (byte_at s b)) b (byte_at s a) (byte_at-Byte s a h)
      (All-set Byte s a (byte_at s b) (byte_at-Byte s b h) h)

length-counting : (n first : ℕ) → length (counting n first) ≡ n
unfolding counting
length-counting zero first = refl
length-counting (suc n) first = omega (arith, length-counting n (first + 1))

counting-Byte : (n first : ℕ) → n + first ≤ 256 → All Byte (counting n first)
unfolding counting
counting-Byte zero first h = tt
counting-Byte (suc n) first h = (omega arith, counting-Byte n (first + 1) (omega arith))

length-schedule :
    (key : List ℕ) (n i : ℕ) (s : List ℕ) (j : ℕ) → length (schedule key n i s j) ≡ length s
unfolding schedule
length-schedule key zero i s j = refl
length-schedule key (suc n) i s j =
    let k = (j + byte_at s i + byte_at key (i % length key)) % 2 ^ 8 in
    omega (arith, length-schedule key n (i + 1) (swap s i k) k, length-swap s i k)

schedule-Byte :
    (key : List ℕ) (n i : ℕ) (s : List ℕ) (j : ℕ) → All Byte s → All Byte (schedule key n i s j)
unfolding schedule
schedule-Byte key zero i s j h = h
schedule-Byte key (suc n) i s j h =
    let k = (j + byte_at s i + byte_at key (i % length key)) % 2 ^ 8 in
    schedule-Byte key n (i + 1) (swap s i k) k (swap-Byte s i k h)

pub advance-Rc4Inv : (t : Rc4) → Rc4Inv t → Rc4Inv (advance t)
unfolding advance
advance-Rc4Inv t v = record {
  sized = omega (arith, v.sized, length-swap t.s _ _);
  bytes = swap-Byte t.s _ _ v.bytes;
  i_Byte = omega arith;
  j_Byte = omega arith;
  is_ready = v.is_ready;
}

-- The setup accepts a key of 1 to 256 bytes, and leaves a table of 256 bytes.
pub rc4_init-Rc4Inv :
    (key : List ℕ)
    → 0 < length key
    → length key ≤ 256
    → (t : Rc4) × (rc4_init key ≡ some t) × Rc4Inv t
unfolding rc4_init
rc4_init-Rc4Inv key some_key short = (
  record { s = schedule key rc4_size 0 (counting rc4_size 0) 0; i = 0; j = 0; ready = true },
  rw (accepted (length key) some_key short) refl,
  record {
    sized = omega (arith, length-schedule key 256 0 (counting 256 0) 0, length-counting 256 0);
    bytes = schedule-Byte key 256 0 (counting 256 0) 0 (counting-Byte 256 0 (omega arith));
    i_Byte = omega arith;
    j_Byte = omega arith;
    is_ready = refl;
  },
)
  where
    accepted : (n : ℕ) → 0 < n → n ≤ 256 → (n == 0 || ltb rc4_size n) ≡ false
    accepted n p q = ground arith

-- Bytes go out as bytes, and as many as went in.
pub stream_loop-Byte :
    (t : Rc4) (bs : List ℕ)
    → Rc4Inv t
    → All Byte bs
    → Rc4Inv (stream_loop t bs).0
      × All Byte (stream_loop t bs).1
      × (length (stream_loop t bs).1 ≡ length bs)
unfolding stream_loop key_byte
stream_loop-Byte t [] v h = (v, tt, refl)
stream_loop-Byte t (b ∷ bs) v h =
    let u = advance t in
    let (u_Inv, out, same) = stream_loop-Byte u bs (advance-Rc4Inv t v) h.1 in
    (u_Inv, (xor_byte b _ h.0 (byte_at-Byte u.s _ (advance-Rc4Inv t v).bytes), out), ap suc same)
