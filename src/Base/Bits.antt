-- ===== src/Base/Bits.antt =====
-- Exclusive or of numbers, from the digit recursion that the native operation stands for: it is
-- its own inverse, and it keeps bytes bytes.
use Prim.Native.Nat.{
  ℕ, zero, suc, ◌+◌, ◌*◌, ◌/◌, ◌%◌, ◌≤◌, ◌<◌, bit_xor, digits, differ, bit_xor-bitwise,
}
use mathlib.Core.Path.{◌≡◌, refl, ap, ◌∙◌}
use native.Mathlib.Omega.{arith}

abbrev xor_digits : ℕ → ℕ → ℕ → ℕ
xor_digits n a b = digits (λ y. y) differ n a b

-- Digits beyond the last of the first number cost no fuel.
xor_digits_enough : (n m a b : ℕ) → a ≤ n → a ≤ m → xor_digits n a b ≡ xor_digits m a b
xor_digits_enough zero m zero b p q = stop m
  where
    stop : (k : ℕ) → b ≡ xor_digits k zero b
    stop zero = refl
    stop (suc k) = refl
xor_digits_enough zero m (suc a) b p q = absurd (omega arith)
xor_digits_enough (suc n) zero zero b p q = refl
xor_digits_enough (suc n) zero (suc a) b p q = absurd (omega arith)
xor_digits_enough (suc n) (suc m) zero b p q = refl
xor_digits_enough (suc n) (suc m) (suc a) b p q =
    omega (arith, xor_digits_enough n m (suc a / 2) (b / 2) (omega arith) (omega arith))

differ_bits : (x y : ℕ) → x < 2 → y < 2 → differ x y ≡ (x + y) % 2
differ_bits zero zero p q = refl
differ_bits zero (suc zero) p q = refl
differ_bits (suc zero) zero p q = refl
differ_bits (suc zero) (suc zero) p q = refl
differ_bits (suc (suc x)) y p q = absurd (omega arith)
differ_bits zero (suc (suc y)) p q = absurd (omega arith)
differ_bits (suc zero) (suc (suc y)) p q = absurd (omega arith)

pub zero-bit_xor : (b : ℕ) → bit_xor 0 b ≡ b
zero-bit_xor b = bit_xor-bitwise 0 b

-- The law of the lowest digit.
pub bit_xor_digit : (a b : ℕ) → bit_xor a b ≡ bit_xor (a / 2) (b / 2) * 2 + (a + b) % 2
bit_xor_digit zero b = omega (arith, zero-bit_xor b, zero-bit_xor (b / 2))
bit_xor_digit (suc a) b = omega (
  arith,
  bit_xor-bitwise (suc a) b,
  bit_xor-bitwise (suc a / 2) (b / 2),
  xor_digits_enough a (suc a / 2) (suc a / 2) (b / 2) (omega arith) (omega arith),
  differ_bits (suc a % 2) (b % 2) (omega arith) (omega arith),
)

xor_twice_below : (n a b : ℕ) → a ≤ n → b ≤ n → bit_xor (bit_xor a b) b ≡ a
xor_twice_below zero zero zero p q = refl
xor_twice_below zero (suc a) b p q = absurd (omega arith)
xor_twice_below zero zero (suc b) p q = absurd (omega arith)
xor_twice_below (suc n) a b p q =
    let half : bit_xor a b / 2 ≡ bit_xor (a / 2) (b / 2) = omega (arith, bit_xor_digit a b) in
    omega (
      arith,
      bit_xor_digit (bit_xor a b) b,
      bit_xor_digit a b,
      ap (λ x. bit_xor x (b / 2)) half,
      xor_twice_below n (a / 2) (b / 2) (omega arith) (omega arith),
    )

-- Exclusive or twice with the same number gives back the first.
pub xor_twice : (a b : ℕ) → bit_xor (bit_xor a b) b ≡ a
xor_twice a b = xor_twice_below (a + b) a b (omega arith) (omega arith)

xor_comm_below : (n a b : ℕ) → a ≤ n → b ≤ n → bit_xor a b ≡ bit_xor b a
xor_comm_below zero zero zero p q = refl
xor_comm_below zero (suc a) b p q = absurd (omega arith)
xor_comm_below zero zero (suc b) p q = absurd (omega arith)
xor_comm_below (suc n) a b p q = omega (
  arith,
  bit_xor_digit a b,
  bit_xor_digit b a,
  xor_comm_below n (a / 2) (b / 2) (omega arith) (omega arith),
)

pub xor_comm : (a b : ℕ) → bit_xor a b ≡ bit_xor b a
xor_comm a b = xor_comm_below (a + b) a b (omega arith) (omega arith)

abbrev doubled : ℕ → ℕ
doubled zero = 1
doubled (suc k) = doubled k * 2

xor-doubled : (k a b : ℕ) → a < doubled k → b < doubled k → bit_xor a b < doubled k
xor-doubled zero zero zero p q = omega (arith, zero-bit_xor 0)
xor-doubled zero (suc a) b p q = absurd (omega arith)
xor-doubled zero zero (suc b) p q = absurd (omega arith)
xor-doubled (suc k) a b p q =
    omega (arith, bit_xor_digit a b, xor-doubled k (a / 2) (b / 2) (omega arith) (omega arith))

pub xor_byte : (a b : ℕ) → a < 256 → b < 256 → bit_xor a b < 256
xor_byte a b p q = xor-doubled 8 a b p q

xor_swap_below :
    (n a b c : ℕ) → a ≤ n → b ≤ n → c ≤ n → bit_xor (bit_xor a b) c ≡ bit_xor (bit_xor a c) b
xor_swap_below zero zero zero zero p q r = refl
xor_swap_below zero (suc a) b c p q r = absurd (omega arith)
xor_swap_below zero zero (suc b) c p q r = absurd (omega arith)
xor_swap_below zero zero zero (suc c) p q r = absurd (omega arith)
xor_swap_below (suc n) a b c p q r =
    let half_b : bit_xor a b / 2 ≡ bit_xor (a / 2) (b / 2) = omega (arith, bit_xor_digit a b) in
    let half_c : bit_xor a c / 2 ≡ bit_xor (a / 2) (c / 2) = omega (arith, bit_xor_digit a c) in
    omega (
      arith,
      bit_xor_digit (bit_xor a b) c,
      bit_xor_digit (bit_xor a c) b,
      bit_xor_digit a b,
      bit_xor_digit a c,
      ap (λ x. bit_xor x (c / 2)) half_b,
      ap (λ x. bit_xor x (b / 2)) half_c,
      xor_swap_below n (a / 2) (b / 2) (c / 2) (omega arith) (omega arith) (omega arith),
    )

-- The order in which two numbers are combined with a third does not matter.
pub xor_swap : (a b c : ℕ) → bit_xor (bit_xor a b) c ≡ bit_xor (bit_xor a c) b
xor_swap a b c = xor_swap_below (a + b + c) a b c (omega arith) (omega arith) (omega arith)

pub xor_assoc : (a b c : ℕ) → bit_xor (bit_xor a b) c ≡ bit_xor a (bit_xor b c)
xor_assoc a b c =
    ap (λ (x : ℕ). bit_xor x c) (xor_comm a b) ∙ xor_swap b a c ∙ xor_comm (bit_xor b c) a
