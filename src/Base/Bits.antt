-- ===== src/Base/Bits.antt =====
-- The binary digits of native numbers: what `&`, `|` and `^` do to each digit, and masks as
-- arithmetic, at every width.
use Prim.Native.Nat.{
  ℕ, zero, suc, ◌+◌, ◌*◌, ◌/◌, ◌%◌, ◌^◌, ◌≤◌, ◌<◌, min, max, bit_and, bit_or, bit_xor, digits,
  differ, bit_and-bitwise, bit_or-bitwise, bit_xor-bitwise,
}
use mathlib.Core.Path.{◌≡◌, refl, sym, ap, ◌∙◌}
use native.Mathlib.Omega.{arith}
use native.Mathlib.Nat.{pow-suc, div-div-eq-div-mul, mul_comm}

-- The digit of weight `2 ^ i`.
abbrev pub bit : ℕ → ℕ → ℕ
bit i x = x / 2 ^ i % 2

module _ (z : ℕ → ℕ) (f : ℕ → ℕ → ℕ) where
  at_zero : (m b : ℕ) → digits z f m 0 b ≡ z b
  at_zero zero b = refl
  at_zero (suc m) b = refl

  -- With fuel for each digit of `a`, how much fuel there is makes no difference.
  digits_enough : (n k a b : ℕ) → a ≤ n → a ≤ k → digits z f n a b ≡ digits z f k a b
  digits_enough n k zero b h g = at_zero n b ∙ sym (at_zero k b)
  digits_enough (suc n) (suc k) (suc a) b h g =
      ap (λ t. t * 2 + f (suc a % 2) (b % 2))
        (digits_enough n k (suc a / 2) (b / 2) (omega arith) (omega arith))
  digits_enough zero k (suc a) b h g = absurd (omega arith)
  digits_enough (suc n) zero (suc a) b h g = absurd (omega arith)

  digits-suc :
      (a b : ℕ)
      → digits z f (suc a) (suc a) b
        ≡ digits z f (suc a / 2) (suc a / 2) (b / 2) * 2 + f (suc a % 2) (b % 2)
  digits-suc a b =
      ap (λ t. t * 2 + f (suc a % 2) (b % 2))
        (digits_enough a (suc a / 2) (suc a / 2) (b / 2) (omega arith) (omega arith))

pub and_digit : (a b : ℕ) → bit_and a b ≡ bit_and (a / 2) (b / 2) * 2 + min (a % 2) (b % 2)
and_digit zero b = simp bit_and-bitwise (omega arith)
and_digit (suc a) b = simp bit_and-bitwise (digits-suc (λ y. 0) min a b)

pub or_digit : (a b : ℕ) → bit_or a b ≡ bit_or (a / 2) (b / 2) * 2 + max (a % 2) (b % 2)
or_digit zero b = simp bit_or-bitwise (omega arith)
or_digit (suc a) b = simp bit_or-bitwise (digits-suc (λ y. y) max a b)

differ_digits : (x y : ℕ) → x < 2 → y < 2 → differ x y ≡ (x + y) % 2
differ_digits zero y h g = omega arith
differ_digits (suc zero) zero h g = refl
differ_digits (suc zero) (suc zero) h g = refl
differ_digits (suc zero) (suc (suc y)) h g = absurd (omega arith)
differ_digits (suc (suc x)) y h g = absurd (omega arith)

xor_digit_differ : (a b : ℕ) → bit_xor a b ≡ bit_xor (a / 2) (b / 2) * 2 + differ (a % 2) (b % 2)
xor_digit_differ zero b = simp bit_xor-bitwise (omega arith)
xor_digit_differ (suc a) b = simp bit_xor-bitwise (digits-suc (λ y. y) differ a b)

pub xor_digit : (a b : ℕ) → bit_xor a b ≡ bit_xor (a / 2) (b / 2) * 2 + (a + b) % 2
xor_digit a b =
    omega (arith, xor_digit_differ a b, differ_digits (a % 2) (b % 2) (omega arith) (omega arith))

pub div-pow-suc : (i x : ℕ) → x / 2 ^ suc i ≡ x / 2 / 2 ^ i
div-pow-suc i x =
    ap (λ t. x / t) (pow-suc 2 i ∙ mul_comm (2 ^ i) 2) ∙ sym (div-div-eq-div-mul x 2 (2 ^ i))

pub half-lt : (w x : ℕ) → x < 2 ^ suc w → x / 2 < 2 ^ w
half-lt w x hx = omega (arith, pow-suc 2 w)

-- The digits above the lowest are those of the half.
pub bit-suc : (i x : ℕ) → bit (suc i) x ≡ bit i (x / 2)
bit-suc i x = ap (λ t. t % 2) (div-pow-suc i x)

pub bit-bit_and : (i a b : ℕ) → bit i (bit_and a b) ≡ min (bit i a) (bit i b)
bit-bit_and zero a b = omega (arith, and_digit a b)
bit-bit_and (suc i) a b =
    rw (bit-suc i (bit_and a b), bit-suc i a, bit-suc i b, half) (bit-bit_and i (a / 2) (b / 2))
  where
    half : bit_and a b / 2 ≡ bit_and (a / 2) (b / 2)
    half = omega (arith, and_digit a b)

pub bit-bit_or : (i a b : ℕ) → bit i (bit_or a b) ≡ max (bit i a) (bit i b)
bit-bit_or zero a b = omega (arith, or_digit a b)
bit-bit_or (suc i) a b =
    rw (bit-suc i (bit_or a b), bit-suc i a, bit-suc i b, half) (bit-bit_or i (a / 2) (b / 2))
  where
    half : bit_or a b / 2 ≡ bit_or (a / 2) (b / 2)
    half = omega (arith, or_digit a b)

pub bit-bit_xor : (i a b : ℕ) → bit i (bit_xor a b) ≡ (bit i a + bit i b) % 2
bit-bit_xor zero a b = omega (arith, xor_digit a b)
bit-bit_xor (suc i) a b =
    rw (bit-suc i (bit_xor a b), bit-suc i a, bit-suc i b, half) (bit-bit_xor i (a / 2) (b / 2))
  where
    half : bit_xor a b / 2 ≡ bit_xor (a / 2) (b / 2)
    half = omega (arith, xor_digit a b)

-- Numbers of `w` digits with the same digits are equal.
pub eq_of_bits : (w a b : ℕ) → a < 2 ^ w → b < 2 ^ w → ((i : ℕ) → i < w → bit i a ≡ bit i b) → a ≡ b
eq_of_bits zero a b ha hb h = omega arith
eq_of_bits (suc w) a b ha hb h =
    omega (arith, eq_of_bits w (a / 2) (b / 2) (half-lt w a ha) (half-lt w b hb) upper, h 0 lowest)
  where
    lowest : 0 < suc w
    lowest = omega arith

    upper : (i : ℕ) → i < w → bit i (a / 2) ≡ bit i (b / 2)
    upper i hi = sym (bit-suc i a) ∙ h (suc i) (omega arith) ∙ bit-suc i b

-- A number of `w` digits that are all one.
pub eq_of_ones : (w a : ℕ) → a < 2 ^ w → ((i : ℕ) → i < w → bit i a ≡ 1) → a + 1 ≡ 2 ^ w
eq_of_ones zero a ha h = omega arith
eq_of_ones (suc w) a ha h =
    omega (arith, pow-suc 2 w, h 0 (omega arith), eq_of_ones w (a / 2) (half-lt w a ha) upper)
  where
    upper : (i : ℕ) → i < w → bit i (a / 2) ≡ 1
    upper i hi = sym (bit-suc i a) ∙ h (suc i) (omega arith)

pub zero_of_lt : {x : ℕ} → x < 2 ^ 0 → x ≡ 0
zero_of_lt h = omega arith

pub bit_or-lt : (w a b : ℕ) → a < 2 ^ w → b < 2 ^ w → bit_or a b < 2 ^ w
bit_or-lt zero a b ha hb = rw (zero_of_lt ha, zero_of_lt hb) (omega arith)
bit_or-lt (suc w) a b ha hb = omega (
  arith,
  or_digit a b,
  pow-suc 2 w,
  bit_or-lt w (a / 2) (b / 2) (half-lt w a ha) (half-lt w b hb),
)

pub bit_xor-lt : (w a b : ℕ) → a < 2 ^ w → b < 2 ^ w → bit_xor a b < 2 ^ w
bit_xor-lt zero a b ha hb = rw (zero_of_lt ha, zero_of_lt hb) (omega arith)
bit_xor-lt (suc w) a b ha hb = omega (
  arith,
  xor_digit a b,
  pow-suc 2 w,
  bit_xor-lt w (a / 2) (b / 2) (half-lt w a ha) (half-lt w b hb),
)

bit_and_comm_below : (n a b : ℕ) → a ≤ n → b ≤ n → bit_and a b ≡ bit_and b a
bit_and_comm_below zero zero zero h g = refl
bit_and_comm_below zero zero (suc b) h g = absurd (omega arith)
bit_and_comm_below zero (suc a) b h g = absurd (omega arith)
bit_and_comm_below (suc n) a b h g = omega (
  arith,
  and_digit a b,
  and_digit b a,
  bit_and_comm_below n (a / 2) (b / 2) (omega arith) (omega arith),
)

pub bit_and_comm : (a b : ℕ) → bit_and a b ≡ bit_and b a
bit_and_comm a b = bit_and_comm_below (a + b) a b (omega arith) (omega arith)

bit_and_le_below : (n a b : ℕ) → a ≤ n → bit_and a b ≤ a
bit_and_le_below n zero b h = omega (arith, and_zero b)
  where
    and_zero : (b : ℕ) → bit_and 0 b ≡ 0
    and_zero b = bit_and-bitwise 0 b
bit_and_le_below zero (suc a) b h = absurd (omega arith)
bit_and_le_below (suc n) (suc a) b h =
    omega (arith, and_digit (suc a) b, bit_and_le_below n (suc a / 2) (b / 2) (omega arith))

pub bit_and_le : (a b : ℕ) → bit_and a b ≤ a
bit_and_le a b = bit_and_le_below a a b (omega arith)
