-- ===== src/Base/Fields.antt =====
-- Masks and bit fields as arithmetic, at every width.
use rocdbgapi.Base.Bits.{and_digit, or_digit, xor_digit, div-pow-suc, half-lt, zero_of_lt}
use Prim.Native.Nat.{
  ℕ, zero, suc, ◌+◌, ◌-◌, ◌*◌, ◌/◌, ◌%◌, ◌^◌, ◌≤◌, ◌<◌, min, bit_and, bit_or, bit_xor,
}
use mathlib.Core.Path.{◌≡◌, refl, sym, ap, ap₂, ◌∙◌}
use native.Mathlib.Omega.{arith}
use native.Mathlib.Nat.{pow-suc, one-le-pow, mod-eq_of_lt, div-add-mod'}

bit_and_zero_below : (n a : ℕ) → a ≤ n → bit_and a 0 ≡ 0
bit_and_zero_below n zero h = refl
bit_and_zero_below (suc n) (suc a) h =
    omega (arith, and_digit (suc a) 0, bit_and_zero_below n (suc a / 2) (omega arith))
bit_and_zero_below zero (suc a) h = absurd (omega arith)

pub bit_and_zero : (a : ℕ) → bit_and a 0 ≡ 0
bit_and_zero a = bit_and_zero_below a a (omega arith)

-- `x & (2 ^ k - 1)` keeps the low `k` digits.
pub bit_and_low : (k x : ℕ) → bit_and x (2 ^ k - 1) ≡ x % 2 ^ k
bit_and_low zero x = omega (arith, bit_and_zero x)
bit_and_low (suc k) x =
    and_digit x (2 ^ suc k - 1)
    ∙ ap₂ (λ s t. s * 2 + t) (ap (bit_and (x / 2)) mask ∙ bit_and_low k (x / 2)) lowest
    ∙ sym whole
  where
    mask : (2 ^ suc k - 1) / 2 ≡ 2 ^ k - 1
    mask = omega (arith, pow-suc 2 k, one-le-pow k 2)

    lowest : min (x % 2) ((2 ^ suc k - 1) % 2) ≡ x % 2
    lowest = omega (arith, pow-suc 2 k, one-le-pow k 2)

    whole : x % 2 ^ suc k ≡ x / 2 % 2 ^ k * 2 + x % 2
    whole = omega (
      arith,
      div-add-mod' x (2 ^ suc k),
      div-add-mod' (x / 2) (2 ^ k),
      ap (λ t. t * 2 ^ suc k) (div-pow-suc k x),
      ap (λ t. x / 2 / 2 ^ k * t) (pow-suc 2 k),
    )

-- `x & -(2 ^ k)` clears the low `k` digits.
pub bit_and_high : (w k x : ℕ) → k ≤ w → x < 2 ^ w → bit_and x (2 ^ w - 2 ^ k) ≡ x / 2 ^ k * 2 ^ k
bit_and_high w zero x h hx = bit_and_low w x ∙ mod-eq_of_lt hx ∙ omega arith
bit_and_high (suc w) (suc k) x h hx =
    and_digit x (2 ^ suc w - 2 ^ suc k)
    ∙ ap₂ (λ s t. s * 2 + t)
        (ap (bit_and (x / 2)) mask ∙ bit_and_high w k (x / 2) (omega arith) (half-lt w x hx)) lowest
    ∙ whole
  where
    mask : (2 ^ suc w - 2 ^ suc k) / 2 ≡ 2 ^ w - 2 ^ k
    mask = omega (arith, pow-suc 2 k, pow-suc 2 w)

    lowest : min (x % 2) ((2 ^ suc w - 2 ^ suc k) % 2) ≡ 0
    lowest = omega (arith, pow-suc 2 k, pow-suc 2 w)

    whole : x / 2 / 2 ^ k * 2 ^ k * 2 + 0 ≡ x / 2 ^ suc k * 2 ^ suc k
    whole = omega (
      arith,
      ap (λ t. t * 2 ^ suc k) (div-pow-suc k x),
      ap (λ t. x / 2 / 2 ^ k * t) (pow-suc 2 k),
    )
bit_and_high zero (suc k) x h hx = absurd (omega arith)

bit_xor_zero_below : (n a : ℕ) → a ≤ n → bit_xor a 0 ≡ a
bit_xor_zero_below n zero h = refl
bit_xor_zero_below (suc n) (suc a) h =
    omega (arith, xor_digit (suc a) 0, bit_xor_zero_below n (suc a / 2) (omega arith))
bit_xor_zero_below zero (suc a) h = absurd (omega arith)

pub bit_xor_zero : (a : ℕ) → bit_xor a 0 ≡ a
bit_xor_zero a = bit_xor_zero_below a a (omega arith)

bit_or_zero_below : (n a : ℕ) → a ≤ n → bit_or a 0 ≡ a
bit_or_zero_below n zero h = refl
bit_or_zero_below (suc n) (suc a) h =
    omega (arith, or_digit (suc a) 0, bit_or_zero_below n (suc a / 2) (omega arith))
bit_or_zero_below zero (suc a) h = absurd (omega arith)

pub bit_or_zero : (a : ℕ) → bit_or a 0 ≡ a
bit_or_zero a = bit_or_zero_below a a (omega arith)

mul-pow-suc : (q k : ℕ) → q * 2 ^ suc k ≡ 2 * (q * 2 ^ k)
mul-pow-suc q k = omega (arith, ap (λ t. q * t) (pow-suc 2 k))

-- Fields of `k` low digits and of the digits above them are combined apart.
pub bit_xor_fields :
    (k p r q s : ℕ)
    → r < 2 ^ k
    → s < 2 ^ k
    → bit_xor (p * 2 ^ k + r) (q * 2 ^ k + s) ≡ bit_xor p q * 2 ^ k + bit_xor r s
bit_xor_fields zero p r q s hr hs = ground (arith, zero_of_lt hr, zero_of_lt hs, bit_xor_zero 0)
bit_xor_fields (suc k) p r q s hr hs = ground (
  arith,
  xor_digit (p * 2 ^ suc k + r) (q * 2 ^ suc k + s),
  xor_digit r s,
  mul-pow-suc p k,
  mul-pow-suc q k,
  mul-pow-suc (bit_xor p q) k,
  bit_xor_fields k p (r / 2) q (s / 2) (half-lt k r hr) (half-lt k s hs),
)

-- `x | y` is a sum where `y` fits below the digits of `x`.
pub bit_or_field : (k q r : ℕ) → r < 2 ^ k → bit_or (q * 2 ^ k) r ≡ q * 2 ^ k + r
bit_or_field zero q r hr = rw (zero_of_lt hr, bit_or_zero) (omega arith)
bit_or_field (suc k) q r hr =
    ground (
      arith,
      or_digit (q * 2 ^ suc k) r,
      mul-pow-suc q k,
      bit_or_field k q (r / 2) (half-lt k r hr),
    )

-- Exclusive or with all ones is the complement.
pub bit_xor_ones : (k x : ℕ) → x < 2 ^ k → bit_xor x (2 ^ k - 1) ≡ 2 ^ k - 1 - x
bit_xor_ones zero x h = rw (zero_of_lt h) refl
bit_xor_ones (suc k) x h = ground (
  arith,
  xor_digit x (2 ^ suc k - 1),
  pow-suc 2 k,
  one-le-pow k 2,
  half-lt k x h,
  bit_xor_ones k (x / 2) (half-lt k x h),
)
