-- ===== src/Base/Flags.antt =====
-- A flag of a register: one digit of a 32-bit word, tested, set and cleared with masks.
use Prim.Native.Nat.{ℕ, zero, suc, ◌+◌, ◌-◌, ◌*◌, ◌/◌, ◌%◌, ◌^◌, ◌<◌, min, bit_and, bit_or}
use mathlib.Core.Path.{◌≡◌, ap, ◌∙◌}
use native.Mathlib.Omega.{arith}
use native.Mathlib.Nat.{pow-suc, mod-lt}
use rocdbgapi.Base.Tests.{◌==◌}
use mathlib.Core.Bool.{Bool, true, false, not, ◌&&◌, ◌||◌}
use rocdbgapi.Base.Bits.{bit, div-pow-suc, and_digit, bit-bit_and, bit-bit_or, bit-bit_xor}
use rocdbgapi.Base.Power.{pow_pos}
use rocdbgapi.Base.Fields.{bit_and_zero, bit_xor_ones}
use rocdbgapi.Base.Disjoint.{bit-ones}

abbrev pub has : (x mask : ℕ) → Bool
has x mask = not (bit_and x mask == 0)

abbrev pub not32 : ℕ → ℕ
not32 x = 2 ^ 32 - 1 - x

bit_and_power : (k x : ℕ) → bit_and x (2 ^ k) ≡ bit k x * 2 ^ k
bit_and_power zero x = omega (arith, and_digit x 1, bit_and_zero (x / 2))
bit_and_power (suc k) x =
    and_digit x (2 ^ suc k)
    ∙ ap (λ t. t * 2 + min (x % 2) (2 ^ suc k % 2))
        (ap (bit_and (x / 2)) halved ∙ bit_and_power k (x / 2))
    ∙ whole
  where
    halved : 2 ^ suc k / 2 ≡ 2 ^ k
    halved = omega (arith, pow-suc 2 k)

    whole : bit k (x / 2) * 2 ^ k * 2 + min (x % 2) (2 ^ suc k % 2) ≡ bit (suc k) x * 2 ^ suc k
    whole = omega (
      arith,
      pow-suc 2 k,
      ap (λ t. t % 2 * 2 ^ suc k) (div-pow-suc k x),
      ap (λ t. bit k (x / 2) * t) (pow-suc 2 k),
    )

has-bit : (k x : ℕ) → has x (2 ^ k) ≡ (bit k x == 1)
has-bit k x = rw bit_and_power (digit (bit k x) (mod-lt (x / 2 ^ k) (omega arith)))
  where
    digit : (d : ℕ) → d < 2 → not (d * 2 ^ k == 0) ≡ (d == 1)
    digit zero h = ground arith
    digit (suc zero) h = ground (arith, pow_pos k)
    digit (suc (suc d)) h = absurd (omega arith)

pub has-bit_or : (k x y : ℕ) → has (bit_or x y) (2 ^ k) ≡ (has x (2 ^ k) || has y (2 ^ k))
has-bit_or k x y =
    ground (arith, has-bit k (bit_or x y), has-bit k x, has-bit k y, bit-bit_or k x y)

pub has-bit_and : (k x y : ℕ) → has (bit_and x y) (2 ^ k) ≡ (has x (2 ^ k) && has y (2 ^ k))
has-bit_and k x y =
    ground (arith, has-bit k (bit_and x y), has-bit k x, has-bit k y, bit-bit_and k x y)

pub has-not32 : (k m : ℕ) → k < 32 → m < 2 ^ 32 → has (not32 m) (2 ^ k) ≡ not (has m (2 ^ k))
has-not32 k m h small = ground (arith, has-bit k (not32 m), has-bit k m, flipped)
  where
    flipped : bit k (not32 m) ≡ (bit k m + 1) % 2
    flipped =
        omega (
          arith,
          ap (bit k) (bit_xor_ones 32 m small),
          bit-bit_xor k m (2 ^ 32 - 1),
          bit-ones 32 k h,
        )

-- A flag that a mask sets, one that it clears, and one that it leaves.
pub flag_set : (k x m : ℕ) → has m (2 ^ k) ≡ true → has (bit_or x m) (2 ^ k) ≡ true
flag_set k x m e = ground (arith, has-bit_or k x m)

pub flag_left : (k x m : ℕ) → has m (2 ^ k) ≡ false → has (bit_or x m) (2 ^ k) ≡ has x (2 ^ k)
flag_left k x m e = ground (arith, has-bit_or k x m)

pub flag_cleared :
    (k x m : ℕ)
    → k < 32
    → m < 2 ^ 32
    → has m (2 ^ k) ≡ true
    → has (bit_and x (not32 m)) (2 ^ k) ≡ false
flag_cleared k x m h small e = ground (arith, has-bit_and k x (not32 m), has-not32 k m h small)

pub flag_kept :
    (k x m : ℕ)
    → k < 32
    → m < 2 ^ 32
    → has m (2 ^ k) ≡ false
    → has (bit_and x (not32 m)) (2 ^ k) ≡ has x (2 ^ k)
flag_kept k x m h small e = ground (arith, has-bit_and k x (not32 m), has-not32 k m h small)
