-- ===== src/Base/Disjoint.antt =====
-- A number with digits above a place only, and one with digits below it only, and a mask of the
-- upper digits.
use Prim.Native.Nat.{ℕ, zero, suc, ◌+◌, ◌-◌, ◌*◌, ◌/◌, ◌%◌, ◌^◌, ◌≤◌, ◌<◌, min, bit_and, bit_or}
use mathlib.Core.Path.{◌≡◌, sym, ap, ◌∙◌}
use native.Mathlib.Omega.{arith}
use native.Mathlib.Decide.{dec_lt}
use native.Mathlib.Nat.{pow-suc, div-eq_of_lt, div-add-mod', mod-lt, zero-div}
use rocdbgapi.Base.Bits.{bit, bit-suc, bit-bit_and, bit-bit_or, bit_or-lt, bit_and_le, eq_of_bits}
use rocdbgapi.Base.Fields.{bit_or_field, bit_and_low}
use rocdbgapi.Base.Division.{mod_block}
use rocdbgapi.Base.Power.{pow_pos, pow_mono}

pub bit-ones : (s i : ℕ) → i < s → bit i (2 ^ s - 1) ≡ 1
bit-ones zero i h = absurd (omega arith)
bit-ones (suc s) zero h = omega (arith, pow-suc 2 s, pow_pos s)
bit-ones (suc s) (suc i) h =
    bit-suc i (2 ^ suc s - 1) ∙ ap (bit i) halved ∙ bit-ones s i (omega arith)
  where
    halved : (2 ^ suc s - 1) / 2 ≡ 2 ^ s - 1
    halved = omega (arith, pow-suc 2 s, pow_pos s)

pub bit-above : (s i x : ℕ) → x < 2 ^ s → s ≤ i → bit i x ≡ 0
bit-above s i x h le = ap (λ t. t % 2) (div-eq_of_lt (omega (arith, pow_mono s i le)))

module _ (s base mask x : ℕ) (in_mask : bit_and base mask ≡ base)
    (no_overlap : bit_and (2 ^ s - 1) mask ≡ 0) (below : x < 2 ^ s) where
  mask_low : (i : ℕ) → i < s → bit i mask ≡ 0
  mask_low i h =
      omega
        (arith, bit-bit_and i (2 ^ s - 1) mask, ap (bit i) no_overlap, zero_bit i, bit-ones s i h)
    where
      zero_bit : (i : ℕ) → bit i 0 ≡ 0
      zero_bit i = ap (λ t. t % 2) (zero-div (2 ^ i))

  base_bit : (i : ℕ) → bit i base ≡ min (bit i base) (bit i mask)
  base_bit i = sym (ap (bit i) in_mask) ∙ bit-bit_and i base mask

  -- The base has no digit below the place.
  base_multiple : base % 2 ^ s ≡ 0
  base_multiple =
      sym (bit_and_low s base)
      ∙ eq_of_bits s (bit_and base (2 ^ s - 1)) 0 (rw bit_and_low (mod-lt base (pow_pos s)))
          (pow_pos s)
          λ i h. omega (
            arith,
            bit-bit_and i base (2 ^ s - 1),
            base_bit i,
            mask_low i h,
            ap (λ t. t % 2) (zero-div (2 ^ i)),
          )

  -- So `|` puts the two side by side.
  pub or_is_sum : bit_or base x ≡ base + x
  or_is_sum =
      ap (λ t. bit_or t x) split
      ∙ bit_or_field s (base / 2 ^ s) x below
      ∙ ap (λ t. t + x) (sym split)
    where
      split : base ≡ base / 2 ^ s * 2 ^ s
      split = omega (arith, base_multiple, div-add-mod' base (2 ^ s))

  -- And the mask gets the upper one back.
  pub or_in_mask : (w : ℕ) → s ≤ w → base < 2 ^ w → bit_and (bit_or base x) mask ≡ base
  or_in_mask w le fits =
      eq_of_bits w (bit_and (bit_or base x) mask) base
        (omega (
          arith,
          bit_and_le (bit_or base x) mask,
          bit_or-lt w base x fits (omega (arith, pow_mono s w le)),
        ))
        fits
        λ i h. elim (dec_lt i s) [
          | yes low ↦ omega (arith, bit-bit_and i (bit_or base x) mask, mask_low i low, base_bit i)
          | no high ↦ omega (
            arith,
            bit-bit_and i (bit_or base x) mask,
            bit-bit_or i base x,
            bit-above s i x below (omega arith),
            base_bit i,
          )
        ]

  -- The lower digits are those of the other one.
  pub or_below : bit_or base x % 2 ^ s ≡ x
  or_below = rw or_is_sum (omega (arith, split_sum))
    where
      split_sum : (base + x) % 2 ^ s ≡ x
      split_sum =
          ap (λ t. (t + x) % 2 ^ s) (omega (arith, base_multiple, div-add-mod' base (2 ^ s)))
          ∙ mod_block (base / 2 ^ s) (2 ^ s) x below
