-- ===== src/Utils/Extend.antt =====
-- `bit_mask`, `zero_extend`, `sign_extend` and `bit_extract` of src/utils.h as arithmetic.
use rocdbgapi.Base.{
  ℕ, zero, suc, ◌+◌, ◌-◌, ◌*◌, ◌/◌, ◌%◌, ◌^◌, ◌≤◌, ◌<◌, ◌≡◌, ◌∙◌, ap, ap₂, sym, arith, bit_and,
  bit_xor, if◌then◌else◌, leb, ltb, Bool-cases, inl, inr, refl, true, false, leb→le, ltb→lt,
}
use rocdbgapi.Base.Fields.{bit_and_low, bit_xor_fields, bit_xor_zero, bit_xor_ones}
use rocdbgapi.Base.Word.{u64_mod, u64, sub64, ◌<<<◌}
use rocdbgapi.Base.Power.{pow_pos, pow_mono, pow-add}
use native.Mathlib.Nat.{
  div-add-mod', mod-lt, div-lt_iff_lt-mul, mod-eq_of_lt, pow-suc, div-eq_of_lt-le,
}
use rocdbgapi.Utils.{bit_mask, zero_extend, sign_extend, bit_extract}

-- `bit_mask` for `num_bits` bits.
mask_bits : ℕ → ℕ → ℕ
mask_bits num_bits first =
    u64 ((if leb 64 num_bits then u64_mod - 1 else sub64 (u64 (1 <<< num_bits)) 1) <<< first)

-- `~0` where the bits fill the type, and else the power less one.
low_ones : ℕ → ℕ
low_ones n = if leb 64 n then u64_mod - 1 else sub64 (u64 (1 <<< n)) 1

low_ones-eq : (n : ℕ) → n ≤ 64 → low_ones n ≡ 2 ^ n - 1
unfolding low_ones
low_ones-eq n h = elim (Bool-cases (leb 64 n)) [
  | inl all ↦ rw (all, ap (λ t. 2 ^ t) (at_64 all)) refl
  | inr some_left ↦ rw some_left (omega (arith, pow_pos n, pow_mono n 63 (ground arith)))
]
  where
    at_64 : leb 64 n ≡ true → n ≡ 64
    at_64 e = omega (arith, leb→le 64 n e)

mask_bits-eq : (n first : ℕ) → n + first ≤ 64 → mask_bits n first ≡ 2 ^ (n + first) - 2 ^ first
unfolding mask_bits low_ones
mask_bits-eq n first h =
    ap (λ t. u64 (t * 2 ^ first)) (low_ones-eq n (omega arith))
    ∙ omega (
      arith,
      pow-add n first,
      pow_pos n,
      pow_pos first,
      pow_mono (n + first) 64 h,
      ap (λ t. t * 2 ^ first) one_more,
    )
  where
    one_more : 2 ^ n - 1 + 1 ≡ 2 ^ n
    one_more = omega (arith, pow_pos n)

-- The mask of the bits from `first` to `last`, both included.
pub bit_mask-eq :
    (first last : ℕ) → first ≤ last → last < 64 → bit_mask first last ≡ 2 ^ suc last - 2 ^ first
unfolding bit_mask mask_bits
bit_mask-eq first last le lt =
    mask_bits-eq (last - first + 1) first (omega arith) ∙ ap (λ t. 2 ^ t - 2 ^ first) bits
  where
    bits : last - first + 1 + first ≡ suc last
    bits = omega arith

bit_mask_low : (width : ℕ) → 1 ≤ width → width ≤ 64 → bit_mask 0 (width - 1) ≡ 2 ^ width - 1
bit_mask_low width lo hi =
    bit_mask-eq 0 (width - 1) (omega arith) (omega arith) ∙ ap (λ t. 2 ^ t - 1) bits
  where
    bits : suc (width - 1) ≡ width
    bits = omega arith

-- For a width from 1 to 64, `zero_extend` keeps the low `width` bits: it is the remainder by
-- their power.
pub zero_extend-eq : (x width : ℕ) → 1 ≤ width → width ≤ 64 → zero_extend x width ≡ x % 2 ^ width
unfolding zero_extend
zero_extend-eq x width lo hi = ap (bit_and x) (bit_mask_low width lo hi) ∙ bit_and_low width x

-- For `first` not above `last`, and `last` below 64, `bit_extract` gives the bits from `first`
-- to `last` as a number.
pub bit_extract-eq :
    (x first last : ℕ)
    → first ≤ last
    → last < 64
    → bit_extract x first last ≡ x / 2 ^ first % 2 ^ suc (last - first)
unfolding bit_extract
bit_extract-eq x first last le lt =
    ap (bit_and (x / 2 ^ first)) (bit_mask-eq 0 (last - first) (omega arith) (omega arith))
    ∙ bit_and_low (suc (last - first)) (x / 2 ^ first)

-- The digits of the mask from bit `n` up flip the top digit of `z` and all that are above it.
flip_high :
    (n z : ℕ)
    → n < 64
    → z < u64_mod
    → bit_xor z (u64_mod - 2 ^ n) + z / 2 ^ n * 2 ^ n ≡ u64_mod - 2 ^ n + z % 2 ^ n
flip_high n z h hz = omega (
  arith,
  ap₂ bit_xor (sym (div-add-mod' z (2 ^ n))) mask,
  bit_xor_fields n (z / 2 ^ n) (z % 2 ^ n) (2 ^ (64 - n) - 1) 0 (mod-lt z (pow_pos n)) (pow_pos n),
  bit_xor_zero (z % 2 ^ n),
  ap (λ t. t * 2 ^ n) upper,
  powers,
)
  where
    powers : 2 ^ (64 - n) * 2 ^ n ≡ u64_mod
    powers = sym (pow-add (64 - n) n) ∙ ap (λ t. 2 ^ t) all_bits
      where
        all_bits : 64 - n + n ≡ 64
        all_bits = omega arith

    mask : u64_mod - 2 ^ n ≡ (2 ^ (64 - n) - 1) * 2 ^ n + 0
    mask = omega (arith, powers, ap (λ t. t * 2 ^ n) ones, pow_pos n)
      where
        ones : 2 ^ (64 - n) - 1 + 1 ≡ 2 ^ (64 - n)
        ones = omega (arith, pow_pos (64 - n))

    upper : bit_xor (z / 2 ^ n) (2 ^ (64 - n) - 1) + z / 2 ^ n + 1 ≡ 2 ^ (64 - n)
    upper = omega (arith, bit_xor_ones (64 - n) (z / 2 ^ n) fits, fits)
      where
        fits : z / 2 ^ n < 2 ^ (64 - n)
        fits = (div-lt_iff_lt-mul (pow_pos n)).1 (omega (arith, powers))

flip_sign :
    (n z : ℕ)
    → n < 64
    → z < 2 ^ suc n
    → sub64 (bit_xor z (u64_mod - 2 ^ n)) (u64_mod - 2 ^ n)
      ≡ (if ltb z (2 ^ n) then z else z + (u64_mod - 2 ^ suc n))
flip_sign n z h hz = elim (Bool-cases (ltb z (2 ^ n))) [
  | inl positive ↦ rw positive (
      omega (
        arith,
        flip_high n z h wide,
        below positive,
        mod-eq_of_lt (ltb→lt z (2 ^ n) positive),
        ltb→lt z (2 ^ n) positive,
        pow_mono n 63 (omega arith),
      ))
  | inr negative ↦ rw negative (
      omega (
        arith,
        flip_high n z h wide,
        above negative,
        div-add-mod' z (2 ^ n),
        pow-suc 2 n,
        pow_mono n 63 (omega arith),
        mod-lt z (pow_pos n),
      ))
]
  where
    wide : z < u64_mod
    wide = omega (arith, pow_mono (suc n) 64 h)

    below : ltb z (2 ^ n) ≡ true → z / 2 ^ n * 2 ^ n ≡ 0
    below e =
        omega (arith, ltb→lt z (2 ^ n) e, div-add-mod' z (2 ^ n), mod-eq_of_lt (ltb→lt z (2 ^ n) e))

    above : ltb z (2 ^ n) ≡ false → z / 2 ^ n * 2 ^ n ≡ 2 ^ n
    above e =
        ap (λ t. t * 2 ^ n)
          (div-eq_of_lt-le {k = 1} (2 ^ n) (ground arith) (omega (arith, pow-suc 2 n)))
        ∙ omega arith

-- For a width from 1 to 64, `sign_extend` gives the 64-bit pattern of the signed number in the
-- low `width` bits: the bits themselves where the top one is 0, and what wraps to them less `2 ^
-- width` where it is 1.
pub sign_extend-eq :
    (x width : ℕ)
    → 1 ≤ width
    → width ≤ 64
    → sign_extend x width ≡ (
        if ltb (x % 2 ^ width) (2 ^ (width - 1))
        then x % 2 ^ width
        else x % 2 ^ width + (u64_mod - 2 ^ width))
unfolding sign_extend
sign_extend-eq x zero lo hi = absurd (omega arith)
sign_extend-eq x (suc n) lo hi =
    ap₂ (λ a b. sub64 (bit_xor a b) b) (zero_extend-eq x (suc n) lo hi) mask
    ∙ rw pred_suc (flip_sign n (x % 2 ^ suc n) (omega arith) (mod-lt x (pow_pos (suc n))))
  where
    pred_suc : suc n - 1 ≡ n
    pred_suc = omega arith

    mask : bit_mask (suc n - 1) 63 ≡ u64_mod - 2 ^ n
    mask = ap (λ t. bit_mask t 63) pred_suc ∙ bit_mask-eq n 63 (omega arith) (omega arith)
