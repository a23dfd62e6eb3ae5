-- ===== src/Watchpoint/Block.antt =====
-- The masks of `watchpoint_t` in src/watchpoint.cpp as powers of two: which block two addresses share,
-- and what the fields of a mask with the bits from X up to Y are.
use rocdbgapi.Base.{
  ℕ, zero, suc, ◌+◌, ◌-◌, ◌*◌, ◌/◌, ◌%◌, ◌^◌, ◌≤◌, ◌<◌, ◌≡◌, ◌∙◌, ap, ap₂, sym, refl, arith,
  bit_and, bit_or, bit_xor, ℕ_discrete, Bool-cases, inl, inr, ltb, ltb→lt, leb, leb→le, max, true,
  false,
}
use rocdbgapi.Base.Bits.{or_digit, xor_digit, bit_xor-lt}
use rocdbgapi.Base.Division.{div_block}
use rocdbgapi.Base.Fields.{bit_xor_fields, bit_or_field, bit_and_high}
use rocdbgapi.Base.Power.{pow_pos, pow_mono, pow-add}
use rocdbgapi.Base.Word.{u64_mod, not64, neg64}
use rocdbgapi.Utils.{next_power_of_two}
use rocdbgapi.Utils.PowerOfTwo.{next_power_of_two-eq, next_power_of_two_small}
use rocdbgapi.Watchpoint.{stable_bits, field_A, field_C, watched}
use native.Mathlib.Nat.{pow-suc, div-add-mod', mul_assoc, add-zero}

bit_or_self_below : (n x : ℕ) → x ≤ n → bit_or x x ≡ x
bit_or_self_below n zero h = refl
bit_or_self_below zero (suc x) h = absurd (omega arith)
bit_or_self_below (suc n) (suc x) h =
    omega (arith, or_digit (suc x) (suc x), bit_or_self_below n (suc x / 2) (omega arith))

-- A run of ones, together with the number before it, is all ones below its end.
bit_or_pred : (x y : ℕ) → x < y → bit_or (2 ^ y - 2 ^ x) (2 ^ y - 2 ^ x - 1) ≡ 2 ^ y - 1
bit_or_pred x zero h = absurd (omega arith)
bit_or_pred zero (suc y) h =
    or_digit (2 ^ suc y - 1) (2 ^ suc y - 1 - 1)
    ∙ omega (
      arith,
      ap₂ bit_or upper lower,
      bit_or_self_below (2 ^ y - 1) (2 ^ y - 1) (omega arith),
      pow-suc 2 y,
      pow_pos y,
    )
  where
    upper : (2 ^ suc y - 1) / 2 ≡ 2 ^ y - 1
    upper = omega (arith, pow-suc 2 y, pow_pos y)

    lower : (2 ^ suc y - 1 - 1) / 2 ≡ 2 ^ y - 1
    lower = omega (arith, pow-suc 2 y, pow_pos y)
bit_or_pred (suc x) (suc y) h =
    or_digit (2 ^ suc y - 2 ^ suc x) (2 ^ suc y - 2 ^ suc x - 1)
    ∙ omega (
      arith,
      ap₂ bit_or upper lower,
      bit_or_pred x y (omega arith),
      pow-suc 2 y,
      pow-suc 2 x,
      pow_pos x,
      double,
    )
  where
    double : 2 * 2 ^ x ≤ 2 ^ y
    double = omega (arith, pow_mono (suc x) y (omega arith), pow-suc 2 x)

    upper : (2 ^ suc y - 2 ^ suc x) / 2 ≡ 2 ^ y - 2 ^ x
    upper = omega (arith, pow-suc 2 y, pow-suc 2 x)

    lower : (2 ^ suc y - 2 ^ suc x - 1) / 2 ≡ 2 ^ y - 2 ^ x - 1
    lower = omega (arith, pow-suc 2 y, pow-suc 2 x, pow_pos x, double)

-- `2 ^ w - 2 ^ k` is a number of blocks of `2 ^ k`.
pub high_mask : (k w : ℕ) → k ≤ w → 2 ^ w - 2 ^ k ≡ (2 ^ (w - k) - 1) * 2 ^ k
high_mask k w h = omega (arith, pow_pos (w - k), split, sub_one)
  where
    split : 2 ^ w ≡ 2 ^ (w - k) * 2 ^ k
    split = ap (λ t. 2 ^ t) sum ∙ pow-add (w - k) k
      where
        sum : w ≡ w - k + k
        sum = omega arith

    sub_one : (2 ^ (w - k) - 1) * 2 ^ k ≡ 2 ^ (w - k) * 2 ^ k - 2 ^ k
    sub_one = less_block (2 ^ (w - k)) (2 ^ k)
      where
        less_block : (q n : ℕ) → (q - 1) * n ≡ q * n - n
        less_block zero n = omega arith
        less_block (suc q) n = omega (arith, ap (λ t. t * n) (pred q))
          where
            pred : (q : ℕ) → suc q - 1 ≡ q
            pred q = omega arith

-- The fields of a mask whose bits from `x` up to `y` can be programmed.
pub field_A-eq : (x y : ℕ) → x < y → y < 64 → field_A (2 ^ y - 2 ^ x) ≡ u64_mod - 2 ^ y
field_A-eq x y h top = omega (
  arith,
  ap not64 (ap (bit_or (2 ^ y - 2 ^ x)) pred ∙ bit_or_pred x y h),
  pow_pos y,
  pow_mono y 64 (omega arith),
)
  where
    pred : (2 ^ y - 2 ^ x + (u64_mod - 1)) % u64_mod ≡ 2 ^ y - 2 ^ x - 1
    pred = omega (arith, pow_mono y 64 (omega arith), pow_mono (suc x) y h, pow-suc 2 x, pow_pos x)

pub field_C-eq : (x y : ℕ) → x < y → y < 64 → field_C (2 ^ y - 2 ^ x) ≡ 2 ^ x - 1
field_C-eq x y h top = omega (
  arith,
  ap (λ a. not64 (bit_or a (2 ^ y - 2 ^ x))) (field_A-eq x y h top ∙ high_mask y 64 (omega arith)),
  bit_or_field y (2 ^ (64 - y) - 1) (2 ^ y - 2 ^ x) (omega (arith, pow_pos x, pow_pos y)),
  high_mask y 64 (omega arith),
  pow_mono y 64 (omega arith),
  pow_mono x y (omega arith),
  pow_pos x,
)

xor_zero : (n a b : ℕ) → a + b ≤ n → bit_xor a b ≡ 0 → a ≡ b
xor_zero zero a b h e = omega arith
xor_zero (suc n) a b h e = elim (ℕ_discrete (a + b) 0) [
  | yes z ↦ omega arith
  | no nz ↦ omega (
    arith,
    xor_digit a b,
    xor_zero n (a / 2) (b / 2) (omega arith) (omega (arith, xor_digit a b)),
  )
]

xor_self : (n a : ℕ) → a ≤ n → bit_xor a a ≡ 0
xor_self n zero h = refl
xor_self zero (suc a) h = absurd (omega arith)
xor_self (suc n) (suc a) h =
    omega (arith, xor_digit (suc a) (suc a), xor_self n (suc a / 2) (omega arith))

xor-div : (k a b : ℕ) → bit_xor a b / 2 ^ k ≡ bit_xor (a / 2 ^ k) (b / 2 ^ k)
xor-div k a b =
    ap (λ t. t / 2 ^ k) (ap₂ bit_xor (whole a) (whole b) ∙ fields)
    ∙ div_block (bit_xor (a / 2 ^ k) (b / 2 ^ k)) (2 ^ k) (bit_xor (a % 2 ^ k) (b % 2 ^ k))
        (bit_xor-lt k _ _ (low a) (low b))
  where
    low : (x : ℕ) → x % 2 ^ k < 2 ^ k
    low x = omega (arith, pow_pos k)

    whole : (x : ℕ) → x ≡ x / 2 ^ k * 2 ^ k + x % 2 ^ k
    whole x = sym (div-add-mod' x (2 ^ k))

    fields :
        bit_xor (a / 2 ^ k * 2 ^ k + a % 2 ^ k) (b / 2 ^ k * 2 ^ k + b % 2 ^ k)
        ≡ bit_xor (a / 2 ^ k) (b / 2 ^ k) * 2 ^ k + bit_xor (a % 2 ^ k) (b % 2 ^ k)
    fields = bit_xor_fields k (a / 2 ^ k) (a % 2 ^ k) (b / 2 ^ k) (b % 2 ^ k) (low a) (low b)

div_small : (n d : ℕ) → d < n → d / n ≡ 0
div_small n d h = ap (λ t. t / n) padded ∙ div_block 0 n d h
  where
    padded : d ≡ 0 * n + d
    padded = omega arith

-- Two addresses differ by less than `2 ^ k` in `^` exactly if one block of `2 ^ k` has both.
pub same_of_xor : (k a b : ℕ) → bit_xor a b < 2 ^ k → a / 2 ^ k ≡ b / 2 ^ k
same_of_xor k a b h =
    xor_zero (a / 2 ^ k + b / 2 ^ k) (a / 2 ^ k) (b / 2 ^ k) (omega arith)
      (sym (xor-div k a b) ∙ div_small (2 ^ k) (bit_xor a b) h)

pub xor_of_same : (k a b : ℕ) → a / 2 ^ k ≡ b / 2 ^ k → bit_xor a b < 2 ^ k
xor_of_same k a b e =
    omega
      (arith, zero_div, div-add-mod' (bit_xor a b) (2 ^ k), ap (λ t. t * 2 ^ k) zero_div, pow_pos k)
  where
    zero_div : bit_xor a b / 2 ^ k ≡ 0
    zero_div =
        xor-div k a b
        ∙ ap (bit_xor (a / 2 ^ k)) (sym e)
        ∙ xor_self (a / 2 ^ k) (a / 2 ^ k) (omega arith)

-- The least power of two above `d`.
pub record IsLeastPower (d k : ℕ) : Type 0 where
  pub above : d < 2 ^ k
  pub least : (j : ℕ) → d < 2 ^ j → k ≤ j

pub least_power : (d n : ℕ) → d < 2 ^ n → (k : ℕ) × IsLeastPower d k
least_power d zero h = (0, record { above = h; least = λ j lt. omega arith })
least_power d (suc n) h = elim (Bool-cases (ltb d (2 ^ n))) [
  | inl lt ↦ least_power d n (ltb→lt d (2 ^ n) lt)
  | inr ge ↦ (
    suc n,
    record {
      above = h;
      least = λ j lt. elim (Bool-cases (ltb j (suc n))) [
        | inl small ↦ absurd (ground (arith, pow_mono j n (lt_pred j small)))
        | inr large ↦ ground arith
      ];
    },
  )
]
  where
    lt_pred : (j : ℕ) → ltb j (suc n) ≡ true → j ≤ n
    lt_pred j small = omega (arith, ltb→lt j (suc n) small)

-- The digits that two addresses share are those above the least power of two that tells them apart.
pub stable_bits-eq :
    (k a b : ℕ)
    → k ≤ 64
    → bit_xor a b + 1 < u64_mod
    → IsLeastPower (bit_xor a b) k
    → stable_bits a b ≡ u64_mod - 2 ^ k
unfolding stable_bits
stable_bits-eq zero a b hk small p =
    ap (λ d. neg64 (next_power_of_two ((d + 1) % u64_mod))) zero_xor
    ∙ ap neg64 next_power_of_two_small.1
  where
    zero_xor : bit_xor a b ≡ 0
    zero_xor = omega (arith, p.above)
stable_bits-eq (suc k) a b hk small p =
    ap (λ x. neg64 (next_power_of_two x)) (mod_small)
    ∙ ap neg64 (
        next_power_of_two-eq k (bit_xor a b + 1) (omega arith) above_half (omega (arith, p.above))
          small)
    ∙ omega (arith, pow_pos (suc k), pow_mono (suc k) 64 hk)
  where
    mod_small : (bit_xor a b + 1) % u64_mod ≡ bit_xor a b + 1
    mod_small = omega arith

    above_half : 2 ^ k < bit_xor a b + 1
    above_half = elim (Bool-cases (ltb (bit_xor a b) (2 ^ k))) [
      | inl lt ↦ absurd (omega (arith, p.least k (ltb→lt _ _ lt)))
      | inr ge ↦ ground arith
    ]

-- The mask without the digits below `x`, which cannot be programmed.
cleared_mask :
    (k x : ℕ) → k ≤ 64 → x ≤ 64 → (u64_mod - 2 ^ k) / 2 ^ x * 2 ^ x ≡ u64_mod - 2 ^ (max k x)
cleared_mask k x hk hx = elim (Bool-cases (leb k x)) [
  | inl le ↦
      ap (λ t. t / 2 ^ x * 2 ^ x) (split_low (leb→le k x le))
      ∙ ap (λ t. t * 2 ^ x)
          (div_block (2 ^ (64 - x) - 1) (2 ^ x) (2 ^ x - 2 ^ k)
            (omega (arith, pow_pos k, pow_pos x)))
      ∙ sym (high_mask x 64 hx)
      ∙ ap (λ t. u64_mod - 2 ^ t) (larger (leb→le k x le))
  | inr gt ↦
      ap (λ t. t / 2 ^ x * 2 ^ x) (split_high (above gt))
      ∙ ap (λ t. t * 2 ^ x)
          (div_block ((2 ^ (64 - k) - 1) * 2 ^ (k - x)) (2 ^ x) 0 (omega (arith, pow_pos x)))
      ∙ sym (omega (arith, split_high (above gt)))
      ∙ ap (λ t. u64_mod - 2 ^ t) (larger_k (above gt))
]
  where
    larger : k ≤ x → x ≡ max k x
    larger le = omega arith

    larger_k : x ≤ k → k ≡ max k x
    larger_k ge = omega arith

    above : leb k x ≡ false → x ≤ k
    above gt = ground arith

    split_low : k ≤ x → u64_mod - 2 ^ k ≡ (2 ^ (64 - x) - 1) * 2 ^ x + (2 ^ x - 2 ^ k)
    split_low le = omega (arith, high_mask x 64 hx, pow_mono k x le, pow_mono x 64 hx)

    split_high : x ≤ k → u64_mod - 2 ^ k ≡ (2 ^ (64 - k) - 1) * 2 ^ (k - x) * 2 ^ x + 0
    split_high ge =
        high_mask k 64 hk
        ∙ ap (λ t. (2 ^ (64 - k) - 1) * t) power
        ∙ sym (mul_assoc (2 ^ (64 - k) - 1) (2 ^ (k - x)) (2 ^ x))
        ∙ sym (add-zero _)
      where
        power : 2 ^ k ≡ 2 ^ (k - x) * 2 ^ x
        power = ap (λ t. 2 ^ t) sum ∙ pow-add (k - x) x
          where
            sum : k ≡ k - x + x
            sum = omega arith

-- What is watched with the digits from `k` up stable, and those from `x` up programmable.
pub watched-eq :
    (x y k address : ℕ)
    → x < y
    → y < 64
    → k ≤ y
    → address < u64_mod
    → watched address (2 ^ y - 2 ^ x) (u64_mod - 2 ^ k)
      ≡ (address / 2 ^ (max k x) * 2 ^ (max k x), 2 ^ (max k x))
unfolding watched
watched-eq x y k address h top hk ha = ap₂ (λ a s. (a, s)) block size
  where
    j_small : 2 ^ (max k x) < u64_mod
    j_small =
        omega
          (arith, pow_mono (suc (max k x)) 64 (omega arith), pow-suc 2 (max k x), pow_pos (max k x))

    size : neg64 (bit_and (u64_mod - 2 ^ k) (not64 (field_C (2 ^ y - 2 ^ x)))) ≡ 2 ^ (max k x)
    size =
        ap neg64 (
          ap (bit_and (u64_mod - 2 ^ k)) mask
          ∙ bit_and_high 64 x (u64_mod - 2 ^ k) (omega arith) (omega (arith, pow_pos k))
          ∙ cleared_mask k x (omega arith) (omega arith))
        ∙ omega (arith, j_small, pow_pos (max k x))
      where
        mask : not64 (field_C (2 ^ y - 2 ^ x)) ≡ u64_mod - 2 ^ x
        mask = omega (arith, field_C-eq x y h top, pow_pos x, pow_mono x 64 (omega arith))

    block :
        bit_and address
          (neg64 (neg64 (bit_and (u64_mod - 2 ^ k) (not64 (field_C (2 ^ y - 2 ^ x))))))
        ≡ address / 2 ^ (max k x) * 2 ^ (max k x)
    block =
        ap (bit_and address) (ap neg64 size ∙ omega (arith, j_small, pow_pos (max k x)))
        ∙ bit_and_high 64 (max k x) address (omega arith) ha
