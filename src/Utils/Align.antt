-- ===== src/Utils/Align.antt =====
-- `align_down`, `align_up` and `is_aligned` of src/utils.h against multiples of the alignment.
use rocdbgapi.Base.{
  ℕ, ◌+◌, ◌-◌, ◌*◌, ◌/◌, ◌%◌, ◌^◌, ◌≤◌, ◌<◌, ◌≡◌, ◌↔◌, ◌∙◌, ap, true, arith, bit_and, ==_iff,
}
use rocdbgapi.Base.Fields.{bit_and_high}
use rocdbgapi.Base.Power.{pow_pos, pow_mono}
use rocdbgapi.Base.Word.{u64_mod, neg64, sub64, add64}
use rocdbgapi.Utils.{align_down, align_up, is_aligned}
use native.Mathlib.Nat.{div-add-mod', mod-lt, mul-mod_left, div-eq_of_lt, zero-mul}

pow_bounds : (k : ℕ) → k < 64 → (1 ≤ 2 ^ k) × (2 ^ k ≤ 2 ^ 63)
pow_bounds k h = (pow_pos k, pow_mono k 63 (omega arith))

neg64_power : (k : ℕ) → k < 64 → neg64 (2 ^ k) ≡ u64_mod - 2 ^ k
neg64_power k h = omega (arith, pow_bounds k h)

pub align_down-eq : (x k : ℕ) → k < 64 → x < u64_mod → align_down x (2 ^ k) ≡ x / 2 ^ k * 2 ^ k
unfolding align_down
align_down-eq x k h hx = ap (bit_and x) (neg64_power k h) ∙ bit_and_high 64 k x (omega arith) hx

-- At an alignment `2 ^ k` below `2 ^ 64`, `align_down` gives the largest multiple of the
-- alignment that is not above its 64-bit argument.
pub align_down_bounds :
    (x k : ℕ)
    → k < 64
    → x < u64_mod
    → (align_down x (2 ^ k) % 2 ^ k ≡ 0)
      × (align_down x (2 ^ k) ≤ x)
      × (x < align_down x (2 ^ k) + 2 ^ k)
align_down_bounds x k h hx = rw (align_down-eq x k h hx) (
  mul-mod_left (x / 2 ^ k) (2 ^ k),
  omega (arith, div-add-mod' x (2 ^ k)),
  omega (arith, div-add-mod' x (2 ^ k), mod-lt x (pow_bounds k h).0),
)

-- Where the sum does not wrap, rounding up is rounding down the last byte of the block from `x`.
align_up-eq :
    (x k : ℕ)
    → k < 64
    → x + 2 ^ k ≤ u64_mod
    → align_up x (2 ^ k) ≡ align_down (x + 2 ^ k - 1) (2 ^ k)
unfolding align_up align_down
align_up-eq x k h hx = ap (λ t. bit_and t (neg64 (2 ^ k))) (omega (arith, pow_bounds k h))

-- At an alignment `2 ^ k` below `2 ^ 64`, `align_up` gives the least multiple of the alignment
-- that is not below its argument, where the argument and the alignment add up to `2 ^ 64` at
-- most.
pub align_up_bounds :
    (x k : ℕ)
    → k < 64
    → x + 2 ^ k ≤ u64_mod
    → (align_up x (2 ^ k) % 2 ^ k ≡ 0) × (x ≤ align_up x (2 ^ k)) × (align_up x (2 ^ k) < x + 2 ^ k)
align_up_bounds x k h hx =
    let small : x + 2 ^ k - 1 < u64_mod = omega (arith, pow_bounds k h) in
    let down = align_down_bounds (x + 2 ^ k - 1) k h small in
    rw (align_up-eq x k h hx)
      (down.0, omega (arith, down, pow_bounds k h), omega (arith, down, pow_bounds k h))

-- Where a 64-bit argument and an alignment `2 ^ k` below `2 ^ 64` add up to more than `2 ^ 64`,
-- `align_up` gives 0.
pub align_up_wraps : (x k : ℕ) → k < 64 → x < u64_mod → u64_mod < x + 2 ^ k → align_up x (2 ^ k) ≡ 0
unfolding align_up align_down
align_up_wraps x k h hx over =
    ap (λ t. bit_and t (neg64 (2 ^ k))) sum
    ∙ align_down-eq (x + 2 ^ k - 1 - u64_mod) k h (omega (arith, pow_bounds k h))
    ∙ ap (λ t. t * 2 ^ k) (div-eq_of_lt (omega (arith, pow_bounds k h)))
    ∙ zero-mul (2 ^ k)
  where
    sum : sub64 (add64 x (2 ^ k)) 1 ≡ x + 2 ^ k - 1 - u64_mod
    sum = omega (arith, pow_bounds k h)

-- At an alignment `2 ^ k` below `2 ^ 64`, `is_aligned` holds of a 64-bit number exactly if it is
-- a multiple of the alignment.
pub is_aligned_iff :
    (x k : ℕ) → k < 64 → x < u64_mod → (is_aligned x (2 ^ k) ≡ true) ↔ (x % 2 ^ k ≡ 0)
unfolding is_aligned
is_aligned_iff x k h hx = (forth, back)
  where
    down : align_down x (2 ^ k) ≡ x / 2 ^ k * 2 ^ k
    down = align_down-eq x k h hx

    forth : is_aligned x (2 ^ k) ≡ true → x % 2 ^ k ≡ 0
    forth e = omega (arith, (==_iff x (align_down x (2 ^ k))).0 e, down, div-add-mod' x (2 ^ k))

    back : x % 2 ^ k ≡ 0 → is_aligned x (2 ^ k) ≡ true
    back e = (==_iff x (align_down x (2 ^ k))).1 (omega (arith, e, down, div-add-mod' x (2 ^ k)))
