-- ===== src/Utils/PowerOfTwo.antt =====
-- `next_power_of_two` and `is_power_of_two` of src/utils.h against powers of two.
use rocdbgapi.Base.{
  ℕ, zero, suc, ◌+◌, ◌-◌, ◌*◌, ◌/◌, ◌%◌, ◌^◌, ◌≤◌, ◌<◌, ◌≡◌, ◌↔◌, ◌∙◌, ap, sym, refl, arith,
  ℕ_discrete, bit_and, Bool-cases, inl, inr, true, false, ltb, ltb→lt, if◌then◌else◌, ◌==◌,
}
use rocdbgapi.Base.Bits.{bit, bit-bit_or, bit_or-lt, eq_of_ones, and_digit}
use rocdbgapi.Base.Power.{pow_pos, pow-add}
use rocdbgapi.Base.Word.{u64, u64_mod, add64, sub64}
use rocdbgapi.Utils.{smear, next_power_of_two, is_power_of_two}
use native.Mathlib.Nat.{div-div-eq-div-mul, div-le_self, pow-suc, div-eq_of_lt-le}

bit-shift : (i s v : ℕ) → bit i (v / 2 ^ s) ≡ bit (i + s) v
bit-shift i s v =
    ap (λ t. t % 2)
      (div-div-eq-div-mul v (2 ^ s) (2 ^ i)
        ∙ ap (λ t. v / t) (sym (pow-add s i) ∙ ap (λ t. 2 ^ t) comm))
  where
    comm : s + i ≡ i + s
    comm = omega arith

bit-lt : (i v : ℕ) → bit i v < 2
bit-lt i v = omega arith

-- The top `s` of the `n + 1` digits of `v` are ones.
record Smeared (n s v : ℕ) : Type 0 where
  fits : v < 2 ^ suc n
  ones : (i : ℕ) → i ≤ n → n < i + s → bit i v ≡ 1

-- One `v |= v >> s` doubles the run of ones.
smear-Smeared : (n s v : ℕ) → Smeared n s v → Smeared n (s + s) (smear s v)
unfolding smear
smear-Smeared n s v h = record {
  fits = bit_or-lt (suc n) v (v / 2 ^ s) h.fits (omega (arith, div-le_self v (2 ^ s), h.fits));
  ones = λ i le far. elim (Bool-cases (ltb n (i + s))) [
    | inl near ↦ omega (
      arith,
      bit-bit_or i v (v / 2 ^ s),
      h.ones i le (ltb→lt n (i + s) near),
      bit-lt i (v / 2 ^ s),
    )
    | inr past ↦ omega (
      arith,
      bit-bit_or i v (v / 2 ^ s),
      bit-shift i s v,
      h.ones (i + s) (ground arith) (omega arith),
      bit-lt i v,
    )
  ];
}

top_bit : (n v : ℕ) → 2 ^ n ≤ v → v < 2 ^ suc n → Smeared n 1 v
top_bit n v lo hi = record {
  fits = hi;
  ones = λ i le far. rw (is_n i le far) (
      ap (λ t. t % 2) (div-eq_of_lt-le {k = 1} (2 ^ n) (omega arith) (omega (arith, pow-suc 2 n))));
}
  where
    is_n : (i : ℕ) → i ≤ n → n < i + 1 → i ≡ n
    is_n i le far = omega arith

-- After the six steps all digits are ones.
smear_all :
    (n v : ℕ)
    → n < 64
    → 2 ^ n ≤ v
    → v < 2 ^ suc n
    → smear 32 (smear 16 (smear 8 (smear 4 (smear 2 (smear 1 v))))) + 1 ≡ 2 ^ suc n
smear_all n v small lo hi =
    eq_of_ones (suc n) _ done.fits λ i lt. done.ones i (omega arith) (omega arith)
  where
    done : Smeared n 64 (smear 32 (smear 16 (smear 8 (smear 4 (smear 2 (smear 1 v))))))
    done = smear-Smeared n 32 _ (
        smear-Smeared n 16 _ (
          smear-Smeared n 8 _
            (smear-Smeared n 4 _ (smear-Smeared n 2 _ (smear-Smeared n 1 v (top_bit n v lo hi))))))

-- At a 64-bit number above `2 ^ k` and not above `2 ^ (k + 1)`, `next_power_of_two` gives that
-- second power, and 0 where it is `2 ^ 64`.
pub next_power_of_two-eq :
    (k x : ℕ)
    → k < 64
    → 2 ^ k < x
    → x ≤ 2 ^ suc k
    → x < u64_mod
    → next_power_of_two x ≡ u64 (2 ^ suc k)
unfolding next_power_of_two
next_power_of_two-eq k x hk lo hi hx =
    ap (λ v. add64 (smear 32 (smear 16 (smear 8 (smear 4 (smear 2 (smear 1 v)))))) 1) less_one
    ∙ ap u64 (smear_all k (x - 1) hk (omega arith) (omega arith))
  where
    less_one : sub64 (add64 x (if x == 0 then 1 else 0)) 1 ≡ x - 1
    less_one = rw nonzero (omega (arith, pow_pos k))
      where
        nonzero : (x == 0) ≡ false
        nonzero = ground (arith, pow_pos k)

-- At 0 and 1 it gives 1.
pub next_power_of_two_small : (next_power_of_two 0 ≡ 1) × (next_power_of_two 1 ≡ 1)
unfolding next_power_of_two smear
next_power_of_two_small = (refl, refl)

bit_and_self_below : (n x : ℕ) → x ≤ n → bit_and x x ≡ x
bit_and_self_below n zero h = refl
bit_and_self_below zero (suc x) h = absurd (omega arith)
bit_and_self_below (suc n) (suc x) h =
    omega (arith, and_digit (suc x) (suc x), bit_and_self_below n (suc x / 2) (omega arith))

-- An odd number keeps its upper digits in `x & (x - 1)`, and an even one hands on to its half.
and_pred_odd : (y : ℕ) → y % 2 ≡ 0 → bit_and (suc y) y ≡ y
and_pred_odd y even =
    ground (arith, and_digit (suc y) y, bit_and_self_below (y / 2) (y / 2) (omega arith), halves)
  where
    halves : suc y / 2 ≡ y / 2
    halves = omega arith

and_pred_even : (y : ℕ) → y % 2 ≡ 1 → bit_and (suc y) y ≡ 2 * bit_and (suc (y / 2)) (y / 2)
and_pred_even y odd = ground (arith, and_digit (suc y) y, halves)
  where
    halves : suc y / 2 ≡ suc (y / 2)
    halves = omega arith

-- `x & (x - 1)` is 0 only at a power of two, for `x = y + 1`.
power_of_and : (n y : ℕ) → y ≤ n → bit_and (suc y) y ≡ 0 → (k : ℕ) × (suc y ≡ 2 ^ k)
power_of_and zero y h e = (0, omega arith)
power_of_and (suc n) y h e = elim (ℕ_discrete (y % 2) 0) [
  | yes even ↦ (0, omega (arith, and_pred_odd y even))
  | no odd ↦
      let (k, p) =
        power_of_and n (y / 2) (omega arith) (omega (arith, and_pred_even y (omega arith))) in
      (suc k, omega (arith, pow-suc 2 k))
]

and_of_power : (k y : ℕ) → suc y ≡ 2 ^ k → bit_and (suc y) y ≡ 0
and_of_power zero y e = rw zero_y refl
  where
    zero_y : y ≡ 0
    zero_y = omega arith
and_of_power (suc k) y e = omega (
  arith,
  and_pred_even y (omega (arith, pow-suc 2 k, pow_pos k)),
  and_of_power k (y / 2) (omega (arith, pow-suc 2 k, pow_pos k)),
)

-- `is_power_of_two` holds of a 64-bit number exactly if it is a power of two.
pub is_power_of_two_iff :
    (x : ℕ) → x < u64_mod → (is_power_of_two x ≡ true) ↔ ((k : ℕ) × (x ≡ 2 ^ k))
unfolding is_power_of_two
is_power_of_two_iff zero h = (λ e. cc, λ p. absurd (omega (arith, p.1, pow_pos p.0)))
is_power_of_two_iff (suc y) h = (
  λ e. power_of_and y y (omega arith) (rw pred at (test_zero e)),
  λ p. ground (arith, and_of_power p.0 y p.1, pred),
)
  where
    pred : sub64 (suc y) 1 ≡ y
    pred = omega arith

    test_zero : is_power_of_two (suc y) ≡ true → bit_and (suc y) (sub64 (suc y) 1) ≡ 0
    test_zero e = ground arith
