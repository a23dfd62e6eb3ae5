-- ===== src/Base/Shift.antt =====
-- Bit operations on shifted words.
use Prim.Native.Nat.{ℕ, zero, suc, ◌/◌, ◌^◌, ◌<◌, bit_and, bit_or}
use mathlib.Core.Path.{◌≡◌, sym, ap, ap₂, ◌∙◌}
use native.Mathlib.Omega.{arith}
use rocdbgapi.Base.Bits.{div-pow-suc, and_digit, or_digit, bit-bit_or, bit_or-lt, eq_of_bits}

pub div-bit_or : (k a b : ℕ) → bit_or a b / 2 ^ k ≡ bit_or (a / 2 ^ k) (b / 2 ^ k)
div-bit_or zero a b = omega (arith, ap₂ bit_or (whole a) (whole b))
  where
    whole : (x : ℕ) → x / 1 ≡ x
    whole x = omega arith
div-bit_or (suc k) a b =
    div-pow-suc k (bit_or a b)
    ∙ ap (λ t. t / 2 ^ k) (omega (arith, or_digit a b))
    ∙ div-bit_or k (a / 2) (b / 2)
    ∙ sym (ap₂ bit_or (div-pow-suc k a) (div-pow-suc k b))

pub div-bit_and : (k a b : ℕ) → bit_and a b / 2 ^ k ≡ bit_and (a / 2 ^ k) (b / 2 ^ k)
div-bit_and zero a b = omega (arith, ap₂ bit_and (whole a) (whole b))
  where
    whole : (x : ℕ) → x / 1 ≡ x
    whole x = omega arith
div-bit_and (suc k) a b =
    div-pow-suc k (bit_and a b)
    ∙ ap (λ t. t / 2 ^ k) (omega (arith, and_digit a b))
    ∙ div-bit_and k (a / 2) (b / 2)
    ∙ sym (ap₂ bit_and (div-pow-suc k a) (div-pow-suc k b))

pub bit_or_comm : (w a b : ℕ) → a < 2 ^ w → b < 2 ^ w → bit_or a b ≡ bit_or b a
bit_or_comm w a b ha hb =
    eq_of_bits w (bit_or a b) (bit_or b a) (bit_or-lt w a b ha hb) (bit_or-lt w b a hb ha)
      λ i h. omega (arith, bit-bit_or i a b, bit-bit_or i b a)
