-- ===== src/Base/Division.antt =====
-- Quotients and remainders of a number given by its digits to a base.
use Prim.Native.Nat.{ℕ, ◌+◌, ◌*◌, ◌/◌, ◌%◌, ◌<◌}
use mathlib.Core.Path.{◌≡◌, ap, ◌∙◌}
use native.Mathlib.Omega.{arith}
use native.Mathlib.Nat.{mul-add-mod_self_right, mod-eq_of_lt, div-eq_of_lt-le, div-add-mod'}

-- `q` blocks of `n` and `r` more.
pub div_block : (q n r : ℕ) → r < n → (q * n + r) / n ≡ q
div_block q n r h = div-eq_of_lt-le n (omega arith) (omega arith)

pub mod_block : (q n r : ℕ) → r < n → (q * n + r) % n ≡ r
mod_block q n r h = mul-add-mod_self_right q n r ∙ mod-eq_of_lt h

-- Within a block, a step leaves the quotient and adds to the remainder.
pub div_step : (a k n : ℕ) → a % n + k < n → (a + k) / n ≡ a / n
div_step a k n h =
    ap (λ t. t / n) (omega (arith, div-add-mod' a n)) ∙ div_block (a / n) n (a % n + k) h

pub mod_step : (a k n : ℕ) → a % n + k < n → (a + k) % n ≡ a % n + k
mod_step a k n h =
    ap (λ t. t % n) (omega (arith, div-add-mod' a n)) ∙ mod_block (a / n) n (a % n + k) h
