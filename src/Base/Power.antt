-- ===== src/Base/Power.antt =====
-- Powers of two.
use Prim.Native.Nat.{ℕ, zero, suc, ◌+◌, ◌*◌, ◌^◌, ◌≤◌}
use mathlib.Core.Path.{◌≡◌, ap, sym, ◌∙◌}
use native.Mathlib.Omega.{arith}
use native.Mathlib.Nat.{add-zero, pow-suc, one-le-pow, pow-le-pow_right, mul_assoc}

pub pow-add : (m n : ℕ) → 2 ^ (m + n) ≡ 2 ^ m * 2 ^ n
pow-add m zero = rw add-zero (omega arith)
pow-add m (suc n) =
    ap (λ t. 2 ^ t) m_suc
    ∙ pow-suc 2 (m + n)
    ∙ ap (λ t. t * 2) (pow-add m n)
    ∙ mul_assoc (2 ^ m) (2 ^ n) 2
    ∙ ap (λ t. 2 ^ m * t) (sym (pow-suc 2 n))
  where
    m_suc : m + suc n ≡ suc (m + n)
    m_suc = omega arith

pub pow_pos : (k : ℕ) → 1 ≤ 2 ^ k
pow_pos k = one-le-pow k 2 (omega arith)

pub pow_mono : (j k : ℕ) → j ≤ k → 2 ^ j ≤ 2 ^ k
pow_mono j k h = pow-le-pow_right {n = 2} (omega arith) {i = j} {j = k} h
