-- ===== src/Memory/Plain.antt =====
-- What an access promises of plain memory, where each address holds a byte.
use rocdbgapi.Base.{
  ℕ, ◌+◌, ◌-◌, ◌≤◌, ◌<◌, ◌≡◌, refl, ap, ap₂, ◌∙◌, arith, [], ◌++◌, ◌&&◌, ltb, leb, if◌then◌else◌,
  length, get_or, length-append, length-drop, length-take, get_or-append_left, get_or-append_right,
  get_or-drop, get_or-take, dec_lt,
}
use rocdbgapi.Memory.{Access, read, write, size, first_bytes, skip_bytes, Xfer, nothing, joined}

-- The memory after `count` bytes of an access: a write puts its bytes from the address on.
abbrev pub after : Access → (address count : ℕ) → (ℕ → ℕ) → ℕ → ℕ
after (read n) address count m a = m a
after (write bytes) address count m a =
    if leb address a && ltb a (address + count) then get_or bytes (a - address) 0 else m a

-- A read gives the bytes that are there, a write gives none.
abbrev pub IsAnswer : Access → (address : ℕ) → (ℕ → ℕ) → Xfer → Type 0
IsAnswer (read n) address m x =
    (length x.bytes ≡ x.count) × ((i : ℕ) → i < x.count → get_or x.bytes i 0 ≡ m (address + i))
IsAnswer (write bytes) address m x = x.bytes ≡ []

-- What an access that went through does to plain memory, and what it gives back.
pub record Behaves (m m' : ℕ → ℕ) (address : ℕ) (access : Access) (x : Xfer) : Type 0 where
  pub at_most : x.count ≤ size access
  pub leaves : (a : ℕ) → m' a ≡ after access address x.count m a
  pub answer : IsAnswer access address m x

pub Behaves-nothing :
    (m : ℕ → ℕ) (address : ℕ) (access : Access) → Behaves m m address access nothing
Behaves-nothing m address (read n) = record {
  at_most = omega arith;
  leaves = λ a. refl;
  answer = (refl, λ i h. absurd (omega arith));
}
Behaves-nothing m address (write bytes) = record {
  at_most = omega arith;
  leaves = λ a. ground arith;
  answer = refl;
}

-- Two accesses one after another are one, where the first is whole.
pub Behaves-joined :
    (m m' m'' : ℕ → ℕ) (address n : ℕ) (access : Access) (x y : Xfer)
    → Behaves m m' address (first_bytes n access) x
    → Behaves m' m'' (address + x.count) (skip_bytes x.count access) y
    → Behaves m m'' address access (joined x y)
Behaves-joined m m' m'' address n (read k) x y f g = record {
  at_most = omega (arith, f.at_most, g.at_most);
  leaves = λ a. g.leaves a ∙ f.leaves a;
  answer = (
    omega (arith, length-append x.bytes y.bytes, f.answer.0, g.answer.0),
    λ i h. elim (dec_lt i x.count) [
      | yes l ↦ get_or-append_left x.bytes y.bytes i 0 (omega (arith, f.answer.0)) ∙ f.answer.1 i l
      | no l ↦
          get_or-append_right x.bytes y.bytes i (i - x.count) 0 (omega (arith, f.answer.0))
          ∙ g.answer.1 (i - x.count) (omega arith)
          ∙ f.leaves (address + x.count + (i - x.count))
          ∙ ap m (omega arith)
    ],
  );
}
Behaves-joined m m' m'' address n (write bytes) x y f g = record {
  at_most = omega (arith, f.at_most, g.at_most, length-take n bytes, length-drop x.count bytes);
  leaves = λ a. ground (
    arith,
    g.leaves a,
    f.leaves a,
    get_or-drop x.count bytes (a - (address + x.count)) 0,
    get_or-take n bytes (a - address) 0,
    f.at_most,
    length-take n bytes,
    offset a,
  );
  answer = ap₂ (λ s t. s ++ t) f.answer g.answer;
}
  where
    offset : (a : ℕ) → address + x.count ≤ a → x.count + (a - (address + x.count)) ≡ a - address
    offset a h = omega arith
