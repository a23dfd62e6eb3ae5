-- ===== src/AddressSpace/Lower.antt =====
-- Lowering an address to its base space: src/memory.cpp, the `lower` functions.
use rocdbgapi.Base.{
  ℕ, ◌-◌, ◌%◌, ◌^◌, ◌≤◌, ◌<◌, ◌≡◌, ◌∙◌, ap, arith, bit_and, List, [], ◌∷◌, Bool-cases, inl, inr,
  ◌==◌,
}
use native.Mathlib.Nat.{mod-eq_of_lt, mod-lt}
use rocdbgapi.Status.{ok}
use rocdbgapi.Utils.{bit_mask, zero_extend}
use rocdbgapi.Utils.Extend.{zero_extend-eq, bit_mask-eq}
use rocdbgapi.AddressSpace.{
  BaseClass, global_space, local_space, unswizzled_space, swizzled_space, BaseSpace, Aperture,
  AddressSpace, base_space, generic_space, class_address_size, class_null_address, last_address,
  lower_base, lower_apertures, lower,
}

-- The number of addresses of a base space.
abbrev pub extent : BaseClass → ℕ
extent global_space = 2 ^ 64
extent _ = 2 ^ 32

pub zero_extend_class :
    (c : BaseClass) (x : ℕ) → zero_extend x (class_address_size c) ≡ x % extent c
zero_extend_class global_space x = zero_extend-eq x 64 (omega arith) (omega arith)
zero_extend_class local_space x = zero_extend-eq x 32 (omega arith) (omega arith)
zero_extend_class unswizzled_space x = zero_extend-eq x 32 (omega arith) (omega arith)
zero_extend_class (swizzled_space _) x = zero_extend-eq x 32 (omega arith) (omega arith)

mask_of_class : (c : BaseClass) → bit_mask 0 (class_address_size c - 1) ≡ extent c - 1
mask_of_class global_space = bit_mask-eq 0 63 (omega arith) (omega arith)
mask_of_class local_space = bit_mask-eq 0 31 (omega arith) (omega arith)
mask_of_class unswizzled_space = bit_mask-eq 0 31 (omega arith) (omega arith)
mask_of_class (swizzled_space _) = bit_mask-eq 0 31 (omega arith) (omega arith)

pub last_address-eq : (b : BaseSpace) → last_address b ≡ extent b.class - 1
unfolding last_address
last_address-eq b = mask_of_class b.class

pub extent_pos : (c : BaseClass) → 0 < extent c
extent_pos global_space = omega arith
extent_pos local_space = omega arith
extent_pos unswizzled_space = omega arith
extent_pos (swizzled_space _) = omega arith

pub null_fits : (c : BaseClass) → class_null_address c < extent c
null_fits global_space = omega arith
null_fits local_space = omega arith
null_fits unswizzled_space = omega arith
null_fits (swizzled_space _) = omega arith

-- A base space keeps an address that fits.
pub lower_base-eq : (b : BaseSpace) (x : ℕ) → x < extent b.class → lower_base b x ≡ (b, x)
unfolding lower_base
lower_base-eq b x h = ap (λ t. (b, t)) (zero_extend_class b.class x ∙ mod-eq_of_lt h)

lower_base-fits : (b : BaseSpace) (x : ℕ) → (lower_base b x).1 < extent b.class
unfolding lower_base
lower_base-fits b x = rw (zero_extend_class b.class x) (mod-lt x (extent_pos b.class))

lower_apertures-fits :
    (apertures : List Aperture) (g : ℕ) {b : BaseSpace} {x : ℕ}
    → lower_apertures apertures g ≡ ok (b, x)
    → x < extent b.class
unfolding lower_apertures
lower_apertures-fits [] g e = absurd (cc)
lower_apertures-fits (a ∷ rest) g {b} {x} e = elim (Bool-cases (bit_and g a.mask == a.base)) [
  | inr other ↦ lower_apertures-fits rest g {b = b} {x = x} (ground arith)
  | inl here ↦ ground (
    arith,
    null_fits a.address_space.class,
    zero_extend_class a.address_space.class g,
    mod-lt g (extent_pos a.address_space.class),
  )
]

pub lower-fits :
    (s : AddressSpace) (x : ℕ) {b : BaseSpace} {y : ℕ} → lower s x ≡ ok (b, y) → y < extent b.class
unfolding lower
lower-fits (base_space c) x e = ground (arith, lower_base-fits c x)
lower-fits (generic_space id apertures) x e = lower_apertures-fits apertures x e

-- A lowered address fits the address size of its base space, and lowering it again changes nothing.
pub lower_idempotent :
    (s : AddressSpace) (x : ℕ) {b : BaseSpace} {y : ℕ}
    → lower s x ≡ ok (b, y)
    → (y ≤ last_address b) × (lower (base_space b) y ≡ ok (b, y))
lower_idempotent s x {b} {y} e = (
  omega (arith, lower-fits s x e, last_address-eq b),
  unfold lower in ap ok (lower_base-eq b y (lower-fits s x e)),
)

pub null_below : (c : BaseClass) → class_null_address c < 2 ^ 64
null_below global_space = omega arith
null_below local_space = omega arith
null_below unswizzled_space = omega arith
null_below (swizzled_space interleave) = omega arith
