-- ===== src/AddressSpace/Generic.antt =====
-- The generic address space of src/memory.cpp: an address put behind its aperture is lowered to
-- where it came from.
use rocdbgapi.Base.{ℕ, ◌-◌, ◌%◌, ◌<◌, ◌≡◌, ◌≢◌, ◌∙◌, ap, arith, bit_and, bit_or, List, ◌∷◌, some}
use rocdbgapi.Base.Disjoint.{or_in_mask, or_below}
use rocdbgapi.Base.Word.{u64_mod}
use rocdbgapi.Status.{ok}
use rocdbgapi.Utils.{zero_extend}
use native.Mathlib.Nat.{mod-eq_of_lt}
use rocdbgapi.AddressSpace.Lower.{extent, zero_extend_class}
use rocdbgapi.AddressSpace.{
  BaseClass, global_space, local_space, unswizzled_space, swizzled_space, BaseSpace, Aperture,
  generic_space, class_address_size, class_null_address, lower_apertures, lower, generic_address,
  convert_to_generic,
}

-- What the constructor of `generic_address_space_t` asserts of an aperture, in 64 bits.
pub record IsAperture (a : Aperture) : Type 0 where
  pub in_mask : bit_and a.base a.mask ≡ a.base
  pub no_overlap : bit_and (extent a.address_space.class - 1) a.mask ≡ 0
  pub fits : a.base < u64_mod

-- The first aperture with the id of `b` is one of `b`, and none before it claims the address `g`.
pub data Reaches (b : BaseSpace) (g : ℕ) : List Aperture → Type 0 where
  here :
      (base mask : ℕ) {rest : List Aperture}
      → IsAperture (record { base = base; mask = mask; address_space = b })
      → Reaches b g (record { base = base; mask = mask; address_space = b } ∷ rest)
  later :
      {a : Aperture} {rest : List Aperture}
      → a.address_space.id ≢ b.id
      → bit_and g a.mask ≢ a.base
      → Reaches b g rest
      → Reaches b g (a ∷ rest)

-- The address behind an aperture passes its test, and its low bits are the segment address.
module _ (base mask x : ℕ) (in_mask : bit_and base mask ≡ base) (fits : base < u64_mod) where
  behind :
      (c : BaseClass)
      → bit_and (extent c - 1) mask ≡ 0
      → x < extent c
      → (bit_and (bit_or base (zero_extend x (class_address_size c))) mask ≡ base)
        × (zero_extend (bit_or base (zero_extend x (class_address_size c))) (class_address_size c)
            ≡ x)
  behind c no_overlap below = (
    ap (λ t. bit_and (bit_or base t) mask) extended ∙ (by_class c no_overlap below).0,
    zero_extend_class c _
        ∙ ap (λ t. bit_or base t % extent c) extended
        ∙ (by_class c no_overlap below).1,
  )
    where
      extended : zero_extend x (class_address_size c) ≡ x
      extended = zero_extend_class c x ∙ mod-eq_of_lt below

      by_class :
          (c : BaseClass)
          → bit_and (extent c - 1) mask ≡ 0
          → x < extent c
          → (bit_and (bit_or base x) mask ≡ base) × (bit_or base x % extent c ≡ x)
      by_class global_space n h = (
        or_in_mask 64 base mask x in_mask n h 64 (omega arith) fits,
        or_below 64 base mask x in_mask n h,
      )
      by_class local_space n h = (
        or_in_mask 32 base mask x in_mask n h 64 (omega arith) fits,
        or_below 32 base mask x in_mask n h,
      )
      by_class unswizzled_space n h = (
        or_in_mask 32 base mask x in_mask n h 64 (omega arith) fits,
        or_below 32 base mask x in_mask n h,
      )
      by_class (swizzled_space _) n h = (
        or_in_mask 32 base mask x in_mask n h 64 (omega arith) fits,
        or_below 32 base mask x in_mask n h,
      )

-- `lower` undoes `generic_address_for_address_space`, at a segment address that is not null and
-- whose generic address is not.
lower-generic_address :
    (b : BaseSpace) (g x : ℕ) {apertures : List Aperture}
    → Reaches b g apertures
    → x < extent b.class
    → x ≢ class_null_address b.class
    → g ≢ 0
    → generic_address apertures b x ≡ some g
    → lower_apertures apertures g ≡ ok (b, x)
unfolding generic_address lower_apertures
lower-generic_address b g x (here base mask v) below not_null not_zero e =
    ground (arith, behind base mask x v.in_mask v.fits b.class v.no_overlap below)
lower-generic_address b g x (later other unclaimed r) below not_null not_zero e =
    ground (arith, lower-generic_address b g x r below not_null not_zero)

found_of_convert :
    (b : BaseSpace) (g x n : ℕ) (apertures : List Aperture)
    → 0 < n
    → convert_to_generic apertures b x ≡ ok (g, n)
    → (generic_address apertures b x ≡ some g) × (g ≢ 0)
unfolding convert_to_generic
found_of_convert b g x n apertures some_bytes e = ground arith

-- Converting a segment address to the generic space and lowering the result gives the segment
-- and the address back, where the conversion gave any bytes, the first aperture of the segment
-- is well formed and no earlier one claims the generic address (Reaches), and the address fits
-- its segment and is not the null one.
pub generic_round_trip :
    (b : BaseSpace) (id g x n : ℕ) (apertures : List Aperture)
    → Reaches b g apertures
    → x < extent b.class
    → x ≢ class_null_address b.class
    → 0 < n
    → convert_to_generic apertures b x ≡ ok (g, n)
    → lower (generic_space id apertures) g ≡ ok (b, x)
unfolding lower
generic_round_trip b id g x n apertures r below not_null some_bytes e =
    lower-generic_address b g x r below not_null found.1 found.0
  where
    found : (generic_address apertures b x ≡ some g) × (g ≢ 0)
    found = found_of_convert b g x n apertures some_bytes e
