-- ===== src/AddressSpace.antt =====
-- The address spaces of src/memory.h and src/memory.cpp: their kinds, how an address is lowered to
-- a base space, and how it is converted from one space to another.
--
-- The subclasses of `address_space_t` are the constructors of `BaseClass` and of `AddressSpace`;
-- what their constructors pass to the base class are the functions on them. Apertures lead to base
-- spaces, as all that src/architecture.cpp builds do. Of a wave the conversions use its scratch
-- memory region and its lane count.
pub mod Api
pub mod Lower
pub mod Contiguous
pub mod Swizzle
pub mod Generic
use rocdbgapi.Base.{
  ℕ, ◌+◌, ◌-◌, ◌*◌, ◌/◌, ◌%◌, ◌^◌, min, bit_and, bit_or, Bool, true, false, ◌&&◌, ◌||◌, Option,
  none, some, List, [], ◌∷◌, ltb, leb, ◌==◌, if◌then◌else◌, not,
}
use rocdbgapi.Base.Word.{u64, u64_mod, add64, sub64}
use rocdbgapi.Utils.{bit_mask, zero_extend}
use rocdbgapi.Status.{
  Result, ok, err, Status, fatal, ◌>>=◌, ◌>>◌, assert, throw_if, invalid_lane_id,
  invalid_address_space_conversion,
}

-- `address_space_t::kind_t`
pub data Kind : Type 0 where
  generic local global private_swizzled private_unswizzled : Kind

abbrev pub is_kind : Kind → Kind → Bool
is_kind generic generic = true
is_kind local local = true
is_kind global global = true
is_kind private_swizzled private_swizzled = true
is_kind private_unswizzled private_unswizzled = true
is_kind _ _ = false

-- The classes that derive from `address_space_t`, but for the generic one.
pub data BaseClass : Type 0 where
  global_space local_space unswizzled_space : BaseClass
  swizzled_space : (interleave_size : ℕ) → BaseClass

pub record BaseSpace : Type 0 where
  pub id : ℕ
  pub class : BaseClass

-- `generic_address_space_t::aperture_t`
pub record Aperture : Type 0 where
  pub base : ℕ
  pub mask : ℕ
  pub address_space : BaseSpace

abbrev pub global_at : ℕ → BaseSpace
global_at id = record { id = id; class = global_space }

abbrev pub local_at : ℕ → BaseSpace
local_at id = record { id = id; class = local_space }

abbrev pub swizzled_at : ℕ → ℕ → BaseSpace
swizzled_at id interleave = record { id = id; class = swizzled_space interleave }

abbrev pub unswizzled_at : ℕ → BaseSpace
unswizzled_at id = record { id = id; class = unswizzled_space }

pub data AddressSpace : Type 0 where
  base_space : BaseSpace → AddressSpace
  generic_space : (id : ℕ) → (apertures : List Aperture) → AddressSpace

abbrev pub class_kind : BaseClass → Kind
class_kind global_space = global
class_kind local_space = local
class_kind unswizzled_space = private_unswizzled
class_kind (swizzled_space _) = private_swizzled

abbrev pub kind : AddressSpace → Kind
kind (base_space b) = class_kind b.class
kind (generic_space _ _) = generic

abbrev pub class_address_size : BaseClass → ℕ
class_address_size global_space = 64
class_address_size _ = 32

abbrev pub address_size : AddressSpace → ℕ
address_size (base_space b) = class_address_size b.class
address_size (generic_space _ _) = 64

abbrev pub class_null_address : BaseClass → ℕ
class_null_address global_space = 0
class_null_address _ = 0xffff_ffff

abbrev pub null_address : AddressSpace → ℕ
null_address (base_space b) = class_null_address b.class
null_address (generic_space _ _) = 0

unfoldable pub last_address : BaseSpace → ℕ
last_address b = bit_mask 0 (class_address_size b.class - 1)

-- `lower` of the four base classes.
unfoldable pub lower_base : BaseSpace → ℕ → BaseSpace × ℕ
lower_base b address = (b, zero_extend address (class_address_size b.class))

-- The loop over the apertures of `generic_address_space_t::lower`. It is an error to find none.
unfoldable pub lower_apertures : List Aperture → ℕ → Result (BaseSpace × ℕ)
lower_apertures [] generic_address = err fatal
lower_apertures (a ∷ rest) generic_address =
    if not (bit_and generic_address a.mask == a.base)
    then lower_apertures rest generic_address
    else if generic_address == 0
    then ok (a.address_space, class_null_address a.address_space.class)
    else ok
        (a.address_space, zero_extend generic_address (class_address_size a.address_space.class))

unfoldable pub lower : AddressSpace → ℕ → Result (BaseSpace × ℕ)
unfolding lower_base lower_apertures
lower (base_space b) address = ok (lower_base b address)
lower (generic_space _ apertures) address = lower_apertures apertures address

-- What a conversion reads of `wave_t`: `lane_count ()`, and what `scratch_memory_region ()` gives, or
-- throws where it cannot read the register `flat_scratch`.
pub record WaveView : Type 0 where
  pub scratch_failure : Option Status
  pub scratch_base : ℕ
  pub scratch_size : ℕ
  pub lane_count : ℕ

-- The call of `scratch_memory_region ()`, after which its base and size are used.
abbrev pub find_scratch : Option Status → Result (Unit {0})
find_scratch none = ok tt
find_scratch (some e) = err e

-- `AMD_DBGAPI_LANE_NONE`
abbrev pub lane_none : ℕ
lane_none = 2 ^ 32 - 1

abbrev pub is_invalid_lane : WaveView → ℕ → Bool
is_invalid_lane w lane_id = lane_id == lane_none || leb w.lane_count lane_id

-- The offset in scratch memory of a byte of a lane.
unfoldable pub swizzle : WaveView → ℕ → ℕ → ℕ → ℕ
swizzle w lane_id interleave address =
    u64 (
      address / interleave * w.lane_count * interleave
      + lane_id * interleave
      + address % interleave)

abbrev invalid_conversion : Result (ℕ × ℕ)
invalid_conversion = err invalid_address_space_conversion

-- The rest of the segment from an address: the address itself, and all bytes up to the last.
abbrev rest_of_segment : BaseSpace → ℕ → Result (ℕ × ℕ)
rest_of_segment b address = ok (address, add64 (sub64 (last_address b) address) 1)

-- The branches of `global_address_space_t::convert` on the lowered space.
global_of_class : WaveView → ℕ → BaseSpace → BaseClass → ℕ → Result (ℕ × ℕ)
global_of_class w lane_id b global_space address = rest_of_segment b address
global_of_class w lane_id b unswizzled_space address =
    find_scratch w.scratch_failure
    >> (if leb w.scratch_size address
        then invalid_conversion
        else ok (add64 w.scratch_base address, w.scratch_size - address))
global_of_class w lane_id b (swizzled_space interleave) address =
    let offset = swizzle w lane_id interleave address in
    find_scratch w.scratch_failure
    >> (if is_invalid_lane w lane_id
        then err invalid_lane_id
        else if leb w.scratch_size offset
        then invalid_conversion
        else ok (add64 w.scratch_base offset, interleave - offset % interleave))
global_of_class w lane_id b local_space address = invalid_conversion

-- `convert` of the four base classes, once the source address is lowered. `from` is the kind of
-- the source space.
unfoldable pub convert_to_global : WaveView → ℕ → Kind → BaseSpace → ℕ → Result (ℕ × ℕ)
unfolding global_of_class
convert_to_global w lane_id from b address =
    let k = class_kind b.class in
    if address == class_null_address b.class
      && (is_kind from generic
          || is_kind k global
          || is_kind k private_unswizzled
          || is_kind k private_swizzled)
    then ok (0, 0)
    else global_of_class w lane_id b b.class address

local_of_class : BaseSpace → BaseClass → ℕ → Result (ℕ × ℕ)
local_of_class b local_space address = rest_of_segment b address
local_of_class b _ address = invalid_conversion

unfoldable pub convert_to_local : Kind → BaseSpace → ℕ → Result (ℕ × ℕ)
unfolding local_of_class
convert_to_local from b address =
    if address == class_null_address b.class
      && (is_kind from generic || is_kind (class_kind b.class) local)
    then ok (0xffff_ffff, 0)
    else local_of_class b b.class address

-- The lane of a byte of scratch memory, and its address in the memory of that lane.
unfoldable pub unswizzle : WaveView → ℕ → ℕ → Result (ℕ × ℕ)
unswizzle w interleave offset = ok (
  offset / (w.lane_count * interleave) * interleave + offset % interleave,
  interleave - offset % interleave,
)

-- From global memory or from the unswizzled segment, at an offset in scratch memory.
swizzled_of_offset : WaveView → ℕ → ℕ → ℕ → Result (ℕ × ℕ)
unfolding unswizzle
swizzled_of_offset w lane_id interleave offset =
    if leb w.scratch_size offset
    then invalid_conversion
    else if is_invalid_lane w lane_id
    then err invalid_lane_id
    else if not (lane_id == offset / interleave % w.lane_count)
    then invalid_conversion
    else unswizzle w interleave offset

swizzled_of_class : WaveView → ℕ → ℕ → BaseSpace → BaseClass → ℕ → Result (ℕ × ℕ)
unfolding swizzled_of_offset
swizzled_of_class w lane_id interleave b (swizzled_space _) address = rest_of_segment b address
swizzled_of_class w lane_id interleave b global_space address =
    find_scratch w.scratch_failure
    >> swizzled_of_offset w lane_id interleave (sub64 address w.scratch_base)
swizzled_of_class w lane_id interleave b unswizzled_space address =
    find_scratch w.scratch_failure >> swizzled_of_offset w lane_id interleave address
swizzled_of_class w lane_id interleave b local_space address = invalid_conversion

abbrev private_null : Kind → BaseSpace → ℕ → Bool
private_null from b address =
    address == class_null_address b.class
    && (is_kind from generic
        || is_kind (class_kind b.class) private_swizzled
        || is_kind (class_kind b.class) private_unswizzled)

unfoldable pub convert_to_swizzled :
    WaveView → ℕ → (interleave : ℕ) → Kind → BaseSpace → ℕ → Result (ℕ × ℕ)
unfolding swizzled_of_class
convert_to_swizzled w lane_id interleave from b address =
    if private_null from b address
    then ok (0xffff_ffff, 0)
    else swizzled_of_class w lane_id interleave b b.class address

-- A swizzled address goes by way of global memory; what is left of the region bounds the bytes.
unswizzled_of_global : WaveView → ℕ × ℕ → Result (ℕ × ℕ)
unswizzled_of_global w (global_address, contiguous_bytes) = do
  find_scratch w.scratch_failure
  let segment_address = sub64 global_address w.scratch_base
  assert (ltb segment_address w.scratch_size)
  ok (segment_address, min contiguous_bytes (w.scratch_size - segment_address))

unswizzled_of_class : WaveView → ℕ → Kind → BaseSpace → BaseClass → ℕ → Result (ℕ × ℕ)
unfolding unswizzled_of_global convert_to_global
unswizzled_of_class w lane_id from b unswizzled_space address = rest_of_segment b address
unswizzled_of_class w lane_id from b global_space address =
    let segment_address = sub64 address w.scratch_base in
    find_scratch w.scratch_failure
    >> (if leb w.scratch_size segment_address
        then invalid_conversion
        else ok (segment_address, w.scratch_size - segment_address))
unswizzled_of_class w lane_id from b (swizzled_space _) address =
    convert_to_global w lane_id from b address >>= unswizzled_of_global w
unswizzled_of_class w lane_id from b local_space address = invalid_conversion

unfoldable pub convert_to_unswizzled : WaveView → ℕ → Kind → BaseSpace → ℕ → Result (ℕ × ℕ)
unfolding unswizzled_of_class
convert_to_unswizzled w lane_id from b address =
    if private_null from b address
    then ok (0xffff_ffff, 0)
    else unswizzled_of_class w lane_id from b b.class address

-- `generic_address_for_address_space`: spaces are the same if their ids are.
unfoldable pub generic_address : List Aperture → BaseSpace → ℕ → Option ℕ
generic_address [] b address = none
generic_address (a ∷ rest) b address =
    if a.address_space.id == b.id
    then (if address == class_null_address b.class
        then some 0
        else some (bit_or a.base (zero_extend address (class_address_size b.class))))
    else generic_address rest b address

unfoldable pub convert_to_generic : List Aperture → BaseSpace → ℕ → Result (ℕ × ℕ)
unfolding generic_address
convert_to_generic apertures b address = elim (generic_address apertures b address) [
  | none ↦ invalid_conversion
  | some g ↦ if g == 0 then ok (0, 0) else ok (g, add64 (sub64 (last_address b) address) 1)
]

unfoldable pub convert_lowered : AddressSpace → WaveView → ℕ → Kind → BaseSpace × ℕ → Result (ℕ × ℕ)
unfolding convert_to_generic
convert_lowered (generic_space _ apertures) w lane_id from (b, address) =
    convert_to_generic apertures b address
convert_lowered (base_space to) w lane_id from (b, address) = elim to.class [
  | global_space ↦ convert_to_global w lane_id from b address
  | local_space ↦ convert_to_local from b address
  | unswizzled_space ↦ convert_to_unswizzled w lane_id from b address
  | swizzled_space interleave ↦ convert_to_swizzled w lane_id interleave from b address
]

-- `to.convert (wave, lane_id, from, from_address)`: the address in `to`, and how many bytes are
-- contiguous in both spaces.
unfoldable pub convert : AddressSpace → WaveView → ℕ → AddressSpace → ℕ → Result (ℕ × ℕ)
unfolding lower convert_lowered
convert to w lane_id from address = lower from address >>= convert_lowered to w lane_id (kind from)

-- `amd_dbgapi_segment_address_dependency_t`, of which the address spaces use these.
pub data Dependency : Type 0 where
  lane wave workgroup process : Dependency

abbrev pub class_dependency : BaseClass → Dependency
class_dependency global_space = process
class_dependency local_space = workgroup
class_dependency (swizzled_space _) = lane
class_dependency unswizzled_space = wave

-- `address_dependency` of the five classes.
unfoldable pub address_dependency : AddressSpace → ℕ → Result Dependency
unfolding lower
address_dependency (base_space b) address = ok (class_dependency b.class)
address_dependency (generic_space id apertures) address =
    lower (generic_space id apertures) address >>= λ lowered. ok (class_dependency lowered.0.class)

-- `address_space_t::address_is_in_address_class`; a class is given by its address space.
unfoldable pub is_in_class : AddressSpace → ℕ → AddressSpace → Result Bool
is_in_class s address class =
    if is_kind (kind s) private_unswizzled
    then ok false
    else if is_kind (kind class) generic
    then ok true
    else lower s address >>= λ lowered. ok (is_kind (class_kind lowered.0.class) (kind class))
