-- ===== src/AddressSpace/Api.antt =====
-- The entry points of src/memory.cpp on addresses: amd_dbgapi_convert_address_space,
-- amd_dbgapi_address_is_in_address_class and amd_dbgapi_address_dependency. Handles are numbers; a
-- null output pointer is an argument that says so.
pub mod Reported
pub mod Errors
pub mod Classes
pub mod Null
use rocdbgapi.Base.{
  ℕ, ◌+◌, Bool, true, false, not, ◌&&◌, ◌||◌, Option, none, some, List, [], ◌∷◌, leb, ◌==◌,
  if◌then◌else◌,
}
use rocdbgapi.Base.Word.{add64, sub64}
use rocdbgapi.Status.{
  Result, ok, err, Status, ◌>>=◌, ◌>>◌, throw_if, find_or, catch_status, not_initialized,
  invalid_argument, invalid_address_space_id, invalid_address_class_id, invalid_wave_id,
  invalid_lane_id, invalid_address_space_conversion, invalid_argument_compatibility,
}
use rocdbgapi.AddressSpace.{
  AddressSpace, base_space, generic_space, BaseSpace, BaseClass, global_space, local_space,
  unswizzled_space, swizzled_space, Kind, generic, global, private_unswizzled, kind, is_kind,
  class_kind, WaveView, lane_none, last_address, lower, convert, Dependency, lane,
  address_dependency, is_in_class,
}

-- Of a wave: what conversions read of it, and what its architecture supports.
pub record ApiWave : Type 0 where
  pub view : WaveView
  pub is_address_space_supported : AddressSpace → Bool
  pub is_address_class_supported : AddressSpace → Bool

-- The tables in which the entry points look handles up. An address class is its address space.
pub record Tables : Type 0 where
  pub is_initialized : Bool
  pub find_address_space : ℕ → Option AddressSpace
  pub find_address_class : ℕ → Option AddressSpace
  pub find_wave : ℕ → Option ApiWave

-- `AMD_DBGAPI_WAVE_NONE`
abbrev pub wave_none : ℕ
wave_none = 0

-- The checks of a wave and a lane that the entry points share.
unfoldable pub check_wave :
    Tables → (wave_id lane_id : ℕ) → (ApiWave → Bool) → Result (Option ApiWave)
check_wave t wave_id lane_id supported = elim (t.find_wave wave_id) [
  | some w ↦ do
    throw_if (not (supported w)) invalid_argument_compatibility
    throw_if (not (lane_id == lane_none) && leb w.view.lane_count lane_id) invalid_lane_id
    ok (some w)
  | none ↦ do
    throw_if (not (wave_id == wave_none)) invalid_wave_id
    throw_if (not (lane_id == lane_none)) invalid_lane_id
    ok none
]

-- From a lowered address: global to global needs no wave.
convert_checked : Option ApiWave → (lane_id : ℕ) → AddressSpace → BaseSpace × ℕ → Result (ℕ × ℕ)
convert_checked wave lane_id destination (b, address) =
    if is_kind (class_kind b.class) global && is_kind (kind destination) global
    then ok (address, add64 (sub64 (last_address b) address) 1)
    else find_or wave invalid_wave_id >>= λ w.
        convert destination w.view lane_id (base_space b) address

abbrev pub supports_both : AddressSpace → AddressSpace → ApiWave → Bool
supports_both destination source w =
    w.is_address_space_supported destination && w.is_address_space_supported source

unfoldable pub convert_address_space :
    Tables
    → (wave_id lane_id source_id source_address destination_id : ℕ) → (is_null_output : Bool)
    → Result (ℕ × ℕ)
unfolding check_wave convert_checked
convert_address_space t wave_id lane_id source_id source_address destination_id is_null_output = do
  throw_if (not t.is_initialized) not_initialized
  throw_if is_null_output invalid_argument
  source ← find_or (t.find_address_space source_id) invalid_address_space_id
  destination ← find_or (t.find_address_space destination_id) invalid_address_space_id
  wave ← check_wave t wave_id lane_id (supports_both destination source)
  lowered ← lower source source_address
  convert_checked wave lane_id destination lowered

-- What the `CATCH` of the entry point lets through.
abbrev pub convert_codes : List Status
convert_codes =
    not_initialized ∷ invalid_wave_id ∷ invalid_lane_id ∷ invalid_address_space_id
    ∷ invalid_address_space_conversion ∷ invalid_argument ∷ invalid_argument_compatibility ∷ []

unfoldable pub is_lane : Dependency → Bool
is_lane lane = true
is_lane _ = false

-- The class state, once the checks have passed.
unfoldable pub class_state :
    Option ApiWave → (lane_id : ℕ) → AddressSpace → ℕ → AddressSpace → Result Bool
unfolding is_lane
class_state wave lane_id space address class =
    if is_kind (kind space) global
    then ok (is_kind (kind class) global || is_kind (kind class) generic)
    else find_or wave invalid_wave_id >>= λ _.
        (if lane_id == lane_none
          then (address_dependency space address >>= λ d. throw_if (is_lane d) invalid_lane_id)
          else ok tt)
        >>= λ _. is_in_class space address class

unfoldable pub address_is_in_address_class :
    Tables → (wave_id lane_id space_id address class_id : ℕ) → (is_null_output : Bool) → Result Bool
unfolding check_wave class_state
address_is_in_address_class t wave_id lane_id space_id address class_id is_null_output = do
  throw_if (not t.is_initialized) not_initialized
  class ← find_or (t.find_address_class class_id) invalid_address_class_id
  throw_if is_null_output invalid_argument
  space ← find_or (t.find_address_space space_id) invalid_address_space_id
  wave ←
      check_wave t wave_id lane_id
        λ w. w.is_address_space_supported space && w.is_address_class_supported class
  class_state wave lane_id space address class

abbrev pub class_codes : List Status
class_codes =
    not_initialized ∷ invalid_wave_id ∷ invalid_lane_id ∷ invalid_address_space_id
    ∷ invalid_address_class_id ∷ invalid_argument ∷ invalid_argument_compatibility ∷ []

-- The code does not test the output pointer.
unfoldable pub address_dependency_of : Tables → (space_id address : ℕ) → Result Dependency
address_dependency_of t space_id address = do
  throw_if (not t.is_initialized) not_initialized
  space ← find_or (t.find_address_space space_id) invalid_address_space_id
  address_dependency space address

abbrev pub dependency_codes : List Status
dependency_codes = not_initialized ∷ invalid_address_space_id ∷ invalid_argument ∷ []
