-- ===== src/Tests.antt =====
-- The theorems on concrete inputs: a wave of 64 lanes with 64 KiB of scratch memory, and the address
-- spaces of src/architecture.cpp.
mod Numbers
mod Private
mod Masks
mod Cache
mod Waves
mod Watchpoints
mod Buffers
mod Displaced
use rocdbgapi.Base.{
  ℕ, ◌+◌, ◌-◌, ◌^◌, ◌≤◌, ◌<◌, ◌≡◌, ◌≢◌, refl, arith, Bool, true, false, Option, some, none, List,
  [], ◌∷◌, inl, inr, ◌==◌, if◌then◌else◌, Bool-cases, subst,
}
use rocdbgapi.Utils.{bit_mask, zero_extend}
use rocdbgapi.Status.{Result, ok, err, fatal, catch_status, invalid_address_space_conversion}
use rocdbgapi.AddressSpace.{
  AddressSpace, base_space, generic_space, BaseSpace, Aperture, WaveView, global_at, local_at,
  swizzled_at, convert, convert_lowered, convert_to_global, convert_to_generic, generic_address,
  swizzle, lower, lower_base, lower_apertures, last_address, lane_none,
}
use rocdbgapi.AddressSpace.Swizzle.{IsWave, swizzle_round_trip, swizzle_injective}
use rocdbgapi.AddressSpace.Contiguous.{convert_contiguous, convert_progress}
use rocdbgapi.AddressSpace.Generic.{Reaches, here, generic_round_trip}
use rocdbgapi.AddressSpace.Lower.{lower_idempotent}
use rocdbgapi.AddressSpace.Api.{
  ApiWave, Tables, convert_address_space, convert_codes, address_is_in_address_class, class_codes,
  address_dependency_of, dependency_codes,
}
use rocdbgapi.AddressSpace.Api.Reported.{CanLower}
use rocdbgapi.AddressSpace.Api.Classes.{class_never_fatal, dependency_never_fatal}
use rocdbgapi.AddressSpace.Api.Errors.{IsTables, convert_never_fatal}
use rocdbgapi.AddressSpace.Api.Null.{Ready, generic_null_refused}

abbrev pub a_wave : WaveView
a_wave = record {
  scratch_failure = none;
  scratch_base = 0x1000;
  scratch_size = 0x10000;
  lane_count = 64;
}

pub a_wave-IsWave : IsWave a_wave 4
a_wave-IsWave = record {
  has_lanes = omega arith;
  few_lanes = omega arith;
  interleaves = omega arith;
  small = omega arith;
  region = omega arith;
  blocks = refl;
}

byte_of_lane :
    convert (base_space (global_at 1)) a_wave 2 (base_space (swizzled_at 5 4)) 5 ≡ ok (4361, 3)
unfolding convert convert_lowered convert_to_global swizzle lower lower_base zero_extend bit_mask
byte_of_lane = refl

swizzle_round_trip_example :
    convert (base_space (swizzled_at 5 4)) a_wave 2 (base_space (global_at 1)) 4361 ≡ ok (5, 3)
swizzle_round_trip_example =
    swizzle_round_trip a_wave 4 2 5 1 5 a_wave-IsWave (omega arith) (omega arith) byte_of_lane

abbrev a_lane : ℕ
a_lane = 2

abbrev an_address : ℕ
an_address = 5

swizzle_injective_example : (a_lane ≡ 2) × (an_address ≡ 5)
swizzle_injective_example =
    swizzle_injective a_wave 4 a_lane 2 an_address 5 1 5 a_wave-IsWave (omega arith) (omega arith)
      (omega arith) (omega arith) byte_of_lane byte_of_lane

convert_contiguous_example :
    convert (base_space (global_at 1)) a_wave 2 (base_space (swizzled_at 5 4)) 7 ≡ ok (4363, 1)
convert_contiguous_example =
    convert_contiguous a_wave 2 1 (swizzled_at 5 4) 5 2 a_wave-IsWave (omega arith) (omega arith)
      (omega arith) byte_of_lane

convert_progress_example : 0 < 3
convert_progress_example =
    convert_progress a_wave 2 1 (swizzled_at 5 4) 5 a_wave-IsWave (omega arith) byte_of_lane

abbrev the_apertures : List Aperture
the_apertures =
    record { base = 2 ^ 48; mask = 0xffff_0000_0000_0000; address_space = local_at 3 }
    ∷ record { base = 2 ^ 49; mask = 0xffff_0000_0000_0000; address_space = swizzled_at 5 4 }
    ∷ record { base = 0; mask = 0; address_space = global_at 1 }
    ∷ []

behind_local : convert_to_generic the_apertures (local_at 3) 16 ≡ ok (2 ^ 48 + 16, 2 ^ 32 - 16)
unfolding convert_to_generic generic_address last_address zero_extend bit_mask
behind_local = refl

Reaches-local : Reaches (local_at 3) (2 ^ 48 + 16) the_apertures
Reaches-local =
    here (2 ^ 48) 0xffff_0000_0000_0000
      (record { in_mask = refl; no_overlap = refl; fits = omega arith })

generic_round_trip_example :
    lower (generic_space 2 the_apertures) (2 ^ 48 + 16) ≡ ok (local_at 3, 16)
generic_round_trip_example =
    generic_round_trip (local_at 3) 2 (2 ^ 48 + 16) 16 (2 ^ 32 - 16) the_apertures Reaches-local
      (omega arith) (omega arith) (omega arith) behind_local

lower_idempotent_example :
    (16 ≤ last_address (local_at 3)) × (lower (base_space (local_at 3)) 16 ≡ ok (local_at 3, 16))
lower_idempotent_example =
    lower_idempotent (generic_space 2 the_apertures) (2 ^ 48 + 16) generic_round_trip_example

abbrev supported : AddressSpace → Bool
supported s = true

abbrev an_api_wave : ApiWave
an_api_wave = record {
  view = a_wave;
  is_address_space_supported = supported;
  is_address_class_supported = supported;
}

-- Handle 2 is the generic space, and any other is the local space; every wave is the same.
abbrev spaces : ℕ → Option AddressSpace
spaces id = if id == 2 then some (generic_space 2 the_apertures) else some (base_space (local_at 3))

abbrev waves : ℕ → Option ApiWave
waves id = some an_api_wave

abbrev the_tables : Tables
the_tables = record {
  is_initialized = true;
  find_address_space = spaces;
  find_address_class = spaces;
  find_wave = waves;
}

spaces-CanLower : (id : ℕ) (s : AddressSpace) → spaces id ≡ some s → CanLower s
spaces-CanLower id s e = elim (Bool-cases (id == 2)) [
  | inl z ↦ subst CanLower (generic z) (inr (inr (inl (refl, refl))))
  | inr z ↦ subst CanLower (local z) tt
]
  where
    generic : (id == 2) ≡ true → generic_space 2 the_apertures ≡ s
    generic z = ground arith

    local : (id == 2) ≡ false → base_space (local_at 3) ≡ s
    local z = ground arith

the_tables-IsTables : IsTables the_tables
the_tables-IsTables = record {
  spaces = spaces-CanLower;
  waves = λ id w e.
      subst (λ v. v.view.scratch_base + v.view.scratch_size ≤ 2 ^ 64) (same w e) (omega arith);
}
  where
    same : (w : ApiWave) → some an_api_wave ≡ some w → an_api_wave ≡ w
    same w e = cc

convert_never_fatal_example :
    catch_status convert_codes (convert_address_space the_tables 7 2 2 (2 ^ 48 + 16) 3 false)
    ≢ fatal
convert_never_fatal_example =
    convert_never_fatal the_tables 7 2 2 (2 ^ 48 + 16) 3 false the_tables-IsTables readable
  where
    is_a_wave : (w : ApiWave) → some an_api_wave ≡ some w → an_api_wave ≡ w
    is_a_wave w e = cc

    readable : (w : ApiWave) → the_tables.find_wave 7 ≡ some w → w.view.scratch_failure ≡ none
    readable w e = subst (λ v. v.view.scratch_failure ≡ none) (is_a_wave w e) refl

class_never_fatal_example :
    catch_status class_codes (address_is_in_address_class the_tables 7 2 2 (2 ^ 48 + 16) 3 false)
    ≢ fatal
class_never_fatal_example = class_never_fatal the_tables spaces-CanLower 7 2 2 (2 ^ 48 + 16) 3 false

dependency_never_fatal_example :
    catch_status dependency_codes (address_dependency_of the_tables 2 (2 ^ 48 + 16)) ≢ fatal
dependency_never_fatal_example = dependency_never_fatal the_tables spaces-CanLower 2 (2 ^ 48 + 16)

null_behind_global : lower_apertures the_apertures 0 ≡ ok (global_at 1, 0)
unfolding lower_apertures
null_behind_global = refl

generic_null_refused_example :
    convert_address_space the_tables 7 lane_none 2 0 3 false ≡ err invalid_address_space_conversion
generic_null_refused_example =
    generic_null_refused the_tables 7 2 3 2 1 3 the_apertures an_api_wave
      (record {
        initialized = refl;
        source = refl;
        destination = refl;
        wave = refl;
        supports_source = refl;
        supports_destination = refl;
      })
      null_behind_global
