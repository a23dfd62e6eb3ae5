-- ===== src/AddressSpace/Api/Null.antt =====
-- Null addresses at amd_dbgapi_convert_address_space, of src/memory.cpp: the entry point converts
-- from the lowered space, and so its `convert` does not see that the source was generic.
use rocdbgapi.Base.{ℕ, ◌≡◌, arith, true, false, some}
use rocdbgapi.Status.{ok, err, invalid_address_space_conversion}
use rocdbgapi.AddressSpace.{
  AddressSpace, base_space, generic_space, Aperture, local_at, global_at, lower, lower_apertures,
  convert, convert_lowered, convert_to_local, lane_none,
}
use rocdbgapi.AddressSpace.Lower.{lower_base-eq}
use rocdbgapi.AddressSpace.Api.{ApiWave, Tables, check_wave, convert_checked, convert_address_space}
use rocdbgapi.Base.{List}

-- A known wave whose architecture has both spaces.
pub record Ready (t : Tables) (wave_id source_id destination_id : ℕ) (s d : AddressSpace)
    (w : ApiWave) : Type 0 where
  pub initialized : t.is_initialized ≡ true
  pub source : t.find_address_space source_id ≡ some s
  pub destination : t.find_address_space destination_id ≡ some d
  pub wave : t.find_wave wave_id ≡ some w
  pub supports_source : w.is_address_space_supported s ≡ true
  pub supports_destination : w.is_address_space_supported d ≡ true

-- The null address of a generic space whose global aperture takes it is refused by the
-- conversion entry point as an address of the local space, though the local space has a null
-- address; the wave and both spaces are known, and its architecture supports both (Ready).
pub generic_null_refused :
    (t : Tables) (wave_id source_id destination_id id gid lid : ℕ) (apertures : List Aperture)
    (w : ApiWave)
    → Ready t wave_id source_id destination_id
        (generic_space id apertures)
        (base_space (local_at lid))
        w
    → lower_apertures apertures 0 ≡ ok (global_at gid, 0)
    → convert_address_space t wave_id lane_none source_id 0 destination_id false
      ≡ err invalid_address_space_conversion
unfolding convert_address_space check_wave convert_checked lower convert convert_lowered
    convert_to_local
generic_null_refused t wave_id source_id destination_id id gid lid apertures w r e =
    ground (arith, lower_base-eq (global_at gid) 0)
