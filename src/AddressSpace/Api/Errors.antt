-- ===== src/AddressSpace/Api/Errors.antt =====
-- No fatal errors from the conversion of addresses in src/memory.cpp: what it throws is among the
-- codes that its entry points let through.
use rocdbgapi.AddressSpace.Api.Reported.{
  CanLower, lower_total, Reported, >>=-Reported, throw_if-Reported, find_or-Reported, find_or-found,
  Reported-never_fatal,
}
use rocdbgapi.Base.{
  ℕ, ◌+◌, ◌≤◌, ◌≡◌, ◌≢◌, ◌⊎◌, ◌∙◌, ap, refl, arith, List, not, Bool, Option, some, none,
}
use rocdbgapi.Base.Word.{u64_mod}
use rocdbgapi.Status.{
  Result, ok, err, Status, fatal, catch_status, is_allowed, code, not_initialized, find_or,
  invalid_argument, invalid_address_space_id, invalid_lane_id, invalid_address_space_conversion,
}
use rocdbgapi.AddressSpace.Api.{
  ApiWave, supports_both, Tables, check_wave, convert_checked, convert_address_space, convert_codes,
}
use rocdbgapi.AddressSpace.{
  AddressSpace, base_space, generic_space, BaseSpace, BaseClass, global_space, local_space,
  unswizzled_space, swizzled_space, Kind, Aperture, WaveView, lower_base, convert, convert_lowered,
  convert_to_global, convert_to_local, convert_to_swizzled, convert_to_unswizzled,
  convert_to_generic,
}

-- What a conversion of a lowered address may throw.
abbrev pub IsConversionError : {A : Type 0} → Result A → Type 0
IsConversionError r =
    (e : Status) → r ≡ err e → (e ≡ invalid_lane_id) ⊎ (e ≡ invalid_address_space_conversion)

module _ (w : WaveView) (readable : w.scratch_failure ≡ none) (lane_id : ℕ) (from : Kind)
    (b : BaseSpace) (address : ℕ) where
  global_error : IsConversionError (convert_to_global w lane_id from b address)
  unfolding convert_to_global
  global_error e h = ground arith

  local_error : IsConversionError (convert_to_local from b address)
  unfolding convert_to_local
  local_error e h = ground arith

  swizzled_error : (i : ℕ) → IsConversionError (convert_to_swizzled w lane_id i from b address)
  unfolding convert_to_swizzled
  swizzled_error i e h = ground arith

  unswizzled_error :
      w.scratch_base + w.scratch_size ≤ u64_mod
      → IsConversionError (convert_to_unswizzled w lane_id from b address)
  unfolding convert_to_unswizzled
  unswizzled_error region e h = ground arith

generic_error :
    (apertures : List Aperture) (b : BaseSpace) (address : ℕ)
    → IsConversionError (convert_to_generic apertures b address)
unfolding convert_to_generic
generic_error apertures b address e h = ground arith

abbrev pub Region : WaveView → Type 0
Region w = w.scratch_base + w.scratch_size ≤ u64_mod

-- The scratch memory does not wrap, and it can be told where it is.
abbrev pub CanConvert : WaveView → Type 0
CanConvert w = Region w × (w.scratch_failure ≡ none)

lowered_error :
    (to : AddressSpace) (w : WaveView) (lane_id : ℕ) (from : Kind) (b : BaseSpace) (address : ℕ)
    → CanConvert w
    → IsConversionError (convert_lowered to w lane_id from (b, address))
unfolding convert_lowered
lowered_error (generic_space _ apertures) w lane_id from b address region =
    generic_error apertures b address
lowered_error (base_space to) w lane_id from b address region = by_class to.class
  where
    by_class :
        (c : BaseClass)
        → IsConversionError (
            convert_lowered
              (base_space (record { id = to.id; class = c }))
              w
              lane_id
              from
              (b, address))
    by_class global_space = global_error w region.1 lane_id from b address
    by_class local_space = local_error w region.1 lane_id from b address
    by_class unswizzled_space = unswizzled_error w region.1 lane_id from b address region.0
    by_class (swizzled_space i) = swizzled_error w region.1 lane_id from b address i

convert_error :
    (to : AddressSpace) (w : WaveView) (lane_id : ℕ) (b : BaseSpace) (address : ℕ)
    → CanConvert w
    → IsConversionError (convert to w lane_id (base_space b) address)
unfolding convert lower_base
convert_error to w lane_id b address region = lowered_error to w lane_id _ b _ region

-- Of the tables: every space can lower its addresses, and every wave has a scratch region.
pub record IsTables (t : Tables) : Type 0 where
  pub spaces : (id : ℕ) (s : AddressSpace) → t.find_address_space id ≡ some s → CanLower s
  pub waves : (id : ℕ) (w : ApiWave) → t.find_wave id ≡ some w → Region w.view

module _ (t : Tables) (wave_id lane_id : ℕ) where
  check_wave-Reported :
      (supported : ApiWave → Bool) → Reported convert_codes (check_wave t wave_id lane_id supported)
  unfolding check_wave is_allowed code
  check_wave-Reported supported e p = ground arith

  -- The wave that is handed on is one of the table.
  check_wave-found :
      (supported : ApiWave → Bool) {w : ApiWave}
      → check_wave t wave_id lane_id supported ≡ ok (some w)
      → t.find_wave wave_id ≡ some w
  unfolding check_wave
  check_wave-found supported p = ground arith

  checked-Reported :
      (wave : Option ApiWave) (destination : AddressSpace) (lowered : BaseSpace × ℕ)
      → ((w : ApiWave) → wave ≡ some w → CanConvert w.view)
      → Reported convert_codes (convert_checked wave lane_id destination lowered)
  unfolding convert_checked is_allowed code
  checked-Reported none destination lowered region e p = ground arith
  checked-Reported (some w) destination (b, x) region e p =
      ground (arith, convert_error destination w.view lane_id b x (region w refl) e)

-- The conversion entry point never turns an error into a fatal one: every error that it meets is
-- one of those that it lets through. Every address space of the tables must be able to lower its
-- addresses, and the scratch memory of every wave must not wrap (IsTables); and reading where
-- the scratch memory of the wave lies must not fail.
pub convert_never_fatal :
    (t : Tables) (wave_id lane_id source_id source_address destination_id : ℕ) (no_output : Bool)
    → IsTables t
    → ((w : ApiWave) → t.find_wave wave_id ≡ some w → w.view.scratch_failure ≡ none)
    → catch_status convert_codes
        (convert_address_space t wave_id lane_id source_id source_address destination_id no_output)
      ≢ fatal
unfolding convert_address_space is_allowed code
convert_never_fatal t wave_id lane_id source_id source_address destination_id no_output v readable =
    Reported-never_fatal convert_codes refl _ (
      >>=-Reported convert_codes _ _
        (throw_if-Reported convert_codes (not t.is_initialized) not_initialized refl)
        λ _ _.
          >>=-Reported convert_codes _ _
            (throw_if-Reported convert_codes no_output invalid_argument refl)
            λ _ _.
              >>=-Reported convert_codes _ _
                (find_or-Reported convert_codes _ invalid_address_space_id refl)
                λ source is_source.
                  >>=-Reported convert_codes
                    (find_or (t.find_address_space destination_id) invalid_address_space_id) _
                    (find_or-Reported convert_codes _ invalid_address_space_id refl)
                    λ destination _.
                      >>=-Reported convert_codes
                        (check_wave t wave_id lane_id (supports_both destination source)) _
                        (check_wave-Reported t wave_id lane_id (supports_both destination source))
                        λ wave is_wave.
                          >>=-Reported convert_codes _ _
                            (λ e p.
                              absurd (lower_total source source_address (spaces is_source) e p))
                            λ lowered _.
                              checked-Reported t wave_id lane_id wave destination lowered
                                (waves (supports_both destination source) is_wave))
  where
    spaces :
        {s : AddressSpace}
        → find_or (t.find_address_space source_id) invalid_address_space_id ≡ ok s
        → CanLower s
    spaces {s} p = v.spaces source_id s (find_or-found convert_codes _ _ p)

    waves :
        {wave : Option ApiWave} (supported : ApiWave → Bool)
        → check_wave t wave_id lane_id supported ≡ ok wave
        → (w : ApiWave) → wave ≡ some w
        → CanConvert w.view
    waves supported p w q = (v.waves wave_id w found, readable w found)
      where
        found : t.find_wave wave_id ≡ some w
        found = check_wave-found t wave_id lane_id supported (p ∙ ap ok q)
