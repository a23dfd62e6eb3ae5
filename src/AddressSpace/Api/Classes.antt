-- ===== src/AddressSpace/Api/Classes.antt =====
-- No fatal errors from amd_dbgapi_address_is_in_address_class and amd_dbgapi_address_dependency of
-- src/memory.cpp.
use rocdbgapi.Base.{
  ℕ, ◌≡◌, ◌≢◌, refl, arith, Bool, not, ◌&&◌, Option, some, ◌==◌, if◌then◌else◌, Bool-cases, inl,
  inr,
}
use rocdbgapi.Status.{
  ok, err, Status, fatal, catch_status, is_allowed, code, not_initialized, ◌>>=◌, throw_if, find_or,
  invalid_argument, invalid_address_space_id, invalid_address_class_id, invalid_lane_id,
  invalid_wave_id,
}
use rocdbgapi.AddressSpace.{
  AddressSpace, base_space, generic_space, address_dependency, is_in_class, lower, kind, is_kind,
  generic, private_unswizzled, global, lane_none,
}
use rocdbgapi.AddressSpace.Api.{
  ApiWave, Tables, check_wave, class_state, is_lane, address_is_in_address_class, class_codes,
  address_dependency_of, dependency_codes,
}
use rocdbgapi.AddressSpace.Api.Reported.{
  CanLower, lower_total, Reported, >>=-Reported, throw_if-Reported, find_or-Reported, find_or-found,
  >>=-total, Reported-never_fatal,
}

-- What depends on lowering alone does not fail where lowering does not.
dependency_total :
    (s : AddressSpace) (x : ℕ) → CanLower s → (e : Status) → address_dependency s x ≢ err e
unfolding address_dependency
dependency_total (base_space b) x h = λ e p. cc
dependency_total (generic_space id apertures) x h =
    >>=-total (lower (generic_space id apertures) x) _
      (lower_total (generic_space id apertures) x h) λ lowered e p. cc

in_class_total :
    (s : AddressSpace) (x : ℕ) (c : AddressSpace)
    → CanLower s
    → (e : Status) → is_in_class s x c ≢ err e
unfolding is_in_class
in_class_total s x c h e = elim (Bool-cases (is_kind (kind s) private_unswizzled)) [
  | inl a ↦ rw a λ p. cc
  | inr a ↦ elim (Bool-cases (is_kind (kind c) generic)) [
    | inl d ↦ rw (a, d) λ p. cc
    | inr d ↦ rw (a, d) (>>=-total (lower s x) _ (lower_total s x h) (λ lowered e p. cc) e)
  ]
]

check-Reported :
    (t : Tables) (wave_id lane_id : ℕ) (supported : ApiWave → Bool)
    → Reported class_codes (check_wave t wave_id lane_id supported)
unfolding check_wave is_allowed code
check-Reported t wave_id lane_id supported e p = ground arith

lane-Reported :
    (lane_id : ℕ) (s : AddressSpace) (x : ℕ)
    → CanLower s
    → Reported class_codes (
        if lane_id == lane_none
        then (address_dependency s x >>= λ d. throw_if (is_lane d) invalid_lane_id)
        else ok tt)
unfolding is_allowed code
lane-Reported lane_id s x h = elim (Bool-cases (lane_id == lane_none)) [
  | inl at_none ↦ rw at_none (
      >>=-Reported class_codes _ _ (λ e p. absurd (dependency_total s x h e p))
        λ d _. throw_if-Reported class_codes (is_lane d) invalid_lane_id refl)
  | inr other ↦ rw other (λ e p. cc)
]

state-Reported :
    (wave : Option ApiWave) (lane_id : ℕ) (s : AddressSpace) (x : ℕ) (c : AddressSpace)
    → CanLower s
    → Reported class_codes (class_state wave lane_id s x c)
unfolding class_state is_allowed code
state-Reported wave lane_id s x c h = elim (Bool-cases (is_kind (kind s) global)) [
  | inl a ↦ rw a (λ e p. cc)
  | inr a ↦ rw a (
      >>=-Reported class_codes (find_or wave invalid_wave_id) _
        (find_or-Reported class_codes wave invalid_wave_id refl)
        λ _ _.
          >>=-Reported class_codes _ _ (lane-Reported lane_id s x h)
            λ _ _ e p. absurd (in_class_total s x c h e p))
]

module _ (t : Tables)
    (spaces : (id : ℕ) (s : AddressSpace) → t.find_address_space id ≡ some s → CanLower s) where
  -- The class entry point never turns an error into a fatal one, where every address space of the
  -- tables can lower its addresses.
  pub class_never_fatal :
      (wave_id lane_id space_id address class_id : ℕ) (no_output : Bool)
      → catch_status class_codes
          (address_is_in_address_class t wave_id lane_id space_id address class_id no_output)
        ≢ fatal
  unfolding address_is_in_address_class is_allowed code
  class_never_fatal wave_id lane_id space_id address class_id no_output =
      Reported-never_fatal class_codes refl _ (
        >>=-Reported class_codes _ _
          (throw_if-Reported class_codes (not t.is_initialized) not_initialized refl)
          λ _ _.
            >>=-Reported class_codes
              (find_or (t.find_address_class class_id) invalid_address_class_id) _
              (find_or-Reported class_codes (t.find_address_class class_id) invalid_address_class_id
                refl)
              λ class _.
                >>=-Reported class_codes _ _
                  (throw_if-Reported class_codes no_output invalid_argument refl)
                  λ _ _.
                    >>=-Reported class_codes
                      (find_or (t.find_address_space space_id) invalid_address_space_id) _
                      (find_or-Reported class_codes (t.find_address_space space_id)
                        invalid_address_space_id refl)
                      λ space found.
                        >>=-Reported class_codes
                          (check_wave t wave_id lane_id (λ w.
                            w.is_address_space_supported space
                            && w.is_address_class_supported class))
                          _
                          (check-Reported t wave_id lane_id (λ w.
                            w.is_address_space_supported space
                            && w.is_address_class_supported class))
                          λ wave _.
                            state-Reported wave lane_id space address class
                              (spaces space_id space (find_or-found class_codes _ _ found)))

  -- The dependency entry point never turns an error into a fatal one, where every address space of
  -- the tables can lower its addresses.
  pub dependency_never_fatal :
      (space_id address : ℕ)
      → catch_status dependency_codes (address_dependency_of t space_id address) ≢ fatal
  unfolding address_dependency_of is_allowed code
  dependency_never_fatal space_id address = Reported-never_fatal dependency_codes refl _ (
      >>=-Reported dependency_codes _ _
        (throw_if-Reported dependency_codes (not t.is_initialized) not_initialized refl)
        λ _ _.
          >>=-Reported dependency_codes _ _
            (find_or-Reported dependency_codes _ invalid_address_space_id refl)
            λ space found e p. absurd (
              dependency_total space address
                (spaces space_id space (find_or-found dependency_codes _ _ found)) e p))
