-- ===== src/Status.antt =====
-- The status codes of include/amd-dbgapi.h.in and how src/exception.h reports errors: a call that
-- throws an `api_error_t` is `err`, with its code, and a failed assertion is the fatal error that
-- `dbgapi_assert_fail` of src/debug.h raises.
use rocdbgapi.Base.{
  ℕ, Bool, true, false, Option, none, some, List, [], ◌∷◌, ◌==◌, if◌then◌else◌, ◌≡◌, refl, ◌⊎◌, inl,
  inr,
}

-- `amd_dbgapi_status_t`
pub data Status : Type 0 where
  success error_generic fatal not_implemented not_available not_supported invalid_argument : Status
  invalid_argument_compatibility already_initialized not_initialized restriction : Status
  already_attached invalid_architecture_id illegal_instruction invalid_code_object_id : Status
  invalid_elf_amdgpu_machine invalid_process_id process_exited invalid_agent_id : Status
  invalid_queue_id invalid_dispatch_id invalid_wave_id wave_not_stopped wave_stopped : Status
  wave_outstanding_stop wave_not_resumable invalid_displaced_stepping_id : Status
  displaced_stepping_buffer_not_available displaced_stepping_active : Status
  resume_displaced_stepping invalid_watchpoint_id no_watchpoint_available : Status
  invalid_register_class_id invalid_register_id invalid_lane_id invalid_address_class_id : Status
  invalid_address_space_id memory_access invalid_address_space_conversion invalid_event_id : Status
  invalid_breakpoint_id client_callback invalid_client_process_id symbol_not_found : Status
  register_not_available invalid_workgroup_id incompatible_process_state process_frozen : Status
  process_already_frozen process_not_frozen : Status

-- The value of the enumerator, its sign left out.
unfoldable pub code : Status → ℕ
code success = 0
code error_generic = 1
code fatal = 2
code not_implemented = 3
code not_available = 4
code not_supported = 5
code invalid_argument = 6
code invalid_argument_compatibility = 7
code already_initialized = 8
code not_initialized = 9
code restriction = 10
code already_attached = 11
code invalid_architecture_id = 12
code illegal_instruction = 13
code invalid_code_object_id = 14
code invalid_elf_amdgpu_machine = 15
code invalid_process_id = 16
code process_exited = 17
code invalid_agent_id = 18
code invalid_queue_id = 19
code invalid_dispatch_id = 20
code invalid_wave_id = 21
code wave_not_stopped = 22
code wave_stopped = 23
code wave_outstanding_stop = 24
code wave_not_resumable = 25
code invalid_displaced_stepping_id = 26
code displaced_stepping_buffer_not_available = 27
code displaced_stepping_active = 28
code resume_displaced_stepping = 29
code invalid_watchpoint_id = 30
code no_watchpoint_available = 31
code invalid_register_class_id = 32
code invalid_register_id = 33
code invalid_lane_id = 34
code invalid_address_class_id = 35
code invalid_address_space_id = 36
code memory_access = 37
code invalid_address_space_conversion = 38
code invalid_event_id = 39
code invalid_breakpoint_id = 40
code client_callback = 41
code invalid_client_process_id = 42
code symbol_not_found = 43
code register_not_available = 44
code invalid_workgroup_id = 45
code incompatible_process_state = 46
code process_frozen = 47
code process_already_frozen = 48
code process_not_frozen = 49

-- What a call that may throw gives back.
pub data Result {ℓ} (A : Type ℓ) : Type ℓ where
  err : Status → Result A
  ok : A → Result A

infixl 5 ◌>>=◌ ◌>>◌
abbrev pub ◌>>=◌ {ℓ ℓ'} : {A : Type ℓ} {B : Type ℓ'} → Result A → (A → Result B) → Result B
err thrown >>= next = err thrown
ok value >>= next = next value

-- A check, and what follows it.
abbrev pub ◌>>◌ {ℓ} : {B : Type ℓ} → Result (Unit {0}) → Result B → Result B
check >> next = check >>= λ _. next

-- `if (test) THROW (e);`
abbrev pub throw_if : Bool → Status → Result (Unit {0})
throw_if true e = err e
throw_if false e = ok tt

-- `dbgapi_assert (test)`, with assertions enabled.
abbrev pub assert : Bool → Result (Unit {0})
assert true = ok tt
assert false = err fatal

-- A handle is looked up; where there is no object the call throws.
abbrev pub find_or {ℓ} : {A : Type ℓ} → Option A → Status → Result A
find_or none e = err e
find_or (some a) e = ok a

-- `CATCH (allowed codes)`: an allowed code, `NOT_IMPLEMENTED` always among them, is returned, and
-- any other error is fatal.
unfoldable pub is_allowed : List Status → Status → Bool
is_allowed [] e = false
is_allowed (c ∷ cs) e = if code e == code c then true else is_allowed cs e

unfoldable pub catch_status {ℓ} : {A : Type ℓ} → List Status → Result A → Status
unfolding is_allowed code
catch_status allowed (ok a) = success
catch_status allowed (err e) = elim (is_allowed (not_implemented ∷ allowed) e) [
  | true ↦ e
  | false ↦ fatal
]

-- To split on a result and keep the equation.
pub Result-cases {ℓ} :
    {A : Type ℓ} (r : Result A) → ((a : A) × (r ≡ ok a)) ⊎ ((e : _) × (r ≡ err e))
Result-cases (ok a) = inl (a, refl)
Result-cases (err e) = inr (e, refl)
