-- ===== src/DisplacedStepping/Entry.antt =====
-- `amd_dbgapi_displaced_stepping_start` and `amd_dbgapi_displaced_stepping_complete` of
-- src/displaced_stepping.cpp, for the wave that the handle names.
use rocdbgapi.Base.{ℕ, Bool, false, not, Option, none, some, List, ◌==◌, if◌then◌else◌}
use rocdbgapi.Status.{
  not_initialized, invalid_argument, invalid_wave_id, wave_not_stopped, process_frozen,
  displaced_stepping_active, invalid_displaced_stepping_id, invalid_argument_compatibility, Result,
  ok, err,
}
use rocdbgapi.Architecture.State.{is_stop}
use rocdbgapi.Wave.Machine.{Setting, find_displaced}
use rocdbgapi.Wave.Machine.SetState.{is_some}
use rocdbgapi.Queue.{Device}
use rocdbgapi.DisplacedStepping.{
  Stepping, Decoder, displaced_stepping_start, displaced_stepping_complete,
}

abbrev pub is_active : Option ℕ → ℕ → Bool
is_active none id = false
is_active (some active) id = active == id

module _ {I D : Type 0} (s : Setting I) (k : Decoder I) (device : Device D)
    (read_global_memory_partial : (address size : ℕ) → D → Result (List ℕ) × D) (from_core : Bool)
    (ctx_save_base : ℕ) where
  -- `amd_dbgapi_displaced_stepping_start`, with the id that it gives back.
  unfoldable pub displaced_stepping_start_entry :
      (is_initialized has_null : Bool)
      → Option (Stepping I D)
      → (saved_instruction_bytes : List ℕ) → Result (Option ℕ) × Option (Stepping I D)
  displaced_stepping_start_entry is_initialized has_null found bytes =
      if not is_initialized
      then (err not_initialized, found)
      else if has_null
      then (err invalid_argument, found)
      else elim found [
        | none ↦ (err invalid_wave_id, none)
        | some st ↦
            if not (is_stop st.world.wave.state)
            then (err wave_not_stopped, some st)
            else if is_some st.world.wave.displaced_stepping
            then (err displaced_stepping_active, some st)
            else (let (result, st') =
                  displaced_stepping_start s k device read_global_memory_partial from_core
                    ctx_save_base bytes st in
                (
                  elim result [ err e ↦ err e | ok done ↦ ok st'.world.wave.displaced_stepping ],
                  some st',
                ))
      ]

module _ {I D : Type 0} where
  -- `amd_dbgapi_displaced_stepping_complete`
  unfoldable pub displaced_stepping_complete_entry :
      (is_initialized is_frozen : Bool)
      → Option (Stepping I D)
      → (displaced_stepping_id : ℕ) → Result (Unit {0}) × Option (Stepping I D)
  displaced_stepping_complete_entry is_initialized is_frozen found id =
      if not is_initialized then (err not_initialized, found) else elim found [
        | none ↦ (err invalid_wave_id, none)
        | some st ↦
            if is_frozen
            then (err process_frozen, some st)
            else if not (is_stop st.world.wave.state)
            then (err wave_not_stopped, some st)
            else if not (is_some (find_displaced id st.world.displaced_steppings))
            then (err invalid_displaced_stepping_id, some st)
            else if not (is_active st.world.wave.displaced_stepping id)
            then (err invalid_argument_compatibility, some st)
            else (let (result, st') = displaced_stepping_complete st in (result, some st'))
      ]
