-- ===== src/Wave/Machine/Entry.antt =====
-- `amd_dbgapi_wave_stop` and `amd_dbgapi_wave_resume` of src/wave.cpp, for the wave that the handle
-- names. Suspending its queue updates the wave, or finds that it has exited.
pub mod Stop
use rocdbgapi.Base.{ℕ, Bool, true, false, not, ◌&&◌, ◌||◌, Option, none, some, List, [], ◌∷◌, ltb}
use rocdbgapi.Status.{
  Status, invalid_argument, not_initialized, invalid_wave_id, wave_not_stopped, wave_stopped,
  wave_outstanding_stop, wave_not_resumable, resume_displaced_stepping, process_frozen, Result, ok,
  err, ◌>>=◌, ◌>>◌, throw_if, find_or,
}
use rocdbgapi.Architecture.{WaveState, run, single_step, stop}
use rocdbgapi.Architecture.State.{is_stop}
use rocdbgapi.Wave.Machine.{
  event_order, processed, World, Setting, last_stop_event, client_visible_state,
}
use rocdbgapi.Wave.Machine.SetState.{
  WaveException, WaveExceptions, OsException, is_single_step, is_some, set_state,
}

-- `amd_dbgapi_resume_mode_t`, with any other value that a client may give.
pub data ResumeMode : Type 0 where
  normal_mode single_step_mode other_mode : ResumeMode

abbrev pub is_mode : ResumeMode → Bool
is_mode other_mode = false
is_mode _ = true

abbrev pub mode_state : ResumeMode → WaveState
mode_state single_step_mode = single_step
mode_state _ = run

module _ {I : Type 0} (s : Setting I) (on_agent : Bool) (is_initialized is_frozen : Bool)
    (suspend : World I → Option (World I)) where
  unfoldable pub wave_stop : Option (World I) → Result (World I × Option (OsException → Bool))
  wave_stop found = do
    throw_if (not is_initialized) not_initialized
    wave ← find_or found invalid_wave_id
    throw_if (is_stop (client_visible_state wave)) wave_stopped
    throw_if wave.wave.stop_requested wave_outstanding_stop
    suspended ← find_or (suspend wave) invalid_wave_id
    throw_if is_frozen process_frozen
    set_state s on_agent stop (λ e. false) suspended

  -- There is a stop event that has not been processed.
  abbrev pub is_not_resumable : World I → Bool
  is_not_resumable wave = elim (last_stop_event wave) [
    | none ↦ false
    | some e ↦ ltb (event_order e.event_state) (event_order processed)
  ]

  unfoldable pub wave_resume :
      Option (World I)
      → ResumeMode
      → WaveExceptions
      → (other_exceptions : Bool) → Result (World I × Option (OsException → Bool))
  wave_resume found resume_mode exceptions other_exceptions = do
    throw_if (not is_initialized) not_initialized
    wave ← find_or found invalid_wave_id
    throw_if is_frozen process_frozen
    throw_if (not (is_mode resume_mode)) invalid_argument
    throw_if other_exceptions invalid_argument
    throw_if (not (is_stop (client_visible_state wave))) wave_not_stopped
    throw_if (is_not_resumable wave) wave_not_resumable
    throw_if (is_some wave.wave.displaced_stepping && not (is_single_step (mode_state resume_mode)))
        resume_displaced_stepping
    suspended ← find_or (suspend wave) invalid_wave_id
    set_state s on_agent (mode_state resume_mode) exceptions suspended

abbrev pub stop_codes : List Status
stop_codes =
    not_initialized ∷ invalid_wave_id ∷ wave_stopped ∷ wave_outstanding_stop ∷ process_frozen ∷ []
