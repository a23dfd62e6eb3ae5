-- ===== src/Wave/Machine/SetState.antt =====
-- `wave_t::terminate` and `wave_t::set_state` of src/wave.cpp.
pub mod Parks
pub mod Stops
pub mod Resumes
pub mod Seen
use rocdbgapi.Base.{
  ℕ, suc, ◌+◌, ◌-◌, Bool, true, false, not, ◌&&◌, ◌||◌, Option, none, some, List, [], ◌∷◌, ltb,
  ◌==◌, if◌then◌else◌,
}
use rocdbgapi.Status.{Result, ok, err, fatal, ◌>>=◌, ◌>>◌, assert}
use rocdbgapi.Architecture.{
  Registers, WaveState, run, single_step, stop, StopReasons, no_reason, is_no_reason,
  single_stepped,
}
use rocdbgapi.Architecture.State.{wave_set_state, wave_set_halt, is_stop}
use rocdbgapi.Wave.Machine.{
  EventKind, wave_stop_event, wave_command_terminated, EventState, event_order, reported, Event,
  Visibility, hidden_at_terminating_instruction, is_visible, DisplacedStepping, Wave, World,
  Setting, find_displaced, release, queue_instruction, pc_of, write_pc_register, park, unpark,
  wave_state_changed, raise_event, last_stop_event, update,
}

-- The exceptions of `amd_dbgapi_exceptions_t` that a wave is resumed with, and those of the driver,
-- `os_exception_mask_t`, that they become.
pub data WaveException : Type 0 where
  abort trap_exception math_error illegal_instruction_exception : WaveException
  memory_violation_exception address_error_exception : WaveException

abbrev pub WaveExceptions : Type 0
WaveExceptions = WaveException → Bool

abbrev pub is_no_exception : WaveExceptions → Bool
is_no_exception e = not (
    e abort
    || e trap_exception
    || e math_error
    || e illegal_instruction_exception
    || e memory_violation_exception
    || e address_error_exception)

pub data OsException : Type 0 where
  queue_wave_abort queue_wave_trap queue_wave_math_error : OsException
  queue_wave_illegal_instruction queue_wave_memory_violation : OsException
  queue_wave_address_error device_memory_violation : OsException

-- That of the device goes along if the agent has it.
abbrev pub os_exceptions : (on_agent : Bool) → WaveExceptions → OsException → Bool
os_exceptions on_agent e queue_wave_abort = e abort
os_exceptions on_agent e queue_wave_trap = e trap_exception
os_exceptions on_agent e queue_wave_math_error = e math_error
os_exceptions on_agent e queue_wave_illegal_instruction = e illegal_instruction_exception
os_exceptions on_agent e queue_wave_memory_violation = e memory_violation_exception
os_exceptions on_agent e queue_wave_address_error = e address_error_exception
os_exceptions on_agent e device_memory_violation = e memory_violation_exception && on_agent

abbrev pub is_single_step : WaveState → Bool
is_single_step single_step = true
is_single_step _ = false

abbrev pub is_run : WaveState → Bool
is_run run = true
is_run _ = false

abbrev pub same_state : WaveState → WaveState → Bool
same_state stop s = is_stop s
same_state run s = is_run s
same_state single_step s = is_single_step s

abbrev pub is_some {ℓ} : {A : Type ℓ} → Option A → Bool
is_some none = false
is_some (some a) = true

module _ {I : Type 0} (s : Setting I) where
  abbrev pub original_instruction_of : World I → Option I
  original_instruction_of w = elim (w.wave.displaced_stepping) [
    | none ↦ none
    | some id ↦ elim (find_displaced id w.displaced_steppings) [
      | none ↦ none
      | some d ↦ some d.original_instruction
    ]
  ]

  -- The instruction at the pc, if it may be looked at.
  abbrev pub next_instruction : WaveState → World I → Option I
  next_instruction state w =
      if not (is_some w.wave.displaced_stepping) && is_single_step state
      then s.instruction_at (pc_of w.wave)
      else none

  abbrev pub ends_wave : World I → (instruction : Option I) → Bool
  ends_wave w instruction =
      elim (if is_some w.wave.displaced_stepping then original_instruction_of w else instruction) [
        | none ↦ false
        | some i ↦ s.is_terminating_instruction i
      ]

  -- Whether the last stop event has been raised and not been reported.
  unfoldable pub has_unreported_stop_event : World I → Bool
  unfolding last_stop_event
  has_unreported_stop_event w = elim (last_stop_event w) [
    | none ↦ false
    | some e ↦ ltb (event_order e.event_state) (event_order reported)
  ]

  -- A wave that ran is stopped on request: an event tells that it is.
  unfoldable pub acknowledge : (prev_state : WaveState) → World I → World I
  unfolding raise_event
  acknowledge prev_state w =
      let w' : World I = record w { wave = record (w.wave) { stop_reason = no_reason } } in
      if is_visible w'.wave.visibility
      then raise_event
          (if is_single_step prev_state then wave_command_terminated else wave_stop_event) w'
      else w'

  -- Once the registers are those of the new state: a wave that is resumed, or that is stopped.
  unfoldable pub settle : (prev_state state : WaveState) → World I → Result (World I)
  settle prev_state state w =
      if not (is_stop state)
      then (assert (is_stop prev_state)
          >> assert (not (has_unreported_stop_event w))
          >> ok (record w {
            wave = record (w.wave) {
              last_stopped_pc = pc_of w.wave;
              last_stop_event_id = none;
              stop_reason = no_reason;
            };
          }))
      else ok (if not (is_stop prev_state) then acknowledge prev_state w else w)

  -- The instruction is simulated, with the registers that it leaves, if it can be.
  abbrev pub simulated : World I → (instruction : Option I) → Bool × Registers
  simulated w instruction = elim (w.wave.displaced_stepping) [
    | some id ↦ elim (find_displaced id w.displaced_steppings) [
      | none ↦ (false, w.wave.registers)
      | some d ↦ elim (d.to) [
        | some address ↦ (false, w.wave.registers)
        | none ↦ s.simulate w.wave.registers d.from d.original_instruction
      ]
    ]
    | none ↦ elim instruction [
      | none ↦ (false, w.wave.registers)
      | some i ↦
          if s.can_simulate w.wave.registers i
          then s.simulate w.wave.registers (pc_of w.wave) i
          else (false, w.wave.registers)
    ]
  ]

  unfoldable pub simulate_next : (instruction : Option I) → World I → Result (World I)
  unfolding update wave_state_changed
  simulate_next instruction w =
      let (success, r) = simulated w instruction in
      let w' : World I = record w { wave = record (w.wave) { registers = r } } in
      if success then (update s r w' >>= λ u. wave_state_changed u) else ok w'

  unfoldable pub park_or_unpark : WaveState → World I → Result (World I)
  unfolding park unpark
  park_or_unpark state w =
      if s.park_stopped_waves
      then (if is_stop state then park s w else (unpark w.wave >>= λ v. ok (record w { wave = v })))
      else ok w

  -- The state changes, and the rest of `set_state`. What is sent to the driver is given back.
  unfoldable pub change_state :
      (on_agent : Bool)
      → WaveState
      → WaveExceptions
      → (instruction : Option I) → World I
      → Result (World I × Option (OsException → Bool))
  unfolding wave_state_changed settle
  change_state on_agent state exceptions instruction w =
      let w' : World I = record w {
        wave = record (w.wave) {
          registers =
              wave_set_state s.ttmps_always_initialized w.wave.state w.wave.stop_reason state
                w.wave.registers;
          state = state;
        };
      } in
      wave_state_changed w' >>= λ counted. park_or_unpark state counted >>= λ parked.
      settle w.wave.state state parked >>= λ settled.
      (if is_single_step state && is_no_exception exceptions
        then simulate_next instruction settled
        else ok settled)
      >>= λ stepped. ok (
          if is_no_exception exceptions then (stepped, none) else (
            record stepped {
              wave = record (stepped.wave) {
                registers = wave_set_halt true stepped.wave.registers;
              };
            },
            some (os_exceptions on_agent exceptions),
          ))

  -- `set_state`, with what it does to terminate the wave.
  unfoldable pub set_state_with :
      (terminate : World I → Result (World I × Option (OsException → Bool))) (on_agent : Bool)
      → WaveState
      → WaveExceptions
      → World I
      → Result (World I × Option (OsException → Bool))
  unfolding change_state raise_event
  set_state_with terminate on_agent state exceptions w =
      assert (is_no_exception exceptions || not (is_stop state))
      >> (if same_state w.wave.state state
          then ok (w, none)
          else assert (not (is_some w.wave.displaced_stepping) || not (is_run state))
            >> (let w' : World I = record w {
              wave = record (w.wave) { stop_requested = is_stop state };
            } in
                let instruction = next_instruction state w' in
                if is_single_step state && is_no_exception exceptions && ends_wave w' instruction
                then (terminate w' >>= λ t. ok (raise_event wave_command_terminated t.0, t.1))
                else change_state on_agent state exceptions instruction w'))

  -- `set_state (AMD_DBGAPI_WAVE_STATE_RUN)`, which never terminates the wave.
  abbrev pub set_state_run :
      (on_agent : Bool) → World I → Result (World I × Option (OsException → Bool))
  set_state_run on_agent w = set_state_with (λ t. err fatal) on_agent run (λ e. false) w

  unfoldable pub terminate :
      (on_agent : Bool) → World I → Result (World I × Option (OsException → Bool))
  unfolding set_state_with release
  terminate on_agent w =
      elim (w.wave.displaced_stepping) [
        | none ↦ ok w
        | some id ↦ release id w.displaced_steppings >>= λ ds. ok (record w {
          wave = record (w.wave) { displaced_stepping = none };
          displaced_steppings = ds;
        })
      ]
      >>= λ released.
          queue_instruction s.from_core released.terminating_instruction_ptr
            s.allocate_terminating_instruction
          >>= λ (address, ptr). set_state_run on_agent (record released {
            wave = record (write_pc_register address released.wave) {
              visibility = hidden_at_terminating_instruction;
            };
            terminating_instruction_ptr = ptr;
          })

  unfoldable pub set_state :
      (on_agent : Bool)
      → WaveState
      → WaveExceptions
      → World I
      → Result (World I × Option (OsException → Bool))
  unfolding set_state_with terminate
  set_state on_agent state exceptions w =
      set_state_with (terminate on_agent) on_agent state exceptions w
