-- ===== src/Wave/Machine.antt =====
-- A wave of src/wave.h with the registers of its context save area, the events of its process
-- (src/event.h), the count of running waves of its queue and the displaced stepping operations
-- (src/displaced_stepping.h), and the operations of src/wave.cpp that change them, but `set_state`.
-- The queue is suspended, so that registers are read and written in place.
pub mod SetState
pub mod Entry
mod ParkBuffer
use rocdbgapi.Base.{
  ℕ, suc, ◌+◌, ◌-◌, ◌<◌, Bool, true, false, not, ◌&&◌, ◌||◌, Option, none, some, List, [], ◌∷◌,
  ◌++◌, ltb, ◌==◌, if◌then◌else◌, bit_and, bit_or, map,
}
use rocdbgapi.Base.Word.{add64, sub64, not64}
use rocdbgapi.Utils.{is_aligned}
use rocdbgapi.Status.{Result, ok, err, fatal, ◌>>=◌, ◌>>◌, assert}
use rocdbgapi.Architecture.{
  Registers, WaveState, run, single_step, stop, StopReasons, no_reason, is_no_reason,
  single_stepped,
}
use rocdbgapi.Architecture.State.{
  save_pc_for_park, saved_parked_pc, pc_read_only_bits, write_pc, wave_get_state, is_stop,
}

-- `amd_dbgapi_event_kind_t`, and how far an event has come.
pub data EventKind : Type 0 where
  none_kind wave_stop_event wave_command_terminated code_object_list_updated : EventKind
  breakpoint_resume runtime queue_error : EventKind

pub data EventState : Type 0 where
  created queued reported processed : EventState

abbrev pub event_order : EventState → ℕ
event_order created = 0
event_order queued = 1
event_order reported = 2
event_order processed = 3

pub record Event : Type 0 where
  pub event_id : ℕ
  pub event_kind : EventKind
  pub event_state : EventState

pub data Visibility : Type 0 where
  visible hidden_halted_at_launch hidden_at_terminating_instruction : Visibility

abbrev pub is_visible : Visibility → Bool
is_visible visible = true
is_visible _ = false

-- A displaced stepping operation of an instruction in `I`.
pub record DisplacedStepping (I : Type 0) : Type 0 where
  pub displaced_id : ℕ
  pub reference_count : ℕ
  pub original_instruction : I
  pub from : ℕ
  pub to : Option ℕ

pub record Wave : Type 0 where
  pub state : WaveState
  pub ttmps_initialized : Bool
  pub stop_requested : Bool
  pub stop_reason : StopReasons
  pub last_stopped_pc : ℕ
  pub last_stop_event_id : Option ℕ
  pub visibility : Visibility
  pub is_parked : Bool
  pub displaced_stepping : Option ℕ
  pub registers : Registers

pub record World (I : Type 0) : Type 0 where
  pub wave : Wave
  pub waves_running : ℕ
  pub events : List Event
  pub pending_events : List ℕ
  pub next_event_id : ℕ
  pub displaced_steppings : List (DisplacedStepping I)
  pub park_instruction_ptr : Option ℕ
  pub terminating_instruction_ptr : Option ℕ

-- What the agent, the queue and the architecture of the wave are, what the architecture does with
-- instructions, decoding and simulating them, and what `allocate_displaced_instruction` of the queue
-- (in Queue) answers if it is called for one of the two instructions.
pub record Setting (I : Type 0) : Type 0 where
  pub park_stopped_waves : Bool
  pub ttmps_always_initialized : Bool
  pub minimum_instruction_alignment : ℕ
  pub from_core : Bool
  pub allocate_park_instruction : Result ℕ
  pub allocate_terminating_instruction : Result ℕ
  pub initialize_ttmps : Registers → Registers
  pub instruction_at : ℕ → Option I
  pub is_terminating_instruction : I → Bool
  pub can_simulate : Registers → I → Bool
  pub simulate : Registers → (pc : ℕ) → I → Bool × Registers

abbrev pub find_event : ℕ → List Event → Option Event
find_event id [] = none
find_event id (e ∷ rest) = if e.event_id == id then some e else find_event id rest

-- The pc that the client sees, in `read_register`, and what `write_register` does to it.
unfoldable pub pc_of : Wave → ℕ
pc_of w = if w.is_parked then saved_parked_pc w.registers else w.registers.pc

unfoldable pub write_pc_register : ℕ → Wave → Wave
write_pc_register value w =
    if w.is_parked
    then record w {
      registers =
          save_pc_for_park
            (bit_or (bit_and value (not64 pc_read_only_bits))
              (bit_and (saved_parked_pc w.registers) pc_read_only_bits))
            w.registers;
    }
    else record w { registers = write_pc value w.registers }

unfoldable pub unpark : Wave → Result Wave
unfolding pc_of write_pc_register
unpark w =
    assert (not (is_stop w.state))
    >> assert w.is_parked
    >> ok (write_pc_register (pc_of w) (record w { is_parked = false }))

-- `park_instruction_address` and `terminating_instruction_address` of `aql_queue_t`, with the buffer
-- that the queue then has: one that it does not have is allocated.
unfoldable pub queue_instruction :
    (from_core : Bool) (ptr : Option ℕ) → Result ℕ → Result (ℕ × Option ℕ)
queue_instruction true ptr allocated = ok (0, ptr)
queue_instruction false (some address) allocated = ok (address, some address)
queue_instruction false none (ok address) = ok (address, some address)
queue_instruction false none (err e) = err e

module _ {I : Type 0} where
  -- `handle_object_set_t::find` of the displaced stepping operations.
  abbrev pub find_displaced : ℕ → List (DisplacedStepping I) → Option (DisplacedStepping I)
  find_displaced id [] = none
  find_displaced id (d ∷ rest) = if d.displaced_id == id then some d else find_displaced id rest

  -- `release`: the operation goes with its last reference.
  unfoldable pub release : ℕ → List (DisplacedStepping I) → Result (List (DisplacedStepping I))
  release id [] = err fatal
  release id (d ∷ rest) =
      let others = release id rest in
      if d.displaced_id == id
      then (assert (ltb 0 d.reference_count)
          >> ok (
              if d.reference_count - 1 == 0
              then rest
              else record d { reference_count = d.reference_count - 1 } ∷ rest))
      else (others >>= λ ds. ok (d ∷ ds))

  abbrev pub park_instruction : Setting I → World I → Result (ℕ × Option ℕ)
  park_instruction s w =
      queue_instruction s.from_core w.park_instruction_ptr s.allocate_park_instruction

  unfoldable pub park : Setting I → World I → Result (World I)
  unfolding pc_of write_pc_register
  park s w =
      assert (is_stop w.wave.state)
      >> assert (not w.wave.is_parked)
      >> park_instruction s w
      >>= λ (address, ptr).
          let saved : Wave = record (w.wave) {
            registers = save_pc_for_park (pc_of w.wave) w.wave.registers;
          } in
          ok (record w {
            wave = record (write_pc_register address saved) { is_parked = true };
            park_instruction_ptr = ptr;
          })

  -- `compute_queue_t::wave_state_changed`, where the queue knows how many of its waves run.
  unfoldable pub wave_state_changed : World I → Result (World I)
  wave_state_changed w =
      if is_stop w.wave.state
      then (assert (ltb 0 w.waves_running) >> ok (record w { waves_running = w.waves_running - 1 }))
      else ok (record w { waves_running = suc w.waves_running })

  -- An event that is raised is queued at once; those of a stop are remembered.
  unfoldable pub raise_event : EventKind → World I → World I
  raise_event kind w =
      let id = w.next_event_id in
      let event : Event = record { event_id = id; event_kind = kind; event_state = queued } in
      record w {
        wave = record (w.wave) {
          last_stop_event_id = elim kind [
            | wave_command_terminated ↦ some id
            | wave_stop_event ↦ some id
            | _ ↦ w.wave.last_stop_event_id
          ];
        };
        events = event ∷ w.events;
        pending_events = w.pending_events ++ (id ∷ []);
        next_event_id = suc id;
      }

  unfoldable pub last_stop_event : World I → Option Event
  last_stop_event w = elim (w.wave.last_stop_event_id) [
    | none ↦ none
    | some id ↦ find_event id w.events
  ]

  unfoldable pub client_visible_state : World I → WaveState
  unfolding last_stop_event
  client_visible_state w = elim (w.wave.state) [
    | run ↦ run
    | single_step ↦ single_step
    | stop ↦ elim (last_stop_event w) [
      | none ↦ stop
      | some e ↦
          if not (ltb (event_order e.event_state) (event_order reported))
          then stop
          else if w.wave.stop_reason single_stepped
          then single_step
          else run
    ]
  ]

  -- The wave has new registers, those of its context save area. A wave that ran may have stopped.
  unfoldable pub update : Setting I → (cwsr_record : Registers) → World I → Result (World I)
  unfolding park raise_event
  update s cwsr_record w =
      let wave : Wave = record (w.wave) { registers = cwsr_record } in
      if not (is_aligned (pc_of wave) s.minimum_instruction_alignment)
      then err fatal
      else let initialized : Wave =
          if not wave.ttmps_initialized
          then record wave {
            registers = s.initialize_ttmps wave.registers;
            ttmps_initialized = true;
          }
          else wave in
        if is_stop wave.state
        then ok (record w { wave = initialized })
        else let (got, r) =
            wave_get_state s.park_stopped_waves initialized.state initialized.stop_reason
              initialized.registers in
          let seen : Wave = record initialized {
            state = got.0;
            stop_reason = got.1;
            registers = r;
          } in
          if not (is_stop seen.state)
          then ok (record w { wave = seen })
          else (let stopped : World I = record w { wave = seen } in
              (if s.park_stopped_waves then park s stopped else ok stopped) >>= λ w'. ok (
                if is_visible w'.wave.visibility && not (is_no_reason w'.wave.stop_reason)
                then raise_event wave_stop_event w'
                else w'))
