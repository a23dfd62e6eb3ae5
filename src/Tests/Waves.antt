-- ===== src/Tests/Waves.antt =====
-- A wave whose architecture parks it, running, stopped and resumed.
use rocdbgapi.Base.{
  ℕ, ◌≢◌, ◌<◌, ◌⊎◌, Option, subst, ◌/◌, ◌^◌, ◌≡◌, refl, arith, true, false, ◌&&◌, none, some, [],
  ◌∷◌, ◌==◌, Bool-cases, inl, inr, ap, sym,
}
use rocdbgapi.Base.Flags.{has}
use rocdbgapi.Utils.{bit_extract, bit_mask}
use rocdbgapi.Status.{Status, Result, catch_status, fatal, ok, err}
use rocdbgapi.Architecture.{
  Registers, run, single_step, stop, fp_inexact, inexact, StopReasons, no_reason,
  signaled_exceptions, clear_stop_reasons,
}
use rocdbgapi.Architecture.State.{
  save_pc_for_park, saved_parked_pc, wave_set_state, wave_get_halt, wave_set_halt,
}
use rocdbgapi.Event.{EventSetting, process_next_pending_event}
use rocdbgapi.Event.Pending.{IsPending, IsReported, process_next_pending_event-IsReported}
use rocdbgapi.Event.Cycle.{IsCycled, stop_event-IsCycled}
use rocdbgapi.Queue.Chunks.{occurrences}
use rocdbgapi.Wave.Machine.{
  Event, EventKind, wave_stop_event, queued, find_event, visible, Wave, World, Setting, pc_of,
  queue_instruction, client_visible_state,
}
use rocdbgapi.Wave.Machine.SetState.{has_unreported_stop_event, set_state}
use rocdbgapi.Architecture.Signals.{signaled-clear_stop_reasons}
use rocdbgapi.Architecture.State.Halt.{IsStopped, wave_set_state-halt, wave_get_halt-wave_set_halt}
use rocdbgapi.Architecture.State.Parked.{saved_parked_pc-save_pc_for_park}
use rocdbgapi.Wave.Machine.SetState.Parks.{IsPc, IsAddressed, IsRefused}
use rocdbgapi.Wave.Machine.SetState.Stops.{
  IsConsistent, IsStoppedFrom, no_exceptions, stop_goes_through,
}
use rocdbgapi.Wave.Machine.SetState.Resumes.{IsResumedFrom, resume_goes_through}
use rocdbgapi.Wave.Machine.Entry.{wave_stop, stop_codes}
use rocdbgapi.Wave.Machine.Entry.Stop.{CanStop, stop_never_fatal}
use rocdbgapi.Wave.Machine.SetState.Seen.{single_step_seen_as_run}

abbrev pub setting : Setting ℕ
setting = record {
  park_stopped_waves = true;
  ttmps_always_initialized = false;
  minimum_instruction_alignment = 4;
  from_core = false;
  allocate_park_instruction = ok 0x7000;
  allocate_terminating_instruction = ok 0x7020;
  initialize_ttmps = λ r. r;
  instruction_at = λ pc. some pc;
  is_terminating_instruction = λ i. false;
  can_simulate = λ r i. false;
  simulate = λ r pc i. (false, r);
}

abbrev running_registers : Registers
running_registers = record {
  pc = 0x12_3456_789c;
  status = 0;
  mode = 2 ^ 11;
  trapsts = 33;
  ttmp6 = 0;
  ttmp7 = 5;
  ttmp11 = 0x8000_0003;
}

abbrev running_wave : Wave
running_wave = record {
  state = single_step;
  ttmps_initialized = true;
  stop_requested = false;
  stop_reason = no_reason;
  last_stopped_pc = 0x12_3456_7898;
  last_stop_event_id = none;
  visibility = visible;
  is_parked = false;
  displaced_stepping = none;
  registers = running_registers;
}

abbrev running : World ℕ
running = record {
  wave = running_wave;
  waves_running = 3;
  events = [];
  pending_events = [];
  next_event_id = 1;
  displaced_steppings = [];
  park_instruction_ptr = none;
  terminating_instruction_ptr = none;
}

running-IsPc : IsPc running_wave
unfolding pc_of
running-IsPc = record { in_space = omega arith; low = refl; word = omega arith }

running-IsConsistent : IsConsistent setting running
running-IsConsistent = record {
  parked = refl;
  flagged = refl;
  counted = λ e. omega arith;
  no_event = λ e. refl;
  is_pc = running-IsPc;
}

-- The queue has no park instruction yet, and allocates one.
running-IsAddressed : IsAddressed setting running
unfolding queue_instruction
running-IsAddressed address ptr e = below (address_of e)
  where
    address_of :
        ◌≡◌ {A = Result (ℕ × Option ℕ)} (ok (0x7000, some 0x7000)) (ok (address, ptr))
        → 0x7000 ≡ address
    address_of e = cc

    below : 0x7000 ≡ address → address < 2 ^ 64
    below e = omega arith

stop_goes_through_example :
    ((w' : World ℕ) × (set_state setting false stop no_exceptions running ≡ ok (w', none))
      × IsStoppedFrom setting running w')
    ⊎ ((e : Status) × (set_state setting false stop no_exceptions running ≡ err e)
        × IsRefused setting running e)
stop_goes_through_example =
    stop_goes_through setting false running running-IsAddressed running-IsConsistent refl

single_step_seen_as_run_example :
    (client_visible_state running ≡ single_step)
    × (((w' : World ℕ) × (set_state setting false stop no_exceptions running ≡ ok (w', none))
          × (w'.wave.state ≡ stop)
          × (client_visible_state w' ≡ run))
        ⊎ ((e : Status) × (set_state setting false stop no_exceptions running ≡ err e)
            × IsRefused setting running e))
single_step_seen_as_run_example =
    single_step_seen_as_run setting false running running-IsAddressed running-IsConsistent refl refl

-- The same wave, stopped and parked.
abbrev pub stopped : World ℕ
stopped = record {
  wave = record {
    state = stop;
    ttmps_initialized = true;
    stop_requested = true;
    stop_reason = no_reason;
    last_stopped_pc = 0x12_3456_7898;
    last_stop_event_id = none;
    visibility = visible;
    is_parked = true;
    displaced_stepping = none;
    registers = record {
      pc = 0x7000;
      status = 2 ^ 13;
      mode = 2 ^ 11;
      trapsts = 33;
      ttmp6 = 2 ^ 30;
      ttmp7 = 0x3456_789c;
      ttmp11 = 0x8000_0903;
    };
  };
  waves_running = 2;
  events = [];
  pending_events = [];
  next_event_id = 2;
  displaced_steppings = [];
  park_instruction_ptr = none;
  terminating_instruction_ptr = none;
}

stopped-IsConsistent : IsConsistent setting stopped
unfolding pc_of saved_parked_pc bit_extract bit_mask
stopped-IsConsistent = record {
  parked = refl;
  flagged = refl;
  counted = λ e. absurd (ground arith);
  no_event = λ e. refl;
  is_pc = record { in_space = omega arith; low = refl; word = omega arith };
}

resume_goes_through_example :
    (w' : World ℕ) × (set_state setting false run no_exceptions stopped ≡ ok (w', none))
    × IsResumedFrom setting stopped w'
unfolding has_unreported_stop_event
resume_goes_through_example =
    resume_goes_through setting false stopped stopped-IsConsistent refl refl refl

wave_set_state-halt_example :
    let r' = wave_set_state false single_step no_reason stop running_registers in
    IsStopped true r'
    × (wave_get_halt r' ≡ wave_get_halt running_registers)
    × (has r'.status (2 ^ 13) ≡ true)
wave_set_state-halt_example =
    wave_set_state-halt false single_step no_reason stop running_registers refl

wave_get_halt-wave_set_halt_example : wave_get_halt (wave_set_halt true running_registers) ≡ true
wave_get_halt-wave_set_halt_example = wave_get_halt-wave_set_halt true running_registers

saved_parked_pc-save_pc_for_park_example :
    (saved_parked_pc (save_pc_for_park 0x12_3456_789c running_registers) ≡ 0x12_3456_789c)
    × ((save_pc_for_park 0x12_3456_789c running_registers).ttmp11 / 2 ^ 23
        ≡ running_registers.ttmp11 / 2 ^ 23)
saved_parked_pc-save_pc_for_park_example =
    saved_parked_pc-save_pc_for_park 0x12_3456_789c running_registers (omega arith)

-- An inexact result stays signaled.
abbrev inexact_reason : StopReasons
inexact_reason fp_inexact = true
inexact_reason _ = false

signaled-clear_stop_reasons_example :
    signaled_exceptions (clear_stop_reasons inexact_reason running_registers) inexact
    ≡ (signaled_exceptions running_registers inexact && true)
signaled-clear_stop_reasons_example =
    signaled-clear_stop_reasons inexact_reason running_registers inexact

-- Suspending the queue leaves the wave as it runs.
abbrev HoldsCanStop : Option (World ℕ) → Type 0
HoldsCanStop none = Unit
HoldsCanStop (some w) = CanStop setting w

running-CanStop : CanStop setting running
unfolding queue_instruction
running-CanStop = record {
  consistent = running-IsConsistent;
  addressed = running-IsAddressed;
  not_refused = λ e r. never e r.thrown;
}
  where
    never : (e : Status) → ◌≡◌ {A = Result (ℕ × Option ℕ)} (ok (0x7000, some 0x7000)) (err e) → ⊥
    never e p = cc

stop_never_fatal_example :
    catch_status stop_codes (wave_stop setting false true false (λ w. some running) (some running))
    ≢ fatal
stop_never_fatal_example =
    stop_never_fatal setting false true false (λ w. some running)
      (λ w w' e. subst HoldsCanStop e running-CanStop) (some running)

-- The stopped wave with its stop event pending.
abbrev stop_event : Event
stop_event = record { event_id = 1; event_kind = wave_stop_event; event_state = queued }

abbrev with_event : World ℕ
with_event = record stopped {
  wave = record (stopped.wave) { last_stop_event_id = some 1 };
  events = stop_event ∷ [];
  pending_events = 1 ∷ [];
}

with_event-IsPending : IsPending with_event
unfolding occurrences
with_event-IsPending = record {
  once = λ id. elim (Bool-cases (1 == id)) [
    | inl same ↦ let back : (id == 1) ≡ true = ground arith in rw (same, back) refl
    | inr apart ↦ let back : (id == 1) ≡ false = ground arith in rw (apart, back) refl
  ];
}

-- A process that does nothing else for its events.
abbrev events_only : EventSetting ℕ
events_only = record {
  runtime_enable_during_attach = λ id. false;
  breakpoint_resume_event_id = λ id. none;
  send_exceptions = λ w. ok w;
  flush_caches = λ w. ok w;
  process_queues = λ w. ok w;
}

process_next_pending_event-IsReported_example :
    (e : Event) × (w' : World ℕ) × (find_event 1 with_event.events ≡ some e)
    × (process_next_pending_event events_only true false with_event
        ≡ ok (some (1, e.event_kind), w'))
    × IsReported 1 [] with_event w'
process_next_pending_event-IsReported_example =
    process_next_pending_event-IsReported events_only 1 [] with_event with_event-IsPending refl

stop_event-IsCycled_example : IsCycled events_only 1 with_event
stop_event-IsCycled_example =
    stop_event-IsCycled events_only 1 [] with_event with_event-IsPending refl refl refl
      λ e found. inl (ap kind_of (sym found))
  where
    kind_of : Option Event → EventKind
    kind_of none = wave_stop_event
    kind_of (some e) = e.event_kind
