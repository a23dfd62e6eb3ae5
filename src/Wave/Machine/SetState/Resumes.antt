-- ===== src/Wave/Machine/SetState/Resumes.antt =====
-- Resuming a wave that is stopped: `set_state (AMD_DBGAPI_WAVE_STATE_RUN)` of src/wave.cpp.
use rocdbgapi.Base.{
  ℕ, suc, ◌≡◌, refl, sym, ap, ◌∙◌, arith, Bool, true, false, ◌&&◌, Bool-cases, inl, inr, Option,
  none, some, List, ltb,
}
use rocdbgapi.Status.{ok}
use rocdbgapi.Base.Flags.{has}
use rocdbgapi.Architecture.State.Halt.{wave_set_state-halt}
use rocdbgapi.Architecture.{WaveState, run, single_step, stop, no_reason, ttmp6_wave_stopped_mask}
use rocdbgapi.Architecture.State.{saved_parked_pc, is_stop, wave_set_state}
use rocdbgapi.Wave.Machine.{reported, event_order, Event, Wave, World, Setting, find_event, pc_of}
use rocdbgapi.Wave.Machine.SetState.{
  same_state, is_some, has_unreported_stop_event, park_or_unpark, set_state,
}
use rocdbgapi.Wave.Machine.SetState.Parks.{IsPc, IsParkedAs, unpark_resumed}
use rocdbgapi.Wave.Machine.SetState.Stops.{IsConsistent, no_exceptions, set_keeps}

-- What resuming leaves: a wave that runs and is counted, with the pc that it had, and with no stop
-- reason.
pub record IsResumedFrom {I : Type 0} (s : Setting I) (w w' : World I) : Type 0 where
  pub runs : w'.wave.state ≡ run
  pub consistent : IsConsistent s w'
  pub more : w'.waves_running ≡ suc w.waves_running
  pub same_pc : pc_of w'.wave ≡ pc_of w.wave
  pub remembered : w'.wave.last_stopped_pc ≡ pc_of w.wave

not_run : (x : WaveState) → is_stop x ≡ true → same_state x run ≡ false
not_run stop e = refl
not_run run e = absurd (ground (arith, e))
not_run single_step e = absurd (ground (arith, e))

abbrev unreported_in : Option ℕ → List Event → Bool
unreported_in id events =
    let e : Option Event = elim id [ none ↦ none | some i ↦ find_event i events ] in
    elim e [ none ↦ false | some v ↦ ltb (event_order v.event_state) (event_order reported) ]

module _ {I : Type 0} (s : Setting I) where
  has_unreported-eq :
      (w : World I)
      → has_unreported_stop_event s w ≡ unreported_in w.wave.last_stop_event_id w.events
  unfolding has_unreported_stop_event
  has_unreported-eq w = refl

  -- A wave is unparked if its architecture parks waves.
  unpark_if :
      (w : World I)
      → IsPc w.wave
      → w.wave.state ≡ run
      → w.wave.is_parked ≡ s.park_stopped_waves
      → (v : Wave) × (park_or_unpark s run w ≡ ok (record w { wave = v }))
        × IsParkedAs false w.wave v
  unfolding park_or_unpark
  unpark_if w p r e = elim (Bool-cases s.park_stopped_waves) [
    | inl parks ↦
        let (v, q, f) = unpark_resumed w.wave p (ap is_stop r) (e ∙ parks) in
        (v, rw (parks, q) refl, f)
    | inr stays ↦ (
      w.wave,
      rw stays refl,
      record {
        same_pc = refl;
        is_pc = p;
        is_parked = e ∙ stays;
        same_state = refl;
        same_flags = refl;
        same_event = refl;
        same_visibility = refl;
      },
    )
  ]

module _ {I : Type 0} (s : Setting I) (on_agent : Bool) (w : World I) (c : IsConsistent s w)
    (stopped : is_stop w.wave.state ≡ true) (in_place : w.wave.displaced_stepping ≡ none)
    (told : has_unreported_stop_event s w ≡ false) where
  -- The wave with its new registers and state.
  abbrev changed : Wave
  changed = record (w.wave) {
    stop_requested = false;
    registers =
        wave_set_state s.ttmps_always_initialized w.wave.state w.wave.stop_reason run
          w.wave.registers;
    state = run;
  }

  kept :
      (changed.registers.pc ≡ w.wave.registers.pc)
      × (changed.registers.ttmp7 ≡ w.wave.registers.ttmp7)
      × (changed.registers.ttmp11 ≡ w.wave.registers.ttmp11)
  kept = set_keeps s.ttmps_always_initialized w.wave.state run w.wave.stop_reason w.wave.registers

  flag : has changed.registers.ttmp6 ttmp6_wave_stopped_mask ≡ false
  flag =
      (wave_set_state-halt s.ttmps_always_initialized w.wave.state w.wave.stop_reason run
        w.wave.registers (c.flagged ∙ stopped)).0

  changed_pc : pc_of changed ≡ pc_of w.wave
  unfolding pc_of saved_parked_pc
  changed_pc = rw (kept.0, kept.1, kept.2) refl

  changed-IsPc : IsPc changed
  changed-IsPc = record {
    in_space = omega (arith, changed_pc, c.is_pc.in_space);
    low = omega (arith, changed_pc, kept.0, c.is_pc.low);
    word = omega (arith, kept.2, c.is_pc.word);
  }

  parked : changed.is_parked ≡ s.park_stopped_waves
  parked = c.parked ∙ ap (λ b. b && s.park_stopped_waves) stopped

  free : is_some w.wave.displaced_stepping ≡ false
  free = ap is_some in_place

  quiet :
      (p : Wave)
      → IsParkedAs false changed p
      → has_unreported_stop_event s (record w { waves_running = suc w.waves_running; wave = p })
        ≡ false
  quiet p f =
      has_unreported-eq s (record w { waves_running = suc w.waves_running; wave = p })
      ∙ ap (λ i. unreported_in i w.events) f.same_event
      ∙ sym (has_unreported-eq s w)
      ∙ told

  -- Resuming a wave that is stopped never fails, where its stop event was reported and it is not
  -- displaced stepping: where the wave and its counts are as they are between calls, they are so
  -- again, the wave runs and is counted, and goes on at the pc that the client saw, also where it was
  -- parked.
  pub resume_goes_through :
      (w' : World I) × (set_state s on_agent run no_exceptions w ≡ ok (w', none))
      × IsResumedFrom s w w'
  unfolding set_state pc_of
  resume_goes_through =
      let (p, e, f) =
        unpark_if s (record w { waves_running = suc w.waves_running; wave = changed }) changed-IsPc
          refl parked in
      let u : World I = record w { waves_running = suc w.waves_running; wave = p } in
      (
        record u {
          wave = record p {
            last_stopped_pc = pc_of p;
            last_stop_event_id = none;
            stop_reason = no_reason;
          };
        },
        rw (not_run w.wave.state stopped, free, e, stopped) (rw (quiet p f) refl),
        record {
          runs = f.same_state;
          consistent = record {
            parked = f.is_parked ∙ sym (ap (λ x. is_stop x && s.park_stopped_waves) f.same_state);
            flagged =
                ap (λ t. has t ttmp6_wave_stopped_mask) f.same_flags
                ∙ flag
                ∙ sym (ap is_stop f.same_state);
            counted = λ r. omega arith;
            no_event = λ r. refl;
            is_pc = record { in_space = f.is_pc.in_space; low = f.is_pc.low; word = f.is_pc.word };
          };
          more = refl;
          same_pc = f.same_pc ∙ changed_pc;
          remembered = f.same_pc ∙ changed_pc;
        },
      )
