-- ===== src/Wave/Machine/SetState/Stops.antt =====
-- Stopping a wave that runs, on request: `set_state (AMD_DBGAPI_WAVE_STATE_STOP)` of src/wave.cpp.
use rocdbgapi.Base.{
  suc, ◌-◌, ◌<◌, ◌≡◌, refl, sym, ap, ◌∙◌, arith, Bool, true, false, not, ◌&&◌, ◌||◌, Bool-cases,
  inl, inr, none, ℕ, ◌⊎◌, Option, ltb, if◌then◌else◌,
}
use rocdbgapi.Status.{Status, Result, ok, err, ◌>>=◌}
use rocdbgapi.Base.Flags.{has}
use rocdbgapi.Architecture.State.Halt.{IsStopped, wave_set_state-halt}
use rocdbgapi.Architecture.{
  Registers, WaveState, run, single_step, stop, StopReasons, no_reason, is_no_reason,
  ttmp6_wave_stopped_mask,
}
use rocdbgapi.Architecture.State.{state_registers, is_stop, wave_set_state}
use rocdbgapi.Wave.Machine.{
  EventKind, wave_stop_event, wave_command_terminated, is_visible, Wave, World, Setting, pc_of,
  raise_event,
}
use rocdbgapi.Wave.Machine.SetState.{
  WaveExceptions, is_single_step, same_state, is_some, acknowledge, park_or_unpark, set_state,
}
use rocdbgapi.Wave.Machine.SetState.Parks.{IsPc, IsParkedAs, IsAddressed, IsRefused, park_stopped}

-- What holds of a wave between calls: it is parked if it is stopped and its architecture parks waves,
-- its registers say whether it is stopped, and a wave that runs is counted and has no stop event.
pub record IsConsistent {I : Type 0} (s : Setting I) (w : World I) : Type 0 where
  pub parked : w.wave.is_parked ≡ (is_stop w.wave.state && s.park_stopped_waves)
  pub flagged : IsStopped (is_stop w.wave.state) w.wave.registers
  pub counted : is_stop w.wave.state ≡ false → 0 < w.waves_running
  pub no_event : is_stop w.wave.state ≡ false → w.wave.last_stop_event_id ≡ none
  pub is_pc : IsPc w.wave

abbrev pub no_exceptions : WaveExceptions
no_exceptions e = false

pub same_stop : (x : WaveState) → same_state x stop ≡ is_stop x
same_stop run = refl
same_stop single_step = refl
same_stop stop = refl

or_true : (b : Bool) → (b || true) ≡ true
or_true b = ground arith

registers_keep :
    (init : Bool) (state : WaveState) (r : Registers)
    → ((state_registers init state r).pc ≡ r.pc)
      × ((state_registers init state r).ttmp7 ≡ r.ttmp7)
      × ((state_registers init state r).ttmp11 ≡ r.ttmp11)
unfolding state_registers
registers_keep init run r = (refl, refl, refl)
registers_keep init single_step r = (refl, refl, refl)
registers_keep init stop r = (refl, refl, refl)

-- The registers of a new state have the pc of the old one.
pub set_keeps :
    (init : Bool) (prev state : WaveState) (reason : StopReasons) (r : Registers)
    → ((wave_set_state init prev reason state r).pc ≡ r.pc)
      × ((wave_set_state init prev reason state r).ttmp7 ≡ r.ttmp7)
      × ((wave_set_state init prev reason state r).ttmp11 ≡ r.ttmp11)
unfolding wave_set_state
set_keeps init prev state reason r =
    elim (Bool-cases (not (is_stop state) && is_stop prev && not (is_no_reason reason))) [
      | inl e ↦ rw e (registers_keep init state r)
      | inr e ↦ rw e (registers_keep init state r)
    ]

-- What stopping leaves: a stopped wave that is not counted any more, with the pc that it had.
pub record IsStoppedFrom {I : Type 0} (s : Setting I) (w w' : World I) : Type 0 where
  pub is_stopped : w'.wave.state ≡ stop
  pub consistent : IsConsistent s w'
  pub fewer : suc w'.waves_running ≡ w.waves_running
  pub same_pc : pc_of w'.wave ≡ pc_of w.wave

-- The event leaves it so.
module _ {I : Type 0} (s : Setting I) (w w' : World I) (h : IsStoppedFrom s w w') where
  no_longer : {A : Type 0} → is_stop w'.wave.state ≡ false → A
  no_longer e = absurd (ground (arith, ap is_stop h.is_stopped, e))

  raised :
      (kind : EventKind)
      → IsStoppedFrom s w
          (raise_event kind (record w' { wave = record (w'.wave) { stop_reason = no_reason } }))
  unfolding raise_event pc_of
  raised kind = record {
    is_stopped = h.is_stopped;
    consistent = record {
      parked = h.consistent.parked;
      flagged = h.consistent.flagged;
      counted = h.consistent.counted;
      no_event = no_longer;
      is_pc = record {
        in_space = h.consistent.is_pc.in_space;
        low = h.consistent.is_pc.low;
        word = h.consistent.is_pc.word;
      };
    };
    fewer = h.fewer;
    same_pc = h.same_pc;
  }

  pub acknowledge-IsStoppedFrom : (prev : WaveState) → IsStoppedFrom s w (acknowledge s prev w')
  unfolding acknowledge pc_of
  acknowledge-IsStoppedFrom prev = elim (Bool-cases (is_visible w'.wave.visibility)) [
    | inl e ↦
        rw e (raised (if is_single_step prev then wave_command_terminated else wave_stop_event))
    | inr e ↦ rw e (record {
      is_stopped = h.is_stopped;
      consistent = record {
        parked = h.consistent.parked;
        flagged = h.consistent.flagged;
        counted = h.consistent.counted;
        no_event = no_longer;
        is_pc = record {
          in_space = h.consistent.is_pc.in_space;
          low = h.consistent.is_pc.low;
          word = h.consistent.is_pc.word;
        };
      };
      fewer = h.fewer;
      same_pc = h.same_pc;
    })
  ]

module _ {I : Type 0} (s : Setting I) (on_agent : Bool) (w : World I) (small : IsAddressed s w)
    (c : IsConsistent s w) (runs : is_stop w.wave.state ≡ false) where
  goes : ltb 0 w.waves_running ≡ true
  goes = ground (arith, c.counted runs)

  not_parked : w.wave.is_parked ≡ false
  not_parked = c.parked ∙ ap (λ b. b && s.park_stopped_waves) runs

  -- The wave with its new registers and state.
  abbrev changed : Wave
  changed = record (w.wave) {
    stop_requested = true;
    registers =
        wave_set_state s.ttmps_always_initialized w.wave.state w.wave.stop_reason stop
          w.wave.registers;
    state = stop;
  }

  kept :
      (changed.registers.pc ≡ w.wave.registers.pc)
      × (changed.registers.ttmp7 ≡ w.wave.registers.ttmp7)
      × (changed.registers.ttmp11 ≡ w.wave.registers.ttmp11)
  kept = set_keeps s.ttmps_always_initialized w.wave.state stop w.wave.stop_reason w.wave.registers

  flag : has changed.registers.ttmp6 ttmp6_wave_stopped_mask ≡ true
  flag =
      (wave_set_state-halt s.ttmps_always_initialized w.wave.state w.wave.stop_reason stop
        w.wave.registers (c.flagged ∙ runs)).0

  changed_pc : pc_of changed ≡ pc_of w.wave
  unfolding pc_of
  changed_pc = rw (not_parked) kept.0

  changed-IsPc : IsPc changed
  changed-IsPc = record {
    in_space = omega (arith, changed_pc, c.is_pc.in_space);
    low = omega (arith, changed_pc, kept.0, c.is_pc.low);
    word = omega (arith, kept.2, c.is_pc.word);
  }

  -- The world where the wave is to be parked.
  abbrev counted : World I
  counted = record w { waves_running = w.waves_running - 1; wave = changed }

  -- What is between the changed wave and the event.
  set_state-parks :
      (r : Result (World I))
      → park_or_unpark s stop counted ≡ r
      → set_state s on_agent stop no_exceptions w
        ≡ (r >>= λ u. ok (acknowledge s w.wave.state u, none))
  unfolding set_state
  set_state-parks (ok u) e =
      rw (same_stop w.wave.state, runs, or_true (not (is_some w.wave.displaced_stepping)), goes, e)
        refl
  set_state-parks (err x) e =
      rw (same_stop w.wave.state, runs, or_true (not (is_some w.wave.displaced_stepping)), goes, e)
        refl

  parked-IsStoppedFrom :
      (p : Wave) (ptr : Option ℕ)
      → IsParkedAs s.park_stopped_waves changed p
      → IsStoppedFrom s w (record counted { wave = p; park_instruction_ptr = ptr })
  parked-IsStoppedFrom p ptr f = record {
    is_stopped = f.same_state;
    consistent = record {
      parked = f.is_parked ∙ sym (ap (λ x. is_stop x && s.park_stopped_waves) f.same_state);
      flagged =
          ap (λ t. has t ttmp6_wave_stopped_mask) f.same_flags
          ∙ flag
          ∙ sym (ap is_stop f.same_state);
      counted = λ e. absurd (ground (arith, ap is_stop f.same_state, e));
      no_event = λ e. absurd (ground (arith, ap is_stop f.same_state, e));
      is_pc = f.is_pc;
    };
    fewer = omega (arith, c.counted runs);
    same_pc = f.same_pc ∙ changed_pc;
  }

  -- Before the event is raised.
  pub stop_leaves :
      ((u : World I) × (set_state s on_agent stop no_exceptions w
          ≡ ok (acknowledge s w.wave.state u, none))
        × IsStoppedFrom s w u
        × (u.wave.visibility ≡ w.wave.visibility))
      ⊎ ((e : Status) × (set_state s on_agent stop no_exceptions w ≡ err e) × IsRefused s w e)
  stop_leaves = elim (park_stopped s counted small changed-IsPc refl not_parked) [
    | inl (p, ptr, e, f) ↦ inl (
      record counted { wave = p; park_instruction_ptr = ptr },
      set_state-parks _ e,
      parked-IsStoppedFrom p ptr f,
      f.same_visibility,
    )
    | inr (e, thrown, r) ↦
        inr (e, set_state-parks _ thrown, record { parks = r.parks; thrown = r.thrown })
  ]

  -- Stopping a wave that runs fails only where the wave is to be parked and the queue throws when it
  -- is asked for its park instruction, and then with what the queue throws. Else, where the wave and
  -- its counts are as they are between calls, they are so again, the wave is stopped and is not
  -- counted any more, and the client sees the same pc, also where the wave is parked. The address that
  -- the queue gives has 64 bits.
  pub stop_goes_through :
      ((w' : World I) × (set_state s on_agent stop no_exceptions w ≡ ok (w', none))
        × IsStoppedFrom s w w')
      ⊎ ((e : Status) × (set_state s on_agent stop no_exceptions w ≡ err e) × IsRefused s w e)
  stop_goes_through = elim stop_leaves [
    | inl (u, e, h, v) ↦
        inl (acknowledge s w.wave.state u, e, acknowledge-IsStoppedFrom s w u h w.wave.state)
    | inr refused ↦ inr refused
  ]
