-- ===== src/Architecture/State/Halt.antt =====
-- `status.halt` of a wave, which ttmp6 saves while the wave is stopped.
use rocdbgapi.Base.{
  ℕ, ◌^◌, ◌≡◌, refl, ◌∙◌, arith, Bool, true, false, not, ◌&&◌, ◌||◌, Bool-cases, inl, inr, ◌⊎◌,
  if◌then◌else◌, bit_and, bit_or,
}
use rocdbgapi.Base.Flags.{has, not32, flag_set, flag_left, flag_cleared, flag_kept}
use rocdbgapi.Architecture.{
  Registers, WaveState, run, single_step, stop, StopReasons, is_no_reason, ttmp6_wave_stopped_mask,
}
use rocdbgapi.Architecture.State.{
  resumed_status, resumed_ttmp6, stopped_status, stopped_ttmp6, state_registers, is_stop,
  wave_set_state, wave_get_halt, wave_set_halt,
}

-- The flags once a wave is stopped, and once it is resumed.
stopped_is_set : (status ttmp6 : ℕ) → has (stopped_ttmp6 status ttmp6) (2 ^ 30) ≡ true
stopped_is_set status ttmp6 = flag_set 30 _ (2 ^ 30) refl

stopped_is_cleared : (ttmp6 : ℕ) → has (resumed_ttmp6 ttmp6) (2 ^ 30) ≡ false
stopped_is_cleared ttmp6 =
    flag_cleared 30 ttmp6 (bit_or (2 ^ 30) (2 ^ 29)) (omega arith) (omega arith) refl

saved_is_halt : (status ttmp6 : ℕ) → has (stopped_ttmp6 status ttmp6) (2 ^ 29) ≡ has status (2 ^ 13)
saved_is_halt status ttmp6 = flag_left 29 _ (2 ^ 30) refl ∙ saved (Bool-cases (has status (2 ^ 13)))
  where
    saved :
        (has status (2 ^ 13) ≡ true) ⊎ (has status (2 ^ 13) ≡ false)
        → has
            (if has status (2 ^ 13)
              then bit_or (resumed_ttmp6 ttmp6) (2 ^ 29)
              else resumed_ttmp6 ttmp6)
            (2 ^ 29)
          ≡ has status (2 ^ 13)
    saved (inl e) = rw e (flag_set 29 (resumed_ttmp6 ttmp6) (2 ^ 29) refl)
    saved (inr e) =
        rw e (flag_cleared 29 ttmp6 (bit_or (2 ^ 30) (2 ^ 29)) (omega arith) (omega arith) refl)

halt_is_saved : (status ttmp6 : ℕ) → has (resumed_status status ttmp6) (2 ^ 13) ≡ has ttmp6 (2 ^ 29)
halt_is_saved status ttmp6 = elim (Bool-cases (has ttmp6 (2 ^ 29))) [
  | inl e ↦ rw e (flag_set 13 _ (2 ^ 13) refl)
  | inr e ↦
      rw e (flag_cleared 13 status (bit_or (2 ^ 13) (2 ^ 18)) (omega arith) (omega arith) refl)
]

halted_is_set : (init : Bool) (status : ℕ) → has (stopped_status init status) (2 ^ 13) ≡ true
halted_is_set true status = flag_set 13 status (2 ^ 13) refl
halted_is_set false status = flag_left 13 _ (2 ^ 18) refl ∙ flag_set 13 status (2 ^ 13) refl

-- The flag of ttmp6 tells whether the wave is stopped.
abbrev pub IsStopped : Bool → Registers → Type 0
IsStopped b r = has r.ttmp6 ttmp6_wave_stopped_mask ≡ b

module _ (init : Bool) (r : Registers) where
  registers-IsStopped :
      (state : WaveState) → IsStopped (is_stop state) (state_registers init state r)
  unfolding state_registers
  registers-IsStopped stop = stopped_is_set r.status r.ttmp6
  registers-IsStopped run = stopped_is_cleared r.ttmp6
  registers-IsStopped single_step = stopped_is_cleared r.ttmp6

  registers-halt :
      (state : WaveState)
      → IsStopped (not (is_stop state)) r
      → wave_get_halt (state_registers init state r) ≡ wave_get_halt r
  unfolding state_registers wave_get_halt
  registers-halt stop e = rw (e, stopped_is_set r.status r.ttmp6) (saved_is_halt r.status r.ttmp6)
  registers-halt run e = rw (e, stopped_is_cleared r.ttmp6) (halt_is_saved r.status r.ttmp6)
  registers-halt single_step e = rw (e, stopped_is_cleared r.ttmp6) (halt_is_saved r.status r.ttmp6)

  registers-halted :
      (state : WaveState)
      → has (state_registers init state r).status (2 ^ 13) ≡ (is_stop state || has r.ttmp6 (2 ^ 29))
  unfolding state_registers
  registers-halted stop = halted_is_set init r.status
  registers-halted run = halt_is_saved r.status r.ttmp6
  registers-halted single_step = halt_is_saved r.status r.ttmp6

-- Stopping a wave that runs, and resuming one that is stopped, sets or clears the flag that says so
-- and leaves the halt bit of the wave as it is; the hardware's halt bit is set in a wave that is
-- stopped, and is the one that was saved in one that is resumed.
pub wave_set_state-halt :
    (init : Bool) (prev_state : WaveState) (reason : StopReasons) (state : WaveState)
    (r : Registers)
    → IsStopped (not (is_stop state)) r
    → let r' = wave_set_state init prev_state reason state r in
      IsStopped (is_stop state) r'
      × (wave_get_halt r' ≡ wave_get_halt r)
      × (has r'.status (2 ^ 13) ≡ (is_stop state || has r.ttmp6 (2 ^ 29)))
unfolding wave_set_state wave_get_halt
wave_set_state-halt init prev_state reason state r e =
    elim (Bool-cases (not (is_stop state) && is_stop prev_state && not (is_no_reason reason))) [
      | inl clears ↦ rw clears (
        registers-IsStopped init r state,
        registers-halt init r state e,
        registers-halted init r state,
      )
      | inr stays ↦ rw stays (
        registers-IsStopped init r state,
        registers-halt init r state e,
        registers-halted init r state,
      )
    ]

-- A halt bit that is set is the one that is got, whether the wave is stopped or not.
pub wave_get_halt-wave_set_halt :
    (halt : Bool) (r : Registers) → wave_get_halt (wave_set_halt halt r) ≡ halt
unfolding wave_get_halt wave_set_halt
wave_get_halt-wave_set_halt halt r = elim (Bool-cases (has r.ttmp6 (2 ^ 30))) [
  | inl e ↦ rw (e, kept halt, e) (saved halt)
  | inr e ↦ rw (e, e) (halted halt)
]
  where
    with_flag : (k : ℕ) → Bool → ℕ → ℕ
    with_flag k b x = if b then bit_or x (2 ^ k) else bit_and x (not32 (2 ^ k))

    kept : (b : Bool) → has (with_flag 29 b r.ttmp6) (2 ^ 30) ≡ has r.ttmp6 (2 ^ 30)
    kept true = flag_left 30 r.ttmp6 (2 ^ 29) refl
    kept false = flag_kept 30 r.ttmp6 (2 ^ 29) (omega arith) (omega arith) refl

    saved : (b : Bool) → has (with_flag 29 b r.ttmp6) (2 ^ 29) ≡ b
    saved true = flag_set 29 r.ttmp6 (2 ^ 29) refl
    saved false = flag_cleared 29 r.ttmp6 (2 ^ 29) (omega arith) (omega arith) refl

    halted : (b : Bool) → has (with_flag 13 b r.status) (2 ^ 13) ≡ b
    halted true = flag_set 13 r.status (2 ^ 13) refl
    halted false = flag_cleared 13 r.status (2 ^ 13) (omega arith) (omega arith) refl
