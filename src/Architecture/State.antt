-- ===== src/Architecture/State.antt =====
-- Stopping, resuming, parking and halting a wave: `wave_get_state`, `wave_set_state`,
-- `save_pc_for_park`, `saved_parked_pc`, `wave_get_halt` and `wave_set_halt` of
-- `amdgcn_architecture_t` in src/architecture.cpp.
pub mod Halt
pub mod Parked
use rocdbgapi.Base.{
  ℕ, ◌+◌, ◌-◌, ◌^◌, ◌≤◌, ◌<◌, Bool, true, false, not, ◌&&◌, ◌||◌, List, [], ◌∷◌, ◌==◌,
  if◌then◌else◌, bit_and, bit_or,
}
use rocdbgapi.Base.Word.{◌<<<◌, not64}
use rocdbgapi.Base.Flags.{has, not32}
use rocdbgapi.Utils.{bit_mask, bit_extract}
use rocdbgapi.Architecture.{
  Registers, WaveState, run, single_step, stop, StopReason, breakpoint, watchpoint, single_stepped,
  fp_input_denormal, fp_divide_by_0, fp_overflow, fp_underflow, fp_inexact, fp_invalid_operation,
  int_divide_by_0, debug_trap, assert_trap, trap, memory_violation, address_error,
  illegal_instruction_reason, ecc_error, fatal_halt, Exception, invalid, input_denorm, float_div0,
  overflow, underflow, inexact, int_div0, mem_viol, illegal_inst, addr_watch0, addr_watch1,
  addr_watch2, addr_watch3, xnack_error, wave_begin, wave_end, trap_after_inst, host_trap,
  StopReasons, Exceptions, no_reason, is_no_reason, sq_wave_status_halt_mask,
  sq_wave_status_skip_export_mask, sq_wave_mode_debug_en_mask, ttmp6_wave_stopped_mask,
  ttmp6_saved_status_halt_mask, masked_write, trapsts_read_only_bits, mode_read_only_bits,
  write_mode, write_trapsts, signaled_exceptions, converted, convert_mask, set_exceptions,
  reason_exceptions, clear_stop_reasons,
}

-- `ttmp6_saved_trap_id`, where there is one, as a stop reason.
abbrev pub trap_reason : (ttmp6 : ℕ) → StopReasons
trap_reason ttmp6 assert_trap = bit_extract ttmp6 25 28 == 2
trap_reason ttmp6 debug_trap = bit_extract ttmp6 25 28 == 3
trap_reason ttmp6 breakpoint = bit_extract ttmp6 25 28 == 1
trap_reason ttmp6 trap =
    let trap_id = bit_extract ttmp6 25 28 in
    not (trap_id == 0) && not (trap_id == 1) && not (trap_id == 2) && not (trap_id == 3)
trap_reason ttmp6 _ = false

-- The stop reason for signaled exceptions.
abbrev pub exception_reason : Exceptions → StopReasons
exception_reason e fp_invalid_operation = e invalid
exception_reason e fp_input_denormal = e input_denorm
exception_reason e fp_divide_by_0 = e float_div0
exception_reason e fp_overflow = e overflow
exception_reason e fp_underflow = e underflow
exception_reason e fp_inexact = e inexact
exception_reason e int_divide_by_0 = e int_div0
exception_reason e memory_violation = e xnack_error
exception_reason e address_error = not (e xnack_error) && e mem_viol
exception_reason e illegal_instruction_reason = e illegal_inst
exception_reason e watchpoint = e addr_watch0 || e addr_watch1 || e addr_watch2 || e addr_watch3
exception_reason e single_stepped = e trap_after_inst
exception_reason e trap = e wave_begin || e wave_end
exception_reason e _ = false

-- The pc of a parked wave stands in ttmp7 and ttmp11. The callers test that waves are parked.
unfoldable pub save_pc_for_park : (pc : ℕ) → Registers → Registers
save_pc_for_park pc r = record r {
  ttmp7 = bit_extract pc 0 31;
  ttmp11 = bit_or (bit_and r.ttmp11 (not32 (bit_mask 7 22))) (bit_extract pc 32 47 <<< 7);
}

unfoldable pub saved_parked_pc : Registers → ℕ
saved_parked_pc r = bit_or r.ttmp7 (bit_extract r.ttmp11 7 22 <<< 32)

abbrev pub pc_read_only_bits : ℕ
pc_read_only_bits = 3

abbrev pub write_pc : ℕ → Registers → Registers
write_pc value r = record r {
  pc = bit_or (bit_and value (not64 pc_read_only_bits)) (bit_and r.pc pc_read_only_bits);
}

-- The state of a wave, that was in a state with a stop reason, and its registers: the trap handler
-- may have parked it.
unfoldable pub wave_get_state :
    (park_stopped_waves : Bool)
    → WaveState
    → StopReasons
    → Registers
    → (WaveState × StopReasons) × Registers
wave_get_state park_stopped_waves stop stop_reason r =
    if not (has r.ttmp6 ttmp6_wave_stopped_mask)
    then ((stop, no_reason), r)
    else ((stop, stop_reason), r)
wave_get_state park_stopped_waves state stop_reason r =
    if not (has r.ttmp6 ttmp6_wave_stopped_mask)
    then ((state, no_reason), r)
    else let r' = if park_stopped_waves then write_pc (saved_parked_pc r) r else r in
      ((stop, λ s. exception_reason (signaled_exceptions r') s || trap_reason r.ttmp6 s), r')

-- The registers status and ttmp6 of a wave that is resumed.
abbrev pub resumed_status : (status ttmp6 : ℕ) → ℕ
resumed_status status ttmp6 =
    let cleared =
      bit_and status (not32 (bit_or sq_wave_status_halt_mask sq_wave_status_skip_export_mask)) in
    if has ttmp6 ttmp6_saved_status_halt_mask
    then bit_or cleared sq_wave_status_halt_mask
    else cleared

abbrev pub resumed_ttmp6 : ℕ → ℕ
resumed_ttmp6 ttmp6 =
    bit_and ttmp6 (not32 (bit_or ttmp6_wave_stopped_mask ttmp6_saved_status_halt_mask))

abbrev pub stopped_status : (ttmps_always_initialized : Bool) → ℕ → ℕ
stopped_status ttmps_always_initialized status =
    let halted = bit_or status sq_wave_status_halt_mask in
    if not ttmps_always_initialized then bit_or halted sq_wave_status_skip_export_mask else halted

abbrev pub stopped_ttmp6 : (status ttmp6 : ℕ) → ℕ
stopped_ttmp6 status ttmp6 =
    let cleared = resumed_ttmp6 ttmp6 in
    bit_or
      (if has status sq_wave_status_halt_mask
        then bit_or cleared ttmp6_saved_status_halt_mask
        else cleared)
      ttmp6_wave_stopped_mask

-- The registers that `wave_set_state` writes.
unfoldable pub state_registers :
    (ttmps_always_initialized : Bool) → WaveState → Registers → Registers
state_registers ttmps_always_initialized stop r = write_mode r.mode (record r {
  status = stopped_status ttmps_always_initialized r.status;
  ttmp6 = stopped_ttmp6 r.status r.ttmp6;
})
state_registers ttmps_always_initialized run r =
    write_mode (bit_and r.mode (not32 sq_wave_mode_debug_en_mask))
      (record r { status = resumed_status r.status r.ttmp6; ttmp6 = resumed_ttmp6 r.ttmp6 })
state_registers ttmps_always_initialized single_step r =
    write_mode (bit_or r.mode sq_wave_mode_debug_en_mask)
      (record r { status = resumed_status r.status r.ttmp6; ttmp6 = resumed_ttmp6 r.ttmp6 })

abbrev pub is_stop : WaveState → Bool
is_stop stop = true
is_stop _ = false

-- The wave is in `prev_state` with `stop_reason`.
unfoldable pub wave_set_state :
    (ttmps_always_initialized : Bool) (prev_state : WaveState) (stop_reason : StopReasons)
    (state : WaveState)
    → Registers
    → Registers
unfolding state_registers clear_stop_reasons
wave_set_state ttmps_always_initialized prev_state stop_reason state r =
    let r' = state_registers ttmps_always_initialized state r in
    if not (is_stop state) && is_stop prev_state && not (is_no_reason stop_reason)
    then clear_stop_reasons stop_reason r'
    else r'

unfoldable pub wave_get_halt : Registers → Bool
wave_get_halt r =
    if has r.ttmp6 ttmp6_wave_stopped_mask
    then has r.ttmp6 ttmp6_saved_status_halt_mask
    else has r.status sq_wave_status_halt_mask

unfoldable pub wave_set_halt : (halt : Bool) → Registers → Registers
wave_set_halt halt r =
    if has r.ttmp6 ttmp6_wave_stopped_mask
    then record r {
      ttmp6 =
          if halt
          then bit_or r.ttmp6 ttmp6_saved_status_halt_mask
          else bit_and r.ttmp6 (not32 ttmp6_saved_status_halt_mask);
    }
    else record r {
      status =
          if halt
          then bit_or r.status sq_wave_status_halt_mask
          else bit_and r.status (not32 sq_wave_status_halt_mask);
    }
