-- ===== src/Architecture.antt =====
-- What `amdgcn_architecture_t` of src/architecture.cpp does to the registers of a wave, in its context
-- save area: here, the exceptions that it has signaled. A register has 32 bits, the pc 64.
pub mod State
pub mod Signals
use rocdbgapi.Base.{
  ℕ, ◌+◌, ◌-◌, ◌^◌, ◌≤◌, ◌<◌, Bool, true, false, not, ◌&&◌, ◌||◌, List, [], ◌∷◌, ◌==◌,
  if◌then◌else◌, bit_and, bit_or,
}
use rocdbgapi.Base.Word.{◌<<<◌, not64}
use rocdbgapi.Base.Flags.{has, not32}
use rocdbgapi.Utils.{bit_mask, bit_extract}

pub record Registers : Type 0 where
  pub pc : ℕ
  pub status : ℕ
  pub mode : ℕ
  pub trapsts : ℕ
  pub ttmp6 : ℕ
  pub ttmp7 : ℕ
  pub ttmp11 : ℕ

-- `amd_dbgapi_wave_state_t`
pub data WaveState : Type 0 where
  run single_step stop : WaveState

-- The bits of `amd_dbgapi_wave_stop_reasons_t`, and of the `exception_mask_t` that registers hold.
pub data StopReason : Type 0 where
  breakpoint watchpoint single_stepped fp_input_denormal fp_divide_by_0 fp_overflow : StopReason
  fp_underflow fp_inexact fp_invalid_operation int_divide_by_0 debug_trap assert_trap : StopReason
  trap memory_violation address_error illegal_instruction_reason ecc_error fatal_halt : StopReason

pub data Exception : Type 0 where
  invalid input_denorm float_div0 overflow underflow inexact int_div0 mem_viol : Exception
  illegal_inst addr_watch0 addr_watch1 addr_watch2 addr_watch3 xnack_error : Exception
  wave_begin wave_end trap_after_inst host_trap : Exception

-- A mask of them, by its bits.
abbrev pub StopReasons : Type 0
StopReasons = StopReason → Bool

abbrev pub Exceptions : Type 0
Exceptions = Exception → Bool

abbrev pub no_reason : StopReasons
no_reason r = false

-- Whether a mask of stop reasons is `AMD_DBGAPI_WAVE_STOP_REASON_NONE`.
abbrev pub is_no_reason : StopReasons → Bool
is_no_reason s = not (
    s breakpoint
    || s watchpoint
    || s single_stepped
    || s fp_input_denormal
    || s fp_divide_by_0
    || s fp_overflow
    || s fp_underflow
    || s fp_inexact
    || s fp_invalid_operation
    || s int_divide_by_0
    || s debug_trap
    || s assert_trap
    || s trap
    || s memory_violation
    || s address_error
    || s illegal_instruction_reason
    || s ecc_error
    || s fatal_halt)

abbrev pub sq_wave_status_halt_mask : ℕ
sq_wave_status_halt_mask = 2 ^ 13

abbrev pub sq_wave_status_skip_export_mask : ℕ
sq_wave_status_skip_export_mask = 2 ^ 18

abbrev pub sq_wave_mode_debug_en_mask : ℕ
sq_wave_mode_debug_en_mask = 2 ^ 11

abbrev pub ttmp6_wave_stopped_mask : ℕ
ttmp6_wave_stopped_mask = 2 ^ 30

abbrev pub ttmp6_saved_status_halt_mask : ℕ
ttmp6_saved_status_halt_mask = 2 ^ 29

-- A write to a register with read-only bits.
unfoldable pub masked_write : (read_only value old : ℕ) → ℕ
masked_write read_only value old = bit_or (bit_and value (not32 read_only)) (bit_and old read_only)

abbrev pub trapsts_read_only_bits : ℕ
trapsts_read_only_bits = bit_or (bit_or (2 ^ 9) (2 ^ 15)) (2 ^ 28 - 2 ^ 22)

abbrev pub mode_read_only_bits : ℕ
mode_read_only_bits = 2 ^ 23 - 2 ^ 21

abbrev pub write_mode : ℕ → Registers → Registers
write_mode value r = record r { mode = masked_write mode_read_only_bits value r.mode }

abbrev pub write_trapsts : ℕ → Registers → Registers
write_trapsts value r = record r { trapsts = masked_write trapsts_read_only_bits value r.trapsts }

-- What the wave has signaled: an exception that can be masked counts where it is enabled.
unfoldable pub signaled_exceptions : Registers → Exceptions
signaled_exceptions r invalid = has r.trapsts (2 ^ 0) && has r.mode (2 ^ 12)
signaled_exceptions r input_denorm = has r.trapsts (2 ^ 1) && has r.mode (2 ^ 13)
signaled_exceptions r float_div0 = has r.trapsts (2 ^ 2) && has r.mode (2 ^ 14)
signaled_exceptions r overflow = has r.trapsts (2 ^ 3) && has r.mode (2 ^ 15)
signaled_exceptions r underflow = has r.trapsts (2 ^ 4) && has r.mode (2 ^ 16)
signaled_exceptions r inexact = has r.trapsts (2 ^ 5) && has r.mode (2 ^ 17)
signaled_exceptions r int_div0 = has r.trapsts (2 ^ 6) && has r.mode (2 ^ 18)
signaled_exceptions r xnack_error = has r.trapsts (2 ^ 28)
signaled_exceptions r mem_viol = has r.trapsts (2 ^ 8)
signaled_exceptions r illegal_inst = has r.trapsts (2 ^ 11)
signaled_exceptions r addr_watch0 = has r.trapsts (2 ^ 7) && has r.mode (2 ^ 19)
signaled_exceptions r addr_watch1 = has r.trapsts (2 ^ 12) && has r.mode (2 ^ 19)
signaled_exceptions r addr_watch2 = has r.trapsts (2 ^ 13) && has r.mode (2 ^ 19)
signaled_exceptions r addr_watch3 = has r.trapsts (2 ^ 14) && has r.mode (2 ^ 19)
signaled_exceptions r _ = false

-- The exceptions that `convert_mask` of `set_exceptions` looks at, in turn, each with its bit.
abbrev pub converted : List (Exception × ℕ)
converted =
    (invalid, 0)
    ∷ (input_denorm, 1)
    ∷ (float_div0, 2)
    ∷ (overflow, 3)
    ∷ (underflow, 4)
    ∷ (int_div0, 6)
    ∷ (mem_viol, 8)
    ∷ (illegal_inst, 11)
    ∷ (addr_watch0, 7)
    ∷ (addr_watch1, 12)
    ∷ (addr_watch2, 13)
    ∷ (addr_watch3, 14)
    ∷ []

unfoldable pub convert_mask : List (Exception × ℕ) → Exceptions → ℕ
convert_mask [] m = 0
convert_mask ((e, k) ∷ rest) m = bit_or (if m e then 2 ^ k else 0) (convert_mask rest m)

unfoldable pub set_exceptions : (mask exceptions : Exceptions) → Registers → Registers
unfolding convert_mask
set_exceptions mask exceptions r =
    let trapsts_mask = convert_mask converted mask in
    let trapsts_set = convert_mask converted exceptions in
    write_trapsts
      (bit_or (bit_and r.trapsts (not32 trapsts_mask)) (bit_and trapsts_set trapsts_mask)) r

-- The exceptions of a stop reason.
abbrev pub reason_exceptions : StopReasons → Exceptions
reason_exceptions s wave_begin = true
reason_exceptions s wave_end = true
reason_exceptions s mem_viol = s memory_violation || s address_error
reason_exceptions s xnack_error = s memory_violation
reason_exceptions s illegal_inst = s illegal_instruction_reason
reason_exceptions s invalid = s fp_invalid_operation
reason_exceptions s input_denorm = s fp_input_denormal
reason_exceptions s float_div0 = s fp_divide_by_0
reason_exceptions s overflow = s fp_overflow
reason_exceptions s underflow = s fp_underflow
reason_exceptions s inexact = s fp_inexact
reason_exceptions s int_div0 = s int_divide_by_0
reason_exceptions s addr_watch0 = s watchpoint
reason_exceptions s addr_watch1 = s watchpoint
reason_exceptions s addr_watch2 = s watchpoint
reason_exceptions s addr_watch3 = s watchpoint
reason_exceptions s trap_after_inst = s single_stepped
reason_exceptions s host_trap = false

unfoldable pub clear_stop_reasons : StopReasons → Registers → Registers
unfolding set_exceptions
clear_stop_reasons stop_reason r = set_exceptions (reason_exceptions stop_reason) (λ e. false) r
