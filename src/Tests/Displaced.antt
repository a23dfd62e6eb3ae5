-- ===== src/Tests/Displaced.antt =====
-- A parked wave that steps over a breakpoint in an instruction buffer.
use rocdbgapi.Base.{ℕ, ◌+◌, ◌≡◌, refl, arith, inl, true, false, some, List, [], ◌∷◌, get_or}
use rocdbgapi.Utils.{bit_extract, bit_mask}
use rocdbgapi.Status.{Result, ok}
use rocdbgapi.Architecture.State.{saved_parked_pc}
use rocdbgapi.Wave.Machine.{DisplacedStepping, pc_of}
use rocdbgapi.Queue.{no_debugger_memory}
use rocdbgapi.Queue.Buffers.{slot}
use rocdbgapi.Queue.Chunks.{no_debugger_memory-WellFormed}
use rocdbgapi.DisplacedStepping.{
  Stepping, Decoder, find_from, displaced_stepping_start, displaced_stepping_complete,
}
use rocdbgapi.DisplacedStepping.Moves.{IsStepping, IsCompleted, complete-IsCompleted}
use rocdbgapi.DisplacedStepping.RoundTrip.{CanStart, IsRoundTrip}
use rocdbgapi.DisplacedStepping.Starts.{start_complete-IsRoundTrip}
use rocdbgapi.Tests.Waves.{setting, stopped}
use rocdbgapi.Tests.Buffers.{device, header_Fits, one_live, one_live-Holds}

-- An instruction is its first byte.
abbrev decoder : Decoder ℕ
decoder = record {
  largest_instruction_size = 8;
  instruction_of = λ bytes. get_or bytes 0 0;
  bytes_of = λ i. i ∷ 0 ∷ 0x81 ∷ 0xbf ∷ [];
  is_valid = λ i. true;
  can_execute_displaced = λ r i. true;
}

abbrev read_zeros : (address size : ℕ) → Unit {0} → Result (List ℕ) × Unit {0}
read_zeros address size d = (ok (0 ∷ 0 ∷ 0 ∷ 0 ∷ []), d)

abbrev at_breakpoint : Stepping ℕ (Unit {0})
at_breakpoint = record {
  world = stopped;
  memory = no_debugger_memory;
  next_displaced_id = 1;
  device_state = tt;
}

at_breakpoint-CanStart : CanStart 0x10_1000 0x10_1800 [] at_breakpoint
unfolding find_from pc_of saved_parked_pc bit_extract bit_mask
at_breakpoint-CanStart = record {
  stopped = refl;
  no_operation = refl;
  shared = inl refl;
  is_pc = record { in_space = omega arith; low = refl; word = omega arith };
  aligned = refl;
  buffers = no_debugger_memory-WellFormed 0x10_1000 0x10_1800;
}

start_complete-IsRoundTrip_example : IsRoundTrip 0x10_1000 0x10_1800 [] stopped (
    displaced_stepping_start setting decoder device read_zeros false 0x10_0000
      (7 ∷ 0 ∷ 0 ∷ 0 ∷ [])
      at_breakpoint)
start_complete-IsRoundTrip_example =
    start_complete-IsRoundTrip setting decoder device read_zeros 0x10_0000 0x10_1000 0x10_1800
      (omega arith) header_Fits [] (7 ∷ 0 ∷ 0 ∷ 0 ∷ []) at_breakpoint at_breakpoint-CanStart
      λ remaining. record { not_simulated = refl; executable = refl; valid = refl; words = refl }

-- Two waves step in chunk 0, and this one is at the guard.
abbrev shared : DisplacedStepping ℕ
shared = record {
  displaced_id = 1;
  reference_count = 2;
  original_instruction = 7;
  from = 0x12_3456_789c;
  to = some (slot 0x10_1000 0 4);
}

abbrev at_guard : Stepping ℕ (Unit {0})
at_guard = record {
  world = record stopped {
    wave = record (stopped.wave) {
      displaced_stepping = some 1;
      registers = record (stopped.wave.registers) { ttmp7 = 0x10_101c; ttmp11 = 0x8000_0003 };
    };
    displaced_steppings = shared ∷ [];
  };
  memory = one_live;
  next_displaced_id = 2;
  device_state = tt;
}

at_guard-IsStepping : IsStepping 0x10_1000 0x10_1800 0x10_1000 0 4 (0 ∷ []) [] shared at_guard
unfolding pc_of saved_parked_pc bit_extract bit_mask
at_guard-IsStepping = record {
  operation = refl;
  found = refl;
  referenced = omega arith;
  stopped = refl;
  is_pc = record { in_space = omega arith; low = refl; word = omega arith };
  placed = refl;
  small = omega arith;
  aligned = refl;
  holds = one_live-Holds;
}

guard_pc : pc_of at_guard.world.wave ≡ slot 0x10_1000 0 4 + 4
unfolding pc_of saved_parked_pc bit_extract bit_mask
guard_pc = refl

complete-IsCompleted_example :
    IsCompleted 0x10_1000 0x10_1800
      (0x12_3456_789c + 4)
      0
      shared
      (0 ∷ [])
      []
      at_guard
      (displaced_stepping_complete at_guard)
complete-IsCompleted_example =
    complete-IsCompleted 0x10_1000 0x10_1800 0x10_1000 0 4 (omega arith) (0 ∷ []) [] shared at_guard
      at_guard-IsStepping 4 guard_pc (omega arith)
