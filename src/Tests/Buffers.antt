-- ===== src/Tests/Buffers.antt =====
-- The instruction buffers of a queue, with 64 chunks after the save area of 4 KiB.
use rocdbgapi.Base.{ℕ, ◌+◌, ◌*◌, ◌%◌, ◌<◌, ◌≤◌, ◌≡◌, refl, arith, false, some, [], ◌∷◌, subst}
use rocdbgapi.Base.Word.{u64_mod}
use rocdbgapi.Status.{ok}
use rocdbgapi.Queue.{
  Header, Device, DebuggerMemory, no_debugger_memory, trap_instruction,
  allocate_displaced_instruction, release_displaced_instruction,
}
use rocdbgapi.Queue.Buffers.{Allocated, slot, allocate-Allocated}
use rocdbgapi.Queue.Chunks.{occurrences, WellFormed, Fits, no_debugger_memory-WellFormed}
use rocdbgapi.Queue.Release.{Holds, release-WellFormed, release-allocate}

abbrev pub header : Header
header = record { debugger_memory_offset = 0x1000; debugger_memory_size = 0x800 }

-- Every access goes through.
abbrev pub device : Device (Unit {0})
device = record {
  read_header = λ address d. (ok header, d);
  write_global_memory = λ address bytes d. (ok tt, d);
}

pub header_Fits :
    (d : Unit {0}) (h : Header)
    → (device.read_header 0x10_0000 d).0 ≡ ok h
    → Fits 0x10_0000 0x10_1000 0x10_1800 h
header_Fits d h e =
    subst (Fits 0x10_0000 0x10_1000 0x10_1800) same
      (record { starts = refl; ends = refl; below = omega arith })
  where
    same : header ≡ h
    same = cc

allocate-Allocated_example : Allocated device 0x10_1000 0x10_1800 [] (trap_instruction 1) [] tt (
    allocate_displaced_instruction device false 0x10_0000
      (trap_instruction 1)
      no_debugger_memory
      tt)
allocate-Allocated_example =
    allocate-Allocated device 0x10_1000 0x10_1800 (omega arith) 0x10_0000 header_Fits false
      (trap_instruction 1) no_debugger_memory [] tt
      (no_debugger_memory-WellFormed 0x10_1000 0x10_1800)

-- One instruction is live, in chunk 0.
abbrev pub one_live : DebuggerMemory
one_live = record { base = some 0x10_1000; chunk_count = 64; next_chunk = 1; free_chunks = [] }

pub one_live-Holds : Holds 0x10_1000 0x10_1800 0x10_1000 one_live (0 ∷ []) 0 []
unfolding occurrences
one_live-Holds = record {
  based = refl;
  others = λ j. refl;
  well_formed = record {
    used_once = λ j. ground arith;
    next_le = omega arith;
    count_small = omega arith;
    unset = λ e. absurd (cc);
    inside = λ b e.
        subst
          (λ x.
            (x % 32 ≡ 0)
            × (x < u64_mod)
            × ((i : ℕ) → i < 64 → (0x10_1000 ≤ x + i * 32) × (x + i * 32 + 32 ≤ 0x10_1800)))
          (some_of e) (omega arith, omega arith, λ i lt. (omega arith, omega arith));
  };
}
  where
    some_of : {b : ℕ} → some 0x10_1000 ≡ some b → 0x10_1000 ≡ b
    some_of e = cc

release-WellFormed_example :
    (release_displaced_instruction (slot 0x10_1000 0 4) one_live
      ≡ (ok tt, record one_live { free_chunks = 0 ∷ [] }))
    × WellFormed 0x10_1000 0x10_1800 (record one_live { free_chunks = 0 ∷ [] }) []
release-WellFormed_example =
    release-WellFormed 0x10_1000 0x10_1800 0x10_1000 (omega arith) one_live (0 ∷ []) 0 []
      one_live-Holds 4 (omega arith)

release-allocate_example :
    allocate_displaced_instruction device false 0x10_0000
      (trap_instruction 1)
      (release_displaced_instruction (slot 0x10_1000 0 8) one_live).1
      tt
    ≡ (ok (slot 0x10_1000 0 4), one_live, tt)
release-allocate_example =
    release-allocate 0x10_1000 0x10_1800 0x10_1000 (omega arith) one_live (0 ∷ []) 0 []
      one_live-Holds device 0x10_0000 8 (trap_instruction 1) tt (omega arith) (omega arith) refl
      refl
