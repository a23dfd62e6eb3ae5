-- ===== src/Queue.antt =====
-- The instruction buffers of `aql_queue_t` in src/queue.cpp: memory that is reserved for the debugger is
-- cut into chunks, and each holds one instruction with a guard after it. What the device has in memory
-- is a parameter.
pub mod Chunks
pub mod Taking
pub mod Buffers
pub mod Release
use rocdbgapi.Base.{
  ℕ, ◌+◌, ◌-◌, ◌*◌, ◌/◌, ◌%◌, ◌^◌, Bool, true, false, not, ◌||◌, Option, none, some, List, [], ◌∷◌,
  ◌==◌, ltb, leb, length, if◌then◌else◌,
}
use rocdbgapi.Base.Word.{add64, sub64}
use rocdbgapi.Architecture.State.{pc_read_only_bits}
use rocdbgapi.Status.{fatal, Result, ok, err, assert, ◌>>◌, ◌>>=◌}
use rocdbgapi.Utils.{align_up, is_aligned}

-- `trap_instruction` of src/architecture.cpp: `s_trap` with its number.
abbrev pub trap_instruction : ℕ → List ℕ
trap_instruction trap_id = trap_id ∷ 0x00 ∷ 0x92 ∷ 0xbf ∷ []

abbrev pub assert_instruction : List ℕ
assert_instruction = trap_instruction 2

abbrev pub minimum_instruction_alignment : ℕ
minimum_instruction_alignment = pc_read_only_bits + 1

abbrev pub debugger_memory_chunk_size : ℕ
debugger_memory_chunk_size = 32

-- The part of `context_save_area_header_s` that is read here.
pub record Header : Type 0 where
  pub debugger_memory_offset : ℕ
  pub debugger_memory_size : ℕ

-- The members `m_debugger_memory_*`. The back of the vector of free chunks is the front of the list.
pub record DebuggerMemory : Type 0 where
  pub base : Option ℕ
  pub chunk_count : ℕ
  pub next_chunk : ℕ
  pub free_chunks : List ℕ

abbrev pub no_debugger_memory : DebuggerMemory
no_debugger_memory = record { base = none; chunk_count = 0; next_chunk = 0; free_chunks = [] }

-- The accesses to global memory, each with the outcome of the call.
pub record Device (D : Type 0) : Type 0 where
  pub read_header : (address : ℕ) → D → Result Header × D
  pub write_global_memory : (address : ℕ) (bytes : List ℕ) → D → Result (Unit {0}) × D

abbrev pub debugger_memory_base : (ctx_save_base : ℕ) → Header → ℕ
debugger_memory_base ctx_save_base header =
    align_up (add64 ctx_save_base header.debugger_memory_offset) debugger_memory_chunk_size

abbrev pub counted_chunks : (ctx_save_base : ℕ) → Header → ℕ
counted_chunks ctx_save_base header =
    sub64 (add64 (add64 ctx_save_base header.debugger_memory_size) header.debugger_memory_offset)
      (debugger_memory_base ctx_save_base header)
    / debugger_memory_chunk_size

-- The first part of `allocate_displaced_instruction`, where there is no base yet, with the header that
-- was read.
unfoldable pub set_up :
    (ctx_save_base : ℕ) → Header → DebuggerMemory → Result (Unit {0}) × DebuggerMemory
set_up ctx_save_base header m =
    if (header.debugger_memory_offset == 0) || (header.debugger_memory_size == 0)
    then (err fatal, m)
    else (if not (is_aligned debugger_memory_chunk_size minimum_instruction_alignment)
        then (err fatal, m)
        else (let based = record m { base = some (debugger_memory_base ctx_save_base header) } in
            if ltb (2 ^ 16 - 1) (counted_chunks ctx_save_base header)
            then (err fatal, based)
            else (ok tt, record based { chunk_count = counted_chunks ctx_save_base header })))

abbrev pub chunk_address : (base index : ℕ) → ℕ
chunk_address base index = add64 base (index * debugger_memory_chunk_size)

abbrev pub instruction_address : (buffer size : ℕ) → ℕ
instruction_address buffer size =
    sub64 (sub64 (add64 buffer debugger_memory_chunk_size) (length assert_instruction)) size

abbrev pub guard_address : (buffer : ℕ) → ℕ
guard_address buffer = sub64 (add64 buffer debugger_memory_chunk_size) (length assert_instruction)

-- The function that gives the buffer of an instruction back to the queue.
unfoldable pub release_displaced_instruction :
    (ptr : ℕ) → DebuggerMemory → Result (Unit {0}) × DebuggerMemory
release_displaced_instruction ptr m = elim m.base [
  | none ↦ (err fatal, m)
  | some base ↦
      let index = sub64 ptr base / debugger_memory_chunk_size in
      if ltb index m.chunk_count
      then (ok tt, record m { free_chunks = index % 2 ^ 16 ∷ m.free_chunks })
      else (err fatal, m)
]

module _ {D : Type 0} (device : Device D) where
  -- `m_debugger_memory_base` is set where it was not.
  unfoldable pub initialize :
      (ctx_save_base : ℕ) → DebuggerMemory → D → Result (Unit {0}) × DebuggerMemory × D
  initialize ctx_save_base m d = elim m.base [
    | some base ↦ (ok tt, m, d)
    | none ↦
        let (answer, d') = device.read_header ctx_save_base d in
        elim answer [
          | err e ↦ (err e, m, d')
          | ok header ↦ let (result, m') = set_up ctx_save_base header m in (result, m', d')
        ]
  ]

  -- The chunk for a new buffer: the last one that came free, or one that was never used, where the
  -- guard is written.
  unfoldable pub take_chunk : (base : ℕ) → DebuggerMemory → D → Result ℕ × DebuggerMemory × D
  take_chunk base m d = elim m.free_chunks [
    | index ∷ rest ↦ (ok (chunk_address base index), record m { free_chunks = rest }, d)
    | [] ↦
        if ltb m.next_chunk m.chunk_count
        then (let buffer = chunk_address base m.next_chunk in
            let (written, d') =
              device.write_global_memory (guard_address buffer) assert_instruction d in
            (written >> ok buffer, record m { next_chunk = (m.next_chunk + 1) % 2 ^ 16 }, d'))
        else (err fatal, m, d)
  ]

  -- The instruction is written before the guard.
  unfoldable pub place_instruction : (instruction : List ℕ) (buffer : ℕ) → D → Result ℕ × D
  place_instruction instruction buffer d =
      let address = instruction_address buffer (length instruction) in
      if leb (length instruction + length assert_instruction) debugger_memory_chunk_size
      then (if is_aligned address minimum_instruction_alignment
          then (let (written, d') = device.write_global_memory address instruction d in
              (written >> ok address, d'))
          else (err fatal, d))
      else (err fatal, d)

  -- `allocate_displaced_instruction`
  unfoldable pub allocate_displaced_instruction :
      (from_core : Bool) (ctx_save_base : ℕ) (instruction : List ℕ)
      → DebuggerMemory
      → D
      → Result ℕ × DebuggerMemory × D
  allocate_displaced_instruction true ctx_save_base instruction m d = (err fatal, m, d)
  allocate_displaced_instruction false ctx_save_base instruction m d =
      let (ready, m', d') = initialize ctx_save_base m d in
      elim ready [
        | err e ↦ (err e, m', d')
        | ok done ↦ elim m'.base [
          | none ↦ (err fatal, m', d')
          | some base ↦
              let (taken, m'', d'') = take_chunk base m' d' in
              elim taken [
                | err e ↦ (err e, m'', d'')
                | ok buffer ↦
                    let (placed, d''') = place_instruction instruction buffer d'' in
                    (placed, m'', d''')
              ]
        ]
      ]
