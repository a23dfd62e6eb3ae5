-- ===== src/Queue/Buffers.antt =====
-- What allocating and releasing an instruction buffer in src/queue.cpp does to the chunks.
use rocdbgapi.Base.{
  ℕ, ◌+◌, ◌-◌, ◌*◌, ◌≤◌, ◌≡◌, refl, ap, sym, subst, arith, Bool, true, false, List, leb, leb→le,
  length, Bool-cases, Option-cases, if◌then◌else◌, inl, inr, ◌⊎◌,
}
use rocdbgapi.Base.Word.{u64_mod}
use rocdbgapi.Status.{Status, fatal, Result, ok, err, Result-cases}
use rocdbgapi.Utils.{is_aligned}
use rocdbgapi.Queue.{
  Header, DebuggerMemory, Device, assert_instruction, instruction_address, initialize, set_up,
  take_chunk, place_instruction, allocate_displaced_instruction, minimum_instruction_alignment,
  debugger_memory_chunk_size,
}
use rocdbgapi.Queue.Chunks.{WellFormed, Fits, set_up-WellFormed}
use rocdbgapi.Queue.Taking.{
  Taken, forget_one, Writes, no_write, one_write, IsWritten, Guarding, Abandoned,
  take_chunk-outcome,
}

-- The address of an instruction of `n` bytes in chunk `i`, before the guard.
abbrev pub slot : (base i n : ℕ) → ℕ
slot base i n = base + i * 32 + (28 - n)

-- What is written for an instruction: its guard, unless the chunk was free and has it, and then it.
abbrev pub Stored :
    {D : Type 0} → Device D → (base i : ℕ) → (instruction free : List ℕ) → (d d' : D) → Type 0
Stored {D} device base i instruction free d d' =
    (guarded : D) × Guarding device base i free d guarded
    × IsWritten device (slot base i (length instruction)) instruction guarded d'

-- What an allocation may come to. An instruction is put in a chunk that no live instruction has, or the
-- call throws.
pub record Allocated {D : Type 0} (device : Device D) (start end : ℕ)
    (live instruction free : List ℕ) (d : D) (out : Result ℕ × DebuggerMemory × D) : Type 0 where
  pub placed :
      ((base i : ℕ) × (out.0 ≡ ok (slot base i (length instruction)))
        × (length instruction ≤ 28)
        × Taken start end base out.1 live i
        × Stored device base i instruction free d out.2)
      ⊎ ((e : Status) × (out.0 ≡ err e)
          × WellFormed start end out.1 live
          × Abandoned device start end out.1 live d out.2)

module _ {D : Type 0} (device : Device D) (start end : ℕ) (below : end + 32 ≤ u64_mod) where
  module _ (base i : ℕ) (m : DebuggerMemory) (live free : List ℕ)
      (t : Taken start end base m live i) where
    guarded-Writes :
        (d d' : D)
        → Guarding device base i free d d'
        → Writes device (base + i * 32) (base + i * 32 + 32) d d'
    guarded-Writes d d' (inl (same, there)) =
        subst (Writes device (base + i * 32) (base + i * 32 + 32) d) (sym same) no_write
    guarded-Writes d d' (inr (at, place, w)) =
        subst (Writes device (base + i * 32) (base + i * 32 + 32) d) (sym w.state)
          (one_write at assert_instruction (omega (arith, place)) (omega (arith, place)) no_write)

    then_write :
        (d d' : D) (address : ℕ) (bytes : List ℕ)
        → base + i * 32 ≤ address
        → address + length bytes ≤ base + i * 32 + 32
        → Writes device (base + i * 32) (base + i * 32 + 32) d d'
        → Writes device
            (base + i * 32)
            (base + i * 32 + 32)
            d
            (device.write_global_memory address bytes d').1
    then_write d d' address bytes low high no_write = one_write address bytes low high no_write
    then_write d d' address bytes low high (one_write a b l h w) =
        one_write a b l h (then_write _ d' address bytes low high w)

    place_instruction-Allocated :
        (instruction : List ℕ) (d0 d : D)
        → Guarding device base i free d0 d
        → Allocated device start end live instruction free d0 (
          (place_instruction device instruction (base + i * 32) d).0,
          m,
          (place_instruction device instruction (base + i * 32) d).1,
        )
    unfolding place_instruction
    place_instruction-Allocated instruction d0 d guarding =
        elim (Bool-cases
          (leb (length instruction + length assert_instruction) debugger_memory_chunk_size)) [
            | inr large ↦ rw (place_instruction, large) (failure fatal d before)
            | inl small ↦
                elim (Bool-cases (
                  is_aligned (instruction_address (base + i * 32) (length instruction))
                    minimum_instruction_alignment)) [
                      | inr odd ↦ rw (place_instruction, small, odd) (failure fatal d before)
                      | inl even ↦
                          elim (Result-cases
                            (device.write_global_memory
                              (instruction_address (base + i * 32) (length instruction)) instruction
                              d).0) [
                                | inl (done, went) ↦
                                    rw (place_instruction, small, even, went)
                                      (record {
                                        placed = inl (
                                          base,
                                          i,
                                          ap ok (address small),
                                          omega (arith, leb→le _ _ small),
                                          t,
                                          (d, guarding, written small went),
                                        );
                                      })
                                | inr (thrown, failed) ↦
                                    rw (place_instruction, small, even, failed)
                                      (failure thrown _ (after small))
                              ]
                    ]
          ]
      where
        before : Writes device (base + i * 32) (base + i * 32 + 32) d0 d
        before = guarded-Writes d0 d guarding

        failure :
            (e : Status) (d' : D)
            → Writes device (base + i * 32) (base + i * 32 + 32) d0 d'
            → Allocated device start end live instruction free d0 (err e, m, d')
        failure e d' w = record {
          placed = inr (e, refl, forget_one i t.well_formed, inr (base, i, t, w));
        }

        address :
            leb (length instruction + length assert_instruction) debugger_memory_chunk_size ≡ true
            → instruction_address (base + i * 32) (length instruction)
              ≡ slot base i (length instruction)
        address small =
            omega (
              arith,
              leb→le _ _ small,
              below,
              ((t.well_formed.inside base t.based).2 i t.in_range).1,
            )

        after :
            leb (length instruction + length assert_instruction) debugger_memory_chunk_size ≡ true
            → Writes device
                (base + i * 32)
                (base + i * 32 + 32)
                d0
                (device.write_global_memory
                  (instruction_address (base + i * 32) (length instruction))
                  instruction
                  d).1
        after small =
            then_write d0 d _ instruction (omega (arith, address small, leb→le _ _ small))
              (omega (arith, address small, leb→le _ _ small)) before

        written :
            leb (length instruction + length assert_instruction) debugger_memory_chunk_size ≡ true
            → (device.write_global_memory
                (instruction_address (base + i * 32) (length instruction))
                instruction
                d).0
              ≡ ok tt
            → IsWritten device
                (slot base i (length instruction))
                instruction
                d
                (device.write_global_memory
                  (instruction_address (base + i * 32) (length instruction))
                  instruction
                  d).1
        written small went =
            subst
              (λ a.
                IsWritten device a instruction d
                  (device.write_global_memory
                    (instruction_address (base + i * 32) (length instruction)) instruction d).1)
              (address small) (record { went = went; state = refl })

  module _ (ctx_save_base : ℕ)
      (headers : (d : D) (header : Header)
        → (device.read_header ctx_save_base d).0 ≡ ok header
        → Fits ctx_save_base start end header) where
    initialize-WellFormed :
        (m : DebuggerMemory) (live : List ℕ) (d : D)
        → WellFormed start end m live
        → WellFormed start end (initialize device ctx_save_base m d).1 live
    unfolding initialize
    initialize-WellFormed m live d wf = elim (Option-cases m.base) [
      | inr (base, there) ↦ rw (initialize, there) wf
      | inl none_yet ↦ elim (Result-cases (device.read_header ctx_save_base d).0) [
        | inr (thrown, failed) ↦ rw (initialize, none_yet, failed) wf
        | inl (header, went) ↦
            rw (initialize, none_yet, went)
              (set_up-WellFormed ctx_save_base start end header m live (headers d header went)
                none_yet wf)
      ]
    ]

    -- The free chunks are those that there were.
    initialize-free :
        (m : DebuggerMemory) (d : D)
        → (initialize device ctx_save_base m d).1.free_chunks ≡ m.free_chunks
    unfolding initialize set_up
    initialize-free m d = ground arith

    -- Allocating keeps the chunks well formed. Where it succeeds the instruction is in a chunk of the
    -- memory that is reserved that no live instruction has, ends where the guard begins, and the guard,
    -- if the chunk was not free before, and the instruction were written there; where it throws, nothing
    -- was written but to such a chunk. The headers that are read give memory that does not reach the last
    -- 32 addresses; else the device answers what it likes.
    pub allocate-Allocated :
        (from_core : Bool) (instruction : List ℕ) (m : DebuggerMemory) (live : List ℕ) (d : D)
        → WellFormed start end m live
        → Allocated device start end live instruction m.free_chunks
            (if from_core then d else (initialize device ctx_save_base m d).2)
            (allocate_displaced_instruction device from_core ctx_save_base instruction m d)
    unfolding allocate_displaced_instruction
    allocate-Allocated true instruction m live d wf = record {
      placed = inr (fatal, refl, wf, inl refl);
    }
    allocate-Allocated false instruction m live d wf = elim (Result-cases ready.0) [
      | inr (thrown, failed) ↦
          rw (allocate_displaced_instruction, failed)
            (record { placed = inr (thrown, refl, wf', inl refl) })
      | inl (done, went) ↦ elim (Option-cases ready.1.base) [
        | inl nothing ↦
            rw (allocate_displaced_instruction, went, nothing)
              (record { placed = inr (fatal, refl, wf', inl refl) })
        | inr (base, there) ↦
            elim (take_chunk-outcome start end base below device ready.1 live ready.2 there
              wf').took [
                | inl (i, took, t, guarding) ↦
                    rw (allocate_displaced_instruction, went, there, took)
                      (place_instruction-Allocated base i _ live m.free_chunks t instruction ready.2
                        _
                        (subst
                          (λ l.
                            Guarding device base i l ready.2
                              (take_chunk device base ready.1 ready.2).2)
                          (initialize-free m d) guarding))
                | inr (thrown, failed, wf'', abandoned) ↦
                    rw (allocate_displaced_instruction, went, there, failed)
                      (record { placed = inr (thrown, refl, wf'', abandoned) })
              ]
      ]
    ]
      where
        ready : Result (Unit {0}) × DebuggerMemory × D
        ready = initialize device ctx_save_base m d

        wf' : WellFormed start end ready.1 live
        wf' = initialize-WellFormed m live d wf
