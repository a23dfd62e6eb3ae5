-- ===== src/DisplacedStepping/Starts.antt =====
-- What `displaced_stepping_start` of src/wave.cpp does with an instruction that is to be executed in a
-- buffer, and what completing it at once gives.
use rocdbgapi.Base.{
  ℕ, suc, ◌+◌, ◌-◌, ◌%◌, ◌^◌, ◌≤◌, ◌≡◌, inl, inr, refl, sym, subst, ◌∙◌, arith, true, false, none,
  some, List, ◌∷◌, ◌++◌, ==_iff, take, length,
}
use rocdbgapi.Base.Word.{add64}
use rocdbgapi.Status.{Result, ok, Result-cases}
use rocdbgapi.Architecture.State.{is_stop}
use rocdbgapi.Wave.Machine.{DisplacedStepping, World, Setting, release, pc_of, write_pc_register}
use rocdbgapi.Wave.Machine.SetState.Parks.{IsPc}
use rocdbgapi.Queue.{trap_instruction, Device, allocate_displaced_instruction}
use rocdbgapi.Queue.Buffers.{slot, allocate-Allocated}
use rocdbgapi.Queue.Chunks.{Fits}
use rocdbgapi.Queue.Taking.{Taken}
use rocdbgapi.DisplacedStepping.{
  Stepping, Decoder, find_from, retain, attach, create_displaced, start_new,
  displaced_stepping_start, displaced_stepping_complete,
}
use rocdbgapi.DisplacedStepping.Pc.{
  write_pc_register-keeps, same_pc, same-IsPc, pc_of-write_pc_register,
}
use rocdbgapi.DisplacedStepping.Moves.{IsStepping, complete-IsCompleted}
use rocdbgapi.DisplacedStepping.RoundTrip.{CanStart, IsGivenBack, IsRoundTrip}
use rocdbgapi.DisplacedStepping.Shares.{attach-IsRoundTrip}

module _ {I D : Type 0} (s : Setting I) (k : Decoder I) (device : Device D)
    (read_partial : (address size : ℕ) → D → Result (List ℕ) × D) (ctx_save_base start end : ℕ)
    (below : end + 32 ≤ 2 ^ 48)
    (headers : (d : D) (header : _)
      → (device.read_header ctx_save_base d).0 ≡ ok header
      → Fits ctx_save_base start end header) where
  -- The instruction is valid, and is to be executed in a buffer.
  pub record IsDisplaced (w : World I) (instruction : I) : Type 0 where
    pub not_simulated : s.can_simulate w.wave.registers instruction ≡ false
    pub executable : k.can_execute_displaced w.wave.registers instruction ≡ true
    pub valid : k.is_valid instruction ≡ true
    pub words : length (k.bytes_of instruction) % 4 ≡ 0

  -- The operation that is made.
  abbrev pub operation : (pc id : ℕ) → I → (to : ℕ) → DisplacedStepping I
  operation pc id instruction to = record {
    displaced_id = id;
    reference_count = 1;
    original_instruction = instruction;
    from = pc;
    to = some to;
  }

  abbrev pub entered : Stepping I D → I → (to : ℕ) → Stepping I D
  entered st instruction to = record st {
    world = record (st.world) {
      wave = record (write_pc_register to st.world.wave) {
        displaced_stepping = some st.next_displaced_id;
      };
      displaced_steppings =
          operation (pc_of st.world.wave) st.next_displaced_id instruction to
          ∷ st.world.displaced_steppings;
    };
    next_displaced_id = suc st.next_displaced_id;
  }

  retained :
      (pc id to : ℕ) (instruction : I) (ds : List (DisplacedStepping I))
      → retain id (record (operation pc id instruction to) { reference_count = 0 } ∷ ds)
        ≡ some (operation pc id instruction to ∷ ds)
  unfolding retain
  retained pc id to instruction ds = rw (retain, (==_iff id id).1 refl) refl

  create_displaced-entered :
      (st : Stepping I D) (instruction : I) (to : ℕ)
      → k.is_valid instruction ≡ true
      → create_displaced s k device read_partial false ctx_save_base instruction (some to) st
        ≡ (ok tt, entered st instruction to)
  unfolding create_displaced attach
  create_displaced-entered st instruction to valid =
      rw
        (
          create_displaced,
          valid,
          attach,
          retained (pc_of st.world.wave) st.next_displaced_id to instruction
              st.world.displaced_steppings,
        )
        refl

  -- Its only reference is dropped.
  released :
      (pc id to : ℕ) (instruction : I) (ds ds' : List (DisplacedStepping I))
      → release id (operation pc id instruction to ∷ ds) ≡ ok ds'
      → ds' ≡ ds
  unfolding release
  released pc id to instruction ds ds' e = same (sym e ∙ rw (release, (==_iff id id).1 refl) refl)
    where
      same : ◌≡◌ {A = Result (List (DisplacedStepping I))} (ok ds') (ok ds) → ds' ≡ ds
      same p = cc

  -- The wave steps in the chunk that was taken.
  entered-IsStepping :
      (base i : ℕ) (live : List ℕ) (instruction : I) (st : Stepping I D)
      → is_stop st.world.wave.state ≡ true
      → IsPc st.world.wave
      → pc_of st.world.wave % 4 ≡ 0
      → length (k.bytes_of instruction) ≤ 28
      → length (k.bytes_of instruction) % 4 ≡ 0
      → Taken start end base st.memory live i
      → IsStepping start end base i
          (length (k.bytes_of instruction))
          (i ∷ live)
          live
          (operation
            (pc_of st.world.wave)
            st.next_displaced_id
            instruction
            (slot base i (length (k.bytes_of instruction))))
          (entered st instruction (slot base i (length (k.bytes_of instruction))))
        × (pc_of (entered st instruction (slot base i (length (k.bytes_of instruction)))).world.wave
            ≡ slot base i (length (k.bytes_of instruction)))
  entered-IsStepping base i live instruction st stopped is_pc aligned small words t = (
    record {
      operation = refl;
      found = rw ((==_iff st.next_displaced_id st.next_displaced_id).1 refl) refl;
      referenced = omega arith;
      stopped = write_pc_register-keeps to st.world.wave ∙ stopped;
      is_pc = same-IsPc (some st.next_displaced_id) (write_pc_register to st.world.wave) moved.1;
      placed = refl;
      small = small;
      aligned = aligned ∙ sym whole;
      holds = record { based = t.based; others = λ j. refl; well_formed = t.well_formed };
    },
    same_pc (some st.next_displaced_id) (write_pc_register to st.world.wave) ∙ moved.0,
  )
    where
      to : ℕ
      to = slot base i (length (k.bytes_of instruction))

      whole : slot base i (length (k.bytes_of instruction)) % 4 ≡ 0
      whole = omega (arith, (t.well_formed.inside base t.based).0, small, words)

      moved :
          (pc_of (write_pc_register to st.world.wave) ≡ to)
          × IsPc (write_pc_register to st.world.wave)
      moved =
          pc_of-write_pc_register to st.world.wave is_pc
            (omega (arith, below, ((t.well_formed.inside base t.based).2 i t.in_range).1))
            (whole ∙ sym aligned)

  entered-IsRoundTrip :
      (base i : ℕ) (live : List ℕ) (instruction : I) (st : Stepping I D)
      → is_stop st.world.wave.state ≡ true
      → IsPc st.world.wave
      → pc_of st.world.wave % 4 ≡ 0
      → length (k.bytes_of instruction) ≤ 28
      → length (k.bytes_of instruction) % 4 ≡ 0
      → Taken start end base st.memory live i
      → find_from (pc_of st.world.wave) st.world.displaced_steppings ≡ none
      → IsRoundTrip start end live st.world
          (ok tt, entered st instruction (slot base i (length (k.bytes_of instruction))))
  entered-IsRoundTrip base i live instruction st stopped is_pc aligned small words t unshared =
      let (stepping, at) =
        entered-IsStepping base i live instruction st stopped is_pc aligned small words t in
      let done =
        complete-IsCompleted start end base i (length (k.bytes_of instruction))
          (omega (arith, below)) (i ∷ live) live _ _ stepping 0 (at ∙ omega arith)
          (omega (arith, is_pc.in_space)) in
      record {
        outcome = inr (
          refl,
          done.went,
          done.moved ∙ omega arith,
          done.no_operation,
          released _ _ _ _ _ _ done.released,
          subst (λ x. IsGivenBack x begun (displaced_stepping_complete begun).1) (sym unshared)
              (record {
                base = base;
                index = i;
                size = length (k.bytes_of instruction);
                at = at;
                freed = done.memory;
              }),
          done.buffers,
        );
      }
    where
      begun : Stepping I D
      begun = entered st instruction (slot base i (length (k.bytes_of instruction)))

  start_new-IsRoundTrip :
      (live : List ℕ) (instruction : I) (st : Stepping I D)
      → CanStart start end live st
      → find_from (pc_of st.world.wave) st.world.displaced_steppings ≡ none
      → IsDisplaced st.world instruction
      → IsRoundTrip start end live st.world
          (start_new s k device read_partial false ctx_save_base instruction st)
  unfolding start_new
  start_new-IsRoundTrip live instruction st c unshared x =
      elim (allocate-Allocated device start end (omega (arith, below)) ctx_save_base headers false
        (k.bytes_of instruction) st.memory live st.device_state c.buffers).placed [
          | inr (thrown, failed, wf, abandoned) ↦
              rw (start_new, x.not_simulated, x.executable, failed)
                (record { outcome = inl (thrown, refl, refl, wf) })
          | inl (base, i, went, small, t, stored) ↦
              rw
                (
                  start_new,
                  x.not_simulated,
                  x.executable,
                  went,
                  create_displaced-entered after instruction
                      (slot base i (length (k.bytes_of instruction))) x.valid,
                )
                (entered-IsRoundTrip base i live instruction after c.stopped c.is_pc c.aligned small
                  x.words t unshared)
        ]
    where
      after : Stepping I D
      after = record st {
        memory =
            (allocate_displaced_instruction device false ctx_save_base (k.bytes_of instruction)
              st.memory st.device_state).1;
        device_state =
            (allocate_displaced_instruction device false ctx_save_base (k.bytes_of instruction)
              st.memory st.device_state).2;
      }

  abbrev read_from : Stepping I D → Result (List ℕ) × D
  read_from st =
      read_partial (add64 (pc_of st.world.wave) (length (trap_instruction 1)))
        (k.largest_instruction_size - length (trap_instruction 1)) st.device_state

  -- Where there is no operation to share.
  unshared-IsRoundTrip :
      (live saved_instruction_bytes : List ℕ) (st : Stepping I D)
      → CanStart start end live st
      → find_from (pc_of st.world.wave) st.world.displaced_steppings ≡ none
      → ((remaining : List ℕ)
          → IsDisplaced st.world (k.instruction_of (take 4 saved_instruction_bytes ++ remaining)))
      → IsRoundTrip start end live st.world (
          displaced_stepping_start s k device read_partial false ctx_save_base
            saved_instruction_bytes st)
  unfolding displaced_stepping_start
  unshared-IsRoundTrip live bytes st c unshared x = elim (Result-cases (read_from st).0) [
    | inr (thrown, failed) ↦
        rw (displaced_stepping_start, c.no_operation, c.stopped, unshared, failed)
          (record { outcome = inl (thrown, refl, refl, c.buffers) })
    | inl (remaining, went) ↦
        rw (displaced_stepping_start, c.no_operation, c.stopped, unshared, went)
          (start_new-IsRoundTrip live (k.instruction_of (take 4 bytes ++ remaining)) read_state
            (record {
              stopped = c.stopped;
              no_operation = c.no_operation;
              shared = inl unshared;
              is_pc = c.is_pc;
              aligned = c.aligned;
              buffers = c.buffers;
            })
            unshared (x remaining))
  ]
    where
      read_state : Stepping I D
      read_state = record st { device_state = (read_from st).1 }

  -- A wave that starts to step and completes at once has its pc again and no operation, the operations
  -- of its process are as they were, and the buffers are well formed with the same instructions live.
  -- Where it shared the operation of another wave the buffers are as they were; where it did not, the
  -- chunk in which it stepped is free. Where starting throws, the wave and its operations are as they
  -- were. An operation that can be shared has its instruction in a chunk, and a count of references that
  -- does not wrap; an instruction that is read is one that is executed in a buffer; and the header that
  -- is read gives memory that does not wrap.
  pub start_complete-IsRoundTrip :
      (live saved_instruction_bytes : List ℕ) (st : Stepping I D)
      → CanStart start end live st
      → ((remaining : List ℕ)
          → IsDisplaced st.world (k.instruction_of (take 4 saved_instruction_bytes ++ remaining)))
      → IsRoundTrip start end live st.world (
          displaced_stepping_start s k device read_partial false ctx_save_base
            saved_instruction_bytes st)
  unfolding displaced_stepping_start
  start_complete-IsRoundTrip live bytes st c x = elim c.shared [
    | inl unshared ↦ unshared-IsRoundTrip live bytes st c unshared x
    | inr (d, h) ↦
        rw (displaced_stepping_start, c.no_operation, c.stopped, h.from_here)
          (attach-IsRoundTrip start end below live st c d h)
  ]
