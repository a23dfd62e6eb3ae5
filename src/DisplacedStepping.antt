-- ===== src/DisplacedStepping.antt =====
-- `displaced_stepping_t` of src/displaced_stepping.cpp, and
-- `displaced_stepping_start` and `displaced_stepping_complete` of `wave_t` in src/wave.cpp: an
-- instruction is stepped in a buffer of the queue. The operations are those of the wave's queue, and
-- what its architecture makes of instructions is a parameter.
pub mod Entry
pub mod Pc
pub mod Moves
pub mod RoundTrip
pub mod Shares
pub mod Starts
use rocdbgapi.Base.{
  ℕ, ◌+◌, ◌-◌, ◌%◌, ◌^◌, suc, Bool, true, false, not, Option, none, some, List, [], ◌∷◌, ◌++◌, ◌==◌,
  ltb, take, length, if◌then◌else◌,
}
use rocdbgapi.Base.Word.{u64_mod, add64, sub64}
use rocdbgapi.Status.{
  Status, not_initialized, invalid_argument, invalid_wave_id, wave_not_stopped, process_frozen,
  displaced_stepping_active, invalid_displaced_stepping_id, invalid_argument_compatibility,
  illegal_instruction, fatal, Result, ok, err,
}
use rocdbgapi.Architecture.{Registers}
use rocdbgapi.Architecture.State.{is_stop}
use rocdbgapi.Wave.Machine.{
  DisplacedStepping, Wave, World, Setting, find_displaced, release, pc_of, write_pc_register,
}
use rocdbgapi.Wave.Machine.SetState.{is_some}
use rocdbgapi.Queue.{
  DebuggerMemory, Device, trap_instruction, allocate_displaced_instruction,
  release_displaced_instruction,
}

-- What the disassembler and the architecture say of instructions in `I`.
pub record Decoder (I : Type 0) : Type 0 where
  pub largest_instruction_size : ℕ
  pub instruction_of : (bytes : List ℕ) → I
  pub bytes_of : I → List ℕ
  pub is_valid : I → Bool
  pub can_execute_displaced : Registers → I → Bool

-- The wave and its process, with the buffers of the queue and the memory of the device.
pub record Stepping (I D : Type 0) : Type 0 where
  pub world : World I
  pub memory : DebuggerMemory
  pub next_displaced_id : ℕ
  pub device_state : D

module _ {I : Type 0} where
  -- An operation that began at the address.
  unfoldable pub find_from : ℕ → List (DisplacedStepping I) → Option (DisplacedStepping I)
  find_from pc [] = none
  find_from pc (d ∷ rest) = if d.from == pc then some d else find_from pc rest

  -- `retain`, with the assertion that the count does not wrap.
  unfoldable pub retain : ℕ → List (DisplacedStepping I) → Option (List (DisplacedStepping I))
  retain id [] = none
  retain id (d ∷ rest) =
      let others = retain id rest in
      if d.displaced_id == id
      then (if ltb d.reference_count ((d.reference_count + 1) % u64_mod)
          then some (record d { reference_count = (d.reference_count + 1) % u64_mod } ∷ rest)
          else none)
      else elim others [ none ↦ none | some ds ↦ some (d ∷ ds) ]

-- The pc that corresponds to one in the buffer.
abbrev pub restored_pc : (displaced_pc from to : ℕ) → ℕ
restored_pc displaced_pc from to = sub64 (add64 displaced_pc from) to

module _ {I D : Type 0} where
  abbrev pub with_pc : ℕ → Stepping I D → Stepping I D
  with_pc pc st = record st {
    world = record (st.world) { wave = write_pc_register pc st.world.wave };
  }

  -- The wave steps with the operation: its pc goes to the buffer, if there is one.
  unfoldable pub attach : DisplacedStepping I → Stepping I D → Result (Unit {0}) × Stepping I D
  attach d st =
      let moved : Stepping I D = elim d.to [ none ↦ st | some to ↦ with_pc to st ] in
      elim (retain d.displaced_id moved.world.displaced_steppings) [
        | none ↦ (err fatal, moved)
        | some ds ↦ (
          ok tt,
          record moved {
            world = record (moved.world) {
              displaced_steppings = ds;
              wave = record (moved.world.wave) { displaced_stepping = some d.displaced_id };
            };
          },
        )
      ]

  -- A buffer goes back to the queue with the object that holds it.
  unfoldable pub give_back : Option ℕ → Stepping I D → Result (Unit {0}) × Stepping I D
  give_back none st = (ok tt, st)
  give_back (some to) st =
      let (result, memory) = release_displaced_instruction to st.memory in
      (result, record st { memory = memory })

  -- `release`, and the buffer if this was the last reference.
  unfoldable pub drop_reference :
      DisplacedStepping I → Stepping I D → Result (Unit {0}) × Stepping I D
  drop_reference d st = elim (release d.displaced_id st.world.displaced_steppings) [
    | err e ↦ (err e, st)
    | ok ds ↦
        let rest : Stepping I D = record st {
          world = record (st.world) { displaced_steppings = ds };
        } in
        if d.reference_count - 1 == 0 then give_back d.to rest else (ok tt, rest)
  ]

  -- The pc goes back to the original code.
  unfoldable pub move_back : DisplacedStepping I → Stepping I D → Stepping I D
  move_back d st = elim d.to [
    | none ↦ st
    | some to ↦ with_pc (restored_pc (pc_of st.world.wave) d.from to) st
  ]

  -- The wave has no operation.
  abbrev pub detached : Stepping I D → Stepping I D
  detached st = record st {
    world = record (st.world) { wave = record (st.world.wave) { displaced_stepping = none } };
  }

  unfoldable pub detach : Result (Unit {0}) × Stepping I D → Result (Unit {0}) × Stepping I D
  detach (err e, st) = (err e, st)
  detach (ok done, st) = (ok tt, detached st)

  -- `wave_t::displaced_stepping_complete`
  unfoldable pub displaced_stepping_complete : Stepping I D → Result (Unit {0}) × Stepping I D
  displaced_stepping_complete st = elim (st.world.wave.displaced_stepping) [
    | none ↦ (err fatal, st)
    | some id ↦ elim (find_displaced id st.world.displaced_steppings) [
      | none ↦ (err fatal, st)
      | some d ↦
          if not (is_stop st.world.wave.state)
          then (err fatal, st)
          else detach (drop_reference d (move_back d st))
    ]
  ]

module _ {I D : Type 0} (s : Setting I) (k : Decoder I) (device : Device D)
    (read_global_memory_partial : (address size : ℕ) → D → Result (List ℕ) × D) (from_core : Bool)
    (ctx_save_base : ℕ) where
  -- A new operation; a buffer that it does not get to hold goes back.
  unfoldable pub create_displaced :
      (original_instruction : I) (to : Option ℕ) → Stepping I D → Result (Unit {0}) × Stepping I D
  create_displaced original_instruction to st =
      if not (k.is_valid original_instruction)
      then (err fatal, (give_back to st).1)
      else (let d : DisplacedStepping I = record {
        displaced_id = st.next_displaced_id;
        reference_count = 0;
        original_instruction = original_instruction;
        from = pc_of st.world.wave;
        to = to;
      } in
          attach d (record st {
            world = record (st.world) { displaced_steppings = d ∷ st.world.displaced_steppings };
            next_displaced_id = suc st.next_displaced_id;
          }))

  -- Where there is no operation to share.
  unfoldable pub start_new :
      (original_instruction : I) → Stepping I D → Result (Unit {0}) × Stepping I D
  start_new original_instruction st =
      if s.can_simulate st.world.wave.registers original_instruction
      then create_displaced original_instruction none st
      else (if k.can_execute_displaced st.world.wave.registers original_instruction
          then (let (allocated, memory, d) =
                allocate_displaced_instruction device from_core ctx_save_base
                  (k.bytes_of original_instruction) st.memory st.device_state in
              let st' : Stepping I D = record st { memory = memory; device_state = d } in
              elim allocated [
                | err e ↦ (err e, st')
                | ok to ↦ create_displaced original_instruction (some to) st'
              ])
          else (err illegal_instruction, st))

  -- `wave_t::displaced_stepping_start`
  unfoldable pub displaced_stepping_start :
      (saved_instruction_bytes : List ℕ) → Stepping I D → Result (Unit {0}) × Stepping I D
  displaced_stepping_start saved_instruction_bytes st =
      let offset = length (trap_instruction 1) in
      let pc = pc_of st.world.wave in
      if is_some st.world.wave.displaced_stepping
      then (err fatal, st)
      else (if not (is_stop st.world.wave.state)
          then (err fatal, st)
          else elim (find_from pc st.world.displaced_steppings) [
            | some d ↦ attach d st
            | none ↦
                let (read, d) =
                  read_global_memory_partial (add64 pc offset) (k.largest_instruction_size - offset)
                    st.device_state in
                let st' : Stepping I D = record st { device_state = d } in
                elim read [
                  | err e ↦ (err e, st')
                  | ok remaining ↦
                      start_new
                        (k.instruction_of (take offset saved_instruction_bytes ++ remaining)) st'
                ]
          ])
