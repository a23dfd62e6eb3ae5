-- ===== src/DisplacedStepping/Moves.antt =====
-- What `displaced_stepping_complete` of src/wave.cpp leaves: the pc of the wave, and the buffer of the
-- instruction.
use rocdbgapi.Base.{
  ℕ, ◌+◌, ◌-◌, ◌%◌, ◌^◌, ◌≤◌, ◌<◌, ◌≡◌, refl, sym, ap, ◌∙◌, arith, true, Bool-cases, inl, inr, none,
  some, List, [], ◌∷◌, ◌==◌, lt→ltb, subst, if◌then◌else◌,
}
use rocdbgapi.Base.Word.{u64_mod}
use rocdbgapi.Status.{Result, ok, err}
use rocdbgapi.Architecture.State.{is_stop}
use rocdbgapi.Wave.Machine.{DisplacedStepping, find_displaced, release, pc_of}
use rocdbgapi.Wave.Machine.SetState.Parks.{IsPc}
use rocdbgapi.Queue.{DebuggerMemory, release_displaced_instruction}
use rocdbgapi.Queue.Buffers.{slot}
use rocdbgapi.Queue.Chunks.{WellFormed}
use rocdbgapi.Queue.Release.{Holds, in_range, release-WellFormed}
use rocdbgapi.DisplacedStepping.{
  Stepping, with_pc, give_back, drop_reference, restored_pc, displaced_stepping_complete, move_back,
  detach, detached,
}
use rocdbgapi.DisplacedStepping.Pc.{same_pc, same-IsPc, pc_of-write_pc_register}

module _ {I : Type 0} where
  first_found :
      (id : ℕ) (x : DisplacedStepping I) (rest : List (DisplacedStepping I))
      (d : DisplacedStepping I)
      → (x.displaced_id == id) ≡ true
      → find_displaced id (x ∷ rest) ≡ some d
      → x ≡ d
  first_found id x rest d here e = cc

  -- An operation that is there, and that a wave refers to, loses a reference.
  release-goes :
      (id : ℕ) (ds : List (DisplacedStepping I)) (d : DisplacedStepping I)
      → find_displaced id ds ≡ some d
      → 0 < d.reference_count
      → (ds' : List (DisplacedStepping I)) × (release id ds ≡ ok ds')
  unfolding release
  release-goes id [] d e h = absurd (cc)
  release-goes id (x ∷ rest) d e h = elim (Bool-cases (x.displaced_id == id)) [
    | inl here ↦ (
      if x.reference_count - 1 == 0
          then rest
          else record x { reference_count = x.reference_count - 1 } ∷ rest,
      rw
          (
            release,
            here,
            lt→ltb 0 x.reference_count
                (subst (λ y. 0 < y.reference_count) (sym (first_found id x rest d here e)) h),
          )
          refl,
    )
    | inr past ↦
        let (ds', went) = release-goes id rest d (rw past at e) h in
        (x ∷ ds', rw (release, past, went) refl)
  ]

-- The buffers after a reference is dropped: chunk `i` comes free with the last one, and only then.
abbrev pub memory_after : (references i : ℕ) → DebuggerMemory → DebuggerMemory
memory_after references i m =
    if references == 1 then record m { free_chunks = i ∷ m.free_chunks } else m

-- What completing leaves: the pc is that of the original code, the wave has no operation, the operation
-- has lost a reference, and the buffer is free if the wave was the last that stepped there.
pub record IsCompleted {I D : Type 0} (start end pc i : ℕ) (d : DisplacedStepping I)
    (live live' : List ℕ) (st : Stepping I D) (out : Result (Unit {0}) × Stepping I D)
    : Type 0 where
  pub went : out.0 ≡ ok tt
  pub moved : pc_of out.1.world.wave ≡ pc
  pub is_pc : IsPc out.1.world.wave
  pub no_operation : out.1.world.wave.displaced_stepping ≡ none
  pub released :
      release d.displaced_id st.world.displaced_steppings ≡ ok out.1.world.displaced_steppings
  pub memory : out.1.memory ≡ memory_after d.reference_count i st.memory
  pub buffers : WellFormed start end out.1.memory (if d.reference_count == 1 then live' else live)

-- A stopped wave that steps with an operation whose instruction is in a chunk of the queue.
pub record IsStepping {I D : Type 0} (start end base i n : ℕ) (live live' : List ℕ)
    (d : DisplacedStepping I) (st : Stepping I D) : Type 0 where
  pub operation : st.world.wave.displaced_stepping ≡ some d.displaced_id
  pub found : find_displaced d.displaced_id st.world.displaced_steppings ≡ some d
  pub referenced : 0 < d.reference_count
  pub stopped : is_stop st.world.wave.state ≡ true
  pub is_pc : IsPc st.world.wave
  pub placed : d.to ≡ some (slot base i n)
  pub small : n ≤ 28
  pub aligned : d.from % 4 ≡ slot base i n % 4
  pub holds : Holds start end base st.memory live i live'

detach_ok :
    {I D : Type 0} (out : Result (Unit {0}) × Stepping I D)
    → out.0 ≡ ok tt
    → detach out ≡ (ok tt, detached out.1)
unfolding detach
detach_ok (err e, st) went = absurd (cc)
detach_ok (ok done, st) went = refl

completed :
    {I D : Type 0} (st : Stepping I D) (d : DisplacedStepping I)
    (out : Result (Unit {0}) × Stepping I D)
    → st.world.wave.displaced_stepping ≡ some d.displaced_id
    → find_displaced d.displaced_id st.world.displaced_steppings ≡ some d
    → is_stop st.world.wave.state ≡ true
    → detach (drop_reference d (move_back d st)) ≡ out
    → displaced_stepping_complete st ≡ out
unfolding displaced_stepping_complete
completed st d out operation found stopped e =
    rw (displaced_stepping_complete, operation, found, stopped) e

module _ {I D : Type 0} (start end base i n : ℕ) (below : end + 32 ≤ u64_mod) (live live' : List ℕ)
    (d : DisplacedStepping I) (st : Stepping I D)
    (h : IsStepping start end base i n live live' d st) where
  freed :
      (st' : Stepping I D)
      → st'.memory ≡ st.memory
      → give_back (some (slot base i n)) st' ≡ (
        ok tt,
        record st' { memory = record (st.memory) { free_chunks = i ∷ st.memory.free_chunks } },
      )
  unfolding give_back
  freed st' same =
      ap (λ r. (r.0, record st' { memory = r.1 }))
        (ap (release_displaced_instruction (slot base i n)) same
          ∙ (release-WellFormed start end base below st.memory live i live' h.holds n h.small).0)

  dropped :
      (st' : Stepping I D)
      → st'.memory ≡ st.memory
      → st'.world.displaced_steppings ≡ st.world.displaced_steppings
      → ((drop_reference d st').0 ≡ ok tt)
        × ((drop_reference d st').1.world.wave ≡ st'.world.wave)
        × (release d.displaced_id st.world.displaced_steppings
            ≡ ok (drop_reference d st').1.world.displaced_steppings)
        × ((drop_reference d st').1.memory ≡ memory_after d.reference_count i st.memory)
        × WellFormed start end
            (drop_reference d st').1.memory
            (if d.reference_count == 1 then live' else live)
  unfolding drop_reference
  dropped st' same_memory same_operations =
      let (ds', went) =
        release-goes d.displaced_id st.world.displaced_steppings d h.found h.referenced in
      let released : release d.displaced_id st'.world.displaced_steppings ≡ ok ds' =
        ap (release d.displaced_id) same_operations ∙ went in
      let rest : Stepping I D = record st' {
        world = record (st'.world) { displaced_steppings = ds' };
      } in
      elim (Bool-cases (d.reference_count == 1)) [
        | inl last ↦
            rw (drop_reference, released, last_test ∙ last, last, h.placed, freed rest same_memory)
              (
                refl,
                refl,
                went,
                refl,
                (release-WellFormed start end base below st.memory live i live' h.holds n
                    h.small).1,
              )
        | inr more ↦
            rw (drop_reference, released, last_test ∙ more, more)
              (
                refl,
                refl,
                went,
                same_memory,
                subst (λ m. WellFormed start end m live) (sym same_memory) h.holds.well_formed,
              )
      ]
    where
      last_test : (d.reference_count - 1 == 0) ≡ (d.reference_count == 1)
      last_test = ground (arith, h.referenced)

  -- Completing moves the pc by the distance of the buffer to the original instruction: the wave goes on
  -- as far behind that one as it came in the buffer. The operation loses a reference, and with the last
  -- one its buffer comes free. The operation is the wave's, has a reference, and its instruction is in
  -- a chunk of well formed buffers.
  pub complete-IsCompleted :
      (k : ℕ)
      → pc_of st.world.wave ≡ slot base i n + k
      → d.from + k < 2 ^ 48
      → IsCompleted start end (d.from + k) i d live live' st (displaced_stepping_complete st)
  unfolding move_back
  complete-IsCompleted k at fits =
      subst (IsCompleted start end (d.from + k) i d live live' st) (sym whole) (record {
        went = refl;
        moved = same_pc none (drop_reference d back).1.world.wave ∙ ap pc_of d3.1 ∙ moved.0;
        is_pc = same-IsPc none (drop_reference d back).1.world.wave (subst IsPc (sym d3.1) moved.1);
        no_operation = refl;
        released = d3.2;
        memory = d3.3;
        buffers = d3.4;
      })
    where
      restored : restored_pc (pc_of st.world.wave) d.from (slot base i n) ≡ d.from + k
      restored = omega (
        arith,
        at,
        fits,
        below,
        ((h.holds.well_formed.inside base h.holds.based).2 i
            (in_range start end base below st.memory live i live' h.holds)).1,
      )

      back : Stepping I D
      back = with_pc (d.from + k) st

      moved : (pc_of back.world.wave ≡ d.from + k) × IsPc back.world.wave
      moved =
          pc_of-write_pc_register (d.from + k) st.world.wave h.is_pc fits
            (omega (arith, at, h.aligned))

      d3 :
          ((drop_reference d back).0 ≡ ok tt)
          × ((drop_reference d back).1.world.wave ≡ back.world.wave)
          × (release d.displaced_id st.world.displaced_steppings
              ≡ ok (drop_reference d back).1.world.displaced_steppings)
          × ((drop_reference d back).1.memory ≡ memory_after d.reference_count i st.memory)
          × WellFormed start end
              (drop_reference d back).1.memory
              (if d.reference_count == 1 then live' else live)
      d3 = dropped back refl refl

      went_back : move_back d st ≡ back
      went_back = rw (move_back, h.placed) (ap (λ v. with_pc v st) restored)

      whole : displaced_stepping_complete st ≡ (ok tt, detached (drop_reference d back).1)
      whole =
          completed st d _ h.operation h.found h.stopped (
            ap (λ x. detach (drop_reference d x)) went_back
            ∙ detach_ok (drop_reference d back) d3.0)
