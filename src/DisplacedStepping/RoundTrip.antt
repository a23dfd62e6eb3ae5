-- ===== src/DisplacedStepping/RoundTrip.antt =====
-- What `displaced_stepping_start` of src/wave.cpp followed at once by `displaced_stepping_complete` is to
-- give, whether an operation is made or one of another wave is shared.
use rocdbgapi.Base.{ℕ, ◌+◌, ◌%◌, ◌<◌, ◌≤◌, ◌≡◌, ◌⊎◌, Option, none, some, List, ◌∷◌, true, false}
use rocdbgapi.Base.Word.{u64_mod}
use rocdbgapi.Status.{Status, Result, ok, err}
use rocdbgapi.Architecture.State.{is_stop}
use rocdbgapi.Wave.Machine.{DisplacedStepping, World, find_displaced, pc_of}
use rocdbgapi.Wave.Machine.SetState.{is_some}
use rocdbgapi.Wave.Machine.SetState.Parks.{IsPc}
use rocdbgapi.Queue.Buffers.{slot}
use rocdbgapi.Queue.Chunks.{WellFormed}
use rocdbgapi.Queue.Release.{Holds}
use rocdbgapi.DisplacedStepping.{Stepping, find_from, displaced_stepping_complete}

-- The operation that another wave began at the same pc, whose instruction is in a chunk.
pub record IsShareable {I D : Type 0} (start end : ℕ) (live : List ℕ) (st : Stepping I D)
    (d : DisplacedStepping I) : Type 0 where
  pub from_here : find_from (pc_of st.world.wave) st.world.displaced_steppings ≡ some d
  pub found : find_displaced d.displaced_id st.world.displaced_steppings ≡ some d
  pub referenced : 0 < d.reference_count
  pub few : d.reference_count + 1 < u64_mod
  pub base : ℕ
  pub index : ℕ
  pub size : ℕ
  pub placed : d.to ≡ some (slot base index size)
  pub small : size ≤ 28
  pub whole : slot base index size % 4 ≡ 0
  pub others : List ℕ
  pub holds : Holds start end base st.memory live index others

-- The wave is stopped and does not step, and if another one steps from its pc that one's operation can
-- be shared.
pub record CanStart {I D : Type 0} (start end : ℕ) (live : List ℕ) (st : Stepping I D)
    : Type 0 where
  pub stopped : is_stop st.world.wave.state ≡ true
  pub no_operation : is_some st.world.wave.displaced_stepping ≡ false
  pub shared :
      (find_from (pc_of st.world.wave) st.world.displaced_steppings ≡ none)
      ⊎ ((d : DisplacedStepping I) × IsShareable start end live st d)
  pub is_pc : IsPc st.world.wave
  pub aligned : pc_of st.world.wave % 4 ≡ 0
  pub buffers : WellFormed start end st.memory live

-- The wave was at an instruction in a chunk that is free now, and the other chunks are as they were.
pub record IsFreed {I D : Type 0} (st st' : Stepping I D) : Type 0 where
  pub base : ℕ
  pub index : ℕ
  pub size : ℕ
  pub at : pc_of st.world.wave ≡ slot base index size
  pub freed : st'.memory ≡ record (st.memory) { free_chunks = index ∷ st.memory.free_chunks }

-- The chunk comes free if no other wave steps there.
abbrev pub IsGivenBack :
    {I D : Type 0} → (shared : Option (DisplacedStepping I)) → (st st' : Stepping I D) → Type 0
IsGivenBack none st st' = IsFreed st st'
IsGivenBack (some d) st st' = st'.memory ≡ st.memory

-- What starting and then completing comes to. Either starting throws, and leaves the wave and its
-- operations; or completing goes through and leaves the pc, and the operations that there were.
pub record IsRoundTrip {I D : Type 0} (start end : ℕ) (live : List ℕ) (w : World I)
    (started : Result (Unit {0}) × Stepping I D) : Type 0 where
  pub outcome :
      ((e : Status) × (started.0 ≡ err e)
        × (started.1.world ≡ w)
        × WellFormed start end started.1.memory live)
      ⊎ ((started.0 ≡ ok tt)
          × ((displaced_stepping_complete started.1).0 ≡ ok tt)
          × (pc_of (displaced_stepping_complete started.1).1.world.wave ≡ pc_of w.wave)
          × ((displaced_stepping_complete started.1).1.world.wave.displaced_stepping ≡ none)
          × ((displaced_stepping_complete started.1).1.world.displaced_steppings
              ≡ w.displaced_steppings)
          × IsGivenBack
              (find_from (pc_of w.wave) w.displaced_steppings)
              started.1
              (displaced_stepping_complete started.1).1
          × WellFormed start end (displaced_stepping_complete started.1).1.memory live)
