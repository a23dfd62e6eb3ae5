-- ===== src/Wave/Machine/ParkBuffer.antt =====
-- The park instruction of a queue in src/queue.cpp, where its buffer is allocated as Queue does.
use rocdbgapi.Base.{
  ℕ, ◌+◌, ◌≤◌, ◌<◌, ◌≡◌, inl, inr, refl, sym, ◌∙◌, arith, Option, none, some, List, Bool, true,
  false, length,
}
use rocdbgapi.Base.Word.{u64_mod}
use rocdbgapi.Status.{Result, ok, err}
use rocdbgapi.Queue.{
  Header, DebuggerMemory, Device, assert_instruction, allocate_displaced_instruction,
}
use rocdbgapi.Queue.Buffers.{slot, allocate-Allocated}
use rocdbgapi.Queue.Chunks.{WellFormed, Fits}
use rocdbgapi.Wave.Machine.{World, Setting, queue_instruction}
use rocdbgapi.Wave.Machine.SetState.Parks.{IsAddressed}

module _ {D : Type 0} (device : Device D) (ctx_save_base start end : ℕ) (below : end + 32 ≤ u64_mod)
    (headers : (d : D) (header : Header)
      → (device.read_header ctx_save_base d).0 ≡ ok header
      → Fits ctx_save_base start end header) where
  -- The address of an instruction that is allocated has 64 bits.
  allocated-lt :
      (from_core : Bool) (m : DebuggerMemory) (live : List ℕ) (d : D) (address : ℕ)
      → WellFormed start end m live
      → (allocate_displaced_instruction device from_core ctx_save_base assert_instruction m d).0
        ≡ ok address
      → address < u64_mod
  allocated-lt from_core m live d address wf e =
      elim (allocate-Allocated device start end below ctx_save_base headers from_core
        assert_instruction m live d wf).placed [
          | inr (thrown, failed, wf', abandoned) ↦ absurd (cc)
          | inl (base, i, went, small, t, stored) ↦
              let same : slot base i (length assert_instruction) ≡ address =
                the_same (sym went ∙ e) in
              omega (arith, same, below, ((t.well_formed.inside base t.based).2 i t.in_range).1)
        ]
    where
      the_same : {a b : ℕ} → ◌≡◌ {A = Result ℕ} (ok a) (ok b) → a ≡ b
      the_same p = cc

  -- A queue that has no park instruction yet, and allocates it from well formed chunks, gives an address
  -- of 64 bits or throws.
  park_instruction-IsAddressed :
      {I : Type 0} (s : Setting I) (w : World I) (m : DebuggerMemory) (live : List ℕ) (d : D)
      → WellFormed start end m live
      → w.park_instruction_ptr ≡ none
      → s.allocate_park_instruction
        ≡ (allocate_displaced_instruction device s.from_core ctx_save_base assert_instruction m d).0
      → IsAddressed s w
  unfolding queue_instruction
  park_instruction-IsAddressed s w m live d wf none_yet answer address ptr =
      by_case s.from_core w.park_instruction_ptr s.allocate_park_instruction none_yet
        (λ a e. allocated-lt s.from_core m live d a wf (sym answer ∙ e))
    where
      by_case :
          (from_core : Bool) (had : Option ℕ) (answer : Result ℕ)
          → had ≡ none
          → ((a : ℕ) → answer ≡ ok a → a < u64_mod)
          → queue_instruction from_core had answer ≡ ok (address, ptr)
          → address < u64_mod
      by_case true had answer n small e = ground (arith)
      by_case false (some a) answer n small e = absurd (cc)
      by_case false none (err x) n small e = absurd (cc)
      by_case false none (ok a) n small e = ground (arith, small a refl)
