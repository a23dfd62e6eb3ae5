-- ===== src/Queue/Release.antt =====
-- Giving an instruction buffer of src/queue.cpp back, and allocating it again.
use rocdbgapi.Base.{
  ℕ, ◌+◌, ◌*◌, ◌/◌, ◌%◌, ◌^◌, ◌≤◌, ◌<◌, ◌≡◌, refl, ◌∙◌, ap, ap₂, arith, true, false, some, List,
  ◌∷◌, ltb, lt→ltb, leb, length,
}
use rocdbgapi.Base.Word.{u64_mod, sub64}
use rocdbgapi.Status.{Result, ok}
use rocdbgapi.Utils.{is_aligned}
use rocdbgapi.Utils.Align.{is_aligned_iff}
use rocdbgapi.Queue.{
  DebuggerMemory, Device, assert_instruction, instruction_address, debugger_memory_chunk_size,
  release_displaced_instruction, initialize, take_chunk, place_instruction,
  allocate_displaced_instruction, minimum_instruction_alignment,
}
use rocdbgapi.Queue.Chunks.{occurrences, WellFormed}
use rocdbgapi.Queue.Buffers.{slot}
use rocdbgapi.Queue.Taking.{with_chunks}

-- An instruction of the chunk is one of the live ones.
pub record Holds (start end base : ℕ) (m : DebuggerMemory) (live : List ℕ) (i : ℕ) (live' : List ℕ)
    : Type 0 where
  pub based : m.base ≡ some base
  pub others : (j : ℕ) → occurrences j live ≡ occurrences j (i ∷ live')
  pub well_formed : WellFormed start end m live

-- The steps of an allocation, where the first two go through.
allocated :
    {D : Type 0} (device : Device D) (ctx_save_base : ℕ) (instruction : List ℕ) (base buffer : ℕ)
    (m m' m'' : DebuggerMemory) (d d' d'' d3 : D) (result : Result ℕ)
    → initialize device ctx_save_base m d ≡ (ok tt, m', d')
    → m'.base ≡ some base
    → take_chunk device base m' d' ≡ (ok buffer, m'', d'')
    → place_instruction device instruction buffer d'' ≡ (result, d3)
    → allocate_displaced_instruction device false ctx_save_base instruction m d ≡ (result, m'', d3)
unfolding allocate_displaced_instruction
allocated device ctx_save_base instruction base buffer m m' m'' d d' d'' d3 result ready there took
      placed =
    rw
      (
        allocate_displaced_instruction,
        ap (λ x. x.0) ready,
        ap (λ x. x.1.base) ready ∙ there,
        ap (λ x. x.0) taking,
        ap (λ x. x.1) taking,
        ap (λ x. x.2) taking,
        ap (λ x. x.0) placed,
        ap (λ x. x.1) placed,
      )
      refl
  where
    taking :
        take_chunk device base
          (initialize device ctx_save_base m d).1
          (initialize device ctx_save_base m d).2
        ≡ (ok buffer, m'', d'')
    taking = ap₂ (take_chunk device base) (ap (λ x. x.1) ready) (ap (λ x. x.2) ready) ∙ took

module _ (start end base : ℕ) (below : end + 32 ≤ u64_mod) (m : DebuggerMemory) (live : List ℕ)
    (i : ℕ) (live' : List ℕ) (h : Holds start end base m live i live') where
  pub in_range : i < m.chunk_count
  unfolding occurrences
  in_range = ground (arith, h.others i, h.well_formed.used_once i, h.well_formed.next_le)

  chunk_ends : base + i * 32 + 32 ≤ end
  chunk_ends = ((h.well_formed.inside base h.based).2 i in_range).1

  released_index : (n : ℕ) → n ≤ 28 → sub64 (slot base i n) base / 32 ≡ i
  released_index n le = omega (arith, below, chunk_ends)

  -- The chunk of an instruction that is given back is free, and is no more one of the live ones.
  pub release-WellFormed :
      (n : ℕ)
      → n ≤ 28
      → (release_displaced_instruction (slot base i n) m
          ≡ (ok tt, record m { free_chunks = i ∷ m.free_chunks }))
        × WellFormed start end (record m { free_chunks = i ∷ m.free_chunks }) live'
  unfolding release_displaced_instruction occurrences
  release-WellFormed n le = (
    rw (release_displaced_instruction, h.based, released_index n le, in_range_test, small_index)
        (ap (λ b. (ok tt, record m { base = b; free_chunks = i ∷ m.free_chunks })) h.based),
    with_chunks m.next_chunk (i ∷ m.free_chunks) live' h.well_formed h.well_formed.next_le
        λ j. ground (arith, h.others j, h.well_formed.used_once j),
  )
    where
      in_range_test : ltb i m.chunk_count ≡ true
      in_range_test = lt→ltb i m.chunk_count in_range

      small_index : i % 2 ^ 16 ≡ i
      small_index = omega (arith, in_range, h.well_formed.count_small)

  taken_again :
      {D : Type 0} (device : Device D) (d : D)
      → take_chunk device base (record m { free_chunks = i ∷ m.free_chunks }) d
        ≡ (ok (base + i * 32), m, d)
  unfolding take_chunk
  taken_again device d = ap (λ a. (ok a, m, d)) (omega (arith, below, chunk_ends))

  placed_again :
      {D : Type 0} (device : Device D) (instruction : List ℕ) (d : D)
      → length instruction ≤ 28
      → length instruction % 4 ≡ 0
      → (device.write_global_memory (slot base i (length instruction)) instruction d).0 ≡ ok tt
      → place_instruction device instruction (base + i * 32) d ≡ (
        ok (slot base i (length instruction)),
        (device.write_global_memory (slot base i (length instruction)) instruction d).1,
      )
  unfolding place_instruction
  placed_again device instruction d small whole went =
      rw (place_instruction, fits, address, aligned, went) refl
    where
      fits : leb (length instruction + length assert_instruction) debugger_memory_chunk_size ≡ true
      fits = ground arith

      address :
          instruction_address (base + i * 32) (length instruction)
          ≡ slot base i (length instruction)
      address = omega (arith, below, chunk_ends)

      aligned : is_aligned (slot base i (length instruction)) minimum_instruction_alignment ≡ true
      aligned =
          (is_aligned_iff (slot base i (length instruction)) 2 (omega arith)
              (omega (arith, below, chunk_ends))).1
            (omega (arith, (h.well_formed.inside base h.based).0))

  -- Where an instruction was given back and the device takes the write of the next one, that one gets
  -- the same chunk, and the chunks are again as they were before.
  pub release-allocate :
      {D : Type 0} (device : Device D) (ctx_save_base n : ℕ) (instruction : List ℕ) (d : D)
      → n ≤ 28
      → length instruction ≤ 28
      → length instruction % 4 ≡ 0
      → (device.write_global_memory (slot base i (length instruction)) instruction d).0 ≡ ok tt
      → allocate_displaced_instruction device false ctx_save_base instruction
          (release_displaced_instruction (slot base i n) m).1
          d
        ≡ (
          ok (slot base i (length instruction)),
          m,
          (device.write_global_memory (slot base i (length instruction)) instruction d).1,
        )
  unfolding initialize
  release-allocate device ctx_save_base n instruction d le small whole went =
      ap (λ x. allocate_displaced_instruction device false ctx_save_base instruction x.1 d)
        (release-WellFormed n le).0
      ∙ allocated device ctx_save_base instruction base (base + i * 32)
          (record m { free_chunks = i ∷ m.free_chunks }) _ _ d d d _ _ ready h.based again placed
    where
      again :
          take_chunk device base (record m { free_chunks = i ∷ m.free_chunks }) d
          ≡ (ok (base + i * 32), m, d)
      again = taken_again device d

      placed : place_instruction device instruction (base + i * 32) d ≡ (
        ok (slot base i (length instruction)),
        (device.write_global_memory (slot base i (length instruction)) instruction d).1,
      )
      placed = placed_again device instruction d small whole went

      ready :
          initialize device ctx_save_base (record m { free_chunks = i ∷ m.free_chunks }) d
          ≡ (ok tt, record m { free_chunks = i ∷ m.free_chunks }, d)
      ready =
          rw (initialize, h.based)
            (ap (λ b. (ok tt, record m { base = b; free_chunks = i ∷ m.free_chunks }, d)) h.based)
