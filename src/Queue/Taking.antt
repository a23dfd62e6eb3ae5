-- ===== src/Queue/Taking.antt =====
-- Taking a chunk for an instruction buffer in src/queue.cpp.
use rocdbgapi.Base.{
  ℕ, ◌+◌, ◌*◌, ◌%◌, ◌^◌, ◌≤◌, ◌<◌, ◌≡◌, refl, ap, arith, length, some, List, [], ◌∷◌, ltb, ltb→lt,
  if◌then◌else◌, Bool-cases, inl, inr, ◌⊎◌, subst,
}
use rocdbgapi.Base.Word.{u64_mod}
use rocdbgapi.Status.{Status, fatal, Result, ok, err, Result-cases}
use rocdbgapi.Queue.{
  DebuggerMemory, Device, assert_instruction, guard_address, chunk_address, take_chunk,
}
use rocdbgapi.Queue.Chunks.{occurrences, WellFormed}

List-cases : (l : List ℕ) → (l ≡ []) ⊎ ((i : ℕ) × (rest : List ℕ) × (l ≡ i ∷ rest))
List-cases [] = inl refl
List-cases (i ∷ rest) = inr (i, rest, refl)

-- The same memory with other chunks free or handed out.
pub with_chunks :
    {start end : ℕ} {m : DebuggerMemory} {live : List ℕ} (next : ℕ) (free live' : List ℕ)
    → WellFormed start end m live
    → next ≤ m.chunk_count
    → ((j : ℕ) → occurrences j free + occurrences j live' ≤ (if ltb j next then 1 else 0))
    → WellFormed start end (record m { next_chunk = next; free_chunks = free }) live'
with_chunks next free live' wf le used = record {
  used_once = used;
  next_le = le;
  count_small = wf.count_small;
  unset = wf.unset;
  inside = wf.inside;
}

pub forget_one :
    {start end : ℕ} {m : DebuggerMemory} {live : List ℕ} (i : ℕ)
    → WellFormed start end m (i ∷ live)
    → WellFormed start end m live
unfolding occurrences
forget_one {m = m} {live = live} i wf =
    with_chunks m.next_chunk m.free_chunks live wf wf.next_le λ j. omega (arith, wf.used_once j)

-- A chunk was taken that no live instruction had.
pub record Taken (start end base : ℕ) (m : DebuggerMemory) (live : List ℕ) (i : ℕ) : Type 0 where
  pub based : m.base ≡ some base
  pub in_range : i < m.chunk_count
  pub fresh : occurrences i live ≡ 0
  pub well_formed : WellFormed start end m (i ∷ live)

-- Writes that go nowhere but to the addresses from `low` up to `high`, with any outcome.
pub data Writes {D : Type 0} (device : Device D) (low high : ℕ) : D → D → Type 0 where
  no_write : {d : D} → Writes device low high d d
  one_write :
      {d d' : D} (address : ℕ) (bytes : List ℕ)
      → low ≤ address
      → address + length bytes ≤ high
      → Writes device low high (device.write_global_memory address bytes d).1 d'
      → Writes device low high d d'

-- A write that went through.
pub record IsWritten {D : Type 0} (device : Device D) (address : ℕ) (bytes : List ℕ) (d d' : D)
    : Type 0 where
  pub went : (device.write_global_memory address bytes d).0 ≡ ok tt
  pub state : d' ≡ (device.write_global_memory address bytes d).1

-- The chunk was free, and nothing is written, or its guard is.
abbrev pub Guarding : {D : Type 0} → Device D → (base i : ℕ) → List ℕ → D → D → Type 0
Guarding device base i free d d' =
    ((d' ≡ d) × (0 < occurrences i free))
    ⊎ ((at : ℕ) × (at ≡ base + i * 32 + 28) × IsWritten device at assert_instruction d d')

-- Where a call throws, nothing is written but to a chunk that no live instruction has.
abbrev pub Abandoned :
    {D : Type 0} → Device D → (start end : ℕ) → DebuggerMemory → List ℕ → D → D → Type 0
Abandoned device start end m live d d' =
    (d' ≡ d)
    ⊎ ((base i : ℕ) × Taken start end base m live i
        × Writes device (base + i * 32) (base + i * 32 + 32) d d')

module _ (start end base : ℕ) (below : end + 32 ≤ u64_mod) where
  chunk_address-eq :
      {m : DebuggerMemory} {live : List ℕ} (i : ℕ)
      → m.base ≡ some base
      → WellFormed start end m live
      → i < m.chunk_count
      → chunk_address base i ≡ base + i * 32
  chunk_address-eq i e wf lt = omega (arith, below, ((wf.inside base e).2 i lt).1)

  reused :
      (m : DebuggerMemory) (live : List ℕ) (i : ℕ) (rest : List ℕ)
      → m.base ≡ some base
      → m.free_chunks ≡ i ∷ rest
      → WellFormed start end m live
      → Taken start end base (record m { free_chunks = rest }) live i
  unfolding occurrences
  reused m live i rest e head wf = record {
    based = e;
    in_range = ground (arith, used i, wf.next_le);
    fresh = ground (arith, used i);
    well_formed = with_chunks m.next_chunk rest (i ∷ live) wf wf.next_le λ j. omega (arith, used j);
  }
    where
      used :
          (j : ℕ)
          → occurrences j (i ∷ rest) + occurrences j live ≤ (if ltb j m.next_chunk then 1 else 0)
      used j =
          subst (λ l. occurrences j l + occurrences j live ≤ (if ltb j m.next_chunk then 1 else 0))
            head (wf.used_once j)

  never_used :
      (m : DebuggerMemory) (live : List ℕ)
      → m.base ≡ some base
      → m.next_chunk < m.chunk_count
      → WellFormed start end m live
      → Taken start end base
          (record m { next_chunk = (m.next_chunk + 1) % 2 ^ 16 })
          live
          m.next_chunk
  unfolding occurrences
  never_used m live e lt wf = record {
    based = e;
    in_range = lt;
    fresh = ground (arith, wf.used_once m.next_chunk);
    well_formed =
        with_chunks ((m.next_chunk + 1) % 2 ^ 16) m.free_chunks (m.next_chunk ∷ live) wf
          (omega (arith, wf.count_small, lt))
          λ j. ground (arith, wf.used_once j, wf.count_small, lt);
  }

  module _ {D : Type 0} (device : Device D) where
    -- What taking a chunk may come to.
    pub record TookOrNot (m : DebuggerMemory) (live : List ℕ) (d : D)
        (out : Result ℕ × DebuggerMemory × D) : Type 0 where
      pub took :
          ((i : ℕ) × (out.0 ≡ ok (base + i * 32))
            × Taken start end base out.1 live i
            × Guarding device base i m.free_chunks d out.2)
          ⊎ ((e : Status) × (out.0 ≡ err e)
              × WellFormed start end out.1 live
              × Abandoned device start end out.1 live d out.2)

    pub take_chunk-outcome :
        (m : DebuggerMemory) (live : List ℕ) (d : D)
        → m.base ≡ some base
        → WellFormed start end m live
        → TookOrNot m live d (take_chunk device base m d)
    unfolding take_chunk occurrences
    take_chunk-outcome m live d e wf = elim (List-cases m.free_chunks) [
      | inr (i, rest, head) ↦
          let t = reused m live i rest e head wf in
          rw (take_chunk, head)
            (record {
              took =
                  inl (i, ap ok (chunk_address-eq i e wf t.in_range), t, inl (refl, first i rest));
            })
      | inl empty ↦ elim (Bool-cases (ltb m.next_chunk m.chunk_count)) [
        | inr full ↦
            rw (take_chunk, empty, full) (record { took = inr (fatal, refl, wf, inl refl) })
        | inl room ↦
            let t = never_used m live e (ltb→lt _ _ room) wf in
            elim (Result-cases
              (device.write_global_memory (guard_address (chunk_address base m.next_chunk))
                assert_instruction d).0) [
                  | inl (done, went) ↦
                      rw (take_chunk, empty, room, went)
                        (record {
                          took = inl (
                            m.next_chunk,
                            ap ok (chunk_address-eq m.next_chunk e wf t.in_range),
                            t,
                            inr (_, guard m.next_chunk t, record { went = went; state = refl }),
                          );
                        })
                  | inr (thrown, failed) ↦
                      rw (take_chunk, empty, room, failed)
                        (record {
                          took = inr (
                            thrown,
                            refl,
                            forget_one m.next_chunk t.well_formed,
                            inr (
                              base,
                              m.next_chunk,
                              t,
                              one_write _ assert_instruction (omega (arith, guard m.next_chunk t))
                                  (omega (arith, guard m.next_chunk t)) no_write,
                            ),
                          );
                        })
                ]
      ]
    ]
      where
        first : (i : ℕ) (rest : List ℕ) → 0 < occurrences i (i ∷ rest)
        first i rest = ground arith

        guard :
            (i : ℕ) {m' : DebuggerMemory}
            → Taken start end base m' live i
            → guard_address (chunk_address base i) ≡ base + i * 32 + 28
        guard i t = omega (arith, below, ((t.well_formed.inside base t.based).2 i t.in_range).1)
