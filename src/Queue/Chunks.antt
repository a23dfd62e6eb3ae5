-- ===== src/Queue/Chunks.antt =====
-- The chunks of the memory for instruction buffers in src/queue.cpp: which are free and which hold an
-- instruction.
use rocdbgapi.Base.{
  ℕ, ◌+◌, ◌-◌, ◌*◌, ◌/◌, ◌%◌, ◌^◌, ◌≤◌, ◌<◌, ◌≡◌, refl, ap, arith, ◌||◌, subst, none, some, List,
  [], ◌∷◌, ◌==◌, ltb, if◌then◌else◌, Bool-cases, inl, inr, ◌⊎◌,
}
use rocdbgapi.Base.Word.{u64_mod, add64, sub64}
use rocdbgapi.Utils.{align_up, is_aligned}
use rocdbgapi.Utils.Align.{align_up_bounds}
use rocdbgapi.Queue.{
  minimum_instruction_alignment, Header, DebuggerMemory, debugger_memory_chunk_size,
  debugger_memory_base, counted_chunks, set_up, no_debugger_memory,
}

-- How often a chunk stands in a list.
unfoldable pub occurrences : ℕ → List ℕ → ℕ
occurrences i [] = 0
occurrences i (j ∷ rest) = (if i == j then 1 else 0) + occurrences i rest

-- The memory that is reserved is from `start` up to `end`. A chunk that was handed out is free or holds
-- one of the live instructions, never both or two, and every chunk lies in the memory that is reserved.
pub record WellFormed (start end : ℕ) (m : DebuggerMemory) (live : List ℕ) : Type 0 where
  pub used_once :
      (i : ℕ)
      → occurrences i m.free_chunks + occurrences i live ≤ (if ltb i m.next_chunk then 1 else 0)
  pub next_le : m.next_chunk ≤ m.chunk_count
  pub count_small : m.chunk_count < 2 ^ 16
  pub unset : m.base ≡ none → m.chunk_count ≡ 0
  pub inside :
      (b : ℕ)
      → m.base ≡ some b
      → (b % 32 ≡ 0)
        × (b < u64_mod)
        × ((i : ℕ) → i < m.chunk_count → (start ≤ b + i * 32) × (b + i * 32 + 32 ≤ end))

pub no_debugger_memory-WellFormed : (start end : ℕ) → WellFormed start end no_debugger_memory []
unfolding occurrences
no_debugger_memory-WellFormed start end = record {
  used_once = λ i. ground arith;
  next_le = omega arith;
  count_small = omega arith;
  unset = λ e. refl;
  inside = λ b e. absurd (cc);
}

some_injective : {a b : ℕ} → some a ≡ some b → a ≡ b
some_injective e = cc

-- A header whose memory does not reach the last 32 addresses.
pub record Fits (ctx_save_base start end : ℕ) (header : Header) : Type 0 where
  pub starts : start ≡ ctx_save_base + header.debugger_memory_offset
  pub ends : end ≡ start + header.debugger_memory_size
  pub below : end + 32 ≤ u64_mod

chunks_inside :
    (ctx_save_base start end : ℕ) (header : Header)
    → Fits ctx_save_base start end header
    → (debugger_memory_base ctx_save_base header % 32 ≡ 0)
      × (debugger_memory_base ctx_save_base header < u64_mod)
      × (counted_chunks ctx_save_base header < 2 ^ 16
          → (i : ℕ) → i < counted_chunks ctx_save_base header
          → (start ≤ debugger_memory_base ctx_save_base header + i * 32)
            × (debugger_memory_base ctx_save_base header + i * 32 + 32 ≤ end))
chunks_inside ctx_save_base start end header f = (
  aligned.0,
  omega (arith, aligned.2, f.below, f.ends),
  λ small i lt. (
    omega (arith, aligned.1),
    omega (arith, small, lt, count, aligned.1, aligned.2, f.below, f.ends),
  ),
)
  where
    first : add64 ctx_save_base header.debugger_memory_offset ≡ start
    first = omega (arith, f.starts, f.ends, f.below)

    last :
        add64 (add64 ctx_save_base header.debugger_memory_size) header.debugger_memory_offset ≡ end
    last = omega (arith, f.starts, f.ends, f.below)

    place : debugger_memory_base ctx_save_base header ≡ align_up start 32
    place = ap (λ x. align_up x 32) first

    bounds :
        (align_up start 32 % 32 ≡ 0)
        × (start ≤ align_up start 32)
        × (align_up start 32 < start + 32)
    bounds = align_up_bounds start 5 (omega arith) (omega (arith, f.below, f.ends))

    aligned :
        (debugger_memory_base ctx_save_base header % 32 ≡ 0)
        × (start ≤ debugger_memory_base ctx_save_base header)
        × (debugger_memory_base ctx_save_base header < start + 32)
    aligned =
        (omega (arith, place, bounds), omega (arith, place, bounds), omega (arith, place, bounds))

    count :
        counted_chunks ctx_save_base header
        ≡ sub64 end (debugger_memory_base ctx_save_base header) / 32
    count = ap (λ t. sub64 t (debugger_memory_base ctx_save_base header) / 32) last

-- What an initialisation with the base and the number of chunks leaves.
based :
    (ctx_save_base start end count : ℕ) (header : Header) (m : DebuggerMemory) (live : List ℕ)
    → Fits ctx_save_base start end header
    → m.base ≡ none
    → count < 2 ^ 16
    → (count ≡ 0) ⊎ (count ≡ counted_chunks ctx_save_base header)
    → WellFormed start end m live
    → WellFormed start end
        (record m { base = some (debugger_memory_base ctx_save_base header); chunk_count = count })
        live
based ctx_save_base start end count header m live f none_yet small which wf = record {
  used_once = wf.used_once;
  next_le = omega (arith, wf.next_le, wf.unset none_yet);
  count_small = small;
  unset = λ e. absurd (cc);
  inside = λ b e.
      subst
        (λ x.
          (x % 32 ≡ 0)
          × (x < u64_mod)
          × ((i : ℕ) → i < count → (start ≤ x + i * 32) × (x + i * 32 + 32 ≤ end)))
        (some_injective e)
        (
          chunks.0,
          chunks.1,
          elim which [
            | inl none_counted ↦ λ i lt. absurd (omega (arith, none_counted, lt))
            | inr counted ↦
                λ i lt. chunks.2 (omega (arith, counted, small)) i (omega (arith, counted, lt))
          ],
        );
}
  where
    chunks :
        (debugger_memory_base ctx_save_base header % 32 ≡ 0)
        × (debugger_memory_base ctx_save_base header < u64_mod)
        × (counted_chunks ctx_save_base header < 2 ^ 16
            → (i : ℕ) → i < counted_chunks ctx_save_base header
            → (start ≤ debugger_memory_base ctx_save_base header + i * 32)
              × (debugger_memory_base ctx_save_base header + i * 32 + 32 ≤ end))
    chunks = chunks_inside ctx_save_base start end header f

pub set_up-WellFormed :
    (ctx_save_base start end : ℕ) (header : Header) (m : DebuggerMemory) (live : List ℕ)
    → Fits ctx_save_base start end header
    → m.base ≡ none
    → WellFormed start end m live
    → WellFormed start end (set_up ctx_save_base header m).1 live
unfolding set_up
set_up-WellFormed ctx_save_base start end header m live f none_yet wf =
    elim (Bool-cases ((header.debugger_memory_offset == 0) || (header.debugger_memory_size == 0))) [
      | inl missing ↦ rw (set_up, missing) wf
      | inr there ↦
          elim (Bool-cases (is_aligned debugger_memory_chunk_size minimum_instruction_alignment)) [
            | inr odd ↦ rw (set_up, there, odd) wf
            | inl even ↦
                elim (Bool-cases (ltb (2 ^ 16 - 1) (counted_chunks ctx_save_base header))) [
                  | inl many ↦
                      rw (set_up, there, even, many)
                        (based ctx_save_base start end m.chunk_count header m live f none_yet
                          wf.count_small (inl (wf.unset none_yet)) wf)
                  | inr fits ↦
                      rw (set_up, there, even, fits)
                        (based ctx_save_base start end (counted_chunks ctx_save_base header) header
                          m live f none_yet (ground arith) (inr refl) wf)
                ]
          ]
    ]
