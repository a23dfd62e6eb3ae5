-- ===== src/MemoryCache/Prefetch/Seen.antt =====
-- What `memory_cache_t::prefetch` of src/memory.cpp does to what is seen through the cache.
use rocdbgapi.Base.{
  ℕ, zero, suc, ◌+◌, ◌-◌, ◌*◌, ◌/◌, ◌%◌, ◌≤◌, ◌<◌, ◌≡◌, refl, sym, ap, ◌∙◌, arith, true, false,
  ◌&&◌, Option, none, some, List, ◌++◌, ltb, leb, ◌==◌, if◌then◌else◌, length, replicate, get_or,
  get_or-append_left, get_or-append_right, length-append, length-replicate, dec_lt,
}
use rocdbgapi.Base.Word.{u64_mod, add64, sub64}
use rocdbgapi.Utils.{align_down, align_up}
use rocdbgapi.Utils.Align.{align_down-eq, align_up_bounds}
use rocdbgapi.Memory.{Access, read, Xfer, nothing, Outcome, done}
use rocdbgapi.MemoryCache.{CacheLine, Lines, Cached, find_line}
use rocdbgapi.Memory.Plain.{Behaves}
use rocdbgapi.MemoryCache.OneAccess.{IsMemory}
use rocdbgapi.MemoryCache.Lines.{IsMap, seen}
use rocdbgapi.MemoryCache.Prefetch.{fill_loop, prefetch}
use rocdbgapi.MemoryCache.Prefetch.Fill.{pick, fill_loop-shown}

pub get_or-replicate : (n i : ℕ) → get_or (replicate n (let z : ℕ = 0 in z)) i 0 ≡ 0
get_or-replicate zero i = refl
get_or-replicate (suc n) zero = refl
get_or-replicate (suc n) (suc i) = get_or-replicate n i

-- The lines of a range, from the first byte of the first to the end of the last.
abbrev pub lines_begin : ℕ → ℕ
lines_begin address = address / 64 * 64

abbrev pub lines_end : (address size : ℕ) → ℕ
lines_end address size = (address + size + 63) / 64 * 64

-- What is seen once lines are prefetched: where no line was, zeros past the bytes that were read.
abbrev pub prefetched : {S : Type 0} → (S → ℕ → ℕ) → Cached S → (start stop : ℕ) → ℕ → ℕ
prefetched peek c start stop a = elim (find_line (a / 64 * 64) c.lines) [
  | some l ↦ get_or l.data_bytes (a % 64) 0
  | none ↦ if leb start a && ltb a stop then 0 else peek c.memory a
]

abbrev staging : (start stop : ℕ) → Xfer → List ℕ
staging start stop x = x.bytes ++ replicate (stop - start - length x.bytes) 0

module _ (m m' : ℕ → ℕ) (start stop : ℕ) (x : Xfer)
    (b : Behaves m m' start (read (stop - start)) x) where
  staging_at :
      (i : ℕ) → get_or (staging start stop x) i 0 ≡ (if ltb i x.count then m (start + i) else 0)
  staging_at i = elim (dec_lt i x.count) [
    | yes l ↦
        get_or-append_left x.bytes _ i 0 (omega (arith, b.answer.0))
        ∙ b.answer.1 i l
        ∙ sym (rw (before l) refl)
    | no l ↦
        get_or-append_right x.bytes _ i (i - x.count) 0 (omega (arith, b.answer.0))
        ∙ get_or-replicate _ (i - x.count)
        ∙ sym (rw (past l) refl)
  ]
    where
      before : i < x.count → ltb i x.count ≡ true
      before l = ground arith

      past : ¬ (i < x.count) → ltb i x.count ≡ false
      past l = ground arith

  staged :
      (a : ℕ)
      → (if leb start a && ltb a stop then get_or (staging start stop x) (a - start) 0 else m' a)
        ≡ (if leb (start + x.count) a && ltb a stop then 0 else m a)
  staged a = elim (dec_lt a start) [
    | yes before ↦ ground (arith, b.leaves a)
    | no from ↦
        ground (arith, staging_at (a - start), b.leaves a, b.at_most, ap m (place (omega arith)))
  ]
    where
      place : start ≤ a → start + (a - start) ≡ a
      place l = omega arith

length-replicate_zeros : (n : ℕ) → length (replicate n (let z : ℕ = 0 in z)) ≡ n
length-replicate_zeros n = length-replicate n 0

module _ {S : Type 0} (xfer : ℕ → Access → S → Outcome × S) (peek : S → ℕ → ℕ)
    (d : IsMemory xfer peek) (address size : ℕ) (c : Cached S) (v : IsMap c.lines)
    (some_bytes : 0 < size) (fits : address + size + 128 ≤ u64_mod) where
  abbrev start : ℕ
  start = lines_begin address

  abbrev stop : ℕ
  stop = lines_end address size

  -- Prefetching, where the transfer goes through, leaves what is seen through the cache as it was,
  -- but for the bytes that the transfer did not reach: where they had no line they are seen as zero.
  -- The map of lines stays in order; the range must end before the last two lines of the address
  -- space.
  pub prefetch-seen :
      (x : Xfer) (s : S)
      → xfer start (read (stop - start)) c.memory ≡ (done x, s)
      → (lines : Lines) × (prefetch xfer address size c
          ≡ some (done nothing, record { lines = lines; memory = s }))
        × IsMap lines
        × ((a : ℕ) → seen lines (peek s) a ≡ prefetched peek c (start + x.count) stop a)
  unfolding prefetch
  prefetch-seen x s e =
      let (lines, p, m, shows) =
        fill_loop-shown (suc ((stop - start) / 64)) start stop (staging start stop x) c.lines
          (peek s) (omega arith) (omega arith) (omega arith) (omega arith) (omega arith)
          (omega (
            arith,
            length-append x.bytes (replicate (stop - start - length x.bytes) 0),
            length-replicate_zeros (stop - start - length x.bytes),
            b.answer.0,
            b.at_most,
          ))
          v in
      (lines, filled lines p, m, λ a. shows a ∙ shown_is a (find_line (a / 64 * 64) c.lines))
    where
      b : Behaves (peek c.memory) (peek s) start (read (stop - start)) x
      b = d.behaves start (read (stop - start)) c.memory s x (omega arith) e

      not_empty : (size == 0) ≡ false
      not_empty = ground arith

      valid : ltb address (add64 address size) ≡ true
      valid = ground arith

      begins : align_down address 64 ≡ start
      begins = align_down-eq address 6 (omega arith) (omega arith)

      limit :
          (align_up (add64 address size) 64 % 64 ≡ 0)
          × (add64 address size ≤ align_up (add64 address size) 64)
          × (align_up (add64 address size) 64 < add64 address size + 64)
      limit = align_up_bounds (add64 address size) 6 (omega arith) (omega arith)

      ends : align_up (add64 address size) 64 ≡ stop
      ends = omega (arith, limit)

      n : sub64 stop start ≡ stop - start
      n = omega arith

      filled :
          (lines : Lines)
          → fill_loop (suc ((stop - start) / 64)) start stop (staging start stop x) c.lines
            ≡ some lines
          → prefetch xfer address size c ≡ some (done nothing, record { lines = lines; memory = s })
      filled lines p =
          rw (not_empty, valid, begins, ends, n, e, begins, ends, n, p, begins, ends, n, e) refl

      shown_is :
          (a : ℕ) (o : Option CacheLine)
          → pick start stop (staging start stop x) (peek s) a o ≡ elim o [
            | some l ↦ get_or l.data_bytes (a % 64) 0
            | none ↦ if leb (start + x.count) a && ltb a stop then 0 else peek c.memory a
          ]
      shown_is a (some l) = refl
      shown_is a none = staged (peek c.memory) (peek s) start stop x b a
