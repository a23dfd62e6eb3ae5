-- ===== src/Tests/Cache.antt =====
-- The memory cache, in front of a memory of bytes, on concrete lines.
use rocdbgapi.Base.{
  ℕ, ◌-◌, ◌≡◌, ◌%◌, refl, arith, true, false, Option, some, none, [], ◌∷◌, length, replicate,
  get_or, subst, Bool-cases, inl, inr, ◌==◌,
}
use rocdbgapi.Base.Word.{u64_mod}
use rocdbgapi.Utils.{align_down}
use rocdbgapi.Status.{ok}
use rocdbgapi.Memory.{Access, read, write, Outcome, done, access_error, nothing}
use rocdbgapi.Memory.Plain.{Behaves, after}
use rocdbgapi.MemoryCache.{CacheLine, Lines, Cached, find_line, xfer_global_memory}
use rocdbgapi.MemoryCache.Lines.{IsMap, seen}
use rocdbgapi.MemoryCache.Line.{Post}
use rocdbgapi.MemoryCache.OneAccess.{IsMemory}
use rocdbgapi.MemoryCache.Split.{xfer_global_memory-Post}
use rocdbgapi.MemoryCache.End.{end_never_returns}
use rocdbgapi.MemoryCache.Flush.{write_back, discard}
use rocdbgapi.MemoryCache.Flush.Discard.{Coherent, discard-seen}
use rocdbgapi.MemoryCache.Flush.Clean.{Refuses, write_back_loses}
use rocdbgapi.MemoryCache.Prefetch.{prefetch}
use rocdbgapi.MemoryCache.Prefetch.Seen.{get_or-replicate, prefetched, prefetch-seen}
use rocdbgapi.Tests.Private.{bytes_at, length-bytes_at, get_or-bytes_at, peek}

abbrev plain : ℕ → Access → (ℕ → ℕ) → Outcome × (ℕ → ℕ)
plain g (read n) s = (done (record { count = n; bytes = bytes_at s g n }), s)
plain g (write bytes) s =
    (done (record { count = length bytes; bytes = [] }), after (write bytes) g (length bytes) s)

abbrev Done : (g : ℕ) → Access → (ℕ → ℕ) → Outcome × (ℕ → ℕ) → Type 0
Done g access s (done x, t) = Behaves s t g access x
Done g access s (_, t) = Unit

plain-Done : (g : ℕ) (access : Access) (s : ℕ → ℕ) → Done g access s (plain g access s)
plain-Done g (read n) s = record {
  at_most = omega arith;
  leaves = λ a. refl;
  answer = (length-bytes_at s g n, λ i h. get_or-bytes_at s g n i h);
}
plain-Done g (write bytes) s = record { at_most = omega arith; leaves = λ a. refl; answer = refl }

plain-IsMemory : IsMemory plain peek
plain-IsMemory = record {
  behaves = λ g access s t x fits e. subst (Done g access s) e (plain-Done g access s);
}

-- A dirty line at 128.
abbrev line_128 : CacheLine
line_128 = record { data_bytes = replicate 64 7; dirty = true }

abbrev lines_128 : Lines
lines_128 = (128, line_128) ∷ []

abbrev cache_128 : Cached (ℕ → ℕ)
cache_128 = record { lines = lines_128; memory = λ a. a % 256 }

lines_128-IsMap : IsMap lines_128
lines_128-IsMap = (tt, refl, refl, tt)

xfer_global_memory-Post_example :
    Post peek cache_128 100 (read 100) (xfer_global_memory plain 2 100 (read 100) cache_128)
xfer_global_memory-Post_example =
    xfer_global_memory-Post plain peek 0 100 (read 100) cache_128 plain-IsMemory lines_128-IsMap
      (omega arith)

abbrev last_lines : Cached (ℕ → ℕ)
last_lines = record {
  lines = (u64_mod - 128, record { data_bytes = replicate 64 7; dirty = false }) ∷ [];
  memory = λ a. 0;
}

end_never_returns_example :
    xfer_global_memory plain 1000 (u64_mod - 128) (read 128) last_lines ≡ none
end_never_returns_example =
    end_never_returns plain (u64_mod - 128) (read 128) last_lines (omega arith) (omega arith)
      (omega arith) (omega arith) refl 1000

-- A clean line of zeros, as in memory.
abbrev zeros_128 : CacheLine
zeros_128 = record { data_bytes = replicate 64 0; dirty = false }

abbrev clean_128 : Lines
clean_128 = (128, zeros_128) ∷ []

abbrev zeros : ℕ → ℕ
zeros a = 0

abbrev Zeros : Option CacheLine → Type 0
Zeros none = Unit
Zeros (some l) = (i : ℕ) → get_or l.data_bytes i 0 ≡ 0

clean_128-Zeros : (key : ℕ) → Zeros (find_line key clean_128)
clean_128-Zeros key = elim (Bool-cases (128 == key)) [
  | inl here ↦ rw here (get_or-replicate 64)
  | inr other ↦ rw other tt
]

clean_128-Coherent : Coherent clean_128 zeros
clean_128-Coherent key l e clean i h = subst Zeros e (clean_128-Zeros key) i

discard-seen_example : IsMap [] × ((a : ℕ) → seen [] zeros a ≡ seen clean_128 zeros a)
unfolding discard align_down
discard-seen_example =
    discard-seen 130 10 clean_128 zeros (tt, refl, refl, tt) clean_128-Coherent dropped
  where
    dropped : discard 130 10 false clean_128 ≡ ok []
    dropped = refl

-- A memory that refuses every write.
abbrev read_only : ℕ → Access → (ℕ → ℕ) → Outcome × (ℕ → ℕ)
read_only g (read n) s = plain g (read n) s
read_only g (write bytes) s = (access_error, s)

read_only-Refuses : Refuses read_only
read_only-Refuses address bytes s = refl

write_back_loses_example :
    (o : Outcome) × (lines' lines'' : Lines) × (write_back read_only 128 64 cache_128
      ≡ some (o, record { lines = lines'; memory = cache_128.memory }))
    × (discard 128 64 false lines' ≡ ok lines'')
write_back_loses_example =
    write_back_loses read_only 128 64 cache_128 read_only-Refuses lines_128-IsMap (omega arith)
      (omega arith)

prefetch-seen_example :
    (lines : Lines) × (prefetch plain 100 10 cache_128
      ≡ some (done nothing, record { lines = lines; memory = cache_128.memory }))
    × IsMap lines
    × ((a : ℕ) → seen lines (peek cache_128.memory) a ≡ prefetched peek cache_128 128 128 a)
prefetch-seen_example =
    prefetch-seen plain peek plain-IsMemory 100 10 cache_128 lines_128-IsMap (omega arith)
      (omega arith) (record { count = 64; bytes = bytes_at (λ a. a % 256) 64 64 }) cache_128.memory
      refl
