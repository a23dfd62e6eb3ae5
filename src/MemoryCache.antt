-- ===== src/MemoryCache.antt =====
-- `memory_cache_t` of src/memory.h and src/memory.cpp: lines of 64 bytes in an ordered map, above a
-- transfer to global memory that is a parameter, as the constructor takes it.
pub mod Lines
pub mod Line
pub mod OneAccess
pub mod Split
pub mod End
pub mod Flush
pub mod Prefetch
use rocdbgapi.Base.{
  ℕ, zero, suc, ◌+◌, ◌-◌, min, Bool, true, false, not, ◌&&◌, ◌||◌, Option, none, some, List, [],
  ◌∷◌, ◌++◌, ltb, leb, ◌==◌, if◌then◌else◌, length, take, drop, replicate,
}
use rocdbgapi.Base.Word.{u64, add64, sub64, neg64}
use rocdbgapi.Utils.{align_down, align_up}
use rocdbgapi.Status.{Result, ok, err}
use rocdbgapi.Memory.{
  Access, read, write, size, first_bytes, skip_bytes, Xfer, nothing, joined, Outcome, done,
  access_error, exited, failed,
}

-- `memory_cache_t::policy_t`
pub data Policy : Type 0 where
  uncached write_through write_back_policy : Policy

abbrev pub policy : Policy
policy = write_back_policy

abbrev pub is_uncached : Policy → Bool
is_uncached uncached = true
is_uncached _ = false

abbrev pub is_write_back : Policy → Bool
is_write_back write_back_policy = true
is_write_back _ = false

abbrev pub cache_line_size : ℕ
cache_line_size = 64

pub record CacheLine : Type 0 where
  pub data_bytes : List ℕ
  pub dirty : Bool

-- `m_cache_line_map`, in the order of its keys.
abbrev pub Lines : Type 0
Lines = List (ℕ × CacheLine)

-- `find`
abbrev pub find_line : ℕ → Lines → Option CacheLine
find_line key [] = none
find_line key ((k, l) ∷ rest) = if k == key then some l else find_line key rest

-- The first entry that is not below the key, where it is not past the last one: what
-- `lower_bound` and `upper_bound` leave between them, and nothing if they meet.
abbrev pub first_between : ℕ → ℕ → Lines → Option (ℕ × CacheLine)
first_between lo hi [] = none
first_between lo hi ((k, l) ∷ rest) =
    if ltb k lo then first_between lo hi rest else if ltb hi k then none else some (k, l)

-- A line that is there is replaced.
abbrev pub set_line : ℕ → CacheLine → Lines → Lines
set_line key l [] = []
set_line key l ((k, m) ∷ rest) = if k == key then (k, l) ∷ rest else (k, m) ∷ set_line key l rest

-- `try_emplace` of a line, in the order of the keys.
abbrev pub emplace : ℕ → CacheLine → Lines → Lines
emplace key l [] = (key, l) ∷ []
emplace key l ((k, m) ∷ rest) =
    if ltb key k
    then (key, l) ∷ (k, m) ∷ rest
    else if k == key
    then (k, m) ∷ rest
    else (k, m) ∷ emplace key l rest

-- `memcpy (&data[offset], bytes, length)`
abbrev pub overwrite : List ℕ → List ℕ → List ℕ
overwrite [] line = line
overwrite (b ∷ bs) [] = []
overwrite (b ∷ bs) (d ∷ line) = b ∷ overwrite bs line

abbrev pub splice : ℕ → List ℕ → List ℕ → List ℕ
splice zero bytes line = overwrite bytes line
splice (suc offset) bytes [] = []
splice (suc offset) bytes (d ∷ line) = d ∷ splice offset bytes line

-- The cache, and the memory behind it.
pub record Cached (S : Type 0) : Type 0 where
  pub lines : Lines
  pub memory : S

-- An access that passes the end of the address space stops there.
unfoldable pub clamped : ℕ → Access → Access
clamped address access =
    if ltb (add64 address (size access)) address then first_bytes (neg64 address) access else access

-- How much of what is left lies in the line of `ptr`.
unfoldable pub line_request : (ptr left : ℕ) → ℕ
line_request ptr left = sub64 (min (align_up (add64 ptr 1) cache_line_size) (add64 ptr left)) ptr

module _ {S : Type 0} (xfer : ℕ → Access → S → Outcome × S) where
  -- What the delegate does, with the cache as it is.
  abbrev pub through : ℕ → Access → Cached S → Outcome × Cached S
  through address access c =
      let (o, s) = xfer address access c.memory in (o, record c { memory = s })

  -- An access to one cache line.
  unfoldable pub line_access :
      (offset address : ℕ) → ℕ → CacheLine → Access → Cached S → Outcome × Cached S
  line_access offset address key line (read n) c =
      (done (record { count = n; bytes = take n (drop offset line.data_bytes) }), c)
  line_access offset address key line (write bytes) c =
      let data' = splice offset bytes line.data_bytes in
      if not (is_write_back policy)
      then through address (write bytes)
          (record c { lines = set_line key (record line { data_bytes = data' }) c.lines })
      else (
        done (record { count = length bytes; bytes = [] }),
        record c { lines = set_line key (record { data_bytes = data'; dirty = true }) c.lines },
      )

  abbrev pub CachedXfer : Type 0
  CachedXfer = ℕ → Access → Cached S → Option (Outcome × Cached S)

  -- An access of some bytes to the lines from the first to the last: to memory where the cache has
  -- none of them, to its line where there is one, and else line by line.
  unfoldable pub range_access : CachedXfer → (first_line last_line : ℕ) → CachedXfer
  unfolding line_access
  range_access split first_line last_line address access c =
      elim (if is_uncached policy then none else first_between first_line last_line c.lines) [
        | none ↦ some (through address access c)
        | some (key, line) ↦
            if not (first_line == last_line)
            then split address access c
            else some (line_access (sub64 address first_line) address key line access c)
      ]

  -- `xfer_global_memory`, but for the loop over lines, `split`.
  unfoldable pub cached_access : (split : CachedXfer) → CachedXfer
  unfolding range_access clamped
  cached_access split address access c =
      if size access == 0
      then some (done nothing, c)
      else let access' = clamped address access in
        range_access split (align_down address cache_line_size)
          (align_down (sub64 (add64 address (size access')) 1) cache_line_size) address access' c

  -- A round of the loop, and what follows it. It has no result where a request is longer than what
  -- is left and would pass the end of the buffer.
  unfoldable pub split_round : (next : Xfer → CachedXfer) → CachedXfer → Xfer → CachedXfer
  split_round next access_line total ptr access c =
      if size access == 0
      then some (done total, c)
      else if ltb (size access) (line_request ptr (size access))
      then none
      else elim (access_line ptr (first_bytes (line_request ptr (size access)) access) c) [
        | none ↦ none
        | some (access_error, c') ↦ some (access_error, c')
        | some (exited, c') ↦ some (exited, c')
        | some (failed, c') ↦ some (failed, c')
        | some (done x, c') ↦
            if x.count == line_request ptr (size access)
            then next (joined total x) (add64 ptr x.count) (skip_bytes x.count access) c'
            else some (done (joined total x), c')
      ]

  -- The loop, with fuel for each round.
  unfoldable pub split_loop : CachedXfer → ℕ → Xfer → CachedXfer
  split_loop access_line zero = λ total ptr access c. none
  split_loop access_line (suc fuel) = split_round (split_loop access_line fuel) access_line

  -- The function calls itself for each line; `depth` bounds the calls inside one another.
  unfoldable pub xfer_global_memory : (depth : ℕ) → CachedXfer
  xfer_global_memory zero = λ address access c. none
  xfer_global_memory (suc depth) = cached_access λ address access c.
      split_loop (xfer_global_memory depth) (suc (size access)) nothing address access c
