-- ===== src/MemoryCache/Flush.antt =====
-- `fetch_cache_line`, `commit_cache_line`, `allocate_0_cache_line`, `write_back` and `discard` of
-- `memory_cache_t` in src/memory.cpp. A memory access error that is thrown is `access_error`.
pub mod Discard
pub mod Clean
use rocdbgapi.Base.{
  ℕ, zero, suc, ◌+◌, ◌-◌, Bool, true, false, not, ◌&&◌, ◌||◌, Option, none, some, List, [], ◌∷◌,
  ◌++◌, ltb, leb, ◌==◌, if◌then◌else◌, length, replicate, drop,
}
use rocdbgapi.Base.Word.{add64, sub64}
use rocdbgapi.Utils.{align_down}
use rocdbgapi.Status.{Result, ok, err, ◌>>=◌, ◌>>◌, assert}
use rocdbgapi.Memory.{
  Access, read, write, Xfer, nothing, Outcome, done, access_error, exited, failed,
}
use rocdbgapi.MemoryCache.{CacheLine, Lines, Cached, cache_line_size, policy, is_write_back}

-- The result of a call that gives nothing back.
abbrev unit_done : Outcome
unit_done = done nothing

-- The bytes that were read, over those that were there.
abbrev pub filled : CacheLine → List ℕ → List ℕ
filled line bytes = bytes ++ drop (length bytes) line.data_bytes

module _ {S : Type 0} (xfer : ℕ → Access → S → Outcome × S) where
  unfoldable pub fetch_cache_line : CacheLine → (address : ℕ) → S → Outcome × CacheLine × S
  fetch_cache_line line address s =
      if line.dirty
      then (failed, line, s)
      else let (o, s') = xfer address (read (length line.data_bytes)) s in
        elim o [
          | done x ↦
              if not (x.count == length line.data_bytes)
              then (access_error, record line { data_bytes = filled line x.bytes }, s')
              else (unit_done, record { data_bytes = filled line x.bytes; dirty = false }, s')
          | access_error ↦ (access_error, line, s')
          | exited ↦ (exited, line, s')
          | failed ↦ (failed, line, s')
        ]

  unfoldable pub commit_cache_line : CacheLine → (address : ℕ) → S → Outcome × CacheLine × S
  commit_cache_line line address s =
      if not line.dirty
      then (unit_done, line, s)
      else let (o, s') = xfer address (write line.data_bytes) s in
        elim o [
          | done x ↦
              if not (x.count == length line.data_bytes)
              then (access_error, line, s')
              else (unit_done, record line { dirty = false }, s')
          | access_error ↦ (access_error, line, s')
          | exited ↦ (exited, line, s')
          | failed ↦ (failed, line, s')
        ]

abbrev pub allocate_0_cache_line : CacheLine → Result CacheLine
allocate_0_cache_line line =
    assert (not line.dirty)
    >> ok (record { data_bytes = replicate (length line.data_bytes) 0; dirty = false })

-- The dirty lines that follow one another from a key on, up to the last one: their bytes, the lines
-- with the flag cleared, and what is left.
unfoldable pub take_group : (last_line next : ℕ) → Lines → List ℕ × Lines × Lines
take_group last_line next [] = ([], [], [])
take_group last_line next ((k, l) ∷ rest) =
    let (bytes, group, others) = take_group last_line (add64 next cache_line_size) rest in
    if leb k last_line && l.dirty && (k == next)
    then (l.data_bytes ++ bytes, (k, record l { dirty = false }) ∷ group, others)
    else ([], [], (k, l) ∷ rest)

-- What one transfer of a group says of the whole: a memory error is kept until the end, and that
-- the process has exited is no error.
abbrev pub is_memory_error : ℕ → Outcome → Bool
is_memory_error request_size (done x) = not (x.count == request_size)
is_memory_error request_size access_error = true
is_memory_error request_size _ = false

abbrev pub is_fatal : Outcome → Bool
is_fatal failed = true
is_fatal _ = false

module _ {S : Type 0} (xfer : ℕ → Access → S → Outcome × S) where
  -- The loop over the lines, with fuel for each round: whether a memory error was seen, whether a
  -- fatal error ended it, the lines, and the memory.
  unfoldable pub write_back_loop :
      (fuel first_line last_line : ℕ) → Lines → S → Option (Bool × Bool × Lines × S)
  unfolding take_group
  write_back_loop zero first_line last_line lines s = none
  write_back_loop (suc fuel) first_line last_line [] s = some (false, false, [], s)
  write_back_loop (suc fuel) first_line last_line ((k, l) ∷ rest) s =
      if ltb last_line k
      then some (false, false, (k, l) ∷ rest, s)
      else elim (ltb k first_line || not l.dirty) [
        | true ↦ elim (write_back_loop fuel first_line last_line rest s) [
          | none ↦ none
          | some (e, f, lines', s') ↦ some (e, f, (k, l) ∷ lines', s')
        ]
        | false ↦
            let (bytes, group, others) = take_group last_line (add64 k cache_line_size) rest in
            let (o, s') = xfer k (write (l.data_bytes ++ bytes)) s in
            let cleaned = (k, record l { dirty = false }) ∷ group in
            elim (is_fatal o) [
              | true ↦ some (false, true, cleaned ++ others, s')
              | false ↦ elim (write_back_loop fuel first_line last_line others s') [
                | none ↦ none
                | some (e, f, lines', s'') ↦ some (
                  is_memory_error (length (l.data_bytes ++ bytes)) o || e,
                  f,
                  cleaned ++ lines',
                  s'',
                )
              ]
            ]
      ]

  unfoldable pub write_back : (address size : ℕ) → Cached S → Option (Outcome × Cached S)
  unfolding write_back_loop
  write_back address size c =
      if not (is_write_back policy) || (size == 0)
      then some (unit_done, c)
      else if not (ltb address (add64 address size))
      then some (failed, c)
      else elim (write_back_loop (suc (length c.lines)) (align_down address cache_line_size)
          (align_down (sub64 (add64 address size) 1) cache_line_size) c.lines c.memory) [
            | none ↦ none
            | some (e, f, lines, s) ↦ some (
              (if f then failed else if e then access_error else unit_done),
              record { lines = lines; memory = s },
            )
          ]

-- The loop of `discard`: dirty lines may only be dropped by force.
unfoldable pub discard_loop :
    (first_line last_line : ℕ) → (force_discard : Bool) → Lines → Result Lines
discard_loop first_line last_line force_discard [] = ok []
discard_loop first_line last_line force_discard ((k, l) ∷ rest) =
    let others = discard_loop first_line last_line force_discard rest in
    if ltb k first_line
    then (others >>= λ lines. ok ((k, l) ∷ lines))
    else if ltb last_line k
    then ok ((k, l) ∷ rest)
    else (assert (force_discard || not l.dirty) >> others)

unfoldable pub discard : (address size : ℕ) → (force_discard : Bool) → Lines → Result Lines
unfolding discard_loop
discard address size force_discard lines =
    if size == 0
    then ok lines
    else assert (ltb address (add64 address size))
      >> discard_loop (align_down address cache_line_size)
          (align_down (sub64 (add64 address size) 1) cache_line_size) force_discard lines
