-- ===== src/MemoryCache/Prefetch.antt =====
-- `memory_cache_t::contains_all` and `prefetch` of src/memory.cpp.
pub mod Fill
pub mod Seen
use rocdbgapi.Base.{
  ℕ, zero, suc, ◌+◌, ◌-◌, ◌*◌, ◌/◌, ◌%◌, ◌≤◌, ◌<◌, ◌≡◌, ◌≢◌, refl, sym, ap, ◌∙◌, arith, Bool, true,
  false, not, ◌&&◌, ◌||◌, Option, none, some, List, [], ◌∷◌, ◌++◌, ltb, leb, ◌==◌, if◌then◌else◌,
  length, take, drop, replicate, get_or, get_or-take, get_or-drop, length-take, length-drop,
  Bool-cases, Option-cases, inl, inr, ◌⊎◌, dec_lt, ℕ_discrete,
}
use rocdbgapi.Base.Word.{u64_mod, add64, sub64}
use rocdbgapi.Utils.{align_down, align_up}
use rocdbgapi.Utils.Align.{align_down-eq, align_up_bounds}
use rocdbgapi.Status.{Result, ok, err, fatal}
use rocdbgapi.Memory.{
  Access, read, write, Xfer, nothing, Outcome, done, access_error, exited, failed,
}
use rocdbgapi.MemoryCache.{
  CacheLine, Lines, Cached, cache_line_size, policy, is_uncached, find_line, emplace,
}
use rocdbgapi.Memory.Plain.{Behaves}
use rocdbgapi.MemoryCache.OneAccess.{IsMemory}
use rocdbgapi.MemoryCache.Lines.{Above, IsMap, seen, view, find-Above}

-- The loop over line addresses; it runs out of fuel, or tells whether all lines are there.
unfoldable pub contains_loop : (fuel address end_address : ℕ) → Lines → Option Bool
contains_loop zero address end_address lines = none
contains_loop (suc fuel) address end_address lines =
    if not (ltb address end_address) then some true else elim (find_line address lines) [
      | none ↦ some false
      | some l ↦ contains_loop fuel (add64 address cache_line_size) end_address lines
    ]

-- With fuel for the lines from the first to the last, and the end. A failed assertion is `err`.
unfoldable pub contains_all : (address size : ℕ) → Lines → Result (Option Bool)
contains_all address size lines =
    if not (ltb address (add64 address size))
    then err fatal
    else let begin_address = align_down address cache_line_size in
      let end_address = align_up (add64 address size) cache_line_size in
      ok (
        contains_loop (suc (suc ((end_address - begin_address) / cache_line_size))) begin_address
          end_address lines)

-- The loop over the lines of the staging buffer. A line that is there is left as it is.
unfoldable pub fill_loop :
    (fuel address end_address : ℕ) → (staging_buffer : List ℕ) → Lines → Option Lines
unfolding contains_all
fill_loop zero address end_address staging_buffer lines = none
fill_loop (suc fuel) address end_address staging_buffer lines =
    if not (ltb address end_address)
    then some lines
    else elim (contains_all address cache_line_size lines) [
      | err e ↦ none
      | ok none ↦ none
      | ok (some true) ↦
          fill_loop fuel (add64 address cache_line_size) end_address
            (drop cache_line_size staging_buffer) lines
      | ok (some false) ↦
          fill_loop fuel (add64 address cache_line_size) end_address
            (drop cache_line_size staging_buffer)
            (emplace address
              (record { data_bytes = take cache_line_size staging_buffer; dirty = false }) lines)
    ]

module _ {S : Type 0} (xfer : ℕ → Access → S → Outcome × S) where
  -- The buffer is all zeros before the transfer, whose count is not looked at.
  unfoldable pub prefetch : (address size : ℕ) → Cached S → Option (Outcome × Cached S)
  prefetch address size c =
      if is_uncached policy || (size == 0)
      then some (done nothing, c)
      else if not (ltb address (add64 address size))
      then some (failed, c)
      else let begin_address = align_down address cache_line_size in
        let end_address = align_up (add64 address size) cache_line_size in
        let n = sub64 end_address begin_address in
        let (o, s) = xfer begin_address (read n) c.memory in
        elim o [
          | access_error ↦ some (done nothing, record c { memory = s })
          | exited ↦ some (exited, record c { memory = s })
          | failed ↦ some (failed, record c { memory = s })
          | done x ↦
              elim (fill_loop (suc (n / cache_line_size)) begin_address end_address
                (x.bytes ++ replicate (n - length x.bytes) 0) c.lines) [
                  | none ↦ none
                  | some lines ↦ some (done nothing, record { lines = lines; memory = s })
                ]
        ]
