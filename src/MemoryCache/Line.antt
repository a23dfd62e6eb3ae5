-- ===== src/MemoryCache/Line.antt =====
-- An access to one line of `memory_cache_t`, in `xfer_global_memory` of src/memory.cpp.
use rocdbgapi.Base.{
  ℕ, ◌+◌, ◌-◌, ◌*◌, ◌/◌, ◌%◌, ◌≤◌, ◌<◌, ◌≡◌, refl, sym, ap, ◌∙◌, arith, true, Option, none, some,
  ◌==◌, if◌then◌else◌, length, drop, get_or, length-take, length-drop, get_or-take, get_or-drop,
  ℕ_discrete,
}
use rocdbgapi.Memory.{Access, read, write, size, Outcome, done, access_error, exited, failed}
use rocdbgapi.Memory.Plain.{Behaves, after}
use rocdbgapi.MemoryCache.{CacheLine, Lines, find_line, set_line, splice, Cached, line_access}
use rocdbgapi.MemoryCache.Lines.{
  IsMap, seen, view, find-set_line, set_line-IsMap, find-full, length-splice, get_or-splice,
}

-- What an access to the cache gives: it always has an outcome, the map stays one, and where it
-- goes through it does to the memory that is seen what it does to plain memory.
abbrev pub Post :
    {S : Type 0} → (S → ℕ → ℕ) → Cached S → ℕ → Access → Option (Outcome × Cached S) → Type 0
Post peek c address access none = ⊥
Post peek c address access (some (done x, c')) =
    Behaves (view peek c) (view peek c') address access x × IsMap c'.lines
Post peek c address access (some (access_error, c')) = IsMap c'.lines
Post peek c address access (some (exited, c')) = IsMap c'.lines
Post peek c address access (some (failed, c')) = IsMap c'.lines

module _ (lines : Lines) (key : ℕ) {line : CacheLine} (found : find_line key lines ≡ some line)
    (aligned : key % 64 ≡ 0) (m : ℕ → ℕ) where
  seen_in_line :
      (offset : ℕ) → offset < 64 → seen lines m (key + offset) ≡ get_or line.data_bytes offset 0
  seen_in_line offset h = ground (arith, found, same_key, same_offset)
    where
      same_key : (key + offset) / 64 * 64 ≡ key
      same_key = omega arith

      same_offset : (key + offset) % 64 ≡ offset
      same_offset = omega arith

  seen-set_line :
      (l : CacheLine) (a : ℕ)
      → seen (set_line key l lines) m a
        ≡ (if a / 64 * 64 == key then get_or l.data_bytes (a % 64) 0 else seen lines m a)
  seen-set_line l a = elim (ℕ_discrete (a / 64 * 64) key) [
    | yes same ↦ ground (arith, find-set_line key l lines (a / 64 * 64) found)
    | no other ↦ ground (arith, find-set_line key l lines (a / 64 * 64) found)
  ]

module _ {S : Type 0} (xfer : ℕ → Access → S → Outcome × S) (peek : S → ℕ → ℕ) (c : Cached S)
    (key : ℕ) {line : CacheLine} (m : IsMap c.lines) (found : find_line key c.lines ≡ some line)
    (aligned : key % 64 ≡ 0) where
  pub line_access-Post :
      (offset : ℕ) (access : Access)
      → offset + size access ≤ 64
      → Post peek c
          (key + offset)
          access
          (some (line_access xfer offset (key + offset) key line access c))
  unfolding line_access
  line_access-Post offset (read n) inside = (
    record {
      at_most = omega arith;
      leaves = λ a. refl;
      answer = (
        omega (
          arith,
          length-take n (drop offset line.data_bytes),
          length-drop offset line.data_bytes,
          full,
        ),
        λ i h.
            get_or-take n (drop offset line.data_bytes) i 0 h
            ∙ get_or-drop offset line.data_bytes i 0
            ∙ sym
                (seen_in_line c.lines key found aligned (peek c.memory) (offset + i) (omega arith))
            ∙ ap (view peek c) (omega arith),
      );
    },
    m,
  )
    where
      full : length line.data_bytes ≡ 64
      full = find-full key c.lines m found
  line_access-Post offset (write bytes) inside = (
    record { at_most = omega arith; leaves = written; answer = refl },
    set_line-IsMap key _ c.lines
        (length-splice offset bytes line.data_bytes ∙ find-full key c.lines m found) m,
  )
    where
      full : length line.data_bytes ≡ 64
      full = find-full key c.lines m found

      new : CacheLine
      new = record { data_bytes = splice offset bytes line.data_bytes; dirty = true }

      written :
          (a : ℕ)
          → seen (set_line key new c.lines) (peek c.memory) a
            ≡ after (write bytes) (key + offset) (length bytes) (view peek c) a
      written a = elim (ℕ_discrete (a / 64 * 64) key) [
        | yes same ↦ ground (
          arith,
          seen-set_line c.lines key found aligned (peek c.memory) new a,
          get_or-splice offset bytes line.data_bytes (a % 64),
          full,
          found,
          place a same,
        )
        | no other ↦ ground (arith, seen-set_line c.lines key found aligned (peek c.memory) new a)
      ]
        where
          place : (a : ℕ) → a / 64 * 64 ≡ key → a % 64 - offset ≡ a - (key + offset)
          place a same = omega arith
