-- ===== src/MemoryCache/OneAccess.antt =====
-- `memory_cache_t::xfer_global_memory` of src/memory.cpp, with what its loop over lines does given.
use rocdbgapi.Base.{
  ℕ, ◌+◌, ◌-◌, ◌*◌, ◌/◌, ◌%◌, ◌≤◌, ◌<◌, ◌≡◌, ◌≢◌, refl, sym, ap, subst, ◌∙◌, arith, true, false,
  none, some, ◌==◌, dec_lt, ℕ_discrete, Option-cases, inl, inr,
}
use rocdbgapi.Base.Word.{u64_mod, add64, sub64}
use rocdbgapi.Utils.{align_down}
use rocdbgapi.Utils.Align.{align_down-eq}
use rocdbgapi.Memory.{Access, read, write, size, Xfer, Outcome, done, access_error, exited, failed}
use rocdbgapi.Memory.Plain.{Behaves, Behaves-nothing}
use rocdbgapi.MemoryCache.{
  CacheLine, Lines, find_line, first_between, Cached, CachedXfer, cached_access, clamped,
  range_access, through, line_access,
}
use rocdbgapi.MemoryCache.Lines.{IsMap, seen, view, find-between, find-between_none, between_bounds}
use rocdbgapi.MemoryCache.Line.{Post, line_access-Post}

-- The transfer to global memory that the cache is given does what an access to plain memory does,
-- wherever it goes through.
pub record IsMemory {S : Type 0} (xfer : ℕ → Access → S → Outcome × S) (peek : S → ℕ → ℕ)
    : Type 0 where
  pub behaves :
      (address : ℕ) (access : Access) (s t : S) (x : Xfer)
      → address + size access ≤ u64_mod
      → xfer address access s ≡ (done x, t)
      → Behaves (peek s) (peek t) address access x

-- Past the lines of the cache, memory is what is seen.
module _ (lines : Lines) (m m' : ℕ → ℕ) (address : ℕ) (x : Xfer) where
  seen_of_none : (m : ℕ → ℕ) (a : ℕ) → find_line (a / 64 * 64) lines ≡ none → seen lines m a ≡ m a
  seen_of_none m a e = rw (e, seen) refl

  Behaves-seen :
      (access : Access)
      → ((a : ℕ) → address ≤ a → a < address + size access → find_line (a / 64 * 64) lines ≡ none)
      → Behaves m m' address access x
      → Behaves (seen lines m) (seen lines m') address access x
  Behaves-seen (read n) absent b = record {
    at_most = b.at_most;
    leaves = λ a. elim (Option-cases (find_line (a / 64 * 64) lines)) [
      | inl e ↦ seen_of_none m' a e ∙ b.leaves a ∙ sym (seen_of_none m a e)
      | inr (l, e) ↦ ground (arith, e)
    ];
    answer = (
      b.answer.0,
      λ i h.
          b.answer.1 i h
          ∙ sym (
              seen_of_none m (address + i)
                (absent (address + i) (omega arith) (omega (arith, b.at_most)))),
    );
  }
  Behaves-seen (write bytes) absent b = record {
    at_most = b.at_most;
    leaves = λ a. elim (Option-cases (find_line (a / 64 * 64) lines)) [
      | inl e ↦ ground (arith, seen_of_none m' a e, b.leaves a, seen_of_none m a e)
      | inr (l, e) ↦ ground (arith, e, absent a, b.at_most)
    ];
    answer = b.answer;
  }

module _ {S : Type 0} (xfer : ℕ → Access → S → Outcome × S) (peek : S → ℕ → ℕ)
    (d : IsMemory xfer peek) (address : ℕ) (access : Access) (c : Cached S) (m : IsMap c.lines)
    (fits : address + size access ≤ u64_mod) where
  -- Where no line is touched the delegate does the access.
  through-Post :
      ((a : ℕ) → address ≤ a → a < address + size access → find_line (a / 64 * 64) c.lines ≡ none)
      → Post peek c address access (some (through xfer address access c))
  through-Post absent = by_outcome (xfer address access c.memory) refl
    where
      by_outcome :
          (o : Outcome × S)
          → xfer address access c.memory ≡ o
          → Post peek c address access (some (o.0, record c { memory = o.1 }))
      by_outcome (done x, t) e = (
        Behaves-seen c.lines (peek c.memory) (peek t) address x access absent
            (d.behaves address access c.memory t x fits e),
        m,
      )
      by_outcome (access_error, t) e = m
      by_outcome (exited, t) e = m
      by_outcome (failed, t) e = m

module _ {S : Type 0} (xfer : ℕ → Access → S → Outcome × S) (peek : S → ℕ → ℕ)
    (d : IsMemory xfer peek) (split : CachedXfer xfer) (address : ℕ) (access : Access)
    (c : Cached S) (m : IsMap c.lines) (fits : address + size access < u64_mod) where
  abbrev first_line : ℕ
  first_line = address / 64 * 64

  abbrev last_line : ℕ
  last_line = (address + size access - 1) / 64 * 64

  single :
      (key : ℕ) (line : CacheLine)
      → key ≡ first_line
      → find_line key c.lines ≡ some line
      → first_line ≡ last_line
      → Post peek c address access
          (some (line_access xfer (sub64 address first_line) address key line access c))
  single key line at_first found same =
      subst (λ o. Post peek c address access (some (line_access xfer o address key line access c)))
        (omega arith)
        (subst
          (λ t. Post peek c t access (some (line_access xfer (address % 64) t key line access c)))
          (omega arith)
          (line_access-Post xfer peek c key m found (omega arith) (address % 64) access
            (omega arith)))

  range_access-Post :
      0 < size access
      → (first_line ≢ last_line → Post peek c address access (split address access c))
      → Post peek c address access (range_access xfer split first_line last_line address access c)
  unfolding range_access
  range_access-Post some_bytes several =
      elim (Option-cases (first_between first_line last_line c.lines)) [
        | inl e ↦
            rw (e, range_access)
              (through-Post xfer peek d address access c m (omega arith) (λ a lo hi.
                find-between_none first_line last_line c.lines m e (a / 64 * 64) (omega arith)
                  (omega arith)))
        | inr ((key, line), e) ↦ elim (ℕ_discrete first_line last_line) [
          | yes same ↦
              rw (e, range_access, one same)
                (single key line (key_first key line e same)
                  (ap (λ k. find_line k c.lines) (key_first key line e same)
                    ∙ find-between first_line last_line c.lines same e)
                  same)
          | no other ↦ rw (e, range_access, many other) (several other)
        ]
      ]
    where
      one : first_line ≡ last_line → (first_line == last_line) ≡ true
      one e = ground arith

      many : first_line ≢ last_line → (first_line == last_line) ≡ false
      many e = ground arith

      key_first :
          (key : ℕ) (line : CacheLine)
          → first_between first_line last_line c.lines ≡ some (key, line)
          → first_line ≡ last_line
          → key ≡ first_line
      key_first key line e same =
          omega (arith, between_bounds first_line last_line c.lines {l = line} e)

  -- An access that does not reach the end of the address space is not clamped.
  not_clamped : clamped address access ≡ access
  unfolding clamped
  not_clamped = ground arith

  first : align_down address 64 ≡ first_line
  first = align_down-eq address 6 (omega arith) (omega arith)

  last : 0 < size access → align_down (sub64 (add64 address (size access)) 1) 64 ≡ last_line
  last h =
      ap (λ t. align_down t 64) (omega arith)
      ∙ align_down-eq (address + size access - 1) 6 (omega arith) (omega arith)

  pub cached_access-Post :
      (0 < size access
        → first_line ≢ last_line
        → Post peek c address access (split address access c))
      → Post peek c address access (cached_access xfer split address access c)
  unfolding cached_access
  cached_access-Post several = elim (dec_lt 0 (size access)) [
    | no none_left ↦ rw (is_empty (omega arith)) (Behaves-nothing (view peek c) address access, m)
    | yes h ↦ rw (not_empty h, not_clamped, first, last h) (range_access-Post h (several h))
  ]
    where
      is_empty : size access ≡ 0 → (size access == 0) ≡ true
      is_empty e = ground arith

      not_empty : 0 < size access → (size access == 0) ≡ false
      not_empty h = ground arith
