-- ===== src/MemoryCache/Flush/Clean.antt =====
-- `memory_cache_t::write_back` of src/memory.cpp where memory refuses the writes: the lines are
-- marked clean before their bytes are sent.
use rocdbgapi.Base.{
  ℕ, zero, suc, ◌≤◌, ◌<◌, ◌≡◌, refl, arith, Bool, true, false, not, ◌&&◌, ◌||◌, some, List, [], ◌∷◌,
  ◌++◌, ltb, leb, ◌==◌, if◌then◌else◌, length, Bool-cases, inl, inr,
}
use rocdbgapi.Base.Word.{add64, sub64}
use rocdbgapi.Utils.{align_down}
use rocdbgapi.Status.{ok}
use rocdbgapi.Memory.{Access, write, nothing, Outcome, done, access_error}
use rocdbgapi.MemoryCache.{Lines, Cached, cache_line_size}
use rocdbgapi.MemoryCache.Lines.{Above, IsMap}
use rocdbgapi.MemoryCache.Flush.{take_group, write_back_loop, write_back, discard_loop, discard}

-- No line of the range is dirty.
abbrev pub AllClean : (first last : ℕ) → Lines → Type 0
AllClean first last [] = Unit
AllClean first last ((k, l) ∷ rest) =
    (first ≤ k → k ≤ last → l.dirty ≡ false) × AllClean first last rest

AllClean-append :
    (first last : ℕ) (xs ys : Lines)
    → AllClean first last xs
    → AllClean first last ys
    → AllClean first last (xs ++ ys)
AllClean-append first last [] ys a b = b
AllClean-append first last ((k, l) ∷ xs) ys a b = (a.0, AllClean-append first last xs ys a.1 b)

AllClean-Above :
    (first last k : ℕ) (lines : Lines) → last < k → Above k lines → AllClean first last lines
AllClean-Above first last k [] h above = tt
AllClean-Above first last k ((j, l) ∷ rest) h above =
    (λ lo hi. absurd (omega arith), AllClean-Above first last k rest h above.1)

-- The lines of a group are clean, and what is left is a part of the map.
group_clean :
    (first last next : ℕ) (lines : Lines) → AllClean first last (take_group last next lines).1
unfolding take_group
group_clean first last next [] = tt
group_clean first last next ((k, l) ∷ rest) =
    elim (Bool-cases (leb k last && l.dirty && (k == next))) [
      | inl joins ↦
          rw joins (λ lo hi. refl, group_clean first last (add64 next cache_line_size) rest)
      | inr stops ↦ rw stops tt
    ]

group_rest :
    (last next : ℕ) (lines : Lines)
    → IsMap lines
    → IsMap (take_group last next lines).2 × (length (take_group last next lines).2 ≤ length lines)
unfolding take_group
group_rest last next [] m = (tt, omega arith)
group_rest last next ((k, l) ∷ rest) m = elim (Bool-cases (leb k last && l.dirty && (k == next))) [
  | inl joins ↦
      let r = group_rest last (add64 next cache_line_size) rest m.3 in rw joins (r.0, omega arith)
  | inr stops ↦ rw stops (m, omega arith)
]

discard_clean :
    (first last : ℕ) (lines : Lines)
    → AllClean first last lines
    → (lines' : Lines) × (discard_loop first last false lines ≡ ok lines')
unfolding discard_loop
discard_clean first last [] c = ([], refl)
discard_clean first last ((k, l) ∷ rest) c =
    let (lines', e) = discard_clean first last rest c.1 in
    elim (Bool-cases (ltb k first)) [
      | inl before ↦ ((k, l) ∷ lines', rw (before, e) refl)
      | inr from ↦ elim (Bool-cases (ltb last k)) [
        | inl past ↦ ((k, l) ∷ rest, rw (from, past) refl)
        | inr inside ↦ (lines', rw (from, inside, c.0 (ground arith) (ground arith), e) refl)
      ]
    ]

-- Memory that refuses every write, and stays as it is.
abbrev pub Refuses : {S : Type 0} → (ℕ → Access → S → Outcome × S) → Type 0
Refuses {S} xfer =
    (address : ℕ) (bytes : List ℕ) (s : S) → xfer address (write bytes) s ≡ (access_error, s)

module _ {S : Type 0} (xfer : ℕ → Access → S → Outcome × S) (refuses : Refuses xfer)
    (first last : ℕ) (s : S) where
  loop_refused :
      (fuel : ℕ) (lines : Lines)
      → length lines < fuel
      → IsMap lines
      → (e : Bool) × (lines' : Lines) × (write_back_loop xfer fuel first last lines s
          ≡ some (e, false, lines', s))
        × AllClean first last lines'
  unfolding write_back_loop
  loop_refused zero lines enough m = absurd (omega arith)
  loop_refused (suc fuel) [] enough m = (false, [], refl, tt)
  loop_refused (suc fuel) ((k, l) ∷ rest) enough m = elim (Bool-cases (ltb last k)) [
    | inl past ↦ (
      false,
      (k, l) ∷ rest,
      rw past refl,
      (λ lo hi. absurd (ground arith), AllClean-Above first last k rest (ground arith) m.0),
    )
    | inr inside ↦ elim (Bool-cases (ltb k first || not l.dirty)) [
      | inl skipped ↦
          let (e, lines', p, c) = loop_refused fuel rest (omega arith) m.3 in
          (e, (k, l) ∷ lines', rw (inside, skipped, p) refl, (λ lo hi. ground arith, c))
      | inr sent ↦
          let g = take_group last (add64 k cache_line_size) rest in
          let r = group_rest last (add64 k cache_line_size) rest m.3 in
          let (e, lines', p, c) = loop_refused fuel g.2 (omega (arith, r.1)) r.0 in
          (
            true,
            (k, record l { dirty = false }) ∷ g.1 ++ lines',
            rw
                (
                  inside,
                  sent,
                  refuses k (l.data_bytes ++ g.0) s,
                  refuses k (l.data_bytes ++ g.0) s,
                  p,
                  refuses k (l.data_bytes ++ g.0) s,
                )
                refl,
            (
              λ lo hi. refl,
              AllClean-append first last g.1 lines'
                  (group_clean first last (add64 k cache_line_size) rest) c,
            ),
          )
    ]
  ]

-- Where memory refuses every write, writing lines back leaves memory as it was, and discarding the
-- same lines without force afterwards does not fail, though they may have been dirty.
pub write_back_loses :
    {S : Type 0} (xfer : ℕ → Access → S → Outcome × S) (address size : ℕ) (c : Cached S)
    → Refuses xfer
    → IsMap c.lines
    → 0 < size
    → address < add64 address size
    → (o : Outcome) × (lines' lines'' : Lines) × (write_back xfer address size c
        ≡ some (o, record { lines = lines'; memory = c.memory }))
      × (discard address size false lines' ≡ ok lines'')
unfolding write_back discard
write_back_loses xfer address size c refuses m some_bytes valid =
    let (e, lines', p, clean) =
      loop_refused xfer refuses first last c.memory (suc (length c.lines)) c.lines (omega arith)
        m in
    let (lines'', q) = discard_clean first last lines' clean in
    (
      (if e then access_error else done nothing),
      lines',
      lines'',
      rw (not_empty, in_space, p) refl,
      rw (not_empty, in_space, q) refl,
    )
  where
    first : ℕ
    first = align_down address cache_line_size

    last : ℕ
    last = align_down (sub64 (add64 address size) 1) cache_line_size

    not_empty : (size == 0) ≡ false
    not_empty = ground arith

    in_space : ltb address (add64 address size) ≡ true
    in_space = ground arith
