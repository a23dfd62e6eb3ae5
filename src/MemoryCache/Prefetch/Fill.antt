-- ===== src/MemoryCache/Prefetch/Fill.antt =====
-- The lines that the loop of `memory_cache_t::prefetch` in src/memory.cpp fills.
use rocdbgapi.Base.{
  ℕ, zero, suc, ◌+◌, ◌-◌, ◌*◌, ◌/◌, ◌%◌, ◌≤◌, ◌<◌, ◌≡◌, ◌≢◌, refl, sym, ap, ◌∙◌, arith, Bool, true,
  false, ◌&&◌, Option, none, some, List, [], ◌∷◌, ltb, leb, ◌==◌, if◌then◌else◌, length, take, drop,
  get_or, get_or-take, get_or-drop, length-take, length-drop, Bool-cases, Option-cases, inl, inr,
  dec_lt, ℕ_discrete,
}
use rocdbgapi.Base.Word.{u64_mod, add64}
use rocdbgapi.Utils.{align_down, align_up}
use rocdbgapi.Utils.Align.{align_down-eq, align_up_bounds}
use rocdbgapi.Status.{ok}
use rocdbgapi.MemoryCache.{CacheLine, Lines, cache_line_size, find_line, emplace}
use rocdbgapi.MemoryCache.Lines.{Above, IsMap, seen}
use rocdbgapi.MemoryCache.Prefetch.{contains_loop, contains_all, fill_loop}

Above-emplace :
    (k key : ℕ) (l : CacheLine) (lines : Lines)
    → k < key
    → Above k lines
    → Above k (emplace key l lines)
Above-emplace k key l [] h a = (h, tt)
Above-emplace k key l ((j, m) ∷ rest) h a = elim (Bool-cases (ltb key j)) [
  | inl here ↦ rw here (h, a)
  | inr after ↦ elim (Bool-cases (j == key)) [
    | inl same ↦ rw (after, same) a
    | inr past ↦ rw (after, past) (a.0, Above-emplace k key l rest h a.1)
  ]
]

emplace-IsMap :
    (key : ℕ) (l : CacheLine) (lines : Lines)
    → key % cache_line_size ≡ 0
    → length l.data_bytes ≡ cache_line_size
    → IsMap lines
    → IsMap (emplace key l lines)
emplace-IsMap key l [] aligned full m = (tt, aligned, full, tt)
emplace-IsMap key l ((j, old) ∷ rest) aligned full m = elim (Bool-cases (ltb key j)) [
  | inl here ↦ rw here ((ground arith, below (ground arith) rest m.0), aligned, full, m)
  | inr after ↦ elim (Bool-cases (j == key)) [
    | inl same ↦ rw (after, same) m
    | inr past ↦
        rw (after, past)
          (
            Above-emplace j key l rest (ground arith) m.0,
            m.1,
            m.2,
            emplace-IsMap key l rest aligned full m.3,
          )
  ]
]
  where
    below : key < j → (lines : Lines) → Above j lines → Above key lines
    below h [] a = tt
    below h ((i, o) ∷ more) a = (omega (arith, a.0), below h more a.1)

find-emplace :
    (key : ℕ) (l : CacheLine) (lines : Lines) (k : ℕ)
    → IsMap lines
    → find_line key lines ≡ none
    → find_line k (emplace key l lines) ≡ (if k == key then some l else find_line k lines)
find-emplace key l [] k m e = ground arith
find-emplace key l ((j, old) ∷ rest) k m e = elim (Bool-cases (ltb key j)) [
  | inl here ↦ ground arith
  | inr after ↦ ground (arith, find-emplace key l rest k m.3)
]

abbrev is_there : Option CacheLine → Bool
is_there none = false
is_there (some l) = true

loop_one :
    (n key : ℕ) (lines : Lines)
    → key + 128 ≤ u64_mod
    → contains_loop (suc (suc n)) key (key + 64) lines ≡ some (is_there (find_line key lines))
unfolding contains_loop
loop_one n key lines fits = elim (Option-cases (find_line key lines)) [
  | inl e ↦ rw (goes, e) refl
  | inr (l, e) ↦ rw (goes, e, next, ends) refl
]
  where
    goes : ltb key (key + 64) ≡ true
    goes = ground arith

    next : add64 key 64 ≡ key + 64
    next = omega arith

    ends : ltb (key + 64) (key + 64) ≡ false
    ends = ground arith

-- Of one whole line `contains_all` tells whether it is there.
contains_one :
    (key : ℕ) (lines : Lines)
    → key % 64 ≡ 0
    → key + 128 ≤ u64_mod
    → contains_all key 64 lines ≡ ok (some (is_there (find_line key lines)))
unfolding contains_all
contains_one key lines aligned fits = rw (valid, start, stop) (ap ok (loop_one _ key lines fits))
  where
    valid : ltb key (add64 key 64) ≡ true
    valid = ground arith

    start : align_down key 64 ≡ key
    start = align_down-eq key 6 (omega arith) (omega arith) ∙ omega arith

    limit :
        (align_up (add64 key 64) 64 % 64 ≡ 0)
        × (add64 key 64 ≤ align_up (add64 key 64) 64)
        × (align_up (add64 key 64) 64 < add64 key 64 + 64)
    limit = align_up_bounds (add64 key 64) 6 (omega arith) (omega arith)

    stop : align_up (add64 key 64) 64 ≡ key + 64
    stop = omega (arith, limit)

-- What is seen at an address once the lines from `a` to `stop` are filled from a buffer, where the
-- line of the address was, or was not there.
abbrev pub pick : (a stop : ℕ) → List ℕ → (ℕ → ℕ) → ℕ → Option CacheLine → ℕ
pick a stop buffer m x (some l) = get_or l.data_bytes (x % 64) 0
pick a stop buffer m x none = if leb a x && ltb x stop then get_or buffer (x - a) 0 else m x

abbrev pub shown : (a stop : ℕ) → List ℕ → Lines → (ℕ → ℕ) → ℕ → ℕ
shown a stop buffer lines m x = pick a stop buffer m x (find_line (x / 64 * 64) lines)

module _ (a stop : ℕ) (buffer : List ℕ) (m : ℕ → ℕ) (aligned : a % 64 ≡ 0) (fits : a + 64 ≤ stop)
    (x : ℕ) where
  -- A first line is looked at no more.
  pick_other :
      (o : Option CacheLine)
      → x / 64 * 64 ≢ a
      → pick (a + 64) stop (drop 64 buffer) m x o ≡ pick a stop buffer m x o
  pick_other (some l) h = refl
  pick_other none h = elim (dec_lt x a) [
    | yes before ↦ ground arith
    | no from ↦ elim (dec_lt x stop) [
      | yes in_range ↦
          rw (test (omega arith) in_range, test' (omega arith) in_range)
            (get_or-drop 64 buffer (x - (a + 64)) 0
              ∙ ap (λ k. get_or buffer k 0) (later (omega arith)))
      | no outside ↦ ground arith
    ]
  ]
    where
      past : a ≤ x → a + 64 ≤ x
      past l = omega arith

      test : a ≤ x → x < stop → (leb (a + 64) x && ltb x stop) ≡ true
      test l u = ground (arith, past l)

      test' : a ≤ x → x < stop → (leb a x && ltb x stop) ≡ true
      test' l u = ground arith

      later : a ≤ x → 64 + (x - (a + 64)) ≡ x - a
      later l = omega (arith, past l)

  pick_line : x / 64 * 64 ≡ a → get_or (take 64 buffer) (x % 64) 0 ≡ pick a stop buffer m x none
  pick_line same =
      get_or-take 64 buffer (x % 64) 0 (omega arith)
      ∙ ap (λ k. get_or buffer k 0) place
      ∙ sym (rw inside refl)
    where
      place : x % 64 ≡ x - a
      place = omega arith

      inside : (leb a x && ltb x stop) ≡ true
      inside = ground arith

module _ (a stop : ℕ) (buffer : List ℕ) (lines : Lines) (m : ℕ → ℕ) (aligned : a % 64 ≡ 0)
    (v : IsMap lines) (fits : a + 64 ≤ stop) where
  abbrev new_line : CacheLine
  new_line = record { data_bytes = take 64 buffer; dirty = false }

  -- A first line that is missing is filled; one that is there stays.
  shown_missing :
      find_line a lines ≡ none
      → (x : ℕ)
      → shown (a + 64) stop (drop 64 buffer) (emplace a new_line lines) m x
        ≡ shown a stop buffer lines m x
  shown_missing e x = elim (ℕ_discrete (x / 64 * 64) a) [
    | yes same ↦
        ap (pick (a + 64) stop (drop 64 buffer) m x) (at_line same)
        ∙ pick_line a stop buffer m aligned fits x same
        ∙ sym (ap (pick a stop buffer m x) (ap (λ k. find_line k lines) same ∙ e))
    | no other ↦
        ap (pick (a + 64) stop (drop 64 buffer) m x) (elsewhere other)
        ∙ pick_other a stop buffer m aligned fits x (find_line (x / 64 * 64) lines) other
  ]
    where
      at_line : x / 64 * 64 ≡ a → find_line (x / 64 * 64) (emplace a new_line lines) ≡ some new_line
      at_line h = ground (arith, find-emplace a new_line lines (x / 64 * 64) v e)

      elsewhere :
          x / 64 * 64 ≢ a
          → find_line (x / 64 * 64) (emplace a new_line lines) ≡ find_line (x / 64 * 64) lines
      elsewhere h = ground (arith, find-emplace a new_line lines (x / 64 * 64) v e)

  shown_there :
      {l : CacheLine}
      → find_line a lines ≡ some l
      → (x : ℕ) → shown (a + 64) stop (drop 64 buffer) lines m x ≡ shown a stop buffer lines m x
  shown_there {l} e x = elim (ℕ_discrete (x / 64 * 64) a) [
    | yes same ↦
        ap (pick (a + 64) stop (drop 64 buffer) m x) (at_line same)
        ∙ sym (ap (pick a stop buffer m x) (at_line same))
    | no other ↦ pick_other a stop buffer m aligned fits x (find_line (x / 64 * 64) lines) other
  ]
    where
      at_line : x / 64 * 64 ≡ a → find_line (x / 64 * 64) lines ≡ some l
      at_line same = ap (λ k. find_line k lines) same ∙ e

-- The loop fills the missing lines, and leaves the others as they are.
pub fill_loop-shown :
    (fuel a stop : ℕ) (buffer : List ℕ) (lines : Lines) (m : ℕ → ℕ)
    → a % 64 ≡ 0
    → stop % 64 ≡ 0
    → a ≤ stop
    → stop + 64 ≤ u64_mod
    → (stop - a) / 64 < fuel
    → length buffer ≡ stop - a
    → IsMap lines
    → (lines' : Lines) × (fill_loop fuel a stop buffer lines ≡ some lines')
      × IsMap lines'
      × ((x : ℕ) → seen lines' m x ≡ shown a stop buffer lines m x)
unfolding fill_loop
fill_loop-shown zero a stop buffer lines m aligned ends le fits enough len v = absurd (omega arith)
fill_loop-shown (suc fuel) a stop buffer lines m aligned ends le fits enough len v =
    elim (dec_lt a stop) [
      | no over ↦ (
        lines,
        rw (ends_here over) refl,
        v,
        λ x. nothing_to_fill over x (find_line (x / 64 * 64) lines),
      )
      | yes more ↦ elim (Option-cases (find_line a lines)) [
        | inl e ↦
            let l : CacheLine = record { data_bytes = take 64 buffer; dirty = false } in
            let (lines', p, v', s) =
              fill_loop-shown fuel (a + 64) stop (drop 64 buffer) (emplace a l lines) m
                (omega arith) ends (omega arith) fits (omega arith)
                (omega (arith, length-drop 64 buffer))
                (emplace-IsMap a l lines aligned (omega (arith, length-take 64 buffer)) v) in
            (
              lines',
              rw (goes more, contains_one a lines aligned (omega arith), e, no_wrap more) p,
              v',
              λ x. s x ∙ shown_missing a stop buffer lines m aligned v (omega arith) e x,
            )
        | inr (l, e) ↦
            let (lines', p, v', s) =
              fill_loop-shown fuel (a + 64) stop (drop 64 buffer) lines m (omega arith) ends
                (omega arith) fits (omega arith) (omega (arith, length-drop 64 buffer)) v in
            (
              lines',
              rw (goes more, contains_one a lines aligned (omega arith), e, no_wrap more) p,
              v',
              λ x. s x ∙ shown_there a stop buffer lines m aligned v (omega arith) e x,
            )
      ]
    ]
  where
    ends_here : ¬ (a < stop) → ltb a stop ≡ false
    ends_here h = ground arith

    goes : a < stop → ltb a stop ≡ true
    goes h = ground arith

    no_wrap : a < stop → add64 a 64 ≡ a + 64
    no_wrap h = omega arith

    nothing_to_fill :
        ¬ (a < stop)
        → (x : ℕ) (o : Option CacheLine)
        → elim o [ none ↦ m x | some l ↦ get_or l.data_bytes (x % 64) 0 ] ≡ pick a stop buffer m x o
    nothing_to_fill h x none = ground arith
    nothing_to_fill h x (some l) = refl
