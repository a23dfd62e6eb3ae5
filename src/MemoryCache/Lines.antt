-- ===== src/MemoryCache/Lines.antt =====
-- The ordered map of `memory_cache_t` in src/memory.h, and what a cache line holds.
use rocdbgapi.Base.{
  ℕ, zero, suc, ◌+◌, ◌-◌, ◌*◌, ◌/◌, ◌%◌, ◌≤◌, ◌<◌, ◌≡◌, refl, ap, arith, ◌&&◌, none, some, List, [],
  ◌∷◌, ltb, leb, ◌==◌, if◌then◌else◌, length, get_or, Bool-cases, inl, inr,
}
use rocdbgapi.MemoryCache.{
  CacheLine, Lines, find_line, first_between, set_line, overwrite, splice, Cached, cache_line_size,
}

-- All keys are above this one.
abbrev pub Above : ℕ → Lines → Type 0
Above k [] = Unit
Above k ((j, l) ∷ rest) = (k < j) × Above k rest

-- The keys rise, are multiples of the line size, and every line is full.
abbrev pub IsMap : Lines → Type 0
IsMap [] = Unit
IsMap ((k, l) ∷ rest) =
    Above k rest × (k % cache_line_size ≡ 0) × (length l.data_bytes ≡ cache_line_size) × IsMap rest

pub find-Above : (key k : ℕ) (lines : Lines) → Above k lines → key ≤ k → find_line key lines ≡ none
find-Above key k [] h le = refl
find-Above key k ((j, l) ∷ rest) h le = ground (arith, h.0, find-Above key k rest h.1 le)

pub between_bounds :
    (lo hi : ℕ) (lines : Lines) {key : ℕ} {l : CacheLine}
    → first_between lo hi lines ≡ some (key, l)
    → (lo ≤ key) × (key ≤ hi)
between_bounds lo hi [] e = absurd (cc)
between_bounds lo hi ((k, m) ∷ rest) {key} {l} e = elim (Bool-cases (ltb k lo)) [
  | inl before ↦ between_bounds lo hi rest {key = key} {l = l} (ground arith)
  | inr from ↦ ground arith
]

pub find-between :
    (lo hi : ℕ) (lines : Lines) {key : ℕ} {l : CacheLine}
    → lo ≡ hi
    → first_between lo hi lines ≡ some (key, l)
    → find_line lo lines ≡ some l
find-between lo hi [] same e = absurd (cc)
find-between lo hi ((k, m) ∷ rest) {key} {l} same e = elim (Bool-cases (ltb k lo)) [
  | inl before ↦ ground (arith, find-between lo hi rest {key = key} {l = l} same)
  | inr from ↦ ground arith
]

pub find-between_none :
    (lo hi : ℕ) (lines : Lines)
    → IsMap lines
    → first_between lo hi lines ≡ none
    → (key : ℕ) → lo ≤ key
    → key ≤ hi
    → find_line key lines ≡ none
find-between_none lo hi [] m e key a b = refl
find-between_none lo hi ((k, l) ∷ rest) m e key a b = elim (Bool-cases (ltb k lo)) [
  | inl before ↦ ground (arith, find-between_none lo hi rest m.3 (ground arith) key a b)
  | inr from ↦ ground (arith, find-Above key k rest m.0 (ground arith))
]

pub find-set_line :
    (key : ℕ) (l : CacheLine) (lines : Lines) (j : ℕ) {old : CacheLine}
    → find_line key lines ≡ some old
    → find_line j (set_line key l lines) ≡ (if j == key then some l else find_line j lines)
find-set_line key l [] j e = absurd (cc)
find-set_line key l ((k, m) ∷ rest) j {old} e = elim (Bool-cases (k == key)) [
  | inl here ↦ ground arith
  | inr past ↦ ground (arith, find-set_line key l rest j {old = old})
]

Above-set_line :
    (k key : ℕ) (l : CacheLine) (lines : Lines) → Above k lines → Above k (set_line key l lines)
Above-set_line k key l [] h = tt
Above-set_line k key l ((j, m) ∷ rest) h = elim (Bool-cases (j == key)) [
  | inl here ↦ rw here h
  | inr past ↦ rw past (h.0, Above-set_line k key l rest h.1)
]

pub set_line-IsMap :
    (key : ℕ) (l : CacheLine) (lines : Lines)
    → length l.data_bytes ≡ cache_line_size
    → IsMap lines
    → IsMap (set_line key l lines)
set_line-IsMap key l [] full m = tt
set_line-IsMap key l ((k, old) ∷ rest) full m = elim (Bool-cases (k == key)) [
  | inl here ↦ rw here (m.0, m.1, full, m.3)
  | inr past ↦
      rw past (Above-set_line k key l rest m.0, m.1, m.2, set_line-IsMap key l rest full m.3)
]

pub find-full :
    (key : ℕ) (lines : Lines) {l : CacheLine}
    → IsMap lines
    → find_line key lines ≡ some l
    → length l.data_bytes ≡ cache_line_size
find-full key [] m e = absurd (cc)
find-full key ((k, old) ∷ rest) {l} m e = elim (Bool-cases (k == key)) [
  | inl here ↦ ground (arith, m.2)
  | inr past ↦ find-full key rest {l = l} m.3 (ground arith)
]

pub find_aligned :
    (key : ℕ) (lines : Lines) {l : CacheLine}
    → IsMap lines
    → find_line key lines ≡ some l
    → key % cache_line_size ≡ 0
find_aligned key [] m e = absurd (cc)
find_aligned key ((k, old) ∷ rest) {l} m e = elim (Bool-cases (k == key)) [
  | inl here ↦ ground (arith, m.1)
  | inr past ↦ find_aligned key rest {l = l} m.3 (ground arith)
]

length-overwrite : (bytes line : List ℕ) → length (overwrite bytes line) ≡ length line
length-overwrite [] line = refl
length-overwrite (b ∷ bs) [] = refl
length-overwrite (b ∷ bs) (d ∷ line) = ap suc (length-overwrite bs line)

pub length-splice :
    (offset : ℕ) (bytes line : List ℕ) → length (splice offset bytes line) ≡ length line
length-splice zero bytes line = length-overwrite bytes line
length-splice (suc offset) bytes [] = refl
length-splice (suc offset) bytes (d ∷ line) = ap suc (length-splice offset bytes line)

get_or-overwrite :
    (bytes line : List ℕ) (i : ℕ)
    → length bytes ≤ length line
    → get_or (overwrite bytes line) i 0
      ≡ (if ltb i (length bytes) then get_or bytes i 0 else get_or line i 0)
get_or-overwrite [] line i h = ground arith
get_or-overwrite (b ∷ bs) [] i h = absurd (omega arith)
get_or-overwrite (b ∷ bs) (d ∷ line) zero h = ground arith
get_or-overwrite (b ∷ bs) (d ∷ line) (suc i) h = ground (arith, get_or-overwrite bs line i)

pub get_or-splice :
    (offset : ℕ) (bytes line : List ℕ) (i : ℕ)
    → offset + length bytes ≤ length line
    → get_or (splice offset bytes line) i 0 ≡ (
        if leb offset i && ltb i (offset + length bytes)
        then get_or bytes (i - offset) 0
        else get_or line i 0)
get_or-splice zero bytes line i h =
    ground (arith, get_or-overwrite bytes line i, ap (λ k. get_or bytes k 0) whole)
  where
    whole : i - 0 ≡ i
    whole = omega arith
get_or-splice (suc offset) bytes [] i h = absurd (omega arith)
get_or-splice (suc offset) bytes (d ∷ line) zero h = ground arith
get_or-splice (suc offset) bytes (d ∷ line) (suc i) h =
    ground (arith, get_or-splice offset bytes line i, ap (λ k. get_or bytes k 0) same)
  where
    same : suc i - suc offset ≡ i - offset
    same = omega arith

-- What is seen at an address: the byte of its line, and without one what memory holds.
abbrev pub seen : Lines → (ℕ → ℕ) → ℕ → ℕ
seen lines m a = elim (find_line (a / cache_line_size * cache_line_size) lines) [
  | none ↦ m a
  | some l ↦ get_or l.data_bytes (a % cache_line_size) 0
]

abbrev pub view : {S : Type 0} → (S → ℕ → ℕ) → Cached S → ℕ → ℕ
view peek c = seen c.lines (peek c.memory)
