-- ===== src/MemoryCache/Flush/Discard.antt =====
-- What `memory_cache_t::discard` of src/memory.cpp drops.
use rocdbgapi.Base.{
  ℕ, ◌+◌, ◌*◌, ◌/◌, ◌%◌, ◌≤◌, ◌<◌, ◌≡◌, refl, ap, subst, dec_lt, arith, Bool, true, false, not,
  ◌&&◌, ◌||◌, none, some, [], ◌∷◌, leb, ◌==◌, if◌then◌else◌, get_or, Bool-cases, Option-cases, inl,
  inr,
}
use rocdbgapi.Base.Word.{add64, sub64}
use rocdbgapi.Utils.{align_down}
use rocdbgapi.Status.{ok, Result-cases}
use rocdbgapi.MemoryCache.{CacheLine, Lines, find_line, cache_line_size}
use rocdbgapi.MemoryCache.Lines.{Above, IsMap, seen, find-Above}
use rocdbgapi.MemoryCache.Flush.{discard_loop, discard}

-- What a clean line holds is what memory holds.
abbrev pub Coherent : Lines → (ℕ → ℕ) → Type 0
Coherent lines m =
    (key : ℕ) (l : CacheLine)
    → find_line key lines ≡ some l
    → l.dirty ≡ false
    → (i : ℕ) → i < cache_line_size
    → get_or l.data_bytes i 0 ≡ m (key + i)

-- What the loop does to the lines: those of the range are dropped, and without force they are clean.
pub data Discards (first last : ℕ) (force : Bool) : Lines → Lines → Type 0 where
  none_left : Discards first last force [] []
  before :
      {k : ℕ} {l : CacheLine} {rest rest' : Lines}
      → k < first
      → Discards first last force rest rest'
      → Discards first last force ((k, l) ∷ rest) ((k, l) ∷ rest')
  past :
      {k : ℕ} {l : CacheLine} {rest : Lines}
      → first ≤ k
      → last < k
      → Discards first last force ((k, l) ∷ rest) ((k, l) ∷ rest)
  dropped :
      {k : ℕ} {l : CacheLine} {rest rest' : Lines}
      → first ≤ k
      → k ≤ last
      → (force || not l.dirty) ≡ true
      → Discards first last force rest rest'
      → Discards first last force ((k, l) ∷ rest) rest'

module _ (first last : ℕ) (force : Bool) where
  pub discard_loop-Discards :
      (lines : Lines) {lines' : Lines}
      → discard_loop first last force lines ≡ ok lines'
      → Discards first last force lines lines'
  unfolding discard_loop
  discard_loop-Discards [] {lines'} e =
      subst (Discards first last force []) (ground arith) none_left
  discard_loop-Discards ((k, l) ∷ rest) {lines'} e =
      elim (Result-cases (discard_loop first last force rest)) [
        | inr (s, p) ↦ elim (dec_lt k first) [
          | yes b ↦ absurd (ground (arith, p))
          | no b ↦ elim (dec_lt last k) [
            | yes a ↦
                subst (Discards first last force ((k, l) ∷ rest)) (ground (arith, p))
                  (past (omega arith) a)
            | no a ↦ absurd (ground (arith, p))
          ]
        ]
        | inl (rest', p) ↦ elim (dec_lt k first) [
          | yes b ↦
              subst (Discards first last force ((k, l) ∷ rest)) (ground (arith, p))
                (before b (discard_loop-Discards rest {lines' = rest'} p))
          | no b ↦ elim (dec_lt last k) [
            | yes a ↦
                subst (Discards first last force ((k, l) ∷ rest)) (ground (arith, p))
                  (past (omega arith) a)
            | no a ↦ subst (Discards first last force ((k, l) ∷ rest)) (ground (arith, p)) (
                dropped (omega arith) (omega arith) (ground (arith, p))
                  (discard_loop-Discards rest {lines' = rest'} p))
          ]
        ]
      ]

  Above-Discards :
      (k : ℕ) {lines lines' : Lines}
      → Discards first last force lines lines'
      → Above k lines
      → Above k lines'
  Above-Discards k none_left h = tt
  Above-Discards k (before b d) h = (h.0, Above-Discards k d h.1)
  Above-Discards k (past b a) h = h
  Above-Discards k (dropped b a f d) h = Above-Discards k d h.1

  pub Discards-IsMap :
      {lines lines' : Lines} → Discards first last force lines lines' → IsMap lines → IsMap lines'
  Discards-IsMap none_left m = m
  Discards-IsMap (before {k = k} b d) m = (Above-Discards k d m.0, m.1, m.2, Discards-IsMap d m.3)
  Discards-IsMap (past b a) m = m
  Discards-IsMap (dropped b a f d) m = Discards-IsMap d m.3

  pub find-Discards :
      (key : ℕ) {lines lines' : Lines}
      → Discards first last force lines lines'
      → IsMap lines
      → find_line key lines' ≡ (if leb first key && leb key last then none else find_line key lines)
  find-Discards key none_left m = ground arith
  find-Discards key (before b d) m = ground (arith, find-Discards key d m.3)
  find-Discards key (past {k = k} {rest = rest} b a) m = ground (arith, find-Above key k rest m.0)
  find-Discards key (dropped {k = k} {rest = rest} b a f d) m =
      ground (arith, find-Discards key d m.3)

  pub Discards-clean :
      (key : ℕ) (l : CacheLine) {lines lines' : Lines}
      → Discards first last force lines lines'
      → IsMap lines
      → first ≤ key
      → key ≤ last
      → find_line key lines ≡ some l
      → (force || not l.dirty) ≡ true
  Discards-clean key l none_left m lo hi e = absurd (cc)
  Discards-clean key l (before b d) m lo hi e = Discards-clean key l d m.3 lo hi (ground arith)
  Discards-clean key l (past {k = k} {rest = rest} b a) m lo hi e =
      absurd (ground (arith, find-Above key k rest m.0))
  Discards-clean key l (dropped {k = k} b a f d) m lo hi e = elim (Bool-cases (k == key)) [
    | inl here ↦ ground arith
    | inr other ↦ Discards-clean key l d m.3 lo hi (ground arith)
  ]

module _ (first last : ℕ) (lines : Lines) (m : ℕ → ℕ) {lines' : Lines} (v : IsMap lines)
    (coherent : Coherent lines m) (d : Discards first last false lines lines') where
  abbrev key_of : ℕ → ℕ
  key_of a = a / 64 * 64

  Discards-seen : (a : ℕ) → seen lines' m a ≡ seen lines m a
  Discards-seen a = elim (Bool-cases (leb first (key_of a) && leb (key_of a) last)) [
    | inr outside ↦ ground (arith, find-Discards first last false (key_of a) d v)
    | inl inside ↦ elim (Option-cases (find_line (key_of a) lines)) [
      | inl e ↦ ground (arith, find-Discards first last false (key_of a) d v)
      | inr (l, e) ↦ ground (
        arith,
        find-Discards first last false (key_of a) d v,
        e,
        coherent (key_of a) l e (clean l e inside) (a % 64) (omega arith),
        ap m (place a),
      )
    ]
  ]
    where
      clean :
          (l : CacheLine)
          → find_line (key_of a) lines ≡ some l
          → (leb first (key_of a) && leb (key_of a) last) ≡ true
          → l.dirty ≡ false
      clean l e inside =
          ground (
            arith,
            Discards-clean first last false (key_of a) l d v (ground arith) (ground arith) e,
          )

      place : (a : ℕ) → a / 64 * 64 + a % 64 ≡ a
      place a = omega arith

-- Where each clean line holds what memory holds, discarding without force, if it does not fail,
-- keeps the map of lines in order and changes nothing that is seen through the cache.
pub discard-seen :
    (address size : ℕ) (lines : Lines) (m : ℕ → ℕ) {lines' : Lines}
    → IsMap lines
    → Coherent lines m
    → discard address size false lines ≡ ok lines'
    → IsMap lines' × ((a : ℕ) → seen lines' m a ≡ seen lines m a)
unfolding discard
discard-seen address size lines m {lines'} v coherent e = elim (Bool-cases (size == 0)) [
  | inl z ↦
      subst (λ t. IsMap t × ((a : ℕ) → seen t m a ≡ seen lines m a)) (ground arith) (v, λ a. refl)
  | inr z ↦
      (Discards-IsMap first last false (d z) v, Discards-seen first last lines m v coherent (d z))
]
  where
    first : ℕ
    first = align_down address cache_line_size

    last : ℕ
    last = align_down (sub64 (add64 address size) 1) cache_line_size

    d : (size == 0) ≡ false → Discards first last false lines lines'
    d z = discard_loop-Discards first last false lines (ground arith)
