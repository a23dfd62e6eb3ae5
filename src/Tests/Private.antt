-- ===== src/Tests/Private.antt =====
-- Private memory, above a memory of bytes that is read as it stands.
use rocdbgapi.Base.{
  ℕ, zero, suc, ◌+◌, ◌<◌, ◌≡◌, refl, ap, sym, ◌∙◌, arith, List, [], ◌∷◌, length, get_or, none,
}
use rocdbgapi.Memory.{Access, read, write, size, Outcome, done}
use rocdbgapi.AddressSpace.{swizzled_at}
use rocdbgapi.Wave.PrivateMemory.{xfer_private_memory}
use rocdbgapi.Wave.PrivateMemory.Null.{null_never_ends}
use rocdbgapi.Wave.PrivateMemory.Reads.{ReadsMemory, Ends, xfer_private_memory-reads}
use rocdbgapi.Tests.{a_wave, a_wave-IsWave}

abbrev pub bytes_at : (ℕ → ℕ) → ℕ → ℕ → List ℕ
bytes_at s g zero = []
bytes_at s g (suc n) = s g ∷ bytes_at s (suc g) n

pub length-bytes_at : (s : ℕ → ℕ) (g n : ℕ) → length (bytes_at s g n) ≡ n
length-bytes_at s g zero = refl
length-bytes_at s g (suc n) = ap suc (length-bytes_at s (suc g) n)

pub get_or-bytes_at : (s : ℕ → ℕ) (g n i : ℕ) → i < n → get_or (bytes_at s g n) i 0 ≡ s (g + i)
get_or-bytes_at s g zero i h = absurd (omega arith)
get_or-bytes_at s g (suc n) zero h = ap s (omega arith)
get_or-bytes_at s g (suc n) (suc i) h =
    get_or-bytes_at s (suc g) n i (omega arith) ∙ ap s (omega arith)

abbrev memory : ℕ → Access → (ℕ → ℕ) → Outcome × (ℕ → ℕ)
memory g (read n) s = (done (record { count = n; bytes = bytes_at s g n }), s)
memory g (write bytes) s = (done (record { count = length bytes; bytes = [] }), s)

abbrev pub peek : (ℕ → ℕ) → ℕ → ℕ
peek s a = s a

memory-ReadsMemory : ReadsMemory memory peek
memory-ReadsMemory = record {
  counts = λ g n s t x e. ground (arith, length-bytes_at s g n);
  bytes = λ g n s t x e i h. ground (arith, get_or-bytes_at s g n i);
  keeps = λ g n s t o e a. ap (λ r. r.1 a) (sym e);
}

xfer_private_memory-reads_example :
    Ends memory peek a_wave 2
      (swizzled_at 5 4)
      (λ a. a)
      5
      10
      (xfer_private_memory memory a_wave 2 11 (swizzled_at 5 4) 5 (read 10) (λ a. a))
xfer_private_memory-reads_example =
    xfer_private_memory-reads memory peek a_wave 2 (swizzled_at 5 4) memory-ReadsMemory
      a_wave-IsWave (λ a. a) 5 10 11 (omega arith) (omega arith)

null_never_ends_example :
    xfer_private_memory memory a_wave 2 1000 (swizzled_at 5 4) 0xffff_ffff (read 4) (λ a. a) ≡ none
null_never_ends_example =
    null_never_ends memory a_wave 2 5 4 (read 4) (λ a. a) (omega arith) empty 1000
  where
    empty :
        (c : Access)
        → size c ≡ 0
        → (t : ℕ → ℕ) → memory 0 c t ≡ (done (record { count = 0; bytes = [] }), t)
    empty (read zero) h t = refl
    empty (read (suc n)) h t = absurd (omega arith)
    empty (write []) h t = refl
    empty (write (x ∷ xs)) h t = absurd (omega arith)
