-- ===== src/MemoryCache/Split.antt =====
-- The loop over lines in `memory_cache_t::xfer_global_memory` of src/memory.cpp, and the whole
-- function.
use rocdbgapi.Base.{
  ℕ, zero, suc, ◌+◌, ◌-◌, ◌%◌, ◌≤◌, ◌<◌, ◌≡◌, refl, sym, ap, ap₂, subst, ◌∙◌, arith, min, true,
  false, Option, none, some, List, ltb, ◌==◌, length-take, length-drop, dec_lt, Bool-cases, inl,
  inr,
}
use mathlib.Core.List.{append_assoc, append-nil}
use rocdbgapi.Base.Word.{u64_mod, add64}
use rocdbgapi.Utils.{align_up}
use rocdbgapi.Utils.Align.{align_up_bounds}
use rocdbgapi.Memory.{
  Access, read, write, size, first_bytes, skip_bytes, Xfer, nothing, joined, Outcome, done,
  access_error, exited, failed,
}
use rocdbgapi.Memory.Plain.{Behaves, Behaves-nothing, Behaves-joined}
use rocdbgapi.MemoryCache.{
  Cached, CachedXfer, line_request, split_round, split_loop, xfer_global_memory,
}
use rocdbgapi.MemoryCache.Lines.{IsMap, view}
use rocdbgapi.MemoryCache.Line.{Post}
use rocdbgapi.MemoryCache.OneAccess.{IsMemory, cached_access-Post}

size-first_bytes : (n : ℕ) (a : Access) → size (first_bytes n a) ≡ min n (size a)
size-first_bytes n (read k) = refl
size-first_bytes n (write bytes) = length-take n bytes

size-skip_bytes : (n : ℕ) (a : Access) → size (skip_bytes n a) ≡ size a - n
size-skip_bytes n (read k) = refl
size-skip_bytes n (write bytes) = length-drop n bytes

joined_assoc : (x y z : Xfer) → joined (joined x y) z ≡ joined x (joined y z)
joined_assoc x y z =
    ap₂ (λ n (l : List ℕ). let j : Xfer = record { count = n; bytes = l } in j) (omega arith)
      (append_assoc x.bytes y.bytes z.bytes)

joined_after : (x : Xfer) → joined x nothing ≡ x
joined_after x =
    ap₂ (λ n (l : List ℕ). let j : Xfer = record { count = n; bytes = l } in j) (omega arith)
      (append-nil x.bytes)

joined-nothing : (x : Xfer) → joined nothing x ≡ x
joined-nothing x = ap (λ n. let j : Xfer = record { count = n; bytes = x.bytes } in j) (omega arith)

module _ {S : Type 0} (xfer : ℕ → Access → S → Outcome × S) (peek : S → ℕ → ℕ)
    (access_line : CachedXfer xfer) where
  -- From an access on, with what went through before it.
  abbrev Continues : Cached S → Xfer → ℕ → Access → Option (Outcome × Cached S) → Type 0
  Continues c total ptr access none = ⊥
  Continues c total ptr access (some (done y, c')) =
      (x : Xfer) × (y ≡ joined total x)
      × Behaves (view peek c) (view peek c') ptr access x
      × IsMap c'.lines
  Continues c total ptr access (some (access_error, c')) = IsMap c'.lines
  Continues c total ptr access (some (exited, c')) = IsMap c'.lines
  Continues c total ptr access (some (failed, c')) = IsMap c'.lines

  -- A line at a time is accessed as plain memory is.
  abbrev OneLine : Type 0
  OneLine =
      (ptr : ℕ) (access : Access) (c : Cached S)
      → IsMap c.lines
      → ptr % 64 + size access ≤ 64
      → ptr + size access < u64_mod
      → Post peek c ptr access (access_line ptr access c)

  -- The rest of the loop goes on from a first line.
  then_rest :
      (c c' : Cached S) (total x : Xfer) (ptr n : ℕ) (access : Access)
      (o : Option (Outcome × Cached S))
      → Behaves (view peek c) (view peek c') ptr (first_bytes n access) x
      → Continues c' (joined total x) (ptr + x.count) (skip_bytes x.count access) o
      → Continues c total ptr access o
  then_rest c c' total x ptr n access none b r = r
  then_rest c c' total x ptr n access (some (done y, c'')) b (z, e, b', m) = (
    joined x z,
    e ∙ joined_assoc total x z,
    Behaves-joined (view peek c) (view peek c') (view peek c'') ptr n access x z b b',
    m,
  )
  then_rest c c' total x ptr n access (some (access_error, c'')) b r = r
  then_rest c c' total x ptr n access (some (exited, c'')) b r = r
  then_rest c c' total x ptr n access (some (failed, c'')) b r = r

  -- The request is some bytes, in the line, and no more than are left.
  line_request_bounds :
      (ptr left : ℕ)
      → 0 < left
      → ptr + left + 64 ≤ u64_mod
      → (0 < line_request ptr left)
        × (line_request ptr left ≤ left)
        × (ptr % 64 + line_request ptr left ≤ 64)
  unfolding line_request
  line_request_bounds ptr left h fits =
      (omega (arith, limit, next), omega (arith, limit, next), omega (arith, limit, next))
    where
      next : add64 ptr 1 ≡ ptr + 1
      next = omega arith

      limit :
          (align_up (add64 ptr 1) 64 % 64 ≡ 0)
          × (add64 ptr 1 ≤ align_up (add64 ptr 1) 64)
          × (align_up (add64 ptr 1) 64 < add64 ptr 1 + 64)
      limit = align_up_bounds (add64 ptr 1) 6 (omega arith) (omega arith)

  abbrev Follows : Cached S → Xfer → ℕ → Access → (Xfer → CachedXfer xfer) → Type 0
  Follows c total ptr access next =
      (c' : Cached S) (x : Xfer)
      → 0 < x.count
      → x.count ≤ size access
      → IsMap c'.lines
      → Continues c' (joined total x) (ptr + x.count) (skip_bytes x.count access)
          (next (joined total x) (ptr + x.count) (skip_bytes x.count access) c')

  split_round-Continues :
      OneLine
      → (next : Xfer → CachedXfer xfer) (total : Xfer) (ptr : ℕ) (access : Access) (c : Cached S)
      → IsMap c.lines
      → ptr + size access + 64 ≤ u64_mod
      → Follows c total ptr access next
      → Continues c total ptr access (split_round xfer next access_line total ptr access c)
  unfolding split_round
  split_round-Continues one next total ptr access c m fits follow = elim (dec_lt 0 (size access)) [
    | no none_left ↦
        rw (is_empty (omega arith))
          (nothing, sym (joined_after total), Behaves-nothing (view peek c) ptr access, m)
    | yes h ↦ by_access h (access_line ptr (first_bytes n access) c) refl (
        one ptr (first_bytes n access) c m
          (omega (arith, size-first_bytes n access, line_request_bounds ptr (size access) h fits))
          (omega (arith, size-first_bytes n access)))
  ]
    where
      n : ℕ
      n = line_request ptr (size access)

      is_empty : size access ≡ 0 → (size access == 0) ≡ true
      is_empty e = ground arith

      not_empty : 0 < size access → (size access == 0) ≡ false
      not_empty h = ground arith

      in_buffer : 0 < size access → ltb (size access) n ≡ false
      in_buffer h = ground (arith, line_request_bounds ptr (size access) h fits)

      by_access :
          0 < size access
          → (o : Option (Outcome × Cached S)) → access_line ptr (first_bytes n access) c ≡ o
          → Post peek c ptr (first_bytes n access) o
          → Continues c total ptr access (split_round xfer next access_line total ptr access c)
      by_access h none e p = absurd p
      by_access h (some (access_error, c')) e p = rw (split_round, not_empty h, in_buffer h, e) p
      by_access h (some (exited, c')) e p = rw (split_round, not_empty h, in_buffer h, e) p
      by_access h (some (failed, c')) e p = rw (split_round, not_empty h, in_buffer h, e) p
      by_access h (some (done x, c')) e p = elim (Bool-cases (x.count == n)) [
        | inl whole ↦
            rw (split_round, not_empty h, in_buffer h, e, whole, no_wrap)
              (then_rest c c' total x ptr n access _ p.0
                (follow c' x (ground (arith, bounds)) (omega (arith, bounds, fewer)) p.1))
        | inr part ↦
            rw (split_round, not_empty h, in_buffer h, e, part)
              (then_rest c c' total x ptr n access (some (done (joined total x), c')) p.0 (
                nothing,
                sym (joined_after (joined total x)),
                Behaves-nothing (view peek c') _ _,
                p.1,
              ))
      ]
        where
          bounds : (0 < n) × (n ≤ size access) × (ptr % 64 + n ≤ 64)
          bounds = line_request_bounds ptr (size access) h fits

          fewer : x.count ≤ n
          fewer = omega (arith, p.0.at_most, size-first_bytes n access)

          no_wrap : add64 ptr x.count ≡ ptr + x.count
          no_wrap = omega (arith, bounds, fewer)

  pub split_loop-Continues :
      OneLine
      → (fuel : ℕ) (total : Xfer) (ptr : ℕ) (access : Access) (c : Cached S) → size access < fuel
      → IsMap c.lines
      → ptr + size access + 64 ≤ u64_mod
      → Continues c total ptr access (split_loop xfer access_line fuel total ptr access c)
  unfolding split_loop
  split_loop-Continues one zero total ptr access c enough m fits = absurd (omega arith)
  split_loop-Continues one (suc fuel) total ptr access c enough m fits =
      split_round-Continues one (split_loop xfer access_line fuel) total ptr access c m fits
        λ c' x some_bytes at_most m'.
          split_loop-Continues one fuel (joined total x) (ptr + x.count) (skip_bytes x.count access)
            c' (omega (arith, size-skip_bytes x.count access)) m'
            (omega (arith, size-skip_bytes x.count access))

  -- From its start the loop does the whole access.
  whole_Post :
      (c : Cached S) (ptr : ℕ) (access : Access) (o : Option (Outcome × Cached S))
      → Continues c nothing ptr access o
      → Post peek c ptr access o
  whole_Post c ptr access none r = r
  whole_Post c ptr access (some (done y, c')) (x, e, b, m) = (
    subst (λ t. Behaves (view peek c) (view peek c') ptr access t) (sym (joined-nothing x) ∙ sym e)
        b,
    m,
  )
  whole_Post c ptr access (some (access_error, c')) r = r
  whole_Post c ptr access (some (exited, c')) r = r
  whole_Post c ptr access (some (failed, c')) r = r

module _ {S : Type 0} (xfer : ℕ → Access → S → Outcome × S) (peek : S → ℕ → ℕ)
    (d : IsMemory xfer peek) (address : ℕ) (access : Access) (c : Cached S)
    (m : IsMap c.lines) where
  -- In one line there is no loop.
  one_line-Post :
      (depth : ℕ)
      → address % 64 + size access ≤ 64
      → address + size access < u64_mod
      → Post peek c address access (xfer_global_memory xfer (suc depth) address access c)
  unfolding xfer_global_memory
  one_line-Post depth line fits =
      cached_access-Post xfer peek d _ address access c m fits
        λ some_bytes other. absurd (other (omega arith))

-- The cache is memory: in front of a memory that it reads and writes, an access that ends before the
-- last line of the address space always has an outcome, keeps the map of lines in order, and where
-- it goes through does to the memory that is seen through the cache what it does to plain memory,
-- and answers what plain memory answers. Two calls inside one another are enough.
pub xfer_global_memory-Post :
    {S : Type 0} (xfer : ℕ → Access → S → Outcome × S) (peek : S → ℕ → ℕ) (depth address : ℕ)
    (access : Access) (c : Cached S)
    → IsMemory xfer peek
    → IsMap c.lines
    → address + size access + 64 ≤ u64_mod
    → Post peek c address access (xfer_global_memory xfer (suc (suc depth)) address access c)
unfolding xfer_global_memory
xfer_global_memory-Post xfer peek depth address access c d m fits =
    cached_access-Post xfer peek d _ address access c m (omega arith) λ some_bytes other.
      whole_Post xfer peek (xfer_global_memory xfer (suc depth)) c address access _ (
        split_loop-Continues xfer peek (xfer_global_memory xfer (suc depth))
          (λ ptr a c' m' line below. one_line-Post xfer peek d ptr a c' m' depth line below)
          (suc (size access)) nothing address access c (omega arith) m fits)
