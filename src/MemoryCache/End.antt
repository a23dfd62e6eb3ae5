-- ===== src/MemoryCache/End.antt =====
-- The end of the address space in `memory_cache_t::xfer_global_memory` of src/memory.cpp: the sum of
-- the address and the size is 0 there, and so is the bound of the first request.
use rocdbgapi.Base.{
  ℕ, zero, suc, ◌+◌, ◌-◌, ◌*◌, ◌/◌, ◌<◌, ◌≡◌, refl, ap, ◌∙◌, arith, true, false, none, some, List,
  [], ◌∷◌, ltb, ◌==◌, length, take,
}
use rocdbgapi.Base.Word.{u64_mod, add64, sub64, neg64}
use rocdbgapi.Utils.{align_down}
use rocdbgapi.Utils.Align.{align_down-eq}
use rocdbgapi.Memory.{Access, read, write, size, first_bytes, nothing, Outcome}
use rocdbgapi.MemoryCache.{
  CacheLine, first_between, Cached, clamped, range_access, cached_access, line_request, split_round,
  split_loop, xfer_global_memory,
}

take_all : (xs : List ℕ) → take (length xs) xs ≡ xs
take_all [] = refl
take_all (x ∷ xs) = ap (λ l. x ∷ l) (take_all xs)

first_bytes_all : (a : Access) → first_bytes (size a) a ≡ a
first_bytes_all (read n) = ap read (omega arith)
first_bytes_all (write bytes) = ap write (take_all bytes)

module _ {S : Type 0} (xfer : ℕ → Access → S → Outcome × S) (address : ℕ) (access : Access)
    (c : Cached S) {key : ℕ} {line : CacheLine} (some_bytes : 0 < size access)
    (small : size access < u64_mod) (to_end : address + size access ≡ u64_mod)
    (several : address < u64_mod - 64)
    (cached : first_between (address / 64 * 64) (u64_mod - 64) c.lines ≡ some (key, line)) where
  whole : clamped address access ≡ access
  unfolding clamped
  whole = rw (over, rest) (first_bytes_all access)
    where
      over : ltb (add64 address (size access)) address ≡ true
      over = ground arith

      rest : neg64 address ≡ size access
      rest = omega arith

  -- The first request is all of it.
  request_all : line_request address (size access) ≡ size access
  unfolding line_request
  request_all = rw ends (omega arith)
    where
      ends : add64 address (size access) ≡ 0
      ends = omega arith

  -- Such an access to several lines, of which the cache has one, calls itself with the same
  -- arguments: no depth is enough.
  pub end_never_returns : (depth : ℕ) → xfer_global_memory xfer depth address access c ≡ none
  unfolding xfer_global_memory cached_access split_loop split_round
  end_never_returns zero = refl
  end_never_returns (suc depth) =
      rw (not_empty, whole, first, last)
        (rw (cached, range_access, other) (again (end_never_returns depth)))
    where
      not_empty : (size access == 0) ≡ false
      not_empty = ground arith

      first : align_down address 64 ≡ address / 64 * 64
      first = align_down-eq address 6 (omega arith) (omega arith)

      last : align_down (sub64 (add64 address (size access)) 1) 64 ≡ u64_mod - 64
      last =
          ap (λ t. align_down t 64) (omega arith)
          ∙ align_down-eq (u64_mod - 1) 6 (omega arith) (omega arith)

      other : (address / 64 * 64 == u64_mod - 64) ≡ false
      other = ground arith

      again :
          xfer_global_memory xfer depth address access c ≡ none
          → split_loop xfer
              (xfer_global_memory xfer depth)
              (suc (size access))
              nothing
              address
              access
              c
            ≡ none
      again ih =
          rw (split_loop, split_round, not_empty, request_all)
            (rw (inside, first_bytes_all access, ih) refl)
        where
          inside : ltb (size access) (size access) ≡ false
          inside = ground arith
