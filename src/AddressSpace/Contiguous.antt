-- ===== src/AddressSpace/Contiguous.antt =====
-- The second result of `convert` in src/memory.cpp: how many bytes are contiguous in both spaces.
use rocdbgapi.Base.{ℕ, ◌+◌, ◌-◌, ◌*◌, ◌/◌, ◌%◌, ◌^◌, ◌≤◌, ◌<◌, ◌≡◌, ◌≢◌, ◌∙◌, sym, arith}
use rocdbgapi.Base.Word.{u64_mod}
use rocdbgapi.Base.Division.{div_step, mod_step}
use native.Mathlib.Nat.{mod-lt, div-add-mod', mul-le-mul_right, div-lt_iff_lt-mul}
use rocdbgapi.Status.{ok}
use rocdbgapi.AddressSpace.Lower.{extent, last_address-eq, null_fits}
use rocdbgapi.AddressSpace.Swizzle.{
  IsWave, Placed, global-Placed, swizzle-eq, swizzle-mod, convert_base-eq,
}
use rocdbgapi.AddressSpace.{
  Kind, BaseClass, global_space, local_space, unswizzled_space, swizzled_space, BaseSpace, WaveView,
  base_space, class_kind, class_null_address, global_at, swizzle, convert, convert_to_global,
  convert_lowered,
}

-- The next byte of a lane in the same block lies right after in scratch memory.
module _ (w : WaveView) (interleave lane_id address k : ℕ) where
  swizzle_step :
      IsWave w interleave
      → lane_id < w.lane_count
      → address + k < 2 ^ 32
      → address % interleave + k < interleave
      → swizzle w lane_id interleave (address + k) ≡ swizzle w lane_id interleave address + k
  swizzle_step v lane fits step = ground (
    arith,
    swizzle-eq w interleave lane_id (address + k) v lane fits,
    swizzle-eq w interleave lane_id address v lane,
    div_step address k interleave step,
    mod_step address k interleave step,
  )

-- Memory of whole blocks that holds a byte holds the rest of its block.
block_inside :
    (size interleave offset k : ℕ)
    → 0 < interleave
    → size % interleave ≡ 0
    → offset < size
    → offset % interleave + k < interleave
    → offset + k < size
block_inside size interleave offset k pos whole inside step = omega (
  arith,
  div-add-mod' size interleave,
  div-add-mod' offset interleave,
  mul-le-mul_right {m = offset / interleave + 1} {n = size / interleave} interleave row,
)
  where
    row : offset / interleave + 1 ≤ size / interleave
    row = omega (
      arith,
      (div-lt_iff_lt-mul {k = interleave} {x = offset} {y = size / interleave} pos).1 bound,
    )
      where
        bound : offset < size / interleave * interleave
        bound = omega (arith, div-add-mod' size interleave)

-- What the wave must satisfy for the addresses of a space to have a place in its scratch memory.
abbrev pub FitsWave : WaveView → BaseClass → Type 0
FitsWave w (swizzled_space interleave) = IsWave w interleave
FitsWave w _ = w.scratch_base + w.scratch_size ≤ u64_mod

module _ (w : WaveView) (lane_id : ℕ) (from : Kind) (id address k x n : ℕ) (within : k < n) where
  abbrev Step : BaseClass → Type 0
  Step c =
      convert_to_global w lane_id from (record { id = id; class = c }) address ≡ ok (x, n)
      → convert_to_global w lane_id from (record { id = id; class = c }) (address + k)
        ≡ ok (x + k, n - k)

  global-Step : address + k < 2 ^ 64 → Step global_space
  unfolding convert_to_global
  global-Step fits e = ground (arith, last_address-eq (global_at id))

  unswizzled-Step :
      w.scratch_base + w.scratch_size ≤ u64_mod → address + k ≢ 0xffff_ffff → Step unswizzled_space
  unfolding convert_to_global
  unswizzled-Step region not_null e = ground arith

  swizzled-Step :
      (interleave : ℕ)
      → IsWave w interleave
      → address + k < 2 ^ 32
      → address + k ≢ 0xffff_ffff
      → Step (swizzled_space interleave)
  unfolding convert_to_global
  swizzled-Step interleave v fits not_null e = ground (
    arith,
    p,
    moved,
    swizzle-mod w interleave lane_id (address + k) v p.lane fits,
    swizzle-mod w interleave lane_id address v p.lane,
    v.region,
    mod_step address k interleave step,
    inside,
  )
    where
      p : Placed w interleave lane_id address x n
      p = global-Placed w interleave lane_id address from id e (omega arith)

      step : address % interleave + k < interleave
      step = omega (arith, p, swizzle-mod w interleave lane_id address v p.lane (omega arith))

      moved : swizzle w lane_id interleave (address + k) ≡ swizzle w lane_id interleave address + k
      moved = swizzle_step w interleave lane_id address k v p.lane fits step

      inside : swizzle w lane_id interleave address + k < w.scratch_size
      inside =
          block_inside w.scratch_size interleave (swizzle w lane_id interleave address) k
            v.interleaves v.blocks p.inside
            (omega (arith, step, swizzle-mod w interleave lane_id address v p.lane (omega arith)))

  local-Step : Step local_space
  unfolding convert_to_global
  local-Step e = ground arith

-- One of the bytes that `convert` to global memory reports as contiguous, at a base address of
-- any kind, is converted to the corresponding next place, with that many bytes fewer after it.
-- The byte must lie in its space, the null address of the segment, which has no place, is left
-- out, and the wave's scratch memory must fit the space (FitsWave).
pub convert_contiguous :
    (w : WaveView) (lane_id gid : ℕ) (b : BaseSpace) (address k : ℕ) {x n : ℕ}
    → FitsWave w b.class
    → k < n
    → address + k < extent b.class
    → address + k ≢ class_null_address b.class
    → convert (base_space (global_at gid)) w lane_id (base_space b) address ≡ ok (x, n)
    → convert (base_space (global_at gid)) w lane_id (base_space b) (address + k)
      ≡ ok (x + k, n - k)
unfolding convert_lowered
convert_contiguous w lane_id gid b address k {x} {n} v within fits not_null e =
    convert_base-eq (base_space (global_at gid)) w lane_id b (address + k) fits
    ∙ by_class b.class v fits not_null
        (sym (convert_base-eq (base_space (global_at gid)) w lane_id b address (omega arith)) ∙ e)
  where
    by_class :
        (c : BaseClass)
        → FitsWave w c
        → address + k < extent c
        → address + k ≢ class_null_address c
        → convert_to_global w lane_id (class_kind c) (record { id = b.id; class = c }) address
          ≡ ok (x, n)
        → convert_to_global w lane_id (class_kind c) (record { id = b.id; class = c }) (address + k)
          ≡ ok (x + k, n - k)
    by_class global_space _ h _ = global-Step w lane_id _ b.id address k x n within h
    by_class local_space _ _ _ = local-Step w lane_id _ b.id address k x n within
    by_class unswizzled_space r _ h = unswizzled-Step w lane_id _ b.id address k x n within r h
    by_class (swizzled_space i) r h g = swizzled-Step w lane_id _ b.id address k x n within i r h g

-- Below the null address of its space, a conversion to global memory that succeeds gives at
-- least one byte, where the wave's scratch memory fits the space (FitsWave).
pub convert_progress :
    (w : WaveView) (lane_id gid : ℕ) (b : BaseSpace) (address : ℕ) {x n : ℕ}
    → FitsWave w b.class
    → address < class_null_address b.class
    → convert (base_space (global_at gid)) w lane_id (base_space b) address ≡ ok (x, n)
    → 0 < n
unfolding convert_lowered
convert_progress w lane_id gid b address {x} {n} v below e = by_class b.class v below (
    sym (
      convert_base-eq (base_space (global_at gid)) w lane_id b address
        (omega (arith, below, null_fits b.class)))
    ∙ e)
  where
    by_class :
        (c : BaseClass)
        → FitsWave w c
        → address < class_null_address c
        → convert_to_global w lane_id (class_kind c) (record { id = b.id; class = c }) address
          ≡ ok (x, n)
        → 0 < n
    by_class global_space _ h = absurd (omega arith)
    by_class local_space _ h = unfold convert_to_global in λ p. ground arith
    by_class unswizzled_space r h = unfold convert_to_global in λ p. ground arith
    by_class (swizzled_space i) r h =
        unfold convert_to_global in
        λ p. ground (arith, mod-lt (swizzle w lane_id i address) r.interleaves)
