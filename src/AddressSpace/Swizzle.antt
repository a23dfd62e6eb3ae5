-- ===== src/AddressSpace/Swizzle.antt =====
-- Swizzled private memory and the scratch memory behind it: the two directions of `convert` in
-- src/memory.cpp between `private_swizzled` and `global`.
use rocdbgapi.Base.{ℕ, ◌+◌, ◌-◌, ◌*◌, ◌/◌, ◌%◌, ◌^◌, ◌≤◌, ◌<◌, ◌≡◌, ◌≢◌, ◌∙◌, ap, sym, arith, none}
use rocdbgapi.Base.Word.{u64_mod, add64, sub64}
use rocdbgapi.Base.Division.{div_block, mod_block}
use rocdbgapi.AddressSpace.Lower.{extent, lower_base-eq}
use rocdbgapi.Status.{ok}
use native.Mathlib.Nat.{div-add-mod', mod-lt, div-div-eq-div-mul, mul_comm, mul-le-mul, div-le_self}
use rocdbgapi.AddressSpace.{
  BaseSpace, WaveView, Kind, global, private_swizzled, swizzle, unswizzle, convert_to_global,
  convert_to_swizzled, lane_none, swizzled_at, global_at, AddressSpace, base_space, convert,
  convert_lowered, class_kind,
}

-- A wave of the hardware: few lanes, a small interleave, and scratch memory that does not wrap.
pub record IsWave (w : WaveView) (interleave : ℕ) : Type 0 where
  pub has_lanes : 0 < w.lane_count
  pub few_lanes : w.lane_count ≤ 64
  pub interleaves : 0 < interleave
  pub small : interleave ≤ 2 ^ 16
  pub region : w.scratch_base + w.scratch_size ≤ u64_mod
  pub blocks : w.scratch_size % interleave ≡ 0

-- Where a byte of a lane lies: the offset does not wrap, and it tells its block and its place there.
module _ (w : WaveView) (interleave lane_id address : ℕ) where
  abbrev pub block : ℕ
  block = address / interleave * w.lane_count + lane_id

  pub swizzle-eq :
      IsWave w interleave
      → lane_id < w.lane_count
      → address < 2 ^ 32
      → swizzle w lane_id interleave address ≡ block * interleave + address % interleave
  unfolding swizzle
  swizzle-eq v lane fits = omega (
    arith,
    div-le_self address interleave,
    mod-lt address v.interleaves,
    mul-le-mul {n₂ = 2 ^ 32} {m₂ = 64} (le_of_row (div-le_self address interleave)) v.few_lanes,
    mul-le-mul {n₁ = block} {n₂ = 2 ^ 40} block_small v.small,
  )
    where
      le_of_row : address / interleave ≤ address → address / interleave ≤ 2 ^ 32
      le_of_row h = omega arith

      block_small : block ≤ 2 ^ 40
      block_small = omega (
        arith,
        mul-le-mul {n₂ = 2 ^ 32} {m₂ = 64} (le_of_row (div-le_self address interleave)) v.few_lanes,
      )

  module _ (v : IsWave w interleave) (lane : lane_id < w.lane_count) (fits : address < 2 ^ 32) where
    pub swizzle-div : swizzle w lane_id interleave address / interleave ≡ block
    swizzle-div =
        ap (λ t. t / interleave) (swizzle-eq v lane fits)
        ∙ div_block block interleave (address % interleave) (mod-lt address v.interleaves)

    pub swizzle-mod : swizzle w lane_id interleave address % interleave ≡ address % interleave
    swizzle-mod =
        ap (λ t. t % interleave) (swizzle-eq v lane fits)
        ∙ mod_block block interleave (address % interleave) (mod-lt address v.interleaves)

    -- The lane can be told from the offset.
    pub swizzle-lane : swizzle w lane_id interleave address / interleave % w.lane_count ≡ lane_id
    swizzle-lane =
        ap (λ t. t % w.lane_count) swizzle-div
        ∙ mod_block (address / interleave) w.lane_count lane_id lane

    -- So can the address in the lane's memory.
    pub unswizzle-swizzle :
        unswizzle w interleave (swizzle w lane_id interleave address)
        ≡ ok (address, interleave - swizzle w lane_id interleave address % interleave)
    unfolding unswizzle
    unswizzle-swizzle = ap (λ t. ok (t, interleave - offset % interleave)) there
      where
        offset : ℕ
        offset = swizzle w lane_id interleave address

        row : offset / (w.lane_count * interleave) ≡ address / interleave
        row =
            ap (λ t. offset / t) (mul_comm w.lane_count interleave)
            ∙ sym (div-div-eq-div-mul offset interleave w.lane_count)
            ∙ ap (λ t. t / w.lane_count) swizzle-div
            ∙ div_block (address / interleave) w.lane_count lane_id lane

        there : offset / (w.lane_count * interleave) * interleave + offset % interleave ≡ address
        there = rw (row, swizzle-mod) (div-add-mod' address interleave)

module _ (w : WaveView) (interleave lane_id address : ℕ) where
  -- Of a conversion from the swizzled segment that gives any bytes at all: the address is not
  -- null, the lane exists, and the place in scratch memory is inside the region.
  pub record Placed (x n : ℕ) : Type 0 where
    pub not_null : address ≢ 0xffff_ffff
    pub readable : w.scratch_failure ≡ none
    pub lane : lane_id < w.lane_count
    pub not_none : lane_id ≢ lane_none
    pub inside : swizzle w lane_id interleave address < w.scratch_size
    pub place : x ≡ add64 w.scratch_base (swizzle w lane_id interleave address)
    pub bytes : n ≡ interleave - swizzle w lane_id interleave address % interleave

  pub global-Placed :
      (from : Kind) (id : ℕ) {x n : ℕ}
      → convert_to_global w lane_id from (swizzled_at id interleave) address ≡ ok (x, n)
      → 0 < n
      → Placed x n
  unfolding convert_to_global
  global-Placed from id e some_bytes = ground arith

-- At an address that fits its space, a conversion starts from the address itself.
pub convert_base-eq :
    (to : AddressSpace) (w : WaveView) (lane_id : ℕ) (b : BaseSpace) (address : ℕ)
    → address < extent b.class
    → convert to w lane_id (base_space b) address
      ≡ convert_lowered to w lane_id (class_kind b.class) (b, address)
unfolding convert
convert_base-eq to w lane_id b address fits =
    ap (convert_lowered to w lane_id (class_kind b.class)) (lower_base-eq b address fits)

module _ (w : WaveView) (interleave lane_id address : ℕ) where
  -- What global memory holds at the place of a byte of a lane is that byte.
  swizzled_of_place :
      (id : ℕ) {x n : ℕ}
      → IsWave w interleave
      → address < 2 ^ 32
      → Placed w interleave lane_id address x n
      → convert_to_swizzled w lane_id interleave global (global_at id) x ≡ ok (address, n)
  unfolding convert_to_swizzled unswizzle
  swizzled_of_place id {x} v fits p = ground (
    arith,
    back,
    swizzle-lane w interleave lane_id address v p.lane fits,
    unswizzle-swizzle w interleave lane_id address v p.lane fits,
  )
    where
      back : sub64 x w.scratch_base ≡ swizzle w lane_id interleave address
      back = omega (arith, p, v)

pub convert-Placed :
    (w : WaveView) (interleave lane_id address gid sid : ℕ) {x n : ℕ}
    → address < 2 ^ 32
    → 0 < n
    → convert
        (base_space (global_at gid))
        w
        lane_id
        (base_space (swizzled_at sid interleave))
        address
      ≡ ok (x, n)
    → Placed w interleave lane_id address x n
unfolding convert_lowered
convert-Placed w interleave lane_id address gid sid fits some_bytes e =
    global-Placed w interleave lane_id address private_swizzled sid
      (sym (
          convert_base-eq (base_space (global_at gid)) w lane_id (swizzled_at sid interleave)
            address fits)
        ∙ e)
      some_bytes

-- Of a wave as the hardware has it (IsWave), and at 32-bit addresses: a byte of a lane that is
-- converted to global memory and back is the same byte, with as many bytes contiguous after it,
-- wherever the first conversion gave any bytes.
pub swizzle_round_trip :
    (w : WaveView) (interleave lane_id address gid sid : ℕ) {x n : ℕ}
    → IsWave w interleave
    → address < 2 ^ 32
    → 0 < n
    → convert
        (base_space (global_at gid))
        w
        lane_id
        (base_space (swizzled_at sid interleave))
        address
      ≡ ok (x, n)
    → convert (base_space (swizzled_at sid interleave)) w lane_id (base_space (global_at gid)) x
      ≡ ok (address, n)
unfolding convert_lowered
swizzle_round_trip w interleave lane_id address gid sid {x} {n} v fits some_bytes e =
    convert_base-eq (base_space (swizzled_at sid interleave)) w lane_id (global_at gid) x in_global
    ∙ swizzled_of_place w interleave lane_id address gid v fits placed
  where
    placed : Placed w interleave lane_id address x n
    placed = convert-Placed w interleave lane_id address gid sid fits some_bytes e

    in_global : x < 2 ^ 64
    in_global = omega (arith, placed)

same_place :
    (w : WaveView) (interleave lane_id lane_id' address address' : ℕ) {x n n' : ℕ}
    → IsWave w interleave
    → address < 2 ^ 32
    → address' < 2 ^ 32
    → Placed w interleave lane_id address x n
    → Placed w interleave lane_id' address' x n'
    → (lane_id ≡ lane_id') × (address ≡ address')
unfolding unswizzle
same_place w interleave lane_id lane_id' address address' v fits fits' p p' = ground (
  arith,
  same,
  swizzle-lane w interleave lane_id address v p.lane fits,
  swizzle-lane w interleave lane_id' address' v p'.lane fits',
  unswizzle-swizzle w interleave lane_id address v p.lane fits,
  unswizzle-swizzle w interleave lane_id' address' v p'.lane fits',
)
  where
    same : swizzle w lane_id interleave address ≡ swizzle w lane_id' interleave address'
    same = omega (arith, p, p', v)

-- Of a wave as the hardware has it (IsWave), and at 32-bit addresses: two bytes of its lanes
-- that are converted to one place in global memory, and of which both conversions gave any
-- bytes, are one byte of one lane.
pub swizzle_injective :
    (w : WaveView) (interleave lane_id lane_id' address address' gid sid : ℕ) {x n n' : ℕ}
    → IsWave w interleave
    → address < 2 ^ 32
    → address' < 2 ^ 32
    → 0 < n
    → 0 < n'
    → convert
        (base_space (global_at gid))
        w
        lane_id
        (base_space (swizzled_at sid interleave))
        address
      ≡ ok (x, n)
    → convert
        (base_space (global_at gid))
        w
        lane_id'
        (base_space (swizzled_at sid interleave))
        address'
      ≡ ok (x, n')
    → (lane_id ≡ lane_id') × (address ≡ address')
swizzle_injective w interleave lane_id lane_id' address address' gid sid v fits fits' h h' e e' =
    same_place w interleave lane_id lane_id' address address' v fits fits'
      (convert-Placed w interleave lane_id address gid sid fits h e)
      (convert-Placed w interleave lane_id' address' gid sid fits' h' e')
