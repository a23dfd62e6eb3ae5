-- ===== src/Utils.antt =====
-- The bit and alignment helpers of src/utils.h, at `uint64_t`, `size_t` and addresses. An `int`
-- that the code negates is converted to 64 bits first, as the usual conversions do.
pub mod Align
pub mod Extend
pub mod PowerOfTwo
use rocdbgapi.Base.{
  ℕ, ◌+◌, ◌-◌, ◌^◌, bit_and, bit_or, bit_xor, Bool, false, not, ◌&&◌, leb, ◌==◌, if◌then◌else◌,
}
use rocdbgapi.Base.Word.{u64, u64_mod, add64, sub64, neg64, ◌<<<◌, ◌>>>◌}

-- `bit_mask (first, last)`; the code asserts `first <= last`.
unfoldable pub bit_mask : ℕ → ℕ → ℕ
bit_mask first last =
    let num_bits = last - first + 1 in
    u64 ((if leb 64 num_bits then u64_mod - 1 else sub64 (u64 (1 <<< num_bits)) 1) <<< first)

unfoldable pub zero_extend : ℕ → ℕ → ℕ
zero_extend x width = bit_and x (bit_mask 0 (width - 1))

-- The result is the bit pattern of the `int64_t`.
unfoldable pub sign_extend : ℕ → ℕ → ℕ
sign_extend x width =
    let sign_mask = bit_mask (width - 1) 63 in
    sub64 (bit_xor (zero_extend x width) sign_mask) sign_mask

unfoldable pub bit_extract : ℕ → ℕ → ℕ → ℕ
bit_extract x first last = bit_and (x >>> first) (bit_mask 0 (last - first))

unfoldable pub is_power_of_two : ℕ → Bool
is_power_of_two x = not (x == 0) && (bit_and x (sub64 x 1) == 0)

-- `v |= v >> s`
unfoldable pub smear : ℕ → ℕ → ℕ
smear s v = bit_or v (v >>> s)

unfoldable pub next_power_of_two : ℕ → ℕ
next_power_of_two x =
    let v = sub64 (add64 x (if x == 0 then 1 else 0)) 1 in
    add64 (smear 32 (smear 16 (smear 8 (smear 4 (smear 2 (smear 1 v)))))) 1

-- The code asserts that the alignment is a power of two.
unfoldable pub align_down : ℕ → ℕ → ℕ
align_down x alignment = bit_and x (neg64 alignment)

unfoldable pub align_up : ℕ → ℕ → ℕ
align_up x alignment = bit_and (sub64 (add64 x alignment) 1) (neg64 alignment)

unfoldable pub is_aligned : ℕ → ℕ → Bool
is_aligned x alignment = x == align_down x alignment
