-- ===== src/Wave/Masks.antt =====
-- The general case of the read-only bits in `wave_t::write_register` of src/wave.cpp: the bytes to
-- write are masked one at a time. The mask of the register is what the architecture gives.
use rocdbgapi.Base.{
  ℕ, zero, suc, ◌+◌, ◌-◌, ◌%◌, ◌<◌, ◌≡◌, ap, arith, bit_and, bit_or, List, [], ◌∷◌, length, get_or,
  ◌==◌, if◌then◌else◌,
}
use rocdbgapi.Base.Bits.{bit, bit-bit_and, bit-bit_or, bit-bit_xor}
use rocdbgapi.Base.Fields.{bit_xor_ones}
use rocdbgapi.Base.Disjoint.{bit-ones}

-- `(value & ~mask) | (x1 & mask)` on bytes.
unfoldable pub masked_byte : (mask value x1 : ℕ) → ℕ
masked_byte mask value x1 = bit_or (bit_and value (255 - mask)) (bit_and x1 mask)

-- The loop from a byte of the register on: what is read there becomes what is written. The new
-- value is always read at its first byte.
unfoldable pub masked_bytes :
    (read_only : List ℕ) (offset : ℕ) (value : List ℕ) (masked_value : List ℕ) → List ℕ
masked_bytes read_only offset value [] = []
masked_bytes read_only offset value (x1 ∷ rest) =
    masked_byte (get_or read_only offset 0) (get_or value 0 0) x1
    ∷ masked_bytes read_only (suc offset) value rest

byte_digit :
    (i mask value x1 : ℕ)
    → i < 8
    → mask < 256
    → bit i (masked_byte mask value x1) ≡ (if bit i mask == 1 then bit i x1 else bit i value)
unfolding masked_byte
byte_digit i mask value x1 h small = ground (
  arith,
  bit-bit_or i (bit_and value (255 - mask)) (bit_and x1 mask),
  bit-bit_and i value (255 - mask),
  bit-bit_and i x1 mask,
  flipped,
)
  where
    flipped : bit i (255 - mask) ≡ (bit i mask + 1) % 2
    flipped =
        omega
          (arith, ap (bit i) (bit_xor_ones 8 mask small), bit-bit_xor i mask 255, bit-ones 8 i h)

-- Each byte that is written keeps the read-only digits of the one that was read in its place; its
-- other digits are those of the first byte of the new value, whichever byte it is.
pub masked_bytes_digits :
    (read_only value masked_value : List ℕ) (offset j i : ℕ)
    → j < length masked_value
    → i < 8
    → ((k : ℕ) → get_or read_only k 0 < 256)
    → bit i (get_or (masked_bytes read_only offset value masked_value) j 0) ≡ (
        if bit i (get_or read_only (offset + j) 0) == 1
        then bit i (get_or masked_value j 0)
        else bit i (get_or value 0 0))
unfolding masked_bytes
masked_bytes_digits read_only value [] offset j i inside h bytes = absurd (omega arith)
masked_bytes_digits read_only value (x1 ∷ rest) offset zero i inside h bytes =
    rw (same) (byte_digit i (get_or read_only offset 0) (get_or value 0 0) x1 h (bytes offset))
  where
    same : offset + 0 ≡ offset
    same = omega arith
masked_bytes_digits read_only value (x1 ∷ rest) offset (suc j) i inside h bytes =
    rw (next) (masked_bytes_digits read_only value rest (suc offset) j i (omega arith) h bytes)
  where
    next : offset + suc j ≡ suc offset + j
    next = omega arith
