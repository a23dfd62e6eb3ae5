-- ===== src/Tests/Masks.antt =====
-- Two bytes of a register of which some bits are read-only.
use rocdbgapi.Base.{ℕ, zero, suc, ◌<◌, ◌≡◌, refl, arith, List, [], ◌∷◌, get_or, ◌==◌, if◌then◌else◌}
use rocdbgapi.Base.Bits.{bit}
use rocdbgapi.Wave.Masks.{masked_byte, masked_bytes, masked_bytes_digits}

abbrev read_only : List ℕ
read_only = 0xff ∷ 0x0f ∷ []

abbrev value : List ℕ
value = 0x12 ∷ 0x34 ∷ []

abbrev current : List ℕ
current = 0x56 ∷ 0x78 ∷ []

-- The upper half of the second byte is that of the first byte of the value, not of its second.
second_byte : masked_bytes read_only 0 value current ≡ 0x56 ∷ 0x18 ∷ []
unfolding masked_bytes masked_byte
second_byte = refl

masked_bytes_digits_example : bit 5 (get_or (masked_bytes read_only 0 value current) 1 0) ≡ (
    if bit 5 (get_or read_only 1 0) == 1
    then bit 5 (get_or current 1 0)
    else bit 5 (get_or value 0 0))
masked_bytes_digits_example =
    masked_bytes_digits read_only value current 0 1 5 (omega arith) (omega arith) small
  where
    small : (k : ℕ) → get_or read_only k 0 < 256
    small zero = omega arith
    small (suc zero) = omega arith
    small (suc (suc k)) = omega arith
