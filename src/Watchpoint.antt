-- ===== src/Watchpoint.antt =====
-- `watchpoint_t` of src/watchpoint.cpp: the block of addresses that the hardware is made to watch for
-- a range that a client asks for. The masks of the agents are what the driver reports.
pub mod Block
pub mod Range
pub mod Agent
use rocdbgapi.Base.{
  ℕ, ◌-◌, bit_and, bit_or, bit_xor, not, List, [], ◌∷◌, ltb, leb, ◌==◌, if◌then◌else◌,
}
use rocdbgapi.Base.Word.{u64_mod, add64, sub64, neg64, not64}
use rocdbgapi.Utils.{next_power_of_two}
use rocdbgapi.Status.{Result, ok, ◌>>◌, assert}

-- The digits that all addresses from the first to the last share.
unfoldable pub stable_bits : (first_address last_address : ℕ) → ℕ
stable_bits first_address last_address =
    neg64 (next_power_of_two (add64 (bit_xor first_address last_address) 1))

-- What all agents can program.
abbrev pub programmable_mask_bits : (address_watch_mask_bits : List ℕ) → ℕ
programmable_mask_bits [] = u64_mod - 1
programmable_mask_bits (m ∷ rest) = bit_and m (programmable_mask_bits rest)

abbrev pub field_A : (field_B : ℕ) → ℕ
field_A field_B = not64 (bit_or field_B (sub64 field_B 1))

abbrev pub field_C : (field_B : ℕ) → ℕ
field_C field_B = not64 (bit_or (field_A field_B) field_B)

-- The address and the size for the digits that are stable.
unfoldable pub watched : (requested_address field_B stable : ℕ) → ℕ × ℕ
watched requested_address field_B stable =
    let size = neg64 (bit_and stable (not64 (field_C field_B))) in
    (bit_and requested_address (neg64 size), size)

-- The last address of the largest block that the first one stands in.
unfoldable pub cut_address : (first_address field_B : ℕ) → ℕ
cut_address first_address field_B =
    sub64 (bit_and (add64 first_address (not64 (field_A field_B))) (field_A field_B)) 1

-- The constructor.
unfoldable pub watch_range : (field_B requested_address requested_size : ℕ) → Result (ℕ × ℕ)
watch_range field_B requested_address requested_size =
    let last_address = sub64 (add64 requested_address requested_size) 1 in
    let stable = stable_bits requested_address last_address in
    assert (not (requested_size == 0))
    >> (if ltb stable (field_A field_B)
        then (let cut = stable_bits requested_address (cut_address requested_address field_B) in
            assert (leb (field_A field_B) cut) >> ok (watched requested_address field_B cut))
        else ok (watched requested_address field_B stable))
