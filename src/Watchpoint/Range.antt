-- ===== src/Watchpoint/Range.antt =====
-- What the constructor of `watchpoint_t` in src/watchpoint.cpp makes the hardware watch.
use rocdbgapi.Base.{
  ℕ, suc, ◌+◌, ◌-◌, ◌*◌, ◌/◌, ◌%◌, ◌^◌, ◌≤◌, ◌<◌, ◌≡◌, ◌∙◌, ap, sym, refl, arith, max, bit_and,
  bit_xor, true, false, ltb, leb, leb→le, lt→ltb, ◌==◌, Bool-cases, inl, inr,
}
use rocdbgapi.Base.Bits.{bit_xor-lt}
use rocdbgapi.Base.Fields.{bit_and_high}
use rocdbgapi.Base.Power.{pow_pos, pow_mono}
use rocdbgapi.Base.Word.{u64_mod, add64, sub64, not64}
use rocdbgapi.Status.{ok, err, fatal, assert, ◌>>◌}
use rocdbgapi.Watchpoint.{stable_bits, field_A, watched, cut_address, watch_range}
use native.Mathlib.Nat.{pow-suc, div-add-mod'}
use rocdbgapi.Base.Division.{div_block}
use rocdbgapi.Watchpoint.Block.{
  IsLeastPower, least_power, stable_bits-eq, same_of_xor, xor_of_same, watched-eq, field_A-eq,
}

-- A block of `2 ^ j` bytes, of which the bits from `x` up can be programmed, is the smallest that has
-- both addresses.
pub record IsSmallest (x first last j : ℕ) : Type 0 where
  pub programmable : x ≤ j
  pub shared : first / 2 ^ j ≡ last / 2 ^ j
  pub smallest : (i : ℕ) → x ≤ i → first / 2 ^ i ≡ last / 2 ^ i → j ≤ i

-- The digits shared with a last address of the same block are within what can be programmed, and they
-- select the smallest such block.
record Selected (x y first last : ℕ) : Type 0 where
  j : ℕ
  within : j ≤ y
  smallest : IsSmallest x first last j
  accepted : ltb (stable_bits first last) (field_A (2 ^ y - 2 ^ x)) ≡ false
  block : watched first (2 ^ y - 2 ^ x) (stable_bits first last) ≡ (first / 2 ^ j * 2 ^ j, 2 ^ j)

same_block :
    (x y first last : ℕ)
    → x < y
    → y < 64
    → first < u64_mod
    → first / 2 ^ y ≡ last / 2 ^ y
    → Selected x y first last
same_block x y first last h top hf e =
    let (k, p) = least_power (bit_xor first last) y (xor_of_same y first last e) in selected k p
  where
    selected : (k : ℕ) → IsLeastPower (bit_xor first last) k → Selected x y first last
    selected k p = record {
      j = max k x;
      within = omega (arith, k_within);
      smallest = record {
        programmable = omega arith;
        shared =
            same_of_xor (max k x) first last
              (omega (arith, p.above, pow_mono k (max k x) (omega arith)));
        smallest = λ i le same. omega (arith, p.least i (xor_of_same i first last same));
      };
      accepted = ground (arith, stable, field_A-eq x y h top, pow_mono k y k_within);
      block = ap (watched first (2 ^ y - 2 ^ x)) stable ∙ watched-eq x y k first h top k_within hf;
    }
      where
        k_within : k ≤ y
        k_within = p.least y (xor_of_same y first last e)

        stable : stable_bits first last ≡ u64_mod - 2 ^ k
        stable =
            stable_bits-eq k first last (omega (arith, k_within))
              (omega (arith, p.above, k_within, pow_mono k 63 (omega (arith, k_within)))) p

-- Addresses of two blocks share too few digits.
too_far :
    (x y first last : ℕ)
    → x < y
    → y < 64
    → first < 2 ^ 63
    → last < 2 ^ 63
    → ¬ (first / 2 ^ y ≡ last / 2 ^ y)
    → ltb (stable_bits first last) (field_A (2 ^ y - 2 ^ x)) ≡ true
too_far x y first last h top hf hl apart =
    let (k, p) = least_power (bit_xor first last) 63 small in far k p
  where
    small : bit_xor first last < 2 ^ 63
    small = bit_xor-lt 63 first last hf hl

    far :
        (k : ℕ)
        → IsLeastPower (bit_xor first last) k
        → ltb (stable_bits first last) (field_A (2 ^ y - 2 ^ x)) ≡ true
    far k p = lt→ltb _ _ (
        omega (
          arith,
          stable,
          field_A-eq x y h top,
          pow_mono (suc y) k above,
          pow_pos y,
          pow_mono k 64 (omega (arith, k_small)),
          pow-suc 2 y,
        ))
      where
        k_small : k ≤ 63
        k_small = p.least 63 small

        stable : stable_bits first last ≡ u64_mod - 2 ^ k
        stable = stable_bits-eq k first last (omega (arith, k_small)) (omega (arith, small)) p

        above : suc y ≤ k
        above = elim (Bool-cases (leb (suc y) k)) [
          | inl le ↦ leb→le (suc y) k le
          | inr gt ↦ absurd (
              apart
                (same_of_xor y first last (omega (arith, p.above, pow_mono k y (ground arith)))))
        ]

cut_address-eq :
    (x y first : ℕ)
    → x < y
    → y < 64
    → first < 2 ^ 63
    → cut_address first (2 ^ y - 2 ^ x) ≡ sub64 ((first + 2 ^ y - 1) / 2 ^ y * 2 ^ y) 1
unfolding cut_address
cut_address-eq x y first h top hf =
    ap (λ a. sub64 (bit_and (add64 first (not64 a)) a) 1) (field_A-eq x y h top)
    ∙ ap (λ t. sub64 t 1)
        (ap (λ t. bit_and t (u64_mod - 2 ^ y)) sum
          ∙ bit_and_high 64 y (first + 2 ^ y - 1) (omega arith) (omega (arith, small, pow_pos y)))
  where
    small : 2 ^ y ≤ 2 ^ 63
    small = pow_mono y 63 (omega arith)

    sum : add64 first (not64 (u64_mod - 2 ^ y)) ≡ first + 2 ^ y - 1
    sum = omega (arith, small, pow_pos y)

-- The cut ends the block of the first address.
cut_inside :
    (x y first : ℕ)
    → x < y
    → y < 64
    → first < 2 ^ 63
    → ¬ (first % 2 ^ y ≡ 0)
    → cut_address first (2 ^ y - 2 ^ x) ≡ (first / 2 ^ y + 1) * 2 ^ y - 1
cut_inside x y first h top hf inside =
    cut_address-eq x y first h top hf
    ∙ omega (arith, ap (λ t. t * 2 ^ y) quotient, whole, pow_pos y, pow_mono y 63 (omega arith))
  where
    whole : first / 2 ^ y * 2 ^ y + first % 2 ^ y ≡ first
    whole = div-add-mod' first (2 ^ y)

    quotient : (first + 2 ^ y - 1) / 2 ^ y ≡ first / 2 ^ y + 1
    quotient =
        ap (λ t. t / 2 ^ y) split
        ∙ div_block (first / 2 ^ y + 1) (2 ^ y) (first % 2 ^ y - 1) (omega (arith, pow_pos y))
      where
        split : first + 2 ^ y - 1 ≡ (first / 2 ^ y + 1) * 2 ^ y + (first % 2 ^ y - 1)
        split = omega (arith, whole, pow_pos y)

-- At the start of a block the cut ends the block before.
cut_at_start :
    (x y first : ℕ)
    → x < y
    → y < 64
    → 0 < first
    → first < 2 ^ 63
    → first % 2 ^ y ≡ 0
    → cut_address first (2 ^ y - 2 ^ x) ≡ first - 1
cut_at_start x y first h top pos hf start =
    cut_address-eq x y first h top hf ∙ omega (arith, ap (λ t. t * 2 ^ y) quotient, whole)
  where
    whole : first / 2 ^ y * 2 ^ y + first % 2 ^ y ≡ first
    whole = div-add-mod' first (2 ^ y)

    quotient : (first + 2 ^ y - 1) / 2 ^ y ≡ first / 2 ^ y
    quotient =
        ap (λ t. t / 2 ^ y) split
        ∙ div_block (first / 2 ^ y) (2 ^ y) (2 ^ y - 1) (omega (arith, pow_pos y))
      where
        split : first + 2 ^ y - 1 ≡ first / 2 ^ y * 2 ^ y + (2 ^ y - 1)
        split = omega (arith, whole, pow_pos y)

module _ (b address size last : ℕ) (pos : 0 < size)
    (end : sub64 (add64 address size) 1 ≡ last) where
  nonzero : (size == 0) ≡ false
  nonzero = ground arith

  direct :
      ltb (stable_bits address last) (field_A b) ≡ false
      → watch_range b address size ≡ ok (watched address b (stable_bits address last))
  unfolding watch_range
  direct near = rw (nonzero, end, near) refl

  after_cut :
      (cut : ℕ)
      → ltb (stable_bits address last) (field_A b) ≡ true
      → cut_address address b ≡ cut
      → watch_range b address size ≡ (
          assert (leb (field_A b) (stable_bits address cut))
          >> ok (watched address b (stable_bits address cut)))
  unfolding watch_range
  after_cut cut far e = rw (nonzero, end, far, e) refl

-- A range within a block of `2 ^ y` bytes, of which the bits from `x` up can be programmed, is watched
-- by the smallest block that has its first and its last address.
pub watch_range-same_block :
    (x y address size : ℕ)
    → x < y
    → y < 64
    → 0 < size
    → address + size ≤ u64_mod
    → address / 2 ^ y ≡ (address + size - 1) / 2 ^ y
    → (j : ℕ) × (j ≤ y)
      × IsSmallest x address (address + size - 1) j
      × (watch_range (2 ^ y - 2 ^ x) address size ≡ ok (address / 2 ^ j * 2 ^ j, 2 ^ j))
watch_range-same_block x y address size h top pos fits e =
    let s = same_block x y address (address + size - 1) h top (omega arith) e in
    (
      s.j,
      s.within,
      s.smallest,
      direct (2 ^ y - 2 ^ x) address size (address + size - 1) pos (omega arith) s.accepted
          ∙ ap ok s.block,
    )

-- A range that starts within a block of `2 ^ y` bytes and goes on past it is watched from its first
-- address to the end of that block, by the smallest block for this part. The range ends at or below
-- address 2 ^ 63; above that the first and the last address may differ in all 64 bits.
pub watch_range-cut :
    (x y address size : ℕ)
    → x < y
    → y < 64
    → 0 < size
    → address + size ≤ 2 ^ 63
    → ¬ (address / 2 ^ y ≡ (address + size - 1) / 2 ^ y)
    → ¬ (address % 2 ^ y ≡ 0)
    → (j : ℕ) × (j ≤ y)
      × IsSmallest x address ((address / 2 ^ y + 1) * 2 ^ y - 1) j
      × (watch_range (2 ^ y - 2 ^ x) address size ≡ ok (address / 2 ^ j * 2 ^ j, 2 ^ j))
watch_range-cut x y address size h top pos fits apart inside = (
  s.j,
  s.within,
  s.smallest,
  after_cut b address size (address + size - 1) pos (omega arith) end
        (too_far x y address (address + size - 1) h top (omega arith) (omega arith) apart)
        (cut_inside x y address h top (omega arith) inside)
      ∙ rw reached (ap ok s.block),
)
  where
    b : ℕ
    b = 2 ^ y - 2 ^ x

    end : ℕ
    end = (address / 2 ^ y + 1) * 2 ^ y - 1

    same : address / 2 ^ y ≡ end / 2 ^ y
    same = sym (
        ap (λ t. t / 2 ^ y) last
        ∙ div_block (address / 2 ^ y) (2 ^ y) (2 ^ y - 1) (omega (arith, pow_pos y)))
      where
        last : end ≡ address / 2 ^ y * 2 ^ y + (2 ^ y - 1)
        last = omega (arith, pow_pos y)

    s : Selected x y address end
    s = same_block x y address end h top (omega arith) same

    reached : leb (field_A b) (stable_bits address end) ≡ true
    reached = ground (arith, s.accepted)

-- A range that starts at a block of `2 ^ y` bytes, but not at address 0, and goes on past it makes the
-- assertion on the digits of the cut fail, where the range ends at or below address 2 ^ 63.
pub watch_range-fatal :
    (x y address size : ℕ)
    → x < y
    → y < 64
    → 0 < address
    → 0 < size
    → address + size ≤ 2 ^ 63
    → ¬ (address / 2 ^ y ≡ (address + size - 1) / 2 ^ y)
    → address % 2 ^ y ≡ 0
    → watch_range (2 ^ y - 2 ^ x) address size ≡ err fatal
watch_range-fatal x y address size h top start pos fits apart aligned =
    after_cut b address size (address + size - 1) pos (omega arith) (address - 1)
      (too_far x y address (address + size - 1) h top (omega arith) (omega arith) apart)
      (cut_at_start x y address h top start (omega arith) aligned)
    ∙ rw missed refl
  where
    b : ℕ
    b = 2 ^ y - 2 ^ x

    before : ¬ (address / 2 ^ y ≡ (address - 1) / 2 ^ y)
    before e = omega (
      arith,
      ap (λ t. t * 2 ^ y) e,
      div-add-mod' address (2 ^ y),
      div-add-mod' (address - 1) (2 ^ y),
    )

    missed : leb (field_A b) (stable_bits address (address - 1)) ≡ false
    missed =
        ground (arith, too_far x y address (address - 1) h top (omega arith) (omega arith) before)
