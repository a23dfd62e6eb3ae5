-- ===== src/Architecture/State/Parked.antt =====
-- The pc of a parked wave, in ttmp7 and ttmp11.
use rocdbgapi.Base.{ℕ, ◌+◌, ◌*◌, ◌/◌, ◌%◌, ◌^◌, ◌<◌, ◌≡◌, ap, ap₂, ◌∙◌, arith, bit_and, bit_or}
use rocdbgapi.Base.Fields.{bit_and_high, bit_or_field}
use rocdbgapi.Base.Shift.{div-bit_or, div-bit_and, bit_or_comm}
use rocdbgapi.Base.Word.{◌<<<◌}
use rocdbgapi.Base.Flags.{not32}
use rocdbgapi.Utils.{bit_mask, bit_extract}
use rocdbgapi.Utils.Extend.{bit_mask-eq, bit_extract-eq}
use rocdbgapi.Architecture.{Registers}
use rocdbgapi.Architecture.State.{save_pc_for_park, saved_parked_pc}

module _ (pc : ℕ) (r : Registers) (word : r.ttmp11 < 2 ^ 32) where
  abbrev ttmp11' : ℕ
  ttmp11' = bit_or (bit_and r.ttmp11 (not32 (bit_mask 7 22))) (bit_extract pc 32 47 <<< 7)

  upper : bit_extract pc 32 47 ≡ pc / 2 ^ 32 % 2 ^ 16
  upper = bit_extract-eq pc 32 47 (omega arith) (omega arith)

  -- The field holds the upper digits of the pc, and those around it stay.
  field : ttmp11' / 2 ^ 7 ≡ r.ttmp11 / 2 ^ 7 / 2 ^ 16 * 2 ^ 16 + pc / 2 ^ 32 % 2 ^ 16
  field =
      div-bit_or 7 (bit_and r.ttmp11 (not32 (bit_mask 7 22))) (bit_extract pc 32 47 <<< 7)
      ∙ ap₂ bit_or (div-bit_and 7 r.ttmp11 (not32 (bit_mask 7 22)) ∙ cleared) (omega (arith, upper))
      ∙ bit_or_field 16 (r.ttmp11 / 2 ^ 7 / 2 ^ 16) (pc / 2 ^ 32 % 2 ^ 16) (omega arith)
    where
      cleared :
          bit_and (r.ttmp11 / 2 ^ 7) (not32 (bit_mask 7 22) / 2 ^ 7)
          ≡ r.ttmp11 / 2 ^ 7 / 2 ^ 16 * 2 ^ 16
      cleared =
          ap (bit_and (r.ttmp11 / 2 ^ 7))
            (omega (arith, bit_mask-eq 7 22 (omega arith) (omega arith)))
          ∙ bit_and_high 25 16 (r.ttmp11 / 2 ^ 7) (omega arith) (omega arith)

  -- The pc that is saved for a parked wave is got back, in 48 bits, and the digits of ttmp11 above it
  -- stay.
  pub saved_parked_pc-save_pc_for_park :
      (saved_parked_pc (save_pc_for_park pc r) ≡ pc % 2 ^ 48)
      × ((save_pc_for_park pc r).ttmp11 / 2 ^ 23 ≡ r.ttmp11 / 2 ^ 23)
  unfolding saved_parked_pc save_pc_for_park
  saved_parked_pc-save_pc_for_park = (
    ap₂ bit_or (bit_extract-eq pc 0 31 (omega arith) (omega arith)) (
          ap (λ t. t * 2 ^ 32)
            (bit_extract-eq ttmp11' 7 22 (omega arith) (omega arith) ∙ omega (arith, field)))
        ∙ bit_or_comm 64 (pc / 1 % 2 ^ 32) (pc / 2 ^ 32 % 2 ^ 16 * 2 ^ 32) (omega arith)
            (omega arith)
        ∙ bit_or_field 32 (pc / 2 ^ 32 % 2 ^ 16) (pc / 1 % 2 ^ 32) (omega arith)
        ∙ omega arith,
    omega (arith, field),
  )
