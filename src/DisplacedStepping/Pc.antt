-- ===== src/DisplacedStepping/Pc.antt =====
-- Writing the pc of a wave of src/wave.cpp and reading it again.
use rocdbgapi.Base.{
  ℕ, ◌/◌, ◌%◌, ◌^◌, ◌<◌, ◌≡◌, refl, ap, ap₂, ◌∙◌, arith, Bool-cases, inl, inr, Option, bit_and,
  bit_or,
}
use native.Mathlib.Nat.{mod-eq_of_lt}
use rocdbgapi.Base.Fields.{bit_and_low, bit_and_high, bit_or_field}
use rocdbgapi.Base.Word.{not64}
use rocdbgapi.Architecture.State.{is_stop, saved_parked_pc, pc_read_only_bits}
use rocdbgapi.Architecture.State.Parked.{saved_parked_pc-save_pc_for_park}
use rocdbgapi.Wave.Machine.{Wave, pc_of, write_pc_register}
use rocdbgapi.Wave.Machine.SetState.Parks.{IsPc, save_pc_for_park-lt, saving_keeps}

written_digits :
    (v x : ℕ)
    → v < 2 ^ 48
    → v % 4 ≡ x % 4
    → bit_or (bit_and v (not64 pc_read_only_bits)) (bit_and x pc_read_only_bits) ≡ v
written_digits v x fits same =
    ap₂ bit_or (bit_and_high 64 2 v (omega arith) (omega arith)) (bit_and_low 2 x)
    ∙ bit_or_field 2 (v / 4) (x % 4) (omega arith)
    ∙ omega arith

-- The pc that is written is the one that is read, where its last two digits stay.
pub pc_of-write_pc_register :
    (v : ℕ) (w : Wave)
    → IsPc w
    → v < 2 ^ 48
    → v % 4 ≡ pc_of w % 4
    → (pc_of (write_pc_register v w) ≡ v) × IsPc (write_pc_register v w)
unfolding write_pc_register pc_of
pc_of-write_pc_register v w p fits same = elim (Bool-cases w.is_parked) [
  | inl parked ↦
      let own : pc_of w ≡ saved_parked_pc w.registers = rw (pc_of, parked) refl in
      let value = written_digits v (saved_parked_pc w.registers) fits (omega (arith, same, own)) in
      let seen =
        (saved_parked_pc-save_pc_for_park _ w.registers p.word).0
        ∙ ap (λ t. t % 2 ^ 48) value
        ∙ mod-eq_of_lt fits in
      rw (write_pc_register, parked)
        (
          seen,
          record {
            in_space = omega (arith, seen, fits);
            low = omega (arith, seen, same, p.low, (saving_keeps _ w.registers).0);
            word = save_pc_for_park-lt _ w.registers p.word;
          },
        )
  | inr not_parked ↦
      let own : pc_of w ≡ w.registers.pc = rw (pc_of, not_parked) refl in
      let value = written_digits v w.registers.pc fits (omega (arith, same, own)) in
      rw (write_pc_register, not_parked)
        (value, record { in_space = omega (arith, value, fits); low = refl; word = p.word })
]

-- The pc does not depend on the operation.
pub same_pc : (x : Option ℕ) (w : Wave) → pc_of (record w { displaced_stepping = x }) ≡ pc_of w
unfolding pc_of
same_pc x w = refl

pub same-IsPc : (x : Option ℕ) (w : Wave) → IsPc w → IsPc (record w { displaced_stepping = x })
unfolding pc_of
same-IsPc x w p = record { in_space = p.in_space; low = p.low; word = p.word }

pub write_pc_register-keeps :
    (v : ℕ) (w : Wave) → is_stop (write_pc_register v w).state ≡ is_stop w.state
unfolding write_pc_register
write_pc_register-keeps v w = elim (Bool-cases w.is_parked) [
  | inl parked ↦ rw (write_pc_register, parked) refl
  | inr not_parked ↦ rw (write_pc_register, not_parked) refl
]
