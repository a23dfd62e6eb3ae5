-- ===== src/Wave/Machine/SetState/Parks.antt =====
-- The pc of a wave that is parked, and unparked: `park` and `unpark` of src/wave.cpp.
use rocdbgapi.Base.{
  ℕ, ◌+◌, ◌*◌, ◌/◌, ◌%◌, ◌^◌, ◌<◌, ◌≡◌, refl, sym, ap, ap₂, ◌∙◌, arith, Bool, true, false,
  Bool-cases, inl, inr, ◌⊎◌, Option, bit_and, bit_or,
}
use rocdbgapi.Status.{Status, ok, err, Result-cases}
use rocdbgapi.Base.Bits.{bit_or-lt, bit_and_le}
use rocdbgapi.Base.Fields.{bit_and_low, bit_and_high, bit_or_field}
use rocdbgapi.Base.Word.{u64_mod, ◌<<<◌}
use rocdbgapi.Base.Flags.{not32}
use rocdbgapi.Utils.{bit_mask, bit_extract}
use rocdbgapi.Utils.Extend.{bit_extract-eq}
use rocdbgapi.Architecture.State.Parked.{saved_parked_pc-save_pc_for_park}
use rocdbgapi.Architecture.{Registers, stop}
use rocdbgapi.Architecture.State.{save_pc_for_park, saved_parked_pc, write_pc, is_stop}
use rocdbgapi.Wave.Machine.{Wave, World, Setting, pc_of, park_instruction, unpark}
use rocdbgapi.Wave.Machine.SetState.{park_or_unpark}

-- The last two digits of the pc are read-only.
pub write_pc-eq : (v : ℕ) (r : Registers) → v < u64_mod → (write_pc v r).pc ≡ v / 4 * 4 + r.pc % 4
write_pc-eq v r h =
    ap₂ bit_or (bit_and_high 64 2 v (omega arith) h) (bit_and_low 2 r.pc)
    ∙ bit_or_field 2 (v / 4) (r.pc % 4) (omega arith)

pub save_pc_for_park-lt :
    (pc : ℕ) (r : Registers) → r.ttmp11 < 2 ^ 32 → (save_pc_for_park pc r).ttmp11 < 2 ^ 32
unfolding save_pc_for_park
save_pc_for_park-lt pc r word =
    bit_or-lt 32 (bit_and r.ttmp11 (not32 (bit_mask 7 22))) (bit_extract pc 32 47 <<< 7)
      (omega (arith, bit_and_le r.ttmp11 (not32 (bit_mask 7 22))))
      (omega (arith, bit_extract-eq pc 32 47 (omega arith) (omega arith)))

-- The pc is an address of 48 bits, and while another one stands in the register its last two digits
-- stand there too.
pub record IsPc (w : Wave) : Type 0 where
  pub in_space : pc_of w < 2 ^ 48
  pub low : pc_of w % 4 ≡ w.registers.pc % 4
  pub word : w.registers.ttmp11 < 2 ^ 32

-- What parking or unparking a wave leaves.
pub record IsParkedAs (b : Bool) (w w' : Wave) : Type 0 where
  pub same_pc : pc_of w' ≡ pc_of w
  pub is_pc : IsPc w'
  pub is_parked : w'.is_parked ≡ b
  pub same_state : w'.state ≡ w.state
  pub same_flags : w'.registers.ttmp6 ≡ w.registers.ttmp6
  pub same_event : w'.last_stop_event_id ≡ w.last_stop_event_id
  pub same_visibility : w'.visibility ≡ w.visibility

pub saving_keeps :
    (pc : ℕ) (r : Registers)
    → ((save_pc_for_park pc r).pc ≡ r.pc) × ((save_pc_for_park pc r).ttmp6 ≡ r.ttmp6)
unfolding save_pc_for_park
saving_keeps pc r = (refl, refl)

saved_at :
    (address pc : ℕ) (w : Wave)
    → w.registers.ttmp11 < 2 ^ 32
    → pc < 2 ^ 48
    → pc_of (record w {
      registers = write_pc address (save_pc_for_park pc w.registers);
      is_parked = true;
    })
      ≡ pc
unfolding pc_of saved_parked_pc save_pc_for_park
saved_at address pc w word fits =
    (saved_parked_pc-save_pc_for_park pc w.registers word).0 ∙ omega arith

-- The wave has another pc for the time, and its own in the registers that save it.
parked_at-IsParkedAs :
    (b : Bool) (address : ℕ) (w : Wave)
    → address < u64_mod
    → b ≡ true
    → IsPc w
    → w.is_parked ≡ false
    → IsParkedAs b w (record w {
      registers = write_pc address (save_pc_for_park (pc_of w) w.registers);
      is_parked = true;
    })
unfolding pc_of
parked_at-IsParkedAs b address w small parks p not_parked = record {
  same_pc = parked_pc;
  is_pc = record {
    in_space = omega (arith, parked_pc, p.in_space);
    low = omega (arith, parked_pc, own_pc, park_pc);
    word = save_pc_for_park-lt (pc_of w) w.registers p.word;
  };
  is_parked = sym parks;
  same_state = refl;
  same_flags = (saving_keeps (pc_of w) w.registers).1;
  same_event = refl;
  same_visibility = refl;
}
  where
    parked : Wave
    parked = record w {
      registers = write_pc address (save_pc_for_park (pc_of w) w.registers);
      is_parked = true;
    }

    parked_pc : pc_of parked ≡ pc_of w
    parked_pc = saved_at address (pc_of w) w p.word p.in_space

    own_pc : pc_of w ≡ w.registers.pc
    own_pc = rw (pc_of, not_parked) refl

    park_pc : parked.registers.pc ≡ address / 4 * 4 + w.registers.pc % 4
    park_pc =
        write_pc-eq address (save_pc_for_park (pc_of w) w.registers) small
        ∙ ap (λ t. address / 4 * 4 + t % 4) (saving_keeps (pc_of w) w.registers).0

module _ {I : Type 0} (s : Setting I) where
  -- The addresses that the queue gives have 64 bits.
  abbrev pub IsAddressed : World I → Type 0
  IsAddressed w =
      (address : ℕ) (ptr : Option ℕ) → park_instruction s w ≡ ok (address, ptr) → address < u64_mod

  -- The queue is to give the address of the park instruction, and throws.
  pub record IsRefused (w : World I) (e : Status) : Type 0 where
    pub parks : s.park_stopped_waves ≡ true
    pub thrown : park_instruction s w ≡ err e

  -- A wave that is stopped is parked with its pc, if its architecture parks waves, unless the queue
  -- throws.
  pub park_stopped :
      (w : World I)
      → IsAddressed w
      → IsPc w.wave
      → w.wave.state ≡ stop
      → w.wave.is_parked ≡ false
      → ((v : Wave) × (ptr : Option ℕ) × (park_or_unpark s stop w
            ≡ ok (record w { wave = v; park_instruction_ptr = ptr }))
          × IsParkedAs s.park_stopped_waves w.wave v)
        ⊎ ((e : Status) × (park_or_unpark s stop w ≡ err e) × IsRefused w e)
  unfolding park_or_unpark
  park_stopped w small p is_stopped not_parked = elim (Bool-cases s.park_stopped_waves) [
    | inr stays ↦ inl (
      w.wave,
      w.park_instruction_ptr,
      rw stays refl,
      record {
        same_pc = refl;
        is_pc = p;
        is_parked = not_parked ∙ sym stays;
        same_state = refl;
        same_flags = refl;
        same_event = refl;
        same_visibility = refl;
      },
    )
    | inl parks ↦ elim (Result-cases (park_instruction s w)) [
      | inr (e, thrown) ↦ inr (
        e,
        rw (parks, is_stopped, not_parked, thrown) refl,
        record { parks = parks; thrown = thrown },
      )
      | inl ((address, ptr), found) ↦ inl (
        record (w.wave) {
          registers = write_pc address (save_pc_for_park (pc_of w.wave) w.wave.registers);
          is_parked = true;
        },
        ptr,
        rw (parks, is_stopped, not_parked, found) refl,
        parked_at-IsParkedAs s.park_stopped_waves address w.wave (small address ptr found) parks p
            not_parked,
      )
    ]
  ]

-- A wave that is resumed is unparked.
pub unpark_resumed :
    (w : Wave)
    → IsPc w
    → is_stop w.state ≡ false
    → w.is_parked ≡ true
    → (w' : Wave) × (unpark w ≡ ok w') × IsParkedAs false w w'
unfolding unpark
unpark_resumed w p runs is_parked = (
  resumed,
  rw (runs, is_parked) refl,
  record {
    same_pc = resumed_pc;
    is_pc = record { in_space = omega (arith, resumed_pc, p.in_space); low = refl; word = p.word };
    is_parked = refl;
    same_state = refl;
    same_flags = refl;
    same_event = refl;
    same_visibility = refl;
  },
)
  where
    resumed : Wave
    resumed = record w { registers = write_pc (pc_of w) w.registers; is_parked = false }

    resumed_pc : (write_pc (pc_of w) w.registers).pc ≡ pc_of w
    resumed_pc = omega (arith, write_pc-eq (pc_of w) w.registers (omega (arith, p.in_space)), p.low)
