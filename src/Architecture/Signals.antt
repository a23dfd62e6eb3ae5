-- ===== src/Architecture/Signals.antt =====
-- What a wave signals once its stop reasons are cleared: `clear_stop_reasons` and
-- `signaled_exceptions` of `amdgcn_architecture_t` in src/architecture.cpp.
use rocdbgapi.Base.{
  ℕ, suc, ◌^◌, ◌<◌, ◌≡◌, refl, ap, ap₂, ◌∙◌, arith, Bool, true, false, not, ◌&&◌, ◌||◌, ◌==◌, ltb,
  List, [], ◌∷◌, if◌then◌else◌, bit_and, bit_or,
}
use native.Mathlib.Nat.{pow-suc}
use rocdbgapi.Base.Bits.{bit_or-lt, bit_and_comm}
use rocdbgapi.Base.Power.{pow_mono, pow_pos}
use rocdbgapi.Base.Fields.{bit_and_zero}
use rocdbgapi.Base.Flags.{has, not32, has-bit_or, has-bit_and, has-not32, flag_kept}
use rocdbgapi.Architecture.{
  Registers, Exception, invalid, input_denorm, float_div0, overflow, underflow, inexact, int_div0,
  mem_viol, illegal_inst, addr_watch0, addr_watch1, addr_watch2, addr_watch3, xnack_error,
  wave_begin, wave_end, trap_after_inst, host_trap, StopReasons, Exceptions, masked_write,
  trapsts_read_only_bits, signaled_exceptions, converted, convert_mask, set_exceptions,
  reason_exceptions, clear_stop_reasons,
}

-- Whether an exception of the table with this bit is in a mask.
abbrev selected : List (Exception × ℕ) → Exceptions → ℕ → Bool
selected [] m k = false
selected ((e, j) ∷ rest) m k = (has (2 ^ j) (2 ^ k) && m e) || selected rest m k

zero_has : (k : ℕ) → has 0 (2 ^ k) ≡ false
zero_has k = ap (λ t. not (t == 0)) (bit_and_comm 0 (2 ^ k) ∙ bit_and_zero (2 ^ k))

has-convert_mask :
    (table : List (Exception × ℕ)) (m : Exceptions) (k : ℕ)
    → has (convert_mask table m) (2 ^ k) ≡ selected table m k
unfolding convert_mask
has-convert_mask [] m k = zero_has k
has-convert_mask ((e, j) ∷ rest) m k =
    has-bit_or k (if m e then 2 ^ j else 0) (convert_mask rest m)
    ∙ ap₂ (λ s t. s || t) (one (m e)) (has-convert_mask rest m k)
  where
    one : (b : Bool) → has (if b then 2 ^ j else 0) (2 ^ k) ≡ (has (2 ^ j) (2 ^ k) && b)
    one true = ground arith
    one false = ground (arith, zero_has k)

abbrev all_below : List (Exception × ℕ) → Bool
all_below [] = true
all_below ((e, j) ∷ rest) = ltb j 32 && all_below rest

convert_mask-lt :
    (table : List (Exception × ℕ)) (m : Exceptions)
    → all_below table ≡ true
    → convert_mask table m < 2 ^ 32
unfolding convert_mask
convert_mask-lt [] m b = omega arith
convert_mask-lt ((e, j) ∷ rest) m b =
    bit_or-lt 32 (if m e then 2 ^ j else 0) (convert_mask rest m) (one (m e))
      (convert_mask-lt rest m (ground arith))
  where
    one : (b' : Bool) → (if b' then 2 ^ j else 0) < 2 ^ 32
    one true = omega (arith, pow_mono (suc j) 32 (ground arith), pow-suc 2 j, pow_pos j)
    one false = omega arith

-- The exceptions that `set_exceptions` knows.
abbrev pub is_converted : Exception → Bool
is_converted inexact = false
is_converted xnack_error = false
is_converted _ = true

-- A digit that can be written takes the one of the value.
writable-masked_write :
    (read_only value old k : ℕ)
    → k < 32
    → read_only < 2 ^ 32
    → has read_only (2 ^ k) ≡ false
    → has (masked_write read_only value old) (2 ^ k) ≡ has value (2 ^ k)
unfolding masked_write
writable-masked_write read_only value old k small fits e = ground (
  arith,
  has-bit_or k (bit_and value (not32 read_only)) (bit_and old read_only),
  flag_kept k value read_only small fits e,
  has-bit_and k old read_only,
)

or_false : (b : Bool) → (b || false) ≡ b
or_false b = ground arith

module _ (s : StopReasons) (r : Registers) where
  cleared_bit :
      (k : ℕ)
      → k < 32
      → has trapsts_read_only_bits (2 ^ k) ≡ false
      → has (clear_stop_reasons s r).trapsts (2 ^ k)
        ≡ (has r.trapsts (2 ^ k) && not (selected converted (reason_exceptions s) k))
  unfolding clear_stop_reasons set_exceptions
  cleared_bit k small writable =
      writable-masked_write trapsts_read_only_bits _ r.trapsts k small (omega arith) writable
      ∙ both (convert_mask converted (reason_exceptions s))
          (convert_mask-lt converted (reason_exceptions s) refl)
          (has-convert_mask converted (reason_exceptions s) k)
    where
      none_set : has (convert_mask converted (λ e. false)) (2 ^ k) ≡ false
      none_set = zero_has k

      both :
          (m : ℕ)
          → m < 2 ^ 32
          → has m (2 ^ k) ≡ selected converted (reason_exceptions s) k
          → has
              (bit_or
                (bit_and r.trapsts (not32 m))
                (bit_and (convert_mask converted (λ e. false)) m))
              (2 ^ k)
            ≡ (has r.trapsts (2 ^ k) && not (selected converted (reason_exceptions s) k))
      both m fits e = ground (
        arith,
        has-bit_or k (bit_and r.trapsts (not32 m))
            (bit_and (convert_mask converted (λ e. false)) m),
        has-bit_and k r.trapsts (not32 m),
        has-not32 k m small fits,
        has-bit_and k (convert_mask converted (λ e. false)) m,
        none_set,
        e,
      )

  mode_kept : (clear_stop_reasons s r).mode ≡ r.mode
  unfolding clear_stop_reasons set_exceptions
  mode_kept = refl

  -- An exception with a mask, and one without.
  maskable :
      (k enable : ℕ) {b : Bool}
      → k < 32
      → has trapsts_read_only_bits (2 ^ k) ≡ false
      → selected converted (reason_exceptions s) k ≡ b
      → (has (clear_stop_reasons s r).trapsts (2 ^ k) && has (clear_stop_reasons s r).mode enable)
        ≡ (has r.trapsts (2 ^ k) && has r.mode enable && not b)
  maskable k enable {b} small writable e =
      rw (cleared_bit k small writable, mode_kept, e)
        (order (has r.trapsts (2 ^ k)) (has r.mode enable) (not b))
    where
      order : (x y z : Bool) → (x && z && y) ≡ (x && y && z)
      order x y z = ground arith

  unmaskable :
      (k : ℕ) {b : Bool}
      → k < 32
      → has trapsts_read_only_bits (2 ^ k) ≡ false
      → selected converted (reason_exceptions s) k ≡ b
      → has (clear_stop_reasons s r).trapsts (2 ^ k) ≡ (has r.trapsts (2 ^ k) && not b)
  unmaskable k small writable e = rw (cleared_bit k small writable, e) refl

  -- Once the stop reasons of a wave are cleared it signals what it signaled before, without the
  -- exceptions of those reasons, but that of an inexact result and that of a retry that failed: these
  -- are signaled as they were.
  pub signaled-clear_stop_reasons :
      (e : Exception)
      → signaled_exceptions (clear_stop_reasons s r) e
        ≡ (signaled_exceptions r e && not (is_converted e && reason_exceptions s e))
  unfolding signaled_exceptions
  signaled-clear_stop_reasons invalid =
      maskable 0 (2 ^ 12) (omega arith) refl (or_false (reason_exceptions s invalid))
  signaled-clear_stop_reasons input_denorm =
      maskable 1 (2 ^ 13) (omega arith) refl (or_false (reason_exceptions s input_denorm))
  signaled-clear_stop_reasons float_div0 =
      maskable 2 (2 ^ 14) (omega arith) refl (or_false (reason_exceptions s float_div0))
  signaled-clear_stop_reasons overflow =
      maskable 3 (2 ^ 15) (omega arith) refl (or_false (reason_exceptions s overflow))
  signaled-clear_stop_reasons underflow =
      maskable 4 (2 ^ 16) (omega arith) refl (or_false (reason_exceptions s underflow))
  signaled-clear_stop_reasons int_div0 =
      maskable 6 (2 ^ 18) (omega arith) refl (or_false (reason_exceptions s int_div0))
  signaled-clear_stop_reasons addr_watch0 =
      maskable 7 (2 ^ 19) (omega arith) refl (or_false (reason_exceptions s addr_watch0))
  signaled-clear_stop_reasons addr_watch1 =
      maskable 12 (2 ^ 19) (omega arith) refl (or_false (reason_exceptions s addr_watch1))
  signaled-clear_stop_reasons addr_watch2 =
      maskable 13 (2 ^ 19) (omega arith) refl (or_false (reason_exceptions s addr_watch2))
  signaled-clear_stop_reasons addr_watch3 =
      maskable 14 (2 ^ 19) (omega arith) refl (or_false (reason_exceptions s addr_watch3))
  signaled-clear_stop_reasons inexact = maskable 5 (2 ^ 17) (omega arith) refl refl
  signaled-clear_stop_reasons mem_viol =
      unmaskable 8 (omega arith) refl (or_false (reason_exceptions s mem_viol))
  signaled-clear_stop_reasons illegal_inst =
      unmaskable 11 (omega arith) refl (or_false (reason_exceptions s illegal_inst))
  signaled-clear_stop_reasons xnack_error = unmaskable 28 (omega arith) refl refl
  signaled-clear_stop_reasons wave_begin = refl
  signaled-clear_stop_reasons wave_end = refl
  signaled-clear_stop_reasons trap_after_inst = refl
  signaled-clear_stop_reasons host_trap = refl
