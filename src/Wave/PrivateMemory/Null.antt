-- ===== src/Wave/PrivateMemory/Null.antt =====
-- The null address of private memory in `wave_t::xfer_private_memory` of src/wave.cpp: its
-- conversion gives no contiguous bytes, and the loop makes no progress.
use rocdbgapi.Base.{ℕ, zero, suc, ◌<◌, ◌≡◌, refl, ap, ◌∙◌, arith, min, Option, none}
use rocdbgapi.Memory.{
  nothing, Access, read, write, size, first_bytes, skip_bytes, Xfer, Outcome, done,
}
use rocdbgapi.Status.{ok}
use rocdbgapi.AddressSpace.{
  base_space, WaveView, global_at, swizzled_at, convert_lowered, convert_to_global,
}
use rocdbgapi.AddressSpace.Swizzle.{convert_base-eq}
use rocdbgapi.Wave.PrivateMemory.{
  private_round, private_loop, xfer_private_memory, to_global, global_id,
}

module _ {S : Type 0} (xfer : ℕ → Access → S → Outcome × S) (w : WaveView) (lane_id id i : ℕ) where
  null_converted : to_global xfer w lane_id (swizzled_at id i) 0xffff_ffff ≡ ok (0, 0)
  unfolding convert_lowered convert_to_global
  null_converted =
      convert_base-eq (base_space (global_at global_id)) w lane_id (swizzled_at id i) 0xffff_ffff
        (omega arith)

  no_bytes : (a : Access) → size (first_bytes 0 a) ≡ 0
  no_bytes (read n) = omega arith
  no_bytes (write bytes) = refl

  skip_nothing : (a : Access) → skip_bytes 0 a ≡ a
  skip_nothing (read n) = ap read (omega arith)
  skip_nothing (write bytes) = refl

  -- One round changes neither what is left to do nor the memory.
  null_round :
      (next : Access → Xfer → S → Option (Outcome × S)) (a : Access) (t : S)
      → 0 < size a
      → ((c : Access) → size c ≡ 0 → (u : S) → xfer 0 c u ≡ (done nothing, u))
      → private_round xfer w lane_id next (swizzled_at id i) 0xffff_ffff a nothing t
        ≡ next a nothing t
  unfolding private_round
  null_round next a t h empty =
      rw (null_converted, round) (ground (arith, none_left, ap (λ p. p.1) round, skip_nothing a))
    where
      none_left : min (size a) 0 ≡ 0
      none_left = omega arith

      round : xfer 0 (first_bytes (min (size a) 0) a) t ≡ (done nothing, t)
      round = rw none_left (empty (first_bytes 0 a) (no_bytes a) t)

  -- A transfer of any size at the null address of the swizzled segment never ends, whatever the
  -- lane, where an empty transfer to global memory does nothing: no fuel is enough.
  pub null_never_ends :
      (access : Access) (s : S)
      → 0 < size access
      → ((a : Access) → size a ≡ 0 → (t : S) → xfer 0 a t ≡ (done nothing, t))
      → (fuel : ℕ)
      → xfer_private_memory xfer w lane_id fuel (swizzled_at id i) 0xffff_ffff access s ≡ none
  unfolding xfer_private_memory private_loop
  null_never_ends access s some_bytes empty fuel = go fuel
    where
      go :
          (f : ℕ)
          → private_loop xfer w lane_id (swizzled_at id i) 0xffff_ffff f access nothing s ≡ none
      go zero = refl
      go (suc f) =
          null_round (private_loop xfer w lane_id (swizzled_at id i) 0xffff_ffff f) access s
            some_bytes empty
          ∙ go f
