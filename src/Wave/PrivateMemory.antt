-- ===== src/Wave/PrivateMemory.antt =====
-- `wave_t::xfer_private_memory` of src/wave.cpp: memory of a lane is transferred run by run, each
-- run as long as it is contiguous in global memory. The transfer to global memory is a parameter;
-- it belongs to the process.
pub mod Null
pub mod Reads
use rocdbgapi.Base.{
  ℕ, zero, suc, ◌+◌, min, Bool, true, false, Option, none, some, List, [], ◌∷◌, ◌++◌, ◌==◌,
  if◌then◌else◌,
}
use rocdbgapi.Base.Word.{add64}
use rocdbgapi.Memory.{
  nothing, joined, Access, read, write, size, first_bytes, skip_bytes, Xfer, Outcome, done,
  access_error, exited, failed,
}
use rocdbgapi.Status.{Result, ok, err}
use rocdbgapi.AddressSpace.{
  AddressSpace, base_space, BaseSpace, BaseClass, global_space, local_space, unswizzled_space,
  swizzled_space, WaveView, global_at, convert, lower,
}

-- `AMD_DBGAPI_ADDRESS_SPACE_GLOBAL`
abbrev pub global_id : ℕ
global_id = 1

module _ {S : Type 0} (xfer : ℕ → Access → S → Outcome × S) (w : WaveView) (lane_id : ℕ) where
  abbrev pub to_global : BaseSpace → ℕ → Result (ℕ × ℕ)
  to_global b = convert (base_space (global_at global_id)) w lane_id (base_space b)

  -- One round of the `while` loop, and what follows it: what is left to transfer, the bytes that
  -- went through and those that were read, and the memory.
  unfoldable pub private_round :
      (Access → Xfer → S → Option (Outcome × S))
      → BaseSpace
      → (segment_address : ℕ) → Access
      → Xfer
      → S
      → Option (Outcome × S)
  private_round next b segment_address access total s =
      if size access == 0
      then some (done total, s)
      else elim (to_global b (add64 segment_address total.count)) [
        | err e ↦ some ((if total.count == 0 then access_error else done total), s)
        | ok (global_address, contiguous_bytes) ↦
            let request_size = min (size access) contiguous_bytes in
            let (outcome, s') = xfer global_address (first_bytes request_size access) s in
            elim outcome [
              | access_error ↦ some (access_error, s')
              | exited ↦ some (exited, s')
              | failed ↦ some (failed, s')
              | done x ↦
                  let total' : Xfer = joined total x in
                  if x.count == request_size
                  then next (skip_bytes x.count access) total' s'
                  else some (done total', s')
            ]
      ]

  -- Each round takes fuel.
  unfoldable pub private_loop :
      BaseSpace → (segment_address : ℕ) → ℕ → Access → Xfer → S → Option (Outcome × S)
  private_loop b segment_address zero = λ access total s. none
  private_loop b segment_address (suc fuel) =
      private_round (private_loop b segment_address fuel) b segment_address

  unfoldable pub xfer_private_memory :
      (fuel : ℕ) → BaseSpace → (segment_address : ℕ) → Access → S → Option (Outcome × S)
  xfer_private_memory fuel b segment_address access s =
      private_loop b segment_address fuel access nothing s

  -- `wave_t::xfer_segment_memory`: only private memory is the wave's own.
  unfoldable pub xfer_segment_memory :
      (fuel : ℕ) → AddressSpace → (segment_address : ℕ) → Access → S → Option (Outcome × S)
  unfolding xfer_private_memory
  xfer_segment_memory fuel space segment_address access s = elim (lower space segment_address) [
    | err e ↦ some (failed, s)
    | ok (b, address) ↦ elim b.class [
      | swizzled_space i ↦ xfer_private_memory fuel b address access s
      | unswizzled_space ↦ xfer_private_memory fuel b address access s
      | _ ↦ some (access_error, s)
    ]
  ]
