-- ===== src/Wave/PrivateMemory/Reads.antt =====
-- Reading private memory by `wave_t::xfer_private_memory` of src/wave.cpp, below the null address.
use rocdbgapi.Base.{
  ℕ, zero, suc, ◌+◌, ◌-◌, ◌≤◌, ◌<◌, ◌≡◌, refl, sym, ap, subst, ◌∙◌, arith, min, Option, some, none,
  ◌++◌, ◌==◌, true, false, Bool-cases, inl, inr, length, get_or, dec_lt, length-append,
  get_or-append_left, get_or-append_right,
}
use rocdbgapi.Base.Word.{add64}
use rocdbgapi.Memory.{nothing, Access, read, Xfer, Outcome, done, access_error, exited, failed}
use rocdbgapi.Status.{ok, err, Result-cases}
use rocdbgapi.AddressSpace.{BaseSpace, WaveView, class_null_address}
use rocdbgapi.AddressSpace.Lower.{null_fits, null_below}
use rocdbgapi.AddressSpace.Contiguous.{FitsWave, convert_contiguous, convert_progress}
use rocdbgapi.Wave.PrivateMemory.{
  private_round, private_loop, xfer_private_memory, to_global, global_id,
}

-- What reading global memory does: it gives the bytes there, as many as it says and no more than
-- are asked for, and changes nothing.
pub record ReadsMemory {S : Type 0} (xfer : ℕ → Access → S → Outcome × S) (peek : S → ℕ → ℕ)
    : Type 0 where
  pub counts :
      (g n : ℕ) (s t : S) (x : Xfer)
      → xfer g (read n) s ≡ (done x, t)
      → (length x.bytes ≡ x.count) × (x.count ≤ n)
  pub bytes :
      (g n : ℕ) (s t : S) (x : Xfer)
      → xfer g (read n) s ≡ (done x, t)
      → (i : ℕ) → i < x.count
      → get_or x.bytes i 0 ≡ peek s (g + i)
  pub keeps :
      (g n : ℕ) (s t : S) (o : Outcome) → xfer g (read n) s ≡ (o, t) → (a : ℕ) → peek t a ≡ peek s a

module _ {S : Type 0} (xfer : ℕ → Access → S → Outcome × S) (peek : S → ℕ → ℕ) (w : WaveView)
    (lane_id : ℕ) (b : BaseSpace) where
  -- The byte of the lane at an address: what its place in global memory holds.
  abbrev pub lane_byte : S → ℕ → Option ℕ
  lane_byte s a = elim (to_global xfer w lane_id b a) [ ok (g, c) ↦ some (peek s g) | err e ↦ none ]

  -- What was read from an address on is what the lane holds there.
  pub record IsRead (s : S) (segment_address : ℕ) (x : Xfer) : Type 0 where
    pub counted : length x.bytes ≡ x.count
    pub same : (i : ℕ) → i < x.count → lane_byte s (segment_address + i) ≡ some (get_or x.bytes i 0)

  -- The transfer ends, and if it ends well it has read the lane's bytes.
  abbrev pub Ends : S → (segment_address n : ℕ) → Option (Outcome × S) → Type 0
  Ends s segment_address n none = ⊥
  Ends s segment_address n (some (done x, t)) = IsRead s segment_address x × (x.count ≤ n)
  Ends s segment_address n (some (access_error, t)) = Unit
  Ends s segment_address n (some (exited, t)) = Unit
  Ends s segment_address n (some (failed, t)) = Unit

  module _ (r : ReadsMemory xfer peek) (v : FitsWave w b.class) (s : S) (segment_address : ℕ) where
    -- A run of the lane's bytes follows those that were read.
    extended :
        (total x : Xfer) (t u : S) (g c n : ℕ)
        → ((a : ℕ) → peek t a ≡ peek s a)
        → IsRead s segment_address total
        → to_global xfer w lane_id b (segment_address + total.count) ≡ ok (g, c)
        → n ≤ c
        → segment_address + (total.count + n) ≤ class_null_address b.class
        → xfer g (read n) t ≡ (done x, u)
        → IsRead s segment_address
            (record { count = total.count + x.count; bytes = total.bytes ++ x.bytes })
    extended total x t u g c n kept old place short below e = record {
      counted = omega (arith, length-append total.bytes x.bytes, old.counted, got.0);
      same = byte;
    }
      where
        got : (length x.bytes ≡ x.count) × (x.count ≤ n)
        got = r.counts g n t u x e

        moved :
            (j : ℕ)
            → j < x.count
            → to_global xfer w lane_id b (segment_address + total.count + j) ≡ ok (g + j, c - j)
        moved j h =
            convert_contiguous w lane_id global_id b (segment_address + total.count) j v
              (omega (arith, got.1)) (omega (arith, got.1, null_fits b.class))
              (omega (arith, got.1)) place

        new :
            (j : ℕ)
            → j < x.count
            → lane_byte s (segment_address + total.count + j) ≡ some (get_or x.bytes j 0)
        new j h =
            rw (moved j h, lane_byte) (ap some (sym (kept (g + j)) ∙ sym (r.bytes g n t u x e j h)))

        byte :
            (i : ℕ)
            → i < total.count + x.count
            → lane_byte s (segment_address + i) ≡ some (get_or (total.bytes ++ x.bytes) i 0)
        byte i h = elim (dec_lt i total.count) [
          | yes l ↦
              old.same i l
              ∙ ap some
                  (sym (get_or-append_left total.bytes x.bytes i 0 (omega (arith, old.counted))))
          | no l ↦
              ap (lane_byte s) (omega arith)
              ∙ new (i - total.count) (omega arith)
              ∙ ap some (
                  sym (
                    get_or-append_right total.bytes x.bytes i (i - total.count) 0
                      (omega (arith, old.counted))))
        ]

    -- What may follow a round that went through.
    abbrev Follows : (Access → Xfer → S → Option (Outcome × S)) → Xfer → ℕ → Type 0
    Follows next total n =
        (x : Xfer) (u : S) (k : ℕ)
        → 0 < k
        → k ≤ n
        → x.count ≡ total.count + k
        → ((a : ℕ) → peek u a ≡ peek s a)
        → IsRead s segment_address x
        → Ends s segment_address (total.count + n) (next (read (n - k)) x u)

    module _ (next : Access → Xfer → S → Option (Outcome × S)) (total : Xfer) (t : S) (n : ℕ)
        (kept : (a : ℕ) → peek t a ≡ peek s a) (old : IsRead s segment_address total)
        (below : segment_address + (total.count + n) ≤ class_null_address b.class)
        (follow : Follows next total n) where
      abbrev Goal : Type 0
      Goal =
          Ends s segment_address (total.count + n)
            (private_round xfer w lane_id next b segment_address (read n) total t)

      no_wrap : add64 segment_address total.count ≡ segment_address + total.count
      no_wrap = omega (arith, null_below b.class)

      not_empty : 0 < n → (n == 0) ≡ false
      not_empty h = ground arith

      after_error :
          {e : _}
          → 0 < n
          → to_global xfer w lane_id b (segment_address + total.count) ≡ err e
          → Goal
      unfolding private_round
      after_error h p = elim (Bool-cases (total.count == 0)) [
        | inl z ↦ rw (not_empty h, no_wrap, p, z) tt
        | inr z ↦ rw (not_empty h, no_wrap, p, z) (old, omega arith)
      ]

      twice : (c : ℕ) → min (min n c) n ≡ min n c
      twice c = omega arith

      after_xfer :
          {g c : ℕ} (o : Outcome × S)
          → 0 < n
          → to_global xfer w lane_id b (segment_address + total.count) ≡ ok (g, c)
          → xfer g (read (min n c)) t ≡ o
          → Goal
      unfolding private_round
      after_xfer {g} {c} (done x, u) h p e = elim (Bool-cases (x.count == min n c)) [
        | inl z ↦
            rw (not_empty h, no_wrap, p, twice c, e, z, twice c, e)
              (follow all u x.count (ground (arith, has_place)) (ground arith) refl
                (λ a. r.keeps g (min n c) t u (done x) e a ∙ kept a) read_on)
        | inr z ↦
            rw (not_empty h, no_wrap, p, twice c, e, z)
              (read_on, omega (arith, (r.counts g (min n c) t u x e).1))
      ]
        where
          has_place : 0 < c
          has_place =
              convert_progress w lane_id global_id b (segment_address + total.count) v (omega arith)
                p

          all : Xfer
          all = record { count = total.count + x.count; bytes = total.bytes ++ x.bytes }

          read_on : IsRead s segment_address all
          read_on = extended total x t u g c (min n c) kept old p (omega arith) (omega arith) e
      after_xfer {g} {c} (access_error, u) h p e = rw (not_empty h, no_wrap, p, twice c, e) tt
      after_xfer {g} {c} (exited, u) h p e = rw (not_empty h, no_wrap, p, twice c, e) tt
      after_xfer {g} {c} (failed, u) h p e = rw (not_empty h, no_wrap, p, twice c, e) tt

      round : Goal
      round = elim (dec_lt 0 n) [
        | yes h ↦ elim (Result-cases (to_global xfer w lane_id b (segment_address + total.count))) [
          | inl (place, p) ↦ after_xfer (xfer place.0 (read (min n place.1)) t) h p refl
          | inr (e, p) ↦ after_error h p
        ]
        | no h ↦ unfold private_round in rw (is_empty (omega arith)) (old, omega arith)
      ]
        where
          is_empty : n ≡ 0 → (n == 0) ≡ true
          is_empty z = ground arith

    loop :
        (fuel : ℕ) (total : Xfer) (t : S) (n : ℕ)
        → n < fuel
        → ((a : ℕ) → peek t a ≡ peek s a)
        → IsRead s segment_address total
        → segment_address + (total.count + n) ≤ class_null_address b.class
        → Ends s segment_address
            (total.count + n)
            (private_loop xfer w lane_id b segment_address fuel (read n) total t)
    unfolding private_loop
    loop zero total t n enough kept old below = absurd (omega arith)
    loop (suc fuel) total t n enough kept old below =
        round (private_loop xfer w lane_id b segment_address fuel) total t n kept old below
          (λ x u k some_bytes at_most count same more.
            subst
              (λ m.
                Ends s segment_address m
                  (private_loop xfer w lane_id b segment_address fuel (read (n - k)) x u))
              (omega arith) (loop fuel x u (n - k) (omega arith) same more (omega arith)))

  -- A read of private memory that ends below the null address of its segment takes no more rounds
  -- than it has bytes, and where it succeeds each byte it gives, no more than are asked for, is the
  -- one that its lane has at the address. The scratch memory of the wave does not wrap, and for the
  -- swizzled segment it has whole blocks, and few lanes (FitsWave); reading global memory must give
  -- bytes of memory, as many as it says and no more than are asked for, and change nothing.
  pub xfer_private_memory-reads :
      ReadsMemory xfer peek
      → FitsWave w b.class
      → (s : S) (segment_address n fuel : ℕ) → n < fuel
      → segment_address + n ≤ class_null_address b.class
      → Ends s segment_address n
          (xfer_private_memory xfer w lane_id fuel b segment_address (read n) s)
  unfolding xfer_private_memory
  xfer_private_memory-reads r v s segment_address n fuel enough below =
      subst
        (λ m.
          Ends s segment_address m
            (private_loop xfer w lane_id b segment_address fuel (read n) nothing s))
        (omega arith)
        (loop r v s segment_address fuel nothing s n enough (λ a. refl)
          (record { counted = refl; same = λ i h. absurd (omega arith) }) (omega arith))
