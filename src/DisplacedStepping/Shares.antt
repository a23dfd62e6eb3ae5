-- ===== src/DisplacedStepping/Shares.antt =====
-- A wave that shares the operation of another one in `displaced_stepping_start` of src/wave.cpp.
use rocdbgapi.Base.{
  ℕ, ◌+◌, ◌%◌, ◌^◌, ◌<◌, ◌≤◌, ◌≡◌, inr, inl, refl, sym, subst, ◌∙◌, ap, arith, Bool-cases, some,
  List, [], ◌∷◌, ◌==◌, ==_iff, ltb, ◌-◌, true, false, Option, if◌then◌else◌,
}
use rocdbgapi.Base.Word.{u64_mod}
use rocdbgapi.Status.{Result, ok}
use rocdbgapi.Wave.Machine.{DisplacedStepping, find_displaced, release, pc_of, write_pc_register}
use rocdbgapi.Wave.Machine.SetState.Parks.{IsPc}
use rocdbgapi.Queue.Buffers.{slot}
use rocdbgapi.Queue.Chunks.{WellFormed}
use rocdbgapi.Queue.Release.{in_range}
use rocdbgapi.DisplacedStepping.{Stepping, find_from, retain, attach, displaced_stepping_complete}
use rocdbgapi.DisplacedStepping.Moves.{IsStepping, IsCompleted, complete-IsCompleted}
use rocdbgapi.DisplacedStepping.Pc.{
  write_pc_register-keeps, same_pc, same-IsPc, pc_of-write_pc_register,
}
use rocdbgapi.DisplacedStepping.RoundTrip.{CanStart, IsShareable, IsGivenBack, IsRoundTrip}

module _ {I : Type 0} where
  abbrev retained : DisplacedStepping I → DisplacedStepping I
  retained d = record d { reference_count = d.reference_count + 1 }

  -- What `retain` gives: an operation with one reference more, which `release` takes away.
  record IsRetained (id : ℕ) (d : DisplacedStepping I) (ds : List (DisplacedStepping I))
      : Type 0 where
    after : List (DisplacedStepping I)
    went : retain id ds ≡ some after
    found : find_displaced id after ≡ some (retained d)
    back : release id after ≡ ok ds

  first_IsRetained :
      (id : ℕ) (x : DisplacedStepping I) (rest : List (DisplacedStepping I))
      → (x.displaced_id == id) ≡ true
      → 0 < x.reference_count
      → x.reference_count + 1 < u64_mod
      → IsRetained id x (x ∷ rest)
  unfolding retain release
  first_IsRetained id x rest here h few = record {
    after = retained x ∷ rest;
    went = rw (retain, here, no_wrap, more) refl;
    found = rw here refl;
    back = rw (release, here, some_left, not_last, fewer) refl;
  }
    where
      no_wrap : (x.reference_count + 1) % u64_mod ≡ x.reference_count + 1
      no_wrap = omega arith

      more : ltb x.reference_count (x.reference_count + 1) ≡ true
      more = ground arith

      some_left : ltb 0 (x.reference_count + 1) ≡ true
      some_left = ground arith

      not_last : (x.reference_count + 1 - 1 == 0) ≡ false
      not_last = ground arith

      fewer : x.reference_count + 1 - 1 ≡ x.reference_count
      fewer = omega arith

  the_first :
      (x d : DisplacedStepping I) → ◌≡◌ {A = Option (DisplacedStepping I)} (some x) (some d) → x ≡ d
  the_first x d e = cc

  retain-IsRetained :
      (id : ℕ) (ds : List (DisplacedStepping I)) (d : DisplacedStepping I)
      → find_displaced id ds ≡ some d
      → 0 < d.reference_count
      → d.reference_count + 1 < u64_mod
      → IsRetained id d ds
  unfolding retain release
  retain-IsRetained id [] d e h few = absurd (cc)
  retain-IsRetained id (x ∷ rest) d e h few = elim (Bool-cases (x.displaced_id == id)) [
    | inl here ↦
        let same : x ≡ d = the_first x d (rw here at e) in
        subst (λ y. IsRetained id y (x ∷ rest)) same
          (first_IsRetained id x rest here (subst (λ y. 0 < y.reference_count) (sym same) h)
            (subst (λ y. y.reference_count + 1 < u64_mod) (sym same) few))
    | inr past ↦
        let r = retain-IsRetained id rest d (rw past at e) h few in
        record {
          after = x ∷ r.after;
          went = rw (retain, past, r.went) refl;
          found = rw past r.found;
          back = rw (release, past, r.back) refl;
        }
  ]

  find_from-from :
      (pc : ℕ) (ds : List (DisplacedStepping I)) (d : DisplacedStepping I)
      → find_from pc ds ≡ some d
      → d.from ≡ pc
  unfolding find_from
  find_from-from pc [] d e = absurd (cc)
  find_from-from pc (x ∷ rest) d e = elim (Bool-cases (x.from == pc)) [
    | inl here ↦ ap (λ y. y.from) (sym (the_first x d (rw here at e))) ∙ (==_iff x.from pc).0 here
    | inr past ↦ find_from-from pc rest d (rw past at e)
  ]

module _ {I D : Type 0} (start end : ℕ) (below : end + 32 ≤ 2 ^ 48) (live : List ℕ)
    (st : Stepping I D) (c : CanStart start end live st) (d : DisplacedStepping I)
    (h : IsShareable start end live st d) where
  abbrev to : ℕ
  to = slot h.base h.index h.size

  abbrev r : IsRetained d.displaced_id d st.world.displaced_steppings
  r = retain-IsRetained d.displaced_id st.world.displaced_steppings d h.found h.referenced h.few

  -- The wave in the chunk, with one reference more.
  abbrev joined : Stepping I D
  joined = record st {
    world = record (st.world) {
      displaced_steppings = r.after;
      wave = record (write_pc_register to st.world.wave) {
        displaced_stepping = some d.displaced_id;
      };
    };
  }

  attach-joined : attach d st ≡ (ok tt, joined)
  unfolding attach
  attach-joined = rw (attach, h.placed, r.went, h.placed) refl

  fits : to < 2 ^ 48
  fits = omega (
    arith,
    below,
    h.small,
    ((h.holds.well_formed.inside h.base h.holds.based).2 h.index (
        in_range start end h.base (omega (arith, below)) st.memory live h.index h.others
          h.holds)).1,
  )

  moved :
      (pc_of (write_pc_register to st.world.wave) ≡ to) × IsPc (write_pc_register to st.world.wave)
  moved = pc_of-write_pc_register to st.world.wave c.is_pc fits (h.whole ∙ sym c.aligned)

  joined-IsStepping : IsStepping start end h.base h.index h.size live h.others (retained d) joined
  joined-IsStepping = record {
    operation = refl;
    found = r.found;
    referenced = omega arith;
    stopped = write_pc_register-keeps to st.world.wave ∙ c.stopped;
    is_pc = same-IsPc (some d.displaced_id) (write_pc_register to st.world.wave) moved.1;
    placed = h.placed;
    small = h.small;
    aligned = ap (λ x. x % 4) from_here ∙ c.aligned ∙ sym h.whole;
    holds = h.holds;
  }
    where
      from_here : d.from ≡ pc_of st.world.wave
      from_here = find_from-from (pc_of st.world.wave) st.world.displaced_steppings d h.from_here

  pub attach-IsRoundTrip : IsRoundTrip start end live st.world (attach d st)
  attach-IsRoundTrip = subst (IsRoundTrip start end live st.world) (sym attach-joined) (record {
    outcome = inr (
      refl,
      done.went,
      done.moved,
      done.no_operation,
      all_there _ done.released,
      subst (λ x. IsGivenBack x joined (displaced_stepping_complete joined).1) (sym h.from_here)
          (done.memory ∙ rw not_last refl),
      subst
          (λ b.
            WellFormed start end (displaced_stepping_complete joined).1.memory
              (if b then h.others else live))
          not_last done.buffers,
    );
  })
    where
      not_last : (d.reference_count + 1 == 1) ≡ false
      not_last = ground (arith, h.referenced)

      all_there :
          (ds : List (DisplacedStepping I))
          → release d.displaced_id r.after ≡ ok ds
          → ds ≡ st.world.displaced_steppings
      all_there ds e = same (sym e ∙ r.back)
        where
          same :
              ◌≡◌ {A = Result (List (DisplacedStepping I))}
                (ok ds)
                (ok st.world.displaced_steppings)
              → ds ≡ st.world.displaced_steppings
          same p = cc

      at_pc : d.from + 0 ≡ pc_of st.world.wave
      at_pc =
          omega
            (arith, find_from-from (pc_of st.world.wave) st.world.displaced_steppings d h.from_here)

      done :
          IsCompleted start end
            (pc_of st.world.wave)
            h.index
            (retained d)
            live
            h.others
            joined
            (displaced_stepping_complete joined)
      done =
          subst
            (λ pc.
              IsCompleted start end pc h.index (retained d) live h.others joined
                (displaced_stepping_complete joined))
            at_pc
            (complete-IsCompleted start end h.base h.index h.size (omega (arith, below)) live
              h.others (retained d) joined joined-IsStepping 0
              (same_pc (some d.displaced_id) (write_pc_register to st.world.wave)
                ∙ moved.0
                ∙ omega arith)
              (omega (arith, at_pc, c.is_pc.in_space)))
