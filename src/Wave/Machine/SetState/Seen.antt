-- ===== src/Wave/Machine/SetState/Seen.antt =====
-- The state that the client sees of a wave that it asked to stop: `client_visible_state` of
-- src/wave.cpp.
use rocdbgapi.Base.{ℕ, ◌≡◌, refl, ap, ◌∙◌, arith, Bool, true, Bool-cases, inl, inr, ◌⊎◌, none, ◌==◌}
use rocdbgapi.Status.{Status, ok, err}
use rocdbgapi.Architecture.{WaveState, run, single_step, stop}
use rocdbgapi.Architecture.State.{is_stop}
use rocdbgapi.Wave.Machine.{is_visible, World, Setting, raise_event, client_visible_state}
use rocdbgapi.Wave.Machine.SetState.{is_single_step, acknowledge, set_state}
use rocdbgapi.Wave.Machine.SetState.Parks.{IsAddressed, IsRefused}
use rocdbgapi.Wave.Machine.SetState.Stops.{
  IsConsistent, no_exceptions, stop_leaves, acknowledge-IsStoppedFrom,
}

same_id : (id : ℕ) → (id == id) ≡ true
same_id id = ground arith

-- An event that is queued hides that the wave is stopped.
acknowledge_seen :
    {I : Type 0} (s : Setting I) (prev : WaveState) (u : World I)
    → u.wave.state ≡ stop
    → is_visible u.wave.visibility ≡ true
    → client_visible_state (acknowledge s prev u) ≡ run
unfolding client_visible_state acknowledge raise_event
acknowledge_seen s prev u e v = elim (Bool-cases (is_single_step prev)) [
  | inl steps ↦ rw (v, steps, e, same_id u.next_event_id) refl
  | inr runs ↦ rw (v, runs, e, same_id u.next_event_id) refl
]

-- A visible wave that single-steps, and that the client asks to stop, is stopped, and right after that
-- the client sees it as running, no longer as single-stepping; or else the wave is to be parked, and
-- the queue throws when it is asked for its park instruction. The wave and its counts are as they are
-- between calls, and the address that the queue gives has 64 bits.
pub single_step_seen_as_run :
    {I : Type 0} (s : Setting I) (on_agent : Bool) (w : World I)
    → IsAddressed s w
    → IsConsistent s w
    → w.wave.state ≡ single_step
    → is_visible w.wave.visibility ≡ true
    → (client_visible_state w ≡ single_step)
      × (((w' : World I) × (set_state s on_agent stop no_exceptions w ≡ ok (w', none))
            × (w'.wave.state ≡ stop)
            × (client_visible_state w' ≡ run))
          ⊎ ((e : Status) × (set_state s on_agent stop no_exceptions w ≡ err e) × IsRefused s w e))
unfolding client_visible_state
single_step_seen_as_run s on_agent w small c e v = (
  rw e refl,
  elim (stop_leaves s on_agent w small c (ap is_stop e)) [
    | inl (u, p, h, same) ↦ inl (
      acknowledge s w.wave.state u,
      p,
      (acknowledge-IsStoppedFrom s w u h w.wave.state).is_stopped,
      acknowledge_seen s w.wave.state u h.is_stopped (ap is_visible same ∙ v),
    )
    | inr refused ↦ inr refused
  ],
)
