-- ===== src/Wave/Machine/Entry/Stop.antt =====
-- The errors of `amd_dbgapi_wave_stop` of src/wave.cpp.
use rocdbgapi.Base.{◌≡◌, ◌≢◌, refl, Bool, not, Bool-cases, inl, inr, Option, none, some}
use rocdbgapi.Status.{
  Status, fatal, not_initialized, invalid_wave_id, wave_stopped, wave_outstanding_stop,
  process_frozen, ok, err, catch_status, is_allowed, code,
}
use rocdbgapi.AddressSpace.Api.Reported.{
  Reported, Reported-never_fatal, >>=-Reported, throw_if-Reported, find_or-Reported, find_or-found,
}
use rocdbgapi.Architecture.{stop}
use rocdbgapi.Architecture.State.{is_stop}
use rocdbgapi.Wave.Machine.{World, Setting, client_visible_state}
use rocdbgapi.Wave.Machine.SetState.{set_state}
use rocdbgapi.Wave.Machine.SetState.Parks.{IsAddressed, IsRefused}
use rocdbgapi.Wave.Machine.SetState.Stops.{
  IsConsistent, no_exceptions, same_stop, stop_goes_through,
}
use rocdbgapi.Wave.Machine.Entry.{wave_stop, stop_codes}

-- The wave is as it is between calls, and the queue gives the address of the park instruction, of 64
-- bits, where the wave is to be parked.
pub record CanStop {I : Type 0} (s : Setting I) (w : World I) : Type 0 where
  pub consistent : IsConsistent s w
  pub addressed : IsAddressed s w
  pub not_refused : (e : Status) → IsRefused s w e → ⊥

module _ {I : Type 0} (s : Setting I) (on_agent : Bool) where
  set_state-Reported :
      (w : World I) → CanStop s w → Reported stop_codes (set_state s on_agent stop no_exceptions w)
  unfolding set_state
  set_state-Reported w c = elim (Bool-cases (is_stop w.wave.state)) [
    | inl e ↦ rw (same_stop w.wave.state, e) (λ x p. absurd (cc))
    | inr e ↦ elim (stop_goes_through s on_agent w c.addressed c.consistent e) [
      | inl (w', p, h) ↦ λ x q. absurd (never p q)
      | inr (x, p, r) ↦ absurd (c.not_refused x r)
    ]
  ]
    where
      never :
          {w' : World I} {x : Status}
          → set_state s on_agent stop no_exceptions w ≡ ok (w', none)
          → set_state s on_agent stop no_exceptions w ≡ err x
          → ⊥
      never p q = cc

  module _ (is_initialized is_frozen : Bool) (suspend : World I → Option (World I))
      (suspended : (w w' : World I) → suspend w ≡ some w' → CanStop s w') where
    -- The entry point that stops a wave never turns an error into a fatal one, where suspending its
    -- queue leaves the wave as it is between calls, and the queue does not throw when it is asked for
    -- the address of its park instruction.
    pub stop_never_fatal :
        (found : Option (World I))
        → catch_status stop_codes (wave_stop s on_agent is_initialized is_frozen suspend found)
          ≢ fatal
    unfolding wave_stop is_allowed code
    stop_never_fatal found = Reported-never_fatal stop_codes refl _ (
        >>=-Reported stop_codes _ _
          (throw_if-Reported stop_codes (not is_initialized) not_initialized refl)
          λ _ _.
            >>=-Reported stop_codes _ _ (find_or-Reported stop_codes found invalid_wave_id refl)
              λ wave _.
                >>=-Reported stop_codes _ _
                  (throw_if-Reported stop_codes (is_stop (client_visible_state wave)) wave_stopped
                    refl)
                  λ _ _.
                    >>=-Reported stop_codes _ _
                      (throw_if-Reported stop_codes wave.wave.stop_requested wave_outstanding_stop
                        refl)
                      λ _ _.
                        >>=-Reported stop_codes _ _
                          (find_or-Reported stop_codes (suspend wave) invalid_wave_id refl)
                          λ w' e.
                            >>=-Reported stop_codes _ _
                              (throw_if-Reported stop_codes is_frozen process_frozen refl)
                              λ _ _.
                                set_state-Reported w'
                                  (suspended wave w' (find_or-found stop_codes _ _ e)))
