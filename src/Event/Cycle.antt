-- ===== src/Event/Cycle.antt =====
-- The stop event of a wave from src/wave.cpp through the entry points of src/event.cpp: reported, and
-- processed.
use rocdbgapi.Base.{ℕ, ◌≡◌, ◌⊎◌, inl, inr, refl, ap, ◌∙◌, true, false, none, some, List, ◌∷◌}
use rocdbgapi.Status.{ok}
use rocdbgapi.Architecture.{stop}
use rocdbgapi.Wave.Machine.{
  EventKind, wave_stop_event, wave_command_terminated, reported, processed, Event, World,
  find_event, last_stop_event, client_visible_state,
}
use rocdbgapi.Event.{
  EventSetting, erase_event, with_state, before_processed, set_event_state,
  process_next_pending_event, event_processed,
}
use rocdbgapi.Event.Pending.{
  IsPending, in_state, found_id, find_event-erase_event, process_next_pending_event-IsReported,
}

seen_stopped :
    {I : Type 0} (w : World I) (id : ℕ) (e : Event)
    → w.wave.state ≡ stop
    → w.wave.last_stop_event_id ≡ some id
    → find_event id w.events ≡ some (record e { event_state = reported })
    → client_visible_state w ≡ stop
unfolding client_visible_state last_stop_event
seen_stopped w id e stopped last found = rw (client_visible_state, stopped, last, found) refl

seen_after :
    {I : Type 0} (w : World I) (id : ℕ)
    → w.wave.state ≡ stop
    → w.wave.last_stop_event_id ≡ some id
    → find_event id w.events ≡ none
    → (client_visible_state w ≡ stop) × (last_stop_event w ≡ none)
unfolding client_visible_state last_stop_event
seen_after w id stopped last missing = (
  rw (client_visible_state, stopped, last, missing) refl,
  rw (last_stop_event, last, missing) refl,
)

-- An event of a wave needs nothing of the process.
quiet :
    {I : Type 0} (s : EventSetting I) (e : Event) (w : World I)
    → (e.event_kind ≡ wave_stop_event) ⊎ (e.event_kind ≡ wave_command_terminated)
    → before_processed s e w ≡ ok w
unfolding before_processed
quiet s e w (inl k) = rw (before_processed, k) refl
quiet s e w (inr k) = rw (before_processed, k) refl

processed_reported :
    {I : Type 0} (s : EventSetting I) (id : ℕ) (e : Event) (w : World I)
    → find_event id w.events ≡ some (record e { event_state = reported })
    → before_processed s (record e { event_state = reported }) w ≡ ok w
    → event_processed s true id w
      ≡ ok (record w { events = erase_event id (with_state processed id w).events })
unfolding event_processed set_event_state
processed_reported s id e w found none_needed =
    rw
      (
        event_processed,
        found,
        set_event_state,
        none_needed,
        found_id id w.events (record e { event_state = reported }) found,
      )
      refl

-- What becomes of a stop event that is the first of the pending ones. The wave is seen to stop when the
-- event is reported, and once it is processed the wave is still stopped, with no stop event that would
-- keep it from being resumed.
pub record IsCycled {I : Type 0} (s : EventSetting I) (id : ℕ) (w : World I) : Type 0 where
  pub kind : EventKind
  pub after_report : World I
  pub after_processed : World I
  pub went_report : process_next_pending_event s true false w ≡ ok (some (id, kind), after_report)
  pub seen_report : client_visible_state after_report ≡ stop
  pub went_processed : event_processed s true id after_report ≡ ok after_processed
  pub seen_processed : client_visible_state after_processed ≡ stop
  pub no_event : last_stop_event after_processed ≡ none

-- A stopped wave whose stop event is the first of the pending ones: reporting and then processing that
-- event both go through, the wave is seen as stopped after each, and then it has no stop event any more.
pub stop_event-IsCycled :
    {I : Type 0} (s : EventSetting I) (id : ℕ) (rest : List ℕ) (w : World I)
    → IsPending w
    → w.pending_events ≡ id ∷ rest
    → w.wave.state ≡ stop
    → w.wave.last_stop_event_id ≡ some id
    → ((e : Event)
        → find_event id w.events ≡ some e
        → (e.event_kind ≡ wave_stop_event) ⊎ (e.event_kind ≡ wave_command_terminated))
    → IsCycled s id w
stop_event-IsCycled s id rest w p head stopped last kinds =
    let (e, w', found, went, r) = process_next_pending_event-IsReported s id rest w p head in
    let found' : find_event id w'.events ≡ some (record e { event_state = reported }) =
      r.state ∙ ap (in_state reported) found in
    let after =
      seen_after (record w' { events = erase_event id (with_state processed id w').events }) id
        (ap (λ x. x.state) r.same_wave ∙ stopped)
        (ap (λ x. x.last_stop_event_id) r.same_wave ∙ last)
        (find_event-erase_event id (with_state processed id w').events) in
    record {
      kind = e.event_kind;
      after_report = w';
      after_processed = record w' { events = erase_event id (with_state processed id w').events };
      went_report = went;
      seen_report =
          seen_stopped w' id e (ap (λ x. x.state) r.same_wave ∙ stopped)
            (ap (λ x. x.last_stop_event_id) r.same_wave ∙ last) found';
      went_processed =
          processed_reported s id e w' found'
            (quiet s (record e { event_state = reported }) w' (kinds e found));
      seen_processed = after.0;
      no_event = after.1;
    }
