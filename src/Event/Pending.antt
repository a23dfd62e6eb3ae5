-- ===== src/Event/Pending.antt =====
-- The queue of pending events of a process, in src/event.cpp and src/process.cpp, against the states of
-- the events.
use rocdbgapi.Base.{
  ℕ, ◌+◌, ◌≡◌, refl, sym, ap, ◌∙◌, arith, Bool, true, false, Bool-cases, inl, inr, Option,
  Option-cases, none, some, List, [], ◌∷◌, ◌==◌, ==_iff, if◌then◌else◌,
}
use rocdbgapi.Status.{ok, ◌>>=◌}
use rocdbgapi.Wave.Machine.{
  EventState, created, queued, reported, processed, event_order, Event, World, find_event,
}
use rocdbgapi.Queue.Chunks.{occurrences}
use rocdbgapi.Event.{
  EventSetting, assign_state, erase_event, with_state, set_event_state, next_pending_event,
  report_event, process_next_pending_event,
}

abbrev pub is_queued : Option Event → Bool
is_queued none = false
is_queued (some e) = event_order e.event_state == 1

-- Each event that is queued is pending once, and no other.
pub record IsPending {I : Type 0} (w : World I) : Type 0 where
  pub once :
      (id : ℕ)
      → occurrences id w.pending_events ≡ (if is_queued (find_event id w.events) then 1 else 0)

abbrev pub in_state : EventState → Option Event → Option Event
in_state state none = none
in_state state (some e) = some (record e { event_state = state })

find_event-assign_state :
    (state : EventState) (id j : ℕ) (es : List Event)
    → find_event j (assign_state state id es)
      ≡ (if id == j then in_state state (find_event j es) else find_event j es)
unfolding assign_state
find_event-assign_state state id j [] = ground arith
find_event-assign_state state id j (e ∷ rest) = elim (Bool-cases (e.event_id == id)) [
  | inl same ↦ elim (Bool-cases (e.event_id == j)) [
    | inl here ↦ let together : (id == j) ≡ true = ground arith in rw (same, here, together) refl
    | inr there ↦
        let apart : (id == j) ≡ false = ground arith in
        rw (same, there, apart) (find_event-assign_state state id j rest ∙ rw apart refl)
  ]
  | inr other ↦ elim (Bool-cases (e.event_id == j)) [
    | inl here ↦ let apart : (id == j) ≡ false = ground arith in rw (other, here, apart) refl
    | inr there ↦ rw (other, there) (find_event-assign_state state id j rest)
  ]
]

pub find_event-erase_event : (id : ℕ) (es : List Event) → find_event id (erase_event id es) ≡ none
unfolding erase_event
find_event-erase_event id [] = refl
find_event-erase_event id (e ∷ rest) = elim (Bool-cases (e.event_id == id)) [
  | inl same ↦ rw (erase_event, same) (find_event-erase_event id rest)
  | inr other ↦ rw (erase_event, other, find_event, other) (find_event-erase_event id rest)
]

pub found_id : (id : ℕ) (es : List Event) (e : Event) → find_event id es ≡ some e → e.event_id ≡ id
found_id id [] e found = absurd (cc)
found_id id (x ∷ rest) e found = elim (Bool-cases (x.event_id == id)) [
  | inl here ↦
      let same : x ≡ e = cc in ap (λ y. y.event_id) (sym same) ∙ (==_iff x.event_id id).0 here
  | inr past ↦ found_id id rest e (rw past at found)
]

-- An event is pending first: it is found, queued, and pending no more behind.
record IsFirst {I : Type 0} (id : ℕ) (rest : List ℕ) (w : World I) : Type 0 where
  event : Event
  found : find_event id w.events ≡ some event
  in_queue : event.event_state ≡ queued
  no_more : occurrences id rest ≡ 0

queued_of : (state : EventState) → (event_order state == 1) ≡ true → state ≡ queued
queued_of created e = absurd (cc)
queued_of queued e = refl
queued_of reported e = absurd (cc)
queued_of processed e = absurd (cc)

head-IsFirst :
    {I : Type 0} (id : ℕ) (rest : List ℕ) (w : World I)
    → IsPending w
    → w.pending_events ≡ id ∷ rest
    → IsFirst id rest w
unfolding occurrences
head-IsFirst id rest w p head = elim (Option-cases (find_event id w.events)) [
  | inl missing ↦ absurd (omega (arith, counted, ap one_if (ap is_queued missing)))
  | inr (e, found) ↦ elim (Bool-cases (event_order e.event_state == 1)) [
    | inl in_queue ↦ record {
      event = e;
      found = found;
      in_queue = queued_of e.event_state in_queue;
      no_more = omega (arith, counted, ap one_if (ap is_queued found ∙ in_queue));
    }
    | inr other ↦ absurd (omega (arith, counted, ap one_if (ap is_queued found ∙ other)))
  ]
]
  where
    one_if : Bool → ℕ
    one_if b = if b then 1 else 0

    counted : 1 + occurrences id rest ≡ one_if (is_queued (find_event id w.events))
    counted = rw (head, (==_iff id id).1 refl) at (p.once id)

-- What reporting the first pending event leaves: the event is reported, those behind it are pending.
pub record IsReported {I : Type 0} (id : ℕ) (rest : List ℕ) (w w' : World I) : Type 0 where
  pub pending : IsPending w'
  pub behind : w'.pending_events ≡ rest
  pub state : find_event id w'.events ≡ in_state reported (find_event id w.events)
  pub same_wave : w'.wave ≡ w.wave

reported_not_queued : (o : Option Event) → is_queued (in_state reported o) ≡ false
reported_not_queued none = refl
reported_not_queued (some e) = refl

reported-IsReported :
    {I : Type 0} (id : ℕ) (rest : List ℕ) (w : World I)
    → IsPending w
    → w.pending_events ≡ id ∷ rest
    → IsReported id rest w (with_state reported id (record w { pending_events = rest }))
unfolding occurrences
reported-IsReported id rest w p head = record {
  pending = record { once = λ j. once j };
  behind = refl;
  state = find_event-assign_state reported id id w.events ∙ rw ((==_iff id id).1 refl) refl;
  same_wave = refl;
}
  where
    once :
        (j : ℕ)
        → occurrences j rest
          ≡ (if is_queued (find_event j (assign_state reported id w.events)) then 1 else 0)
    once j = elim (Bool-cases (id == j)) [
      | inl same ↦
          ap (λ t. occurrences t rest) (sym ((==_iff id j).0 same))
          ∙ (head-IsFirst id rest w p head).no_more
          ∙ sym (ap one_if (assigned same) ∙ rw (reported_not_queued (find_event j w.events)) refl)
      | inr apart ↦
          omega (arith, rw (head, reversed apart) at (p.once j))
          ∙ sym (ap one_if (left_alone apart))
    ]
      where
        one_if : Option Event → ℕ
        one_if o = if is_queued o then 1 else 0

        assigned :
            (id == j) ≡ true
            → find_event j (assign_state reported id w.events)
              ≡ in_state reported (find_event j w.events)
        assigned same = find_event-assign_state reported id j w.events ∙ rw same refl

        left_alone :
            (id == j) ≡ false
            → find_event j (assign_state reported id w.events) ≡ find_event j w.events
        left_alone apart = find_event-assign_state reported id j w.events ∙ rw apart refl

        reversed : (id == j) ≡ false → (j == id) ≡ false
        reversed apart = ground arith

next_first :
    {I : Type 0} (s : EventSetting I) (id : ℕ) (rest : List ℕ) (w : World I)
    → w.pending_events ≡ id ∷ rest
    → next_pending_event s w ≡ ok (some id, record w { pending_events = rest })
unfolding next_pending_event
next_first s id rest w head = rw (next_pending_event, head) refl

report_queued :
    {I : Type 0} (s : EventSetting I) (id : ℕ) (e : Event) (w : World I)
    → find_event id w.events ≡ some e
    → e.event_state ≡ queued
    → report_event s (some id, w) ≡ ok (some (id, e.event_kind), with_state reported id w)
unfolding report_event set_event_state
report_queued s id e w found in_queue =
    rw (report_event, found, set_event_state, in_queue, found_id id w.events e found) refl

-- Reporting takes the first of the pending events and gives it back with its kind; it is reported then,
-- and the events that are queued are still those that are pending, each once.
pub process_next_pending_event-IsReported :
    {I : Type 0} (s : EventSetting I) (id : ℕ) (rest : List ℕ) (w : World I)
    → IsPending w
    → w.pending_events ≡ id ∷ rest
    → (e : Event) × (w' : World I) × (find_event id w.events ≡ some e)
      × (process_next_pending_event s true false w ≡ ok (some (id, e.event_kind), w'))
      × IsReported id rest w w'
unfolding process_next_pending_event
process_next_pending_event-IsReported s id rest w p head =
    let f = head-IsFirst id rest w p head in
    (
      f.event,
      with_state reported id (record w { pending_events = rest }),
      f.found,
      ap (λ r. r >>= report_event s) (next_first s id rest w head)
          ∙ report_queued s id f.event (record w { pending_events = rest }) f.found f.in_queue,
      reported-IsReported id rest w p head,
    )
