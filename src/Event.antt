-- ===== src/Event.antt =====
-- The events of a process: `event_t::set_state` and the entry points of src/event.cpp, and
-- `enqueue_event` and `next_pending_event` of src/process.cpp. What the data of an event is, and what
-- suspending queues and the driver do to the process, are parameters.
pub mod Pending
pub mod Cycle
use rocdbgapi.Base.{
  ℕ, Bool, true, false, not, ◌&&◌, Option, none, some, List, [], ◌∷◌, ◌++◌, ◌==◌, ltb,
  if◌then◌else◌,
}
use rocdbgapi.Status.{
  Result, ok, err, fatal, not_initialized, invalid_argument, invalid_event_id, ◌>>=◌, ◌>>◌, assert,
  throw_if, find_or,
}
use rocdbgapi.Wave.Machine.{
  EventKind, code_object_list_updated, runtime, EventState, queued, reported, processed,
  event_order, Event, World, find_event,
}

-- The constant data of the events, and what the process does for them: it sends the exception
-- `process_runtime`, it suspends and resumes its queues, and it looks for events of its queues.
pub record EventSetting (I : Type 0) : Type 0 where
  pub runtime_enable_during_attach : (event_id : ℕ) → Bool
  pub breakpoint_resume_event_id : (event_id : ℕ) → Option ℕ
  pub send_exceptions : World I → Result (World I)
  pub flush_caches : World I → Result (World I)
  pub process_queues : World I → Result (World I)

-- `m_state = state`, for the event with the id.
unfoldable pub assign_state : EventState → ℕ → List Event → List Event
assign_state state id [] = []
assign_state state id (e ∷ rest) =
    let others = assign_state state id rest in
    (if e.event_id == id then record e { event_state = state } else e) ∷ others

unfoldable pub erase_event : ℕ → List Event → List Event
erase_event id [] = []
erase_event id (e ∷ rest) =
    let others = erase_event id rest in if e.event_id == id then others else e ∷ others

module _ {I : Type 0} where
  abbrev pub with_state : EventState → ℕ → World I → World I
  with_state state id w = record w { events = assign_state state id w.events }

  -- `enqueue_event`, with the part of `set_state` for the state `queued`.
  unfoldable pub enqueue_event : ℕ → World I → Result (World I)
  enqueue_event id w = do
    e ← find_or (find_event id w.events) fatal
    assert (ltb (event_order e.event_state) (event_order queued))
    ok (with_state queued id (record w { pending_events = w.pending_events ++ (id ∷ []) }))

module _ {I : Type 0} (s : EventSetting I) where
  -- What the process does before an event is processed.
  unfoldable pub before_processed : Event → World I → Result (World I)
  before_processed e w = elim e.event_kind [
    | runtime ↦ if s.runtime_enable_during_attach e.event_id then ok w else s.send_exceptions w
    | code_object_list_updated ↦ elim (s.breakpoint_resume_event_id e.event_id) [
      | none ↦ ok w
      | some resume ↦ s.flush_caches w >>= λ w'. enqueue_event resume w'
    ]
    | _ ↦ ok w
  ]

  abbrev pub is_processed : EventState → Bool
  is_processed processed = true
  is_processed _ = false

  -- `event_t::set_state`
  unfoldable pub set_event_state : EventState → Event → World I → Result (World I)
  set_event_state state e w =
      assert (ltb (event_order e.event_state) (event_order state))
      >> ((if is_processed state then before_processed e w else ok w) >>= λ w'.
          ok (with_state state e.event_id w'))

  -- The front of the queue of pending events. Where it is empty, the queues are looked at once.
  abbrev pub pop_event : World I → Option ℕ × World I
  pop_event w = elim w.pending_events [
    | [] ↦ (none, w)
    | id ∷ rest ↦ (some id, record w { pending_events = rest })
  ]

  unfoldable pub next_pending_event : World I → Result (Option ℕ × World I)
  next_pending_event w = elim w.pending_events [
    | [] ↦ s.process_queues w >>= λ w'. ok (pop_event w')
    | id ∷ rest ↦ ok (some id, record w { pending_events = rest })
  ]

  -- `amd_dbgapi_process_next_pending_event`, for a process that the handle names. An event goes with
  -- its kind.
  unfoldable pub report_event : Option ℕ × World I → Result (Option (ℕ × EventKind) × World I)
  report_event (none, w) = ok (none, w)
  report_event (some id, w) = do
    e ← find_or (find_event id w.events) fatal
    w' ← set_event_state reported e w
    ok (some (e.event_id, e.event_kind), w')

  unfoldable pub process_next_pending_event :
      (is_initialized has_null : Bool) → World I → Result (Option (ℕ × EventKind) × World I)
  process_next_pending_event is_initialized has_null w = do
    throw_if (not is_initialized) not_initialized
    throw_if has_null invalid_argument
    next ← next_pending_event w
    report_event next

  -- `amd_dbgapi_event_processed`
  unfoldable pub event_processed : (is_initialized : Bool) → ℕ → World I → Result (World I)
  event_processed is_initialized id w = do
    throw_if (not is_initialized) not_initialized
    e ← find_or (find_event id w.events) invalid_event_id
    throw_if (ltb (event_order e.event_state) (event_order reported)) invalid_event_id
    w' ← set_event_state processed e w
    ok (record w' { events = erase_event id w'.events })
