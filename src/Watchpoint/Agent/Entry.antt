-- ===== src/Watchpoint/Agent/Entry.antt =====
-- `amd_dbgapi_set_watchpoint` of src/watchpoint.cpp, for the process that the handle names, with
-- `process_t::insert_watchpoint` of src/process.cpp. Enabling the traps of all waves is a parameter.
use rocdbgapi.Base.{
  ℕ, suc, Bool, true, false, not, ◌||◌, Option, none, some, List, ◌∷◌, ◌==◌, length, map,
  if◌then◌else◌,
}
use rocdbgapi.Status.{
  not_initialized, invalid_process_id, process_frozen, not_supported, invalid_argument, Result, ok,
  err,
}
use rocdbgapi.Watchpoint.{programmable_mask_bits, watch_range}
use rocdbgapi.Watchpoint.Agent.{
  WatchpointKind, ShareKind, unsupported, unshared, shared, Watchpoint, Agent, WatchDriver,
  insert_on_agents, watchpoint_shared_kind,
}

-- The agents and the watchpoints of a process, with the state of the driver.
pub record WatchProcess (D : Type 0) : Type 0 where
  pub is_frozen : Bool
  pub agents : List Agent
  pub watchpoints : List (ℕ × Watchpoint)
  pub next_watchpoint_id : ℕ
  pub driver_state : D

abbrev pub is_supported : ShareKind → Bool
is_supported unsupported = false
is_supported unshared = true
is_supported shared = true

module _ {D : Type 0} (driver : WatchDriver D) (enable_traps : D → Result (Unit {0}) × D)
    (uninitialized : ℕ → ℕ) where
  -- The watchpoint on the agents, unless enabling the traps has thrown.
  unfoldable pub insert_enabled :
      Watchpoint → List Agent → Result (Unit {0}) × D → Result (Unit {0}) × List Agent × D
  insert_enabled w agents (err e, d) = (err e, agents, d)
  insert_enabled w agents (ok done, d) = insert_on_agents driver uninitialized w agents d

  -- `process_t::insert_watchpoint`: the first watchpoint enables the traps.
  unfoldable pub process_insert :
      (count : ℕ) → Watchpoint → List Agent → D → Result (Unit {0}) × List Agent × D
  process_insert count w agents d =
      insert_enabled w agents (if count == 1 then enable_traps d else (ok tt, d))

  -- The watchpoint is made and set on the agents; where that throws it is destroyed.
  unfoldable pub insert_new : Watchpoint → WatchProcess D → Result ℕ × WatchProcess D
  insert_new w p =
      let id = p.next_watchpoint_id in
      let (inserted, agents, d) =
        process_insert (suc (length p.watchpoints)) w p.agents p.driver_state in
      let p' : WatchProcess D = record p {
        agents = agents;
        driver_state = d;
        next_watchpoint_id = suc id;
      } in
      elim inserted [
        | err e ↦ (err e, p')
        | ok done ↦ (ok id, record p' { watchpoints = (id, w) ∷ p.watchpoints })
      ]

  -- The watchpoint on the range; where the constructor throws, it has its id already.
  unfoldable pub set_range :
      WatchProcess D
      → (pointer : ℕ) → WatchpointKind
      → Result (ℕ × ℕ)
      → Result ℕ × Option (WatchProcess D)
  set_range p pointer k (err e) =
      (err e, some (record p { next_watchpoint_id = suc p.next_watchpoint_id }))
  set_range p pointer k (ok (watched_address, watched_size)) =
      let (result, p') =
        insert_new
          (record { pointer = pointer; address = watched_address; size = watched_size; kind = k })
          p in
      (result, some p')

  -- The watchpoint of the given kind; none is a kind that is not one of the interface's.
  unfoldable pub set_kind :
      WatchProcess D
      → (pointer address size : ℕ) → Option WatchpointKind
      → Result ℕ × Option (WatchProcess D)
  set_kind p pointer address size none = (err invalid_argument, some p)
  set_kind p pointer address size (some k) =
      let mask_bits = programmable_mask_bits (map (λ a. a.address_watch_mask_bits) p.agents) in
      set_range p pointer k (watch_range mask_bits address size)

  -- `amd_dbgapi_set_watchpoint`, where the new object comes to stand at `pointer`.
  unfoldable pub set_watchpoint :
      (is_initialized has_null : Bool)
      → Option (WatchProcess D)
      → (pointer address size : ℕ) → Option WatchpointKind
      → Result ℕ × Option (WatchProcess D)
  set_watchpoint is_initialized has_null found pointer address size kind =
      if not is_initialized then (err not_initialized, found) else elim found [
        | none ↦ (err invalid_process_id, none)
        | some p ↦
            if p.is_frozen
            then (err process_frozen, some p)
            else if not (is_supported (watchpoint_shared_kind p.agents))
            then (err not_supported, some p)
            else if (size == 0) || has_null
            then (err invalid_argument, some p)
            else set_kind p pointer address size kind
      ]
