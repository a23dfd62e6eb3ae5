-- ===== src/Watchpoint/Agent.antt =====
-- How watchpoints are set on the agents: `agent_t` of src/agent.cpp, and the parts of `process_t` in
-- src/process.cpp that go through the agents of a process. The driver is a parameter.
pub mod Kinds
pub mod Removal
pub mod Rollback
pub mod Views
pub mod Entry
pub mod Refused
pub mod Unset
use rocdbgapi.Base.{
  ℕ, suc, set, Bool, true, false, not, ◌||◌, Option, none, some, List, [], ◌∷◌, ◌==◌, ltb, min,
  if◌then◌else◌,
}
use rocdbgapi.Base.Word.{neg64}
use rocdbgapi.Status.{
  Status, success, process_exited, no_watchpoint_available, fatal, code, Result, ok, err,
}

-- `amd_dbgapi_watchpoint_kind_t`
pub data WatchpointKind : Type 0 where
  load store_and_rmw rmw all : WatchpointKind

-- `os_watch_mode_t`
pub data WatchMode : Type 0 where
  read nonread atomic any : WatchMode

-- `amd_dbgapi_watchpoint_share_kind_t`
pub data ShareKind : Type 0 where
  unsupported unshared shared : ShareKind

-- A `watchpoint_t`: where the object is in memory, and what its constructor selected.
pub record Watchpoint : Type 0 where
  pub pointer : ℕ
  pub address : ℕ
  pub size : ℕ
  pub kind : WatchpointKind

-- An `agent_t`: what the driver reports of it, and its vector of pointers to watchpoints.
pub record Agent : Type 0 where
  pub os_agent_id : ℕ
  pub supports_debugging : Bool
  pub address_watch_supported : Bool
  pub watchpoint_exclusive : Bool
  pub address_watch_register_count : ℕ
  pub address_watch_mask_bits : ℕ
  pub watchpoints : List (Option ℕ)

-- The two operations of the driver, on its state `D`. Setting gives a watch id where it succeeds.
pub record WatchDriver (D : Type 0) : Type 0 where
  pub set_address_watch : (os_agent_id address mask : ℕ) → WatchMode → D → (Status × Option ℕ) × D
  pub clear_address_watch : (os_agent_id os_watch_id : ℕ) → D → Status × D

unfoldable pub watch_mode : WatchpointKind → WatchMode
watch_mode load = read
watch_mode store_and_rmw = nonread
watch_mode rmw = atomic
watch_mode all = any

unfoldable pub is_pointer : ℕ → Option ℕ → Bool
is_pointer pointer none = false
is_pointer pointer (some p) = p == pointer

-- `std::find_if`: the first index that has the pointer.
unfoldable pub find_pointer : ℕ → List (Option ℕ) → Option ℕ
find_pointer pointer [] = none
find_pointer pointer (slot ∷ rest) =
    let later = find_pointer pointer rest in
    elim (is_pointer pointer slot) [
      | true ↦ some 0
      | false ↦ elim later [ none ↦ none | some index ↦ some (suc index) ]
    ]

unfoldable pub is_status : Status → Status → Bool
is_status a b = code a == code b

-- The value, or what stands in for it.
unfoldable pub value_or : ℕ → Option ℕ → ℕ
value_or default none = default
value_or default (some n) = n

module _ {D : Type 0} (driver : WatchDriver D) where
  -- `insert_watchpoint` after the driver has answered. A write past the end of the vector, which C++
  -- leaves undefined, changes nothing. Where the driver gives no id, that is what the variable had.
  unfoldable pub record_watch :
      (uninitialized pointer : ℕ) → Status × Option ℕ → Agent → Result (Unit {0}) × Agent
  record_watch uninitialized pointer (status, id) a =
      let os_watch_id = value_or uninitialized id in
      if is_status status no_watchpoint_available
      then (err no_watchpoint_available, a)
      else (if not (is_status status success || is_status status process_exited)
          then (err fatal, a)
          else (if ltb a.address_watch_register_count os_watch_id then (err fatal, a) else (
            ok tt,
            record a { watchpoints = set a.watchpoints os_watch_id (some pointer) },
          )))

  -- `agent_t::insert_watchpoint`
  unfoldable pub insert_watchpoint :
      (uninitialized : ℕ) → Watchpoint → Agent → D → Result (Unit {0}) × Agent × D
  insert_watchpoint uninitialized w a d =
      let (answer, d') =
        driver.set_address_watch a.os_agent_id w.address (neg64 w.size) (watch_mode w.kind) d in
      let (result, a') = record_watch uninitialized w.pointer answer a in (result, a', d')

  -- `agent_t::remove_watchpoint`, which leaves the vector as it is.
  unfoldable pub remove_watchpoint : Watchpoint → Agent → D → Result (Unit {0}) × D
  remove_watchpoint w a d = elim (find_pointer w.pointer a.watchpoints) [
    | none ↦ (ok tt, d)
    | some os_watch_id ↦
        let (status, d') = driver.clear_address_watch a.os_agent_id os_watch_id d in
        (
          if not (is_status status success || is_status status process_exited)
              then err fatal
              else ok tt,
          d',
        )
  ]

  -- The agents of the process in turn, until one throws.
  unfoldable pub insert_loop :
      (uninitialized : ℕ → ℕ) → Watchpoint → List Agent → D → Result (Unit {0}) × List Agent × D
  insert_loop uninitialized w [] d = (ok tt, [], d)
  insert_loop uninitialized w (a ∷ rest) d =
      let (result, a', d') = insert_watchpoint (uninitialized a.os_agent_id) w a d in
      elim result [
        | err e ↦ (err e, a' ∷ rest, d')
        | ok done ↦
            let (later, rest', d'') = insert_loop uninitialized w rest d' in
            (later, a' ∷ rest', d'')
      ]

  unfoldable pub remove_loop : Watchpoint → List Agent → D → Result (Unit {0}) × D
  remove_loop w [] d = (ok tt, d)
  remove_loop w (a ∷ rest) d =
      let (result, d') = remove_watchpoint w a d in
      elim result [ err e ↦ (err e, d') | ok done ↦ remove_loop w rest d' ]

  -- The `try` block of `process_t::insert_watchpoint`: where an agent throws, the watchpoint is removed
  -- from all of them and the exception goes on.
  unfoldable pub insert_on_agents :
      (uninitialized : ℕ → ℕ) → Watchpoint → List Agent → D → Result (Unit {0}) × List Agent × D
  insert_on_agents uninitialized w agents d =
      let (result, agents', d') = insert_loop uninitialized w agents d in
      elim result [
        | ok done ↦ (ok tt, agents', d')
        | err e ↦
            let (removed, d'') = remove_loop w agents' d' in
            (elim removed [ ok done ↦ err e | err e' ↦ err e' ], agents', d'')
      ]

-- `agent_t::watchpoint_share_kind`
unfoldable pub watchpoint_share_kind : Agent → ShareKind
watchpoint_share_kind a =
    if not a.address_watch_supported
    then unsupported
    else (if a.watchpoint_exclusive then unshared else shared)

-- `process_t::watchpoint_shared_kind`: the `break` in its last case ends the `switch` only.
unfoldable pub shared_kind_loop : ShareKind → List Agent → ShareKind
shared_kind_loop kind [] = kind
shared_kind_loop kind (a ∷ rest) =
    if not a.supports_debugging
    then shared_kind_loop kind rest
    else elim (watchpoint_share_kind a) [
      | unsupported ↦ unsupported
      | unshared ↦ shared_kind_loop unshared rest
      | shared ↦ shared_kind_loop shared rest
    ]

unfoldable pub watchpoint_shared_kind : List Agent → ShareKind
watchpoint_shared_kind agents = shared_kind_loop unsupported agents

-- `process_t::watchpoint_count`
unfoldable pub count_loop : Option ℕ → List Agent → Option ℕ
count_loop least [] = least
count_loop least (a ∷ rest) =
    if not a.supports_debugging
    then count_loop least rest
    else count_loop
        (some (min (value_or a.address_watch_register_count least) a.address_watch_register_count))
        rest

unfoldable pub watchpoint_count : List Agent → ℕ
watchpoint_count agents = value_or 0 (count_loop none agents)
