-- ===== src/Tests/Watchpoints.antt =====
-- The theorems on watchpoints with a mask of the bits from 6 up to 30.
use rocdbgapi.Base.{
  ℕ, ◌+◌, ◌-◌, ◌*◌, ◌/◌, ◌^◌, ◌≤◌, ◌≡◌, inl, inr, arith, refl, true, false, none, some, [], ◌∷◌,
  ◌==◌, Bool-cases, if◌then◌else◌,
}
use rocdbgapi.Status.{code, ok, err, fatal, success, no_watchpoint_available}
use rocdbgapi.Watchpoint.{watch_range, stable_bits, watched, cut_address}
use rocdbgapi.Utils.{next_power_of_two, smear}
use rocdbgapi.Watchpoint.Agent.{
  Agent, Watchpoint, WatchDriver, store_and_rmw, find_pointer, is_pointer, insert_on_agents,
  insert_loop, insert_watchpoint, record_watch, is_status, value_or, shared_kind_loop,
  watchpoint_share_kind, unsupported, watchpoint_shared_kind,
}
use rocdbgapi.Watchpoint.Agent.Entry.{
  WatchProcess, set_watchpoint, set_kind, set_range, insert_new, process_insert, insert_enabled,
}
use rocdbgapi.Watchpoint.Agent.Kinds.{
  debugged_kinds, any_unsupported, last_kind, watchpoint_shared_kind-last,
}
use rocdbgapi.Watchpoint.Agent.Refused.{IsSetOrRefused, set_watchpoint-IsSetOrRefused}
use rocdbgapi.Watchpoint.Agent.Rollback.{IsReady, no_agents, one_more}
use rocdbgapi.Watchpoint.Agent.Unset.{IsRemoved, remove_by_id, set_watchpoint-remove_by_id}
use rocdbgapi.Watchpoint.Agent.Views.{View, arm, disarm, is_watch, WatchLaws}
use rocdbgapi.Watchpoint.Range.{
  IsSmallest, watch_range-same_block, watch_range-cut, watch_range-fatal,
}

watch_range-same_block_example :
    (j : ℕ) × (j ≤ 30)
    × IsSmallest 6 0x7fff_1044 (0x7fff_1044 + 4 - 1) j
    × (watch_range (2 ^ 30 - 2 ^ 6) 0x7fff_1044 4 ≡ ok (0x7fff_1044 / 2 ^ j * 2 ^ j, 2 ^ j))
watch_range-same_block_example =
    watch_range-same_block 6 30 0x7fff_1044 4 (omega arith) (omega arith) (omega arith)
      (omega arith) (omega arith)

watch_range-cut_example :
    (j : ℕ) × (j ≤ 30)
    × IsSmallest 6 0x3fff_fff0 ((0x3fff_fff0 / 2 ^ 30 + 1) * 2 ^ 30 - 1) j
    × (watch_range (2 ^ 30 - 2 ^ 6) 0x3fff_fff0 64 ≡ ok (0x3fff_fff0 / 2 ^ j * 2 ^ j, 2 ^ j))
watch_range-cut_example =
    watch_range-cut 6 30 0x3fff_fff0 64 (omega arith) (omega arith) (omega arith) (omega arith)
      (λ e. omega arith) (λ e. omega arith)

watch_range-fatal_example : watch_range (2 ^ 30 - 2 ^ 6) 0x4000_0000 0x8000_0000 ≡ err fatal
watch_range-fatal_example =
    watch_range-fatal 6 30 0x4000_0000 0x8000_0000 (omega arith) (omega arith) (omega arith)
      (omega arith) (omega arith) (λ e. omega arith) (omega arith)

-- A driver with one watch for each agent, whose state is what is armed.
abbrev one_each : WatchDriver View
one_each = record {
  set_address_watch = λ g address mask mode v.
      if v g 0 then ((no_watchpoint_available, none), v) else ((success, some 0), arm g 0 v);
  clear_address_watch = λ g i v. (success, disarm g i v);
}

one_each_laws : WatchLaws one_each (λ g. 1) (λ v. v)
one_each_laws = record {
  set_answer = λ g address mask mode v. elim (Bool-cases (v g 0)) [
    | inl taken ↦ inr (rw taken (refl, refl))
    | inr free ↦ inl (0, omega arith, free, rw free refl, rw free refl)
  ];
  clear_answer = λ g i v e. (refl, refl);
}

-- An agent with one free watch.
abbrev agent : ℕ → Agent
agent g = record {
  os_agent_id = g;
  supports_debugging = true;
  address_watch_supported = true;
  watchpoint_exclusive = false;
  address_watch_register_count = 1;
  address_watch_mask_bits = 2 ^ 30 - 2 ^ 6;
  watchpoints = none ∷ [];
}

abbrev watchpoint : Watchpoint
watchpoint = record { pointer = 0x5000; address = 0x7fff_1040; size = 64; kind = store_and_rmw }

-- The watch of agent 2 is taken.
abbrev taken : View
taken g i = g == 2

ready : (g : ℕ) → IsReady (λ h. 1) watchpoint.pointer (agent g)
unfolding find_pointer is_pointer
ready g = record { count = refl; slots = refl; fresh = refl }

watchpoint_shared_kind-last_example :
    watchpoint_shared_kind (record (agent 1) { watchpoint_exclusive = true } ∷ agent 2 ∷ []) ≡ (
      if any_unsupported
        (debugged_kinds (record (agent 1) { watchpoint_exclusive = true } ∷ agent 2 ∷ []))
      then unsupported
      else last_kind unsupported
          (debugged_kinds (record (agent 1) { watchpoint_exclusive = true } ∷ agent 2 ∷ [])))
watchpoint_shared_kind-last_example =
    watchpoint_shared_kind-last (record (agent 1) { watchpoint_exclusive = true } ∷ agent 2 ∷ [])

-- A process with two agents, on one of which the watch is taken.
abbrev process : WatchProcess View
process = record {
  is_frozen = false;
  agents = agent 1 ∷ agent 2 ∷ [];
  watchpoints = [];
  next_watchpoint_id = 1;
  driver_state = taken;
}

set_watchpoint-IsSetOrRefused_example :
    IsSetOrRefused
      (λ v. v)
      0x5000
      process
      (set_watchpoint one_each
        (λ v. (ok tt, v))
        (λ g. 0)
        true
        false
        (some process)
        0x5000
        0x7fff_1044
        4
        (some store_and_rmw))
set_watchpoint-IsSetOrRefused_example =
    set_watchpoint-IsSetOrRefused one_each (λ g. 1) (λ v. v) one_each_laws (λ v. (ok tt, v))
      (λ v. refl) (λ g. 0) false process 0x5000 0x7fff_1044 4 (some store_and_rmw)
      (one_more (ready 1) (one_more (ready 2) no_agents))

-- The same process where no watch is taken, and what it is with a watchpoint.
abbrev idle : WatchProcess View
idle = record process { driver_state = λ g i. false }

abbrev holding : ℕ → Agent
holding g = record (agent g) { watchpoints = some 0x5000 ∷ [] }

abbrev watching : WatchProcess View
watching = record process {
  agents = holding 1 ∷ holding 2 ∷ [];
  watchpoints = (1, watchpoint) ∷ [];
  next_watchpoint_id = 2;
  driver_state = arm 2 0 (arm 1 0 (λ g i. false));
}

set_idle :
    set_watchpoint one_each
      (λ v. (ok tt, v))
      (λ g. 0)
      true
      false
      (some idle)
      0x5000
      0x7fff_1044
      4
      (some store_and_rmw)
    ≡ (ok 1, some watching)
unfolding stable_bits next_power_of_two smear watched cut_address set_watchpoint set_kind set_range
    insert_new process_insert insert_enabled insert_on_agents insert_loop insert_watchpoint
    record_watch is_status code value_or watchpoint_shared_kind shared_kind_loop
    watchpoint_share_kind watch_range arm is_watch
set_idle = refl

set_watchpoint-remove_by_id_example :
    IsRemoved (λ v. v) idle (remove_by_id one_each (λ v. (ok tt, v)) true watching 1)
set_watchpoint-remove_by_id_example =
    set_watchpoint-remove_by_id one_each (λ v. (ok tt, v)) (λ g. 1) (λ v. v) one_each_laws
      (λ v. (refl, refl)) (λ v. (ok tt, v)) (λ v. refl) (λ g. 0) false idle watching 0x5000
      0x7fff_1044 4 1 (some store_and_rmw) (one_more (ready 1) (one_more (ready 2) no_agents)) refl
      set_idle
