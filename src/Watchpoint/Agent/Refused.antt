-- ===== src/Watchpoint/Agent/Refused.antt =====
-- What `amd_dbgapi_set_watchpoint` of src/watchpoint.cpp leaves where it throws, and where it does not.
use rocdbgapi.Base.{
  ℕ, suc, ◌≡◌, ◌⊎◌, inl, inr, refl, ◌∙◌, subst, Bool, true, false, not, ◌||◌, Bool-cases, Option,
  none, some, List, ◌∷◌, ◌==◌, length, map, if◌then◌else◌,
}
use rocdbgapi.Status.{Status, process_frozen, not_supported, invalid_argument, Result, ok, err}
use rocdbgapi.Watchpoint.{programmable_mask_bits, watch_range}
use rocdbgapi.Watchpoint.Agent.{
  WatchpointKind, Watchpoint, Agent, WatchDriver, insert_on_agents, watchpoint_shared_kind,
}
use rocdbgapi.Watchpoint.Agent.Entry.{
  WatchProcess, is_supported, insert_enabled, process_insert, insert_new, set_range, set_kind,
  set_watchpoint,
}
use rocdbgapi.Watchpoint.Agent.Rollback.{
  AllReady, AllWatch, insert_on_agents-all_or_none, insert_on_agents-Placed,
}
use rocdbgapi.Watchpoint.Agent.Views.{View, WatchLaws, Placed}

-- A call that throws leaves the watchpoints of the process and the watches that are armed. One that
-- does not adds a watchpoint, every agent has an armed watch for it, and the watches of the new object
-- are what is armed more than before.
pub record IsSetOrRefused {D : Type 0} (armed : D → View) (pointer : ℕ) (p : WatchProcess D)
    (out : Result ℕ × Option (WatchProcess D)) : Type 0 where
  pub outcome :
      ((e : Status) × (p' : WatchProcess D) × (out ≡ (err e, some p'))
        × (p'.watchpoints ≡ p.watchpoints)
        × (armed p'.driver_state ≡ armed p.driver_state))
      ⊎ ((w : Watchpoint) × (p' : WatchProcess D) × (out ≡ (ok p.next_watchpoint_id, some p'))
          × (w.pointer ≡ pointer)
          × (p'.watchpoints ≡ (p.next_watchpoint_id, w) ∷ p.watchpoints)
          × (p'.is_frozen ≡ p.is_frozen)
          × AllWatch pointer (armed p'.driver_state) p'.agents
          × Placed pointer p'.agents (armed p.driver_state) (armed p'.driver_state))

module _ {D : Type 0} (driver : WatchDriver D) (registers : ℕ → ℕ) (armed : D → View)
    (laws : WatchLaws driver registers armed) (enable_traps : D → Result (Unit {0}) × D)
    (traps : (d : D) → armed (enable_traps d).1 ≡ armed d) (uninitialized : ℕ → ℕ) where
  record Inserted (w : Watchpoint) (d : D) (out : Result (Unit {0}) × List Agent × D) : Type 0 where
    outcome :
        ((out.0 ≡ ok tt)
          × AllWatch w.pointer (armed out.2) out.1
          × Placed w.pointer out.1 (armed d) (armed out.2))
        ⊎ ((e : Status) × (out.0 ≡ err e) × (armed out.2 ≡ armed d))

  on_agents :
      (w : Watchpoint) (agents : List Agent) (d d' : D)
      → AllReady registers w.pointer agents
      → armed d' ≡ armed d
      → Inserted w d (insert_on_agents driver uninitialized w agents d')
  on_agents w agents d d' ready same = record {
    outcome =
        elim (insert_on_agents-all_or_none driver registers armed laws uninitialized w agents ready
          d') [
            | inl (went, all) ↦ inl (
              went,
              all,
              subst
                  (λ v.
                    Placed w.pointer (insert_on_agents driver uninitialized w agents d').1 v
                      (armed (insert_on_agents driver uninitialized w agents d').2))
                  same
                  (insert_on_agents-Placed driver registers armed laws uninitialized w agents ready
                    d' went),
            )
            | inr (refused, view) ↦ inr (_, refused, view ∙ same)
          ];
  }

  insert_enabled-Inserted :
      (w : Watchpoint) (agents : List Agent) (d : D)
      → AllReady registers w.pointer agents
      → (enabled : Result (Unit {0}) × D) → armed enabled.1 ≡ armed d
      → Inserted w d (insert_enabled driver enable_traps uninitialized w agents enabled)
  unfolding insert_enabled
  insert_enabled-Inserted w agents d ready (err e, d') same = record {
    outcome = inr (e, refl, same);
  }
  insert_enabled-Inserted w agents d ready (ok done, d') same = on_agents w agents d d' ready same

  process_insert-Inserted :
      (count : ℕ) (w : Watchpoint) (agents : List Agent) (d : D)
      → AllReady registers w.pointer agents
      → Inserted w d (process_insert driver enable_traps uninitialized count w agents d)
  unfolding process_insert
  process_insert-Inserted count w agents d ready = elim (Bool-cases (count == 1)) [
    | inr more ↦
        rw (process_insert, more) (insert_enabled-Inserted w agents d ready (ok tt, d) refl)
    | inl first ↦
        rw (process_insert, first)
          (insert_enabled-Inserted w agents d ready (enable_traps d) (traps d))
  ]

  insert_new-IsSetOrRefused :
      (w : Watchpoint) (p : WatchProcess D)
      → AllReady registers w.pointer p.agents
      → IsSetOrRefused armed w.pointer p (
        (insert_new driver enable_traps uninitialized w p).0,
        some (insert_new driver enable_traps uninitialized w p).1,
      )
  unfolding insert_new
  insert_new-IsSetOrRefused w p ready = elim inserted.outcome [
    | inl (went, all, placed) ↦
        rw (insert_new, went) (record { outcome = inr (w, _, refl, refl, refl, refl, all, placed) })
    | inr (e, refused, view) ↦
        rw (insert_new, refused) (record { outcome = inl (e, _, refl, refl, view) })
  ]
    where
      inserted : Inserted w p.driver_state (
          process_insert driver enable_traps uninitialized
            (suc (length p.watchpoints))
            w
            p.agents
            p.driver_state)
      inserted =
          process_insert-Inserted (suc (length p.watchpoints)) w p.agents p.driver_state ready

  -- Setting a watchpoint on a process that the handle names either throws, and leaves the watchpoints of
  -- the process and the watches that are armed; or adds a watchpoint for which every agent has an armed
  -- watch, and with which these are all that is armed more than before. No slot of an agent has the
  -- address in memory of the new object, which is not so of every state, since slots are not reset when
  -- a watchpoint is removed; each agent has a slot for each of its watches; the driver arms a free watch
  -- or says that there is none (WatchLaws), and the process does not exit; and enabling the traps does
  -- not change what is armed.
  pub set_watchpoint-IsSetOrRefused :
      (has_null : Bool) (p : WatchProcess D) (pointer address size : ℕ)
      (kind : Option WatchpointKind)
      → AllReady registers pointer p.agents
      → IsSetOrRefused armed pointer p (
          set_watchpoint driver enable_traps uninitialized true has_null
            (some p)
            pointer
            address
            size
            kind)
  unfolding set_watchpoint set_kind set_range
  set_watchpoint-IsSetOrRefused has_null p pointer address size kind ready =
      either p.is_frozen _ _ (refused process_frozen) (
        either (not (is_supported (watchpoint_shared_kind p.agents))) _ _ (refused not_supported)
          (either ((size == 0) || has_null) _ _ (refused invalid_argument) (with_kind kind)))
    where
      Holds : Result ℕ × Option (WatchProcess D) → Type 0
      Holds out = IsSetOrRefused armed pointer p out

      refused : (e : Status) → Holds (err e, some p)
      refused e = record { outcome = inl (e, p, refl, refl, refl) }

      either :
          (test : Bool) (x y : Result ℕ × Option (WatchProcess D))
          → Holds x
          → Holds y
          → Holds (if test then x else y)
      either true x y hx hy = hx
      either false x y hx hy = hy

      with_range :
          (k : WatchpointKind) (range : Result (ℕ × ℕ))
          → Holds (set_range driver enable_traps uninitialized p pointer k range)
      with_range k (err e) = record { outcome = inl (e, _, refl, refl, refl) }
      with_range k (ok range) =
          insert_new-IsSetOrRefused
            (record { pointer = pointer; address = range.0; size = range.1; kind = k }) p ready

      with_kind :
          (asked : Option WatchpointKind)
          → Holds (set_kind driver enable_traps uninitialized p pointer address size asked)
      with_kind none = refused invalid_argument
      with_kind (some k) = with_range k (
          watch_range (programmable_mask_bits (map (λ a. a.address_watch_mask_bits) p.agents))
            address size)
