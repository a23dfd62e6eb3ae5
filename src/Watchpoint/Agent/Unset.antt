-- ===== src/Watchpoint/Agent/Unset.antt =====
-- `amd_dbgapi_remove_watchpoint` of src/watchpoint.cpp up to its CATCH, with
-- `process_t::remove_watchpoint` of src/process.cpp. Disabling the traps of all waves is a parameter.
use rocdbgapi.Base.{
  ℕ, ◌≡◌, refl, ◌∙◌, ap, subst, sym, Bool, true, false, not, Option, none, some, List, [], ◌∷◌,
  ◌==◌, ==_iff, length, if◌then◌else◌, inl, inr, Bool-cases,
}
use rocdbgapi.Status.{not_initialized, invalid_watchpoint_id, process_frozen, Result, ok, err}
use rocdbgapi.Watchpoint.Agent.{WatchpointKind, Watchpoint, Agent, WatchDriver, remove_loop}
use rocdbgapi.Watchpoint.Agent.Entry.{WatchProcess, set_watchpoint}
use rocdbgapi.Watchpoint.Agent.Refused.{IsSetOrRefused, set_watchpoint-IsSetOrRefused}
use rocdbgapi.Watchpoint.Agent.Removal.{remove_loop-Placed}
use rocdbgapi.Watchpoint.Agent.Rollback.{AllReady}
use rocdbgapi.Watchpoint.Agent.Views.{View, WatchLaws, Placed}

-- The watchpoint that an id names.
unfoldable pub find_watchpoint : ℕ → List (ℕ × Watchpoint) → Option Watchpoint
find_watchpoint id [] = none
find_watchpoint id (entry ∷ rest) =
    let later = find_watchpoint id rest in if entry.0 == id then some entry.1 else later

-- The watchpoints without the one that an id names.
unfoldable pub destroy_watchpoint : ℕ → List (ℕ × Watchpoint) → List (ℕ × Watchpoint)
destroy_watchpoint id [] = []
destroy_watchpoint id (entry ∷ rest) =
    let later = destroy_watchpoint id rest in if entry.0 == id then rest else entry ∷ later

-- The watchpoint is gone, and the watches that are armed are those of the process `p`.
pub record IsRemoved {D : Type 0} (armed : D → View) (p : WatchProcess D)
    (out : Result (Unit {0}) × WatchProcess D) : Type 0 where
  pub removed : out.0 ≡ ok tt
  pub watchpoints : out.1.watchpoints ≡ p.watchpoints
  pub armed_again : armed out.1.driver_state ≡ armed p.driver_state

module _ {D : Type 0} (driver : WatchDriver D) (disable_traps : D → Result (Unit {0}) × D) where
  -- `process_t::remove_watchpoint`: the last watchpoint disables the traps.
  unfoldable pub process_remove : (count : ℕ) → Watchpoint → List Agent → D → Result (Unit {0}) × D
  process_remove count w agents d =
      let (removed, d') = remove_loop driver w agents d in
      elim removed [
        | err e ↦ (err e, d')
        | ok done ↦ if count == 1 then disable_traps d' else (ok tt, d')
      ]

  -- `amd_dbgapi_remove_watchpoint` after the handle was found.
  unfoldable pub remove_found : WatchProcess D → ℕ → Watchpoint → Result (Unit {0}) × WatchProcess D
  remove_found p id w =
      let (removed, d) = process_remove (length p.watchpoints) w p.agents p.driver_state in
      elim removed [
        | err e ↦ (err e, record p { driver_state = d })
        | ok done ↦ (
          ok tt,
          record p { driver_state = d; watchpoints = destroy_watchpoint id p.watchpoints },
        )
      ]

  -- `amd_dbgapi_remove_watchpoint`, for the process that has the watchpoint.
  unfoldable pub remove_by_id :
      (is_initialized : Bool) → WatchProcess D → ℕ → Result (Unit {0}) × WatchProcess D
  remove_by_id is_initialized p id =
      if not is_initialized
      then (err not_initialized, p)
      else elim (find_watchpoint id p.watchpoints) [
        | none ↦ (err invalid_watchpoint_id, p)
        | some w ↦ if p.is_frozen then (err process_frozen, p) else remove_found p id w
      ]

  find_first :
      (id : ℕ) (w : Watchpoint) (rest : List (ℕ × Watchpoint))
      → (find_watchpoint id ((id, w) ∷ rest) ≡ some w)
        × (destroy_watchpoint id ((id, w) ∷ rest) ≡ rest)
  unfolding find_watchpoint destroy_watchpoint
  find_first id w rest = rw ((==_iff id id).1 refl) (refl, refl)

  module _ (registers : ℕ → ℕ) (armed : D → View) (laws : WatchLaws driver registers armed)
      (disabled : (d : D)
        → ((disable_traps d).0 ≡ ok tt) × (armed (disable_traps d).1 ≡ armed d)) where
    process_remove-Placed :
        (count : ℕ) (w : Watchpoint) (agents : List Agent) (d : D) (v : View)
        → Placed w.pointer agents v (armed d)
        → ((process_remove count w agents d).0 ≡ ok tt)
          × (armed (process_remove count w agents d).1 ≡ v)
    unfolding process_remove
    process_remove-Placed count w agents d v placed = elim (Bool-cases (count == 1)) [
      | inr more ↦ rw (process_remove, removed.0, more) (refl, removed.1)
      | inl last ↦ rw (process_remove, removed.0, last) ((disabled _).0, (disabled _).1 ∙ removed.1)
    ]
      where
        removed :
            ((remove_loop driver w agents d).0 ≡ ok tt)
            × (armed (remove_loop driver w agents d).1 ≡ v)
        removed = remove_loop-Placed driver registers armed laws w agents placed d refl

    remove_new :
        (p p' : WatchProcess D) (id : ℕ) (w : Watchpoint)
        → p'.is_frozen ≡ false
        → p'.watchpoints ≡ (id, w) ∷ p.watchpoints
        → Placed w.pointer p'.agents (armed p.driver_state) (armed p'.driver_state)
        → IsRemoved armed p (remove_by_id true p' id)
    unfolding remove_by_id remove_found
    remove_new p p' id w moving listed placed =
        simp (remove_by_id, found, moving, remove_found, gone.0)
          (record { removed = refl; watchpoints = erased; armed_again = gone.1 })
      where
        gone :
            ((process_remove (length p'.watchpoints) w p'.agents p'.driver_state).0 ≡ ok tt)
            × (armed (process_remove (length p'.watchpoints) w p'.agents p'.driver_state).1
                ≡ armed p.driver_state)
        gone = process_remove-Placed (length p'.watchpoints) w p'.agents p'.driver_state _ placed

        found : find_watchpoint id p'.watchpoints ≡ some w
        found = ap (find_watchpoint id) listed ∙ (find_first id w p.watchpoints).0

        erased : destroy_watchpoint id p'.watchpoints ≡ p.watchpoints
        erased = ap (destroy_watchpoint id) listed ∙ (find_first id w p.watchpoints).1

    module _ (enable_traps : D → Result (Unit {0}) × D)
        (enabled : (d : D) → armed (enable_traps d).1 ≡ armed d) (uninitialized : ℕ → ℕ) where
      -- Where a watchpoint was set on a process that is not frozen, and its id is then removed, the
      -- removal succeeds, and the process has the watchpoints and the armed watches it had before. No
      -- slot of an agent has the address in memory of the new object before it is set, each agent has a
      -- slot for each of its watches, the driver arms and disarms as it says (WatchLaws), the process does
      -- not exit, enabling and disabling the traps do not change what is armed, and disabling them
      -- succeeds.
      pub set_watchpoint-remove_by_id :
          (has_null : Bool) (p p' : WatchProcess D) (pointer address size id : ℕ)
          (kind : Option WatchpointKind)
          → AllReady registers pointer p.agents
          → p.is_frozen ≡ false
          → set_watchpoint driver enable_traps uninitialized true has_null
              (some p)
              pointer
              address
              size
              kind
            ≡ (ok id, some p')
          → IsRemoved armed p (remove_by_id true p' id)
      set_watchpoint-remove_by_id has_null p p' pointer address size id kind ready moving went =
          elim set.outcome [
            | inl (e, p'', out, listed, view) ↦ absurd (cc)
            | inr (w, p'', out, here, listed, frozen, all, placed) ↦
                removed w p'' (sym out ∙ went) here listed frozen placed
          ]
        where
          set : IsSetOrRefused armed pointer p (
              set_watchpoint driver enable_traps uninitialized true has_null
                (some p)
                pointer
                address
                size
                kind)
          set =
              set_watchpoint-IsSetOrRefused driver registers armed laws enable_traps enabled
                uninitialized has_null p pointer address size kind ready

          removed :
              (w : Watchpoint) (p'' : WatchProcess D)
              → ◌≡◌ {A = Result ℕ × Option (WatchProcess D)}
                  (ok p.next_watchpoint_id, some p'')
                  (ok id, some p')
              → w.pointer ≡ pointer
              → p''.watchpoints ≡ (p.next_watchpoint_id, w) ∷ p.watchpoints
              → p''.is_frozen ≡ p.is_frozen
              → Placed pointer p''.agents (armed p.driver_state) (armed p''.driver_state)
              → IsRemoved armed p (remove_by_id true p' id)
          removed w p'' e here listed frozen placed =
              subst (λ q. IsRemoved armed p (remove_by_id true q id)) same_process
                (subst (λ n. IsRemoved armed p (remove_by_id true p'' n)) same_id
                  (remove_new p p'' p.next_watchpoint_id w (frozen ∙ moving) listed (
                    subst (λ x. Placed x p''.agents (armed p.driver_state) (armed p''.driver_state))
                      (sym here) placed)))
            where
              same_process : p'' ≡ p'
              same_process = cc

              same_id : p.next_watchpoint_id ≡ id
              same_id = cc
