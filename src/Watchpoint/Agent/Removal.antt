-- ===== src/Watchpoint/Agent/Removal.antt =====
-- Removing a watchpoint from the agents of a process, in src/agent.cpp and src/process.cpp.
use rocdbgapi.Base.{ℕ, ◌≡◌, refl, ◌∙◌, ap, subst, none, some, List, [], ◌∷◌}
use rocdbgapi.Status.{success, ok, code}
use rocdbgapi.Watchpoint.Agent.{
  Agent, Watchpoint, WatchDriver, find_pointer, is_status, remove_watchpoint, remove_loop,
}
use rocdbgapi.Watchpoint.Agent.Views.{
  View, disarm, arm_self, disarm-arm, WatchLaws, Placed, nowhere, absent, present, Placed-keeps,
  Placed-disarm,
}

module _ {D : Type 0} (driver : WatchDriver D) (registers : ℕ → ℕ) (armed : D → View)
    (laws : WatchLaws driver registers armed) where
  remove_watchpoint-found :
      (w : Watchpoint) (a : Agent) (i : ℕ) (d : D)
      → find_pointer w.pointer a.watchpoints ≡ some i
      → (driver.clear_address_watch a.os_agent_id i d).0 ≡ success
      → remove_watchpoint driver w a d ≡ (ok tt, (driver.clear_address_watch a.os_agent_id i d).1)
  unfolding remove_watchpoint is_status code
  remove_watchpoint-found w a i d here done = rw (remove_watchpoint, here, done) refl

  remove_watchpoint-absent :
      (w : Watchpoint) (a : Agent) (d : D)
      → find_pointer w.pointer a.watchpoints ≡ none
      → remove_watchpoint driver w a d ≡ (ok tt, d)
  unfolding remove_watchpoint
  remove_watchpoint-absent w a d none_here = rw (remove_watchpoint, none_here) refl

  remove_loop-step :
      (w : Watchpoint) (a : Agent) (rest : List Agent) (d d' : D)
      → remove_watchpoint driver w a d ≡ (ok tt, d')
      → remove_loop driver w (a ∷ rest) d ≡ remove_loop driver w rest d'
  unfolding remove_loop
  remove_loop-step w a rest d d' e = rw (remove_loop, ap (λ p. p.0) e, ap (λ p. p.1) e) refl

  pub remove_loop-Placed :
      (w : Watchpoint) (agents : List Agent) {v v' : View}
      → Placed w.pointer agents v v'
      → (d : D) → armed d ≡ v'
      → ((remove_loop driver w agents d).0 ≡ ok tt) × (armed (remove_loop driver w agents d).1 ≡ v)
  unfolding remove_loop
  remove_loop-Placed w [] nowhere d e = (refl, e)
  remove_loop-Placed w (a ∷ rest) (absent none_here p) d e =
      rw (remove_loop-step w a rest d d (remove_watchpoint-absent w a d none_here))
        (remove_loop-Placed w rest p d e)
  remove_loop-Placed w (a ∷ rest) (present {v = v} {v' = v'} i here free p) d e =
      rw (remove_loop-step w a rest d _ (remove_watchpoint-found w a i d here cleared.0))
        (remove_loop-Placed w rest moved _ (cleared.1 ∙ ap (disarm g i) e))
    where
      g : ℕ
      g = a.os_agent_id

      cleared :
          ((driver.clear_address_watch g i d).0 ≡ success)
          × (armed (driver.clear_address_watch g i d).1 ≡ disarm g i (armed d))
      cleared = laws.clear_answer g i d (ap (λ u. u g i) e ∙ Placed-keeps p g i (arm_self g i v))

      moved : Placed w.pointer rest v (disarm g i v')
      moved =
          subst (λ u. Placed w.pointer rest u (disarm g i v')) (disarm-arm g i v free)
            (Placed-disarm p g i (arm_self g i v))
