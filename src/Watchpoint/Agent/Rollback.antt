-- ===== src/Watchpoint/Agent/Rollback.antt =====
-- Setting a watchpoint on all agents of a process in src/process.cpp: on all of them or on none.
use rocdbgapi.Base.{
  ℕ, zero, suc, ◌<◌, ◌≡◌, ◌⊎◌, inl, inr, refl, sym, ◌∙◌, ap, subst, arith, true, false, Option,
  none, some, List, [], ◌∷◌, ==_iff, length, set, ltb, Bool-cases, Option-cases,
}
use rocdbgapi.Base.Word.{neg64}
use rocdbgapi.Status.{Status, success, no_watchpoint_available, Result, ok, err, code, Result-cases}
use rocdbgapi.Watchpoint.Agent.{
  Agent, Watchpoint, WatchDriver, find_pointer, is_pointer, watch_mode, is_status, value_or,
  record_watch, insert_watchpoint, insert_loop, remove_loop, insert_on_agents,
}
use rocdbgapi.Watchpoint.Agent.Views.{
  View, arm, arm_self, WatchLaws, Placed, nowhere, absent, present, Placed-keeps,
}
use rocdbgapi.Watchpoint.Agent.Removal.{remove_loop-Placed}

nothing_found :
    (pointer : ℕ) (slot : Option ℕ) (rest : List (Option ℕ))
    → find_pointer pointer (slot ∷ rest) ≡ none
    → (is_pointer pointer slot ≡ false) × (find_pointer pointer rest ≡ none)
unfolding find_pointer
nothing_found pointer slot rest e = elim (Bool-cases (is_pointer pointer slot)) [
  | inl here ↦ absurd (cc)
  | inr other ↦ elim (Option-cases (find_pointer pointer rest)) [
    | inl none_left ↦ (other, none_left)
    | inr found ↦ absurd (cc)
  ]
]

find_pointer-set :
    (pointer : ℕ) (slots : List (Option ℕ)) (i : ℕ)
    → i < length slots
    → find_pointer pointer slots ≡ none
    → find_pointer pointer (set slots i (some pointer)) ≡ some i
unfolding find_pointer is_pointer
find_pointer-set pointer [] i h e = elim h [ ]
find_pointer-set pointer (slot ∷ rest) zero h e =
    rw (find_pointer, is_pointer, (==_iff pointer pointer).1 refl) refl
find_pointer-set pointer (slot ∷ rest) (suc i) h e =
    rw
      (
        find_pointer,
        (nothing_found pointer slot rest e).0,
        find_pointer-set pointer rest i (omega arith) (nothing_found pointer slot rest e).1,
      )
      refl

-- An agent that the driver knows, and that has no watch for the pointer.
pub record IsReady (registers : ℕ → ℕ) (pointer : ℕ) (a : Agent) : Type 0 where
  pub count : a.address_watch_register_count ≡ registers a.os_agent_id
  pub slots : length a.watchpoints ≡ registers a.os_agent_id
  pub fresh : find_pointer pointer a.watchpoints ≡ none

pub data AllReady (registers : ℕ → ℕ) (pointer : ℕ) : List Agent → Type 0 where
  no_agents : AllReady registers pointer []
  one_more :
      {a : Agent} {rest : List Agent}
      → IsReady registers pointer a
      → AllReady registers pointer rest
      → AllReady registers pointer (a ∷ rest)

-- Every agent has an armed watch for the pointer.
pub data AllWatch (pointer : ℕ) (v : View) : List Agent → Type 0 where
  no_agents : AllWatch pointer v []
  one_more :
      {a : Agent} {rest : List Agent} (i : ℕ)
      → find_pointer pointer a.watchpoints ≡ some i
      → v a.os_agent_id i ≡ true
      → AllWatch pointer v rest
      → AllWatch pointer v (a ∷ rest)

module _ {D : Type 0} (driver : WatchDriver D) (registers : ℕ → ℕ) (armed : D → View)
    (laws : WatchLaws driver registers armed) where
  insert_watchpoint-armed :
      (uninitialized : ℕ) (w : Watchpoint) (a : Agent) (d : D) (i : ℕ)
      → i < a.address_watch_register_count
      → (driver.set_address_watch a.os_agent_id w.address (neg64 w.size) (watch_mode w.kind) d).0
        ≡ (success, some i)
      → insert_watchpoint driver uninitialized w a d ≡ (
        ok tt,
        record a { watchpoints = set a.watchpoints i (some w.pointer) },
        (driver.set_address_watch a.os_agent_id w.address (neg64 w.size) (watch_mode w.kind) d).1,
      )
  unfolding insert_watchpoint record_watch is_status code value_or
  insert_watchpoint-armed uninitialized w a d i h e =
      rw (insert_watchpoint, e, record_watch, in_range) refl
    where
      in_range : ltb a.address_watch_register_count i ≡ false
      in_range = ground arith

  insert_watchpoint-full :
      (uninitialized : ℕ) (w : Watchpoint) (a : Agent) (d : D)
      → (driver.set_address_watch a.os_agent_id w.address (neg64 w.size) (watch_mode w.kind) d).0
        ≡ (no_watchpoint_available, none)
      → insert_watchpoint driver uninitialized w a d ≡ (
        err no_watchpoint_available,
        a,
        (driver.set_address_watch a.os_agent_id w.address (neg64 w.size) (watch_mode w.kind) d).1,
      )
  unfolding insert_watchpoint record_watch is_status code
  insert_watchpoint-full uninitialized w a d e = rw (insert_watchpoint, e) refl

  AllReady-Placed :
      {pointer : ℕ} {agents : List Agent} {v : View}
      → AllReady registers pointer agents
      → Placed pointer agents v v
  AllReady-Placed no_agents = nowhere
  AllReady-Placed (one_more ready rest) = absent ready.fresh (AllReady-Placed rest)

  insert_loop-step :
      (uninitialized : ℕ → ℕ) (w : Watchpoint) (a a' : Agent) (rest : List Agent) (d d' : D)
      → insert_watchpoint driver (uninitialized a.os_agent_id) w a d ≡ (ok tt, a', d')
      → insert_loop driver uninitialized w (a ∷ rest) d ≡ (
        (insert_loop driver uninitialized w rest d').0,
        a' ∷ (insert_loop driver uninitialized w rest d').1,
        (insert_loop driver uninitialized w rest d').2,
      )
  unfolding insert_loop
  insert_loop-step uninitialized w a a' rest d d' e =
      rw (insert_loop, ap (λ p. p.0) e, ap (λ p. p.1) e, ap (λ p. p.2) e) refl

  insert_loop-stop :
      (uninitialized : ℕ → ℕ) (w : Watchpoint) (a a' : Agent) (rest : List Agent) (d d' : D)
      (thrown : Status)
      → insert_watchpoint driver (uninitialized a.os_agent_id) w a d ≡ (err thrown, a', d')
      → insert_loop driver uninitialized w (a ∷ rest) d ≡ (err thrown, a' ∷ rest, d')
  unfolding insert_loop
  insert_loop-stop uninitialized w a a' rest d d' thrown e =
      rw (insert_loop, ap (λ p. p.0) e, ap (λ p. p.1) e, ap (λ p. p.2) e) refl

  -- What a loop over the agents may come to.
  record Outcome (w : Watchpoint) (v : View) (out : Result (Unit {0}) × List Agent × D)
      : Type 0 where
    placed : Placed w.pointer out.1 v (armed out.2)
    result :
        ((out.0 ≡ ok tt) × AllWatch w.pointer (armed out.2) out.1)
        ⊎ (out.0 ≡ err no_watchpoint_available)

  -- An agent whose watch was armed, in front of what the loop did with those after it.
  armed_next :
      (w : Watchpoint) (a : Agent) (i : ℕ) (d d' : D) (out : Result (Unit {0}) × List Agent × D)
      → IsReady registers w.pointer a
      → i < registers a.os_agent_id
      → armed d a.os_agent_id i ≡ false
      → armed d' ≡ arm a.os_agent_id i (armed d)
      → Outcome w (armed d') out
      → Outcome w
          (armed d)
          (out.0, record a { watchpoints = set a.watchpoints i (some w.pointer) } ∷ out.1, out.2)
  armed_next w a i d d' out ready lt free view later = record {
    placed =
        present i found free
          (subst (λ u. Placed w.pointer out.1 u (armed out.2)) view later.placed);
    result = elim later.result [
      | inl (went, all) ↦ inl (
        went,
        one_more i found
            (Placed-keeps later.placed a.os_agent_id i
              (ap (λ u. u a.os_agent_id i) view ∙ arm_self a.os_agent_id i (armed d)))
            all,
      )
      | inr full ↦ inr full
    ];
  }
    where
      found : find_pointer w.pointer (set a.watchpoints i (some w.pointer)) ≡ some i
      found = find_pointer-set w.pointer a.watchpoints i (omega (arith, ready.slots)) ready.fresh

  insert_loop-Outcome :
      (uninitialized : ℕ → ℕ) (w : Watchpoint) (agents : List Agent)
      → AllReady registers w.pointer agents
      → (d : D) → Outcome w (armed d) (insert_loop driver uninitialized w agents d)
  unfolding insert_loop
  insert_loop-Outcome uninitialized w [] no_agents d = record {
    placed = nowhere;
    result = inl (refl, no_agents);
  }
  insert_loop-Outcome uninitialized w (a ∷ rest) (one_more ready more) d =
      elim (laws.set_answer a.os_agent_id w.address (neg64 w.size) (watch_mode w.kind) d) [
        | inl (i, lt, free, e, view) ↦
            subst (Outcome w (armed d))
              (sym (
                insert_loop-step uninitialized w a _ rest d _ (
                  insert_watchpoint-armed (uninitialized a.os_agent_id) w a d i
                    (omega (arith, ready.count)) e)))
              (armed_next w a i d _ _ ready lt free view
                (insert_loop-Outcome uninitialized w rest more _))
        | inr (e, view) ↦
            subst (Outcome w (armed d))
              (sym (
                insert_loop-stop uninitialized w a a rest d _ no_watchpoint_available
                  (insert_watchpoint-full (uninitialized a.os_agent_id) w a d e)))
              (record {
                placed =
                    absent ready.fresh
                      (subst (Placed w.pointer rest (armed d)) (sym view) (AllReady-Placed more));
                result = inr refl;
              })
      ]

  -- Setting a watchpoint either succeeds, and then every agent has an armed watch for it, or throws
  -- that no watchpoint is available, and then the same watches are armed as before. No agent has a
  -- watch for the watchpoint before, and the process does not exit.
  pub insert_on_agents-all_or_none :
      (uninitialized : ℕ → ℕ) (w : Watchpoint) (agents : List Agent)
      → AllReady registers w.pointer agents
      → (d : D)
      → (((insert_on_agents driver uninitialized w agents d).0 ≡ ok tt)
          × AllWatch w.pointer
              (armed (insert_on_agents driver uninitialized w agents d).2)
              (insert_on_agents driver uninitialized w agents d).1)
        ⊎ (((insert_on_agents driver uninitialized w agents d).0 ≡ err no_watchpoint_available)
            × (armed (insert_on_agents driver uninitialized w agents d).2 ≡ armed d))
  unfolding insert_on_agents
  insert_on_agents-all_or_none uninitialized w agents ready d = elim loop.result [
    | inl (went, all) ↦ inl (rw (insert_on_agents, went) (refl, all))
    | inr full ↦ inr (rw (insert_on_agents, full, undone.0) (refl, undone.1))
  ]
    where
      loop : Outcome w (armed d) (insert_loop driver uninitialized w agents d)
      loop = insert_loop-Outcome uninitialized w agents ready d

      undone :
          ((remove_loop driver w
              (insert_loop driver uninitialized w agents d).1
              (insert_loop driver uninitialized w agents d).2).0
            ≡ ok tt)
          × (armed
                (remove_loop driver w
                  (insert_loop driver uninitialized w agents d).1
                  (insert_loop driver uninitialized w agents d).2).1
              ≡ armed d)
      undone = remove_loop-Placed driver registers armed laws w _ loop.placed _ refl

  -- Where setting a watchpoint succeeds, its watches were free and are what is armed more than before.
  pub insert_on_agents-Placed :
      (uninitialized : ℕ → ℕ) (w : Watchpoint) (agents : List Agent)
      → AllReady registers w.pointer agents
      → (d : D) → (insert_on_agents driver uninitialized w agents d).0 ≡ ok tt
      → Placed w.pointer
          (insert_on_agents driver uninitialized w agents d).1
          (armed d)
          (armed (insert_on_agents driver uninitialized w agents d).2)
  unfolding insert_on_agents
  insert_on_agents-Placed uninitialized w agents ready d e =
      elim (Result-cases (insert_loop driver uninitialized w agents d).0) [
        | inl (done, went) ↦ rw (insert_on_agents, went) loop.placed
        | inr (thrown, failed) ↦
            elim (Result-cases
              (remove_loop driver w (insert_loop driver uninitialized w agents d).1
                (insert_loop driver uninitialized w agents d).2).0) [
                  | inl (done, undone) ↦ absurd (cc)
                  | inr (more, stuck) ↦ absurd (cc)
                ]
      ]
    where
      loop : Outcome w (armed d) (insert_loop driver uninitialized w agents d)
      loop = insert_loop-Outcome uninitialized w agents ready d
