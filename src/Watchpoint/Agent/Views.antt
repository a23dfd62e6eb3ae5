-- ===== src/Watchpoint/Agent/Views.antt =====
-- Which address watches a driver has armed, for the operations on watchpoints of src/agent.cpp.
use rocdbgapi.Base.{
  ℕ, ◌<◌, ◌≡◌, ◌⊎◌, inl, inr, refl, sym, ◌∙◌, subst, arith, Bool, true, false, not, ◌&&◌, ◌||◌,
  Bool-cases, none, some, List, [], ◌∷◌, ◌==◌, ==_iff,
}
use mathlib.Core.Path.{fun_ext}
use rocdbgapi.Status.{success, no_watchpoint_available}
use rocdbgapi.Watchpoint.Agent.{Agent, WatchMode, WatchDriver, find_pointer}

-- Whether an agent has armed a watch.
abbrev pub View : Type 0
View = (os_agent_id os_watch_id : ℕ) → Bool

unfoldable pub is_watch : (g i h j : ℕ) → Bool
is_watch g i h j = (g == h) && (i == j)

unfoldable pub arm : (os_agent_id os_watch_id : ℕ) → View → View
arm g i v h j = is_watch g i h j || v h j

unfoldable pub disarm : (os_agent_id os_watch_id : ℕ) → View → View
disarm g i v h j = not (is_watch g i h j) && v h j

-- The driver arms a watch that is free, or has none left; it disarms a watch that is armed. The process
-- does not exit.
pub record WatchLaws {D : Type 0} (driver : WatchDriver D) (registers : ℕ → ℕ) (armed : D → View)
    : Type 0 where
  pub set_answer :
      (g address mask : ℕ) (mode : WatchMode) (d : D)
      → ((i : ℕ) × (i < registers g)
          × (armed d g i ≡ false)
          × ((driver.set_address_watch g address mask mode d).0 ≡ (success, some i))
          × (armed (driver.set_address_watch g address mask mode d).1 ≡ arm g i (armed d)))
        ⊎ (((driver.set_address_watch g address mask mode d).0 ≡ (no_watchpoint_available, none))
            × (armed (driver.set_address_watch g address mask mode d).1 ≡ armed d))
  pub clear_answer :
      (g i : ℕ) (d : D)
      → armed d g i ≡ true
      → ((driver.clear_address_watch g i d).0 ≡ success)
        × (armed (driver.clear_address_watch g i d).1 ≡ disarm g i (armed d))

pub arm_self : (g i : ℕ) (v : View) → arm g i v g i ≡ true
unfolding arm is_watch
arm_self g i v = ground (arith, ==_iff g g, ==_iff i i)

pub arm-keeps : (g i h j : ℕ) (v : View) → v h j ≡ true → arm g i v h j ≡ true
unfolding arm
arm-keeps g i h j v e = elim (Bool-cases (is_watch g i h j)) [
  | inl same ↦ rw same refl
  | inr apart ↦ rw (apart, e) refl
]

is_watch-eq : (g i h j : ℕ) → is_watch g i h j ≡ true → (g ≡ h) × (i ≡ j)
unfolding is_watch
is_watch-eq g i h j e = ground arith

pub disarm-arm : (g i : ℕ) (v : View) → v g i ≡ false → disarm g i (arm g i v) ≡ v
unfolding disarm arm
disarm-arm g i v free = fun_ext λ h. fun_ext λ j. elim (Bool-cases (is_watch g i h j)) [
  | inl same ↦ let (p, q) = is_watch-eq g i h j same in rw same (sym free ∙ cc)
  | inr apart ↦ rw apart refl
]

pub disarm-arm_comm :
    (g i h j : ℕ) (v : View)
    → v g i ≡ true
    → v h j ≡ false
    → disarm g i (arm h j v) ≡ arm h j (disarm g i v)
unfolding disarm arm
disarm-arm_comm g i h j v taken free = fun_ext λ k. fun_ext λ l.
    elim (Bool-cases (is_watch g i k l)) [
      | inl first ↦ elim (Bool-cases (is_watch h j k l)) [
        | inl second ↦
            let (p, q) = is_watch-eq g i k l first in
            let (r, s) = is_watch-eq h j k l second in absurd (cc)
        | inr apart ↦ rw (first, apart) refl
      ]
      | inr past ↦ rw past refl
    ]

disarm-false : (g i h j : ℕ) (v : View) → v h j ≡ false → disarm g i v h j ≡ false
unfolding disarm
disarm-false g i h j v e = elim (Bool-cases (is_watch g i h j)) [
  | inl same ↦ rw same refl
  | inr apart ↦ rw (apart, e) refl
]

-- The watches that the agents have for a pointer were free, and arming them makes one view of the
-- other.
pub data Placed (pointer : ℕ) : List Agent → View → View → Type 0 where
  nowhere : {v : View} → Placed pointer [] v v
  absent :
      {a : Agent} {rest : List Agent} {v v' : View}
      → find_pointer pointer a.watchpoints ≡ none
      → Placed pointer rest v v'
      → Placed pointer (a ∷ rest) v v'
  present :
      {a : Agent} {rest : List Agent} {v v' : View} (i : ℕ)
      → find_pointer pointer a.watchpoints ≡ some i
      → v a.os_agent_id i ≡ false
      → Placed pointer rest (arm a.os_agent_id i v) v'
      → Placed pointer (a ∷ rest) v v'

pub Placed-keeps :
    {pointer : ℕ} {agents : List Agent} {v v' : View}
    → Placed pointer agents v v'
    → (g i : ℕ) → v g i ≡ true
    → v' g i ≡ true
Placed-keeps nowhere g i e = e
Placed-keeps (absent none_here p) g i e = Placed-keeps p g i e
Placed-keeps (present {a} {rest} {v} j here free p) g i e =
    Placed-keeps p g i (arm-keeps a.os_agent_id j g i v e)

-- A watch that was armed before can be disarmed on both sides.
pub Placed-disarm :
    {pointer : ℕ} {agents : List Agent} {v v' : View}
    → Placed pointer agents v v'
    → (g i : ℕ) → v g i ≡ true
    → Placed pointer agents (disarm g i v) (disarm g i v')
Placed-disarm nowhere g i e = nowhere
Placed-disarm (absent none_here p) g i e = absent none_here (Placed-disarm p g i e)
Placed-disarm {pointer} (present {a} {rest} {v} {v'} j here free p) g i e =
    present j here (disarm-false g i _ _ v free) (
      subst (λ u. Placed pointer rest u (disarm g i v'))
        (disarm-arm_comm g i a.os_agent_id j v e free)
        (Placed-disarm p g i (arm-keeps a.os_agent_id j g i v e)))
