-- ===== src/Watchpoint/Agent/Kinds.antt =====
-- The kind of sharing and the number of watchpoints of a process, over its agents, of src/process.cpp
-- against lists of what the agents that support debugging have.
use rocdbgapi.Base.{
  ℕ, min, ◌≡◌, refl, ◌∙◌, ap, arith, Bool, true, false, ◌||◌, some, List, [], ◌∷◌, if◌then◌else◌,
  Bool-cases, ◌⊎◌, inl, inr,
}
use rocdbgapi.Watchpoint.Agent.{
  Agent, ShareKind, unsupported, unshared, shared, watchpoint_share_kind, shared_kind_loop,
  watchpoint_shared_kind, count_loop, watchpoint_count, value_or,
}

unfoldable pub debugged_kinds : List Agent → List ShareKind
debugged_kinds [] = []
debugged_kinds (a ∷ rest) =
    let kinds = debugged_kinds rest in
    if a.supports_debugging then watchpoint_share_kind a ∷ kinds else kinds

unfoldable pub is_unsupported : ShareKind → Bool
is_unsupported unsupported = true
is_unsupported unshared = false
is_unsupported shared = false

unfoldable pub any_unsupported : List ShareKind → Bool
any_unsupported [] = false
any_unsupported (k ∷ rest) = is_unsupported k || any_unsupported rest

-- The last of the list, or what is given for the empty one.
unfoldable pub last_kind : ShareKind → List ShareKind → ShareKind
last_kind k [] = k
last_kind k (next ∷ rest) = last_kind next rest

ShareKind-cases : (k : ShareKind) → (k ≡ unsupported) ⊎ ((k ≡ unshared) ⊎ (k ≡ shared))
ShareKind-cases unsupported = inl refl
ShareKind-cases unshared = inr (inl refl)
ShareKind-cases shared = inr (inr refl)

shared_kind_loop-last :
    (k : ShareKind) (agents : List Agent)
    → shared_kind_loop k agents ≡ (
        if any_unsupported (debugged_kinds agents)
        then unsupported
        else last_kind k (debugged_kinds agents))
unfolding shared_kind_loop debugged_kinds any_unsupported last_kind is_unsupported
    watchpoint_share_kind
shared_kind_loop-last k [] = refl
shared_kind_loop-last k (a ∷ rest) = elim (Bool-cases a.supports_debugging) [
  | inl debugs ↦ elim (ShareKind-cases (watchpoint_share_kind a)) [
    | inl is_not ↦ rw (shared_kind_loop, debugged_kinds, debugs, is_not) refl
    | inr (inl alone) ↦
        rw (shared_kind_loop, debugged_kinds, debugs, alone) (shared_kind_loop-last unshared rest)
    | inr (inr with_others) ↦
        rw (shared_kind_loop, debugged_kinds, debugs, with_others)
          (shared_kind_loop-last shared rest)
  ]
  | inr not_debugs ↦
      rw (shared_kind_loop, debugged_kinds, not_debugs) (shared_kind_loop-last k rest)
]

-- The kind of a process is unsupported if that of an agent is, and otherwise the kind of the last
-- agent, among those that support debugging.
pub watchpoint_shared_kind-last :
    (agents : List Agent)
    → watchpoint_shared_kind agents ≡ (
        if any_unsupported (debugged_kinds agents)
        then unsupported
        else last_kind unsupported (debugged_kinds agents))
unfolding watchpoint_shared_kind
watchpoint_shared_kind-last agents = shared_kind_loop-last unsupported agents

unfoldable pub debugged_counts : List Agent → List ℕ
debugged_counts [] = []
debugged_counts (a ∷ rest) =
    let counts = debugged_counts rest in
    if a.supports_debugging then a.address_watch_register_count ∷ counts else counts

unfoldable pub least_of : ℕ → List ℕ → ℕ
least_of n [] = n
least_of n (m ∷ rest) = min n (least_of m rest)

unfoldable pub least : List ℕ → ℕ
least [] = 0
least (n ∷ rest) = least_of n rest

least_of-min : (n m : ℕ) (ns : List ℕ) → least_of (min n m) ns ≡ min n (least_of m ns)
unfolding least_of
least_of-min n m [] = refl
least_of-min n m (k ∷ rest) = omega arith

count_loop-least :
    (n : ℕ) (agents : List Agent)
    → count_loop (some n) agents ≡ some (least_of n (debugged_counts agents))
unfolding count_loop debugged_counts least_of value_or
count_loop-least n [] = refl
count_loop-least n (a ∷ rest) = elim (Bool-cases a.supports_debugging) [
  | inl debugs ↦
      rw (count_loop, debugged_counts, debugs)
        (count_loop-least (min n a.address_watch_register_count) rest
          ∙ ap some (least_of-min n a.address_watch_register_count (debugged_counts rest)))
  | inr not_debugs ↦ rw (count_loop, debugged_counts, not_debugs) (count_loop-least n rest)
]

-- The number of watchpoints of a process is the least number of an agent that supports debugging, and
-- 0 where there is none.
pub watchpoint_count-least :
    (agents : List Agent) → watchpoint_count agents ≡ least (debugged_counts agents)
unfolding watchpoint_count count_loop debugged_counts least value_or
watchpoint_count-least [] = refl
watchpoint_count-least (a ∷ rest) = elim (Bool-cases a.supports_debugging) [
  | inl debugs ↦
      rw (watchpoint_count, count_loop, debugged_counts, debugs)
        (ap (value_or 0) (
          ap (λ n. count_loop (some n) rest) min_self
          ∙ count_loop-least a.address_watch_register_count rest))
  | inr not_debugs ↦
      rw (watchpoint_count, count_loop, debugged_counts, not_debugs) (watchpoint_count-least rest)
]
  where
    min_self :
        min a.address_watch_register_count a.address_watch_register_count
        ≡ a.address_watch_register_count
    min_self = omega arith
