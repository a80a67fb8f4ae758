-- ===== src/Investigation/Termination.antt =====
-- A measure on the steps of the investigation graph (investigation_workflow.py `_build_graph`): how
-- often the plan may still change, then the steps left and the place in the loop.
use mathlib.Core.WellFounded.{Acc}
use l2c.Common.{
  ℕ, zero, suc, ◌+◌, ◌*◌, ◌≤◌, ◌<◌, String, ◌≡◌, refl, ◌∙◌, sym, subst, Bool, true, false, not,
  List, [], ◌∷◌, ◌++◌, arith, nat_eq, length, length-append, is_some, inl, inr, ◌⊎◌, ◌||◌,
  if◌then◌else◌, Bool-cases,
}
use l2c.Planning.Contract.{PlanStep, Requirement, Investigation}
use l2c.Investigation.State.{ExecutionState, InvestigationState}
use l2c.Investigation.Nodes.{
  Setting, Node, clarify, define_evidence, inspect_evidence, plan_actions, replan_actions, collect,
  persist, answer, route_after_evidence, route_after_plan, route_after_collect, collection_route,
  plan_actions_node, replan_actions_node, unused_capabilities,
}
use l2c.Investigation.Graph.{
  Config, Next, inspects, plans, replans, collects, persists, IsValid, inspected_state,
  with_execution, after_inspect, after_plan, after_collect, after_persist, Executes, Awaits,
  collect_node-cases, persist_node-Executes, remaining, Executes-fewer,
}
use l2c.Investigation.Validity.{Next-IsValid, planned-same_ids}
use l2c.Investigation.Safety.{first_look, first_look-IsValid}

-- The distance of a node to the next execution of a step.
abbrev rank : Node → ℕ
rank inspect_evidence = 4
rank plan_actions = 3
rank replan_actions = 3
rank collect = 2
rank persist = 1
rank _ = 0

abbrev plans_ahead : Node → Bool
plans_ahead inspect_evidence = true
plans_ahead plan_actions = true
plans_ahead _ = false

abbrev started : ExecutionState → Bool
started e = not (nat_eq (length e.executed_step_ids) 0)

-- How often the plan may still be replaced or extended.
abbrev stage : Config → ℕ
stage c =
    if started c.state.execution
    then (if c.state.execution.replan_attempted then 0 else 1)
    else if plans_ahead c.node
    then 3
    else 2

abbrev weight : Config → ℕ
weight c = 5 * remaining c.state.execution + rank c.node

abbrev Falls : Config → Config → Type 0
Falls c d = (stage d < stage c) ⊎ ((stage d ≤ stage c) × (weight d < weight c))

rank-le : (node : Node) → rank node ≤ 4
rank-le inspect_evidence = omega arith
rank-le plan_actions = omega arith
rank-le replan_actions = omega arith
rank-le collect = omega arith
rank-le persist = omega arith
rank-le answer = omega arith
rank-le clarify = omega arith
rank-le define_evidence = omega arith

module _ (g : Setting) (s : InvestigationState) where
  evidence-rank : rank (route_after_evidence g s) < 4
  unfolding route_after_evidence
  evidence-rank = ground arith

  plan-rank : plans_ahead (route_after_plan s) ≡ false
  unfolding route_after_plan
  plan-rank = ground arith

  collect-pending :
      is_some s.execution.pending_collection ≡ true → route_after_collect g s ≡ persist
  unfolding route_after_collect collection_route
  collect-pending h = ground arith

-- A state in which a step has been executed is at stage 0 or 1, by the replan alone.
stage-started :
    (c d : Config)
    → started d.state.execution ≡ true
    → d.state.execution.replan_attempted ≡ c.state.execution.replan_attempted
    → stage d ≤ stage c
stage-started c d h k = ground arith

added-started :
    (before after : ExecutionState) (id : String)
    → after.executed_step_ids ≡ before.executed_step_ids ++ id ∷ []
    → started after ≡ true
added-started before after id h =
    rw h (ground (arith, length-append before.executed_step_ids (id ∷ [])))

Executes-Falls :
    (c d : Config) → Executes c.state.execution d.state.execution → 1 ≤ rank c.node → Falls c d
Executes-Falls c d x h =
    let fewer = Executes-fewer c.state.execution d.state.execution x in
    inr (
      stage-started c d (added-started c.state.execution d.state.execution x.step.step_id x.added)
          x.same_replan,
      omega (arith, rank-le d.node, fewer, h),
    )

Awaits-Falls :
    (g : Setting) (c : Config) (e : ExecutionState)
    → c.node ≡ collect
    → Awaits c.state.execution e
    → Falls c (after_collect g (with_execution c.state e))
Awaits-Falls g c e at a =
    let waits = collect-pending g (with_execution c.state e) a.pending in
    inr (
      rw (at, waits, a.same_ids, a.same_replan) (ground arith),
      rw (at, waits, a.same_ids, a.same_plan) (omega arith),
    )

-- Before the first execution, leaving the planning leaves a stage.
unstarted-lt :
    (c d : Config)
    → c.state.execution.executed_step_ids ≡ []
    → d.state.execution.executed_step_ids ≡ []
    → plans_ahead c.node ≡ true
    → plans_ahead d.node ≡ false
    → stage d < stage c
unstarted-lt c d h k p q = rw (h, k, p, q) (omega arith)

replan-same :
    (g : Setting) (s : InvestigationState) (proposed : List PlanStep) (reason : String)
    → ((replan_actions_node g s proposed reason).executed_step_ids ≡ s.execution.executed_step_ids)
      × ((replan_actions_node g s proposed reason).replan_attempted ≡ true)
unfolding replan_actions_node
replan-same g s proposed reason =
    elim (Bool-cases
      (s.execution.replan_attempted || nat_eq (length (unused_capabilities g s)) 0)) [
        | inl e ↦ rw e (refl, refl)
        | inr e ↦ rw e (refl, refl)
      ]

replan-Falls :
    (g : Setting) (c : Config) (proposed : List PlanStep) (reason : String)
    → c.node ≡ replan_actions
    → IsValid c
    → Falls c (after_plan (with_execution c.state (replan_actions_node g c.state proposed reason)))
replan-Falls g c proposed reason at v =
    let kept = replan-same g c.state proposed reason in
    let ready = v.may_replan at in inl (rw (kept.0, kept.1, ready.0, ready.1) (omega arith))

plan-same :
    (g : Setting) (s : InvestigationState) (proposed : List PlanStep) (reason : String)
    → (plan_actions_node g s proposed reason).executed_step_ids ≡ s.execution.executed_step_ids
unfolding plan_actions_node
plan-same g s proposed reason = planned-same_ids _ _ reason s.execution

plan-Falls :
    (g : Setting) (c : Config) (proposed : List PlanStep) (reason : String)
    → c.node ≡ plan_actions
    → IsValid c
    → Falls c (after_plan (with_execution c.state (plan_actions_node g c.state proposed reason)))
plan-Falls g c proposed reason at v =
    let e = plan_actions_node g c.state proposed reason in
    let same = plan-same g c.state proposed reason ∙ v.before_plan at in
    inl (
      unstarted-lt c (after_plan (with_execution c.state e)) (v.before_plan at) same (rw at refl)
        (plan-rank g (with_execution c.state e)))

inspect-Falls :
    (g : Setting) (c : Config) (enough : Bool)
    → c.node ≡ inspect_evidence
    → Falls c (after_inspect g (inspected_state c.state enough))
inspect-Falls g c enough at =
    inr (
      rw at (ground arith),
      rw at (omega (arith, evidence-rank g (inspected_state c.state enough))),
    )

-- Every step of the graph from a valid configuration brings its end nearer.
Next-Falls : (g : Setting) (c d : Config) → Next g c d → IsValid c → Falls c d
Next-Falls g c d (inspects enough at same) v =
    subst (Falls c) (sym same) (inspect-Falls g c enough at)
Next-Falls g c d (plans proposed reason at same) v =
    subst (Falls c) (sym same) (plan-Falls g c proposed reason at v)
Next-Falls g c d (replans proposed reason at same) v =
    subst (Falls c) (sym same) (replan-Falls g c proposed reason at v)
Next-Falls g c d (collects attempt e at run same) v =
    subst (Falls c) (sym same) (elim (collect_node-cases c.state.execution attempt e run) [
      | inl a ↦ Awaits-Falls g c e at a
      | inr x ↦
          Executes-Falls c (after_collect g (with_execution c.state e)) x (rw at (omega arith))
    ])
Next-Falls g c d (persists attempt e at run same) v = subst (Falls c) (sym same) (
    Executes-Falls c (after_persist g (with_execution c.state e))
      (persist_node-Executes g c.state.execution attempt e run) (rw at (omega arith)))

-- Configurations below two bounds, by recursion on the first and then on the second.
below :
    (g : Setting) (n m : ℕ) (c : Config)
    → stage c < n
    → weight c < m
    → IsValid c
    → Acc (λ (d c : Config). Next g c d) c
below g zero m c hn hm v = absurd (omega arith)
below g (suc n) zero c hn hm v = absurd (omega arith)
below g (suc n) (suc m) c hn hm v = Acc.intro c (λ d step. elim (Next-Falls g c d step v) [
  | inl h ↦ below g n (suc (weight d)) d (omega arith) (omega arith) (Next-IsValid g c d step v)
  | inr h ↦ below g (suc n) m d (omega arith) (omega arith) (Next-IsValid g c d step v)
])

-- From its first look at the evidence, an investigation has no endless run: the steps of the graph
-- are well founded there, whatever steps the model proposes, however often its verdict on the
-- evidence changes, and whatever the worker and the database return or raise.
pub investigation_terminates :
    (g : Setting) (i : Investigation) (rs : List Requirement)
    → Acc (λ (d c : Config). Next g c d) (first_look i rs)
investigation_terminates g i rs =
    below g (suc (stage (first_look i rs))) (suc (weight (first_look i rs))) (first_look i rs)
      (omega arith) (omega arith) (first_look-IsValid i rs)
