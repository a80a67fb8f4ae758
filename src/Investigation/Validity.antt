-- ===== src/Investigation/Validity.antt =====
-- The invariant of the investigation graph along its steps, by the routes that the nodes take.
use l2c.Common.{
  String, ◌≡◌, ◌≢◌, refl, ◌∙◌, sym, subst, true, false, not, Option, none, some, List, [], ◌∷◌,
  ◌++◌, arith, nat_eq, length, first, first-hit, first-miss, is_some, ◌||◌, Bool-cases, inl, inr,
  ◌⊎◌,
}
use l2c.Planning.Contract.{PlanStep, member}
use l2c.Planning.Sound.{NoRepeats, NoRepeats-snoc}
use l2c.Investigation.State.{Batch, ExecutionState, InvestigationState}
use l2c.Investigation.Nodes.{
  Setting, plan_actions, replan_actions, collect, persist, Attempt, updated, has_remaining_steps,
  next_step, is_executed, can_replan, route_after_evidence, route_after_plan, route_after_collect,
  route_after_persist, plan_actions_node, replan_actions_node, collect_node, planned,
  unused_capabilities,
}
use l2c.Investigation.Graph.{
  Config, Next, inspects, plans, replans, collects, persists, IsValid, inspected_state,
  with_execution, after_inspect, after_plan, after_collect, after_persist, Executes, Awaits,
  collect_node-cases, persist_node-Executes,
}

no_ids : (ids : List String) → nat_eq (length ids) 0 ≡ true → ids ≡ []
no_ids [] h = refl
no_ids (x ∷ xs) h = absurd (ground arith)

no_plan : (steps : List PlanStep) → nat_eq (length steps) 0 ≡ true → steps ≡ []
no_plan [] h = refl
no_plan (x ∷ xs) h = absurd (ground arith)

module _ (g : Setting) (s : InvestigationState) where
  evidence-collect : route_after_evidence g s ≡ collect → has_remaining_steps s.execution ≡ true
  unfolding route_after_evidence
  evidence-collect h = ground arith

  evidence-plan :
      route_after_evidence g s ≡ plan_actions
      → (nat_eq (length s.execution.executed_step_ids) 0 ≡ true)
        ⊎ (nat_eq (length s.execution.plan) 0 ≡ true)
  unfolding route_after_evidence
  evidence-plan h = ground arith

  pub evidence-persist : route_after_evidence g s ≢ persist
  unfolding route_after_evidence
  evidence-persist h = ground arith

  plan-collect : route_after_plan s ≡ collect → has_remaining_steps s.execution ≡ true
  unfolding route_after_plan
  plan-collect h = ground arith

  abbrev Replannable : Type 0
  Replannable =
      (s.execution.replan_attempted ≡ false)
      × (nat_eq (length s.execution.executed_step_ids) 0 ≡ false)

  can_replan-Replannable : can_replan g s ≡ true → Replannable
  unfolding can_replan
  can_replan-Replannable h = (ground arith, ground arith)

  evidence-replan : route_after_evidence g s ≡ replan_actions → Replannable
  unfolding route_after_evidence
  evidence-replan h = can_replan-Replannable (ground arith)

  collect-replan : route_after_collect g s ≡ replan_actions → Replannable
  unfolding route_after_collect
  collect-replan h = can_replan-Replannable (ground arith)

  persist-replan : route_after_persist g s ≡ replan_actions → Replannable
  unfolding route_after_persist
  persist-replan h = can_replan-Replannable (ground arith)

  plan-replan : route_after_plan s ≢ replan_actions
  unfolding route_after_plan
  plan-replan h = ground arith

  pub plan-others : (route_after_plan s ≢ persist) × (route_after_plan s ≢ plan_actions)
  unfolding route_after_plan
  plan-others = ground arith

  collect-collect : route_after_collect g s ≡ collect → has_remaining_steps s.execution ≡ true
  unfolding route_after_collect
  collect-collect h = ground arith

  pub collect-persist :
      route_after_collect g s ≡ persist → is_some s.execution.pending_collection ≡ true
  unfolding route_after_collect
  collect-persist h = ground arith

  collect-plan : route_after_collect g s ≢ plan_actions
  unfolding route_after_collect
  collect-plan h = ground arith

  persist-collect : route_after_persist g s ≡ collect → has_remaining_steps s.execution ≡ true
  unfolding route_after_persist
  persist-collect h = ground arith

  pub persist-others :
      (route_after_persist g s ≢ persist) × (route_after_persist g s ≢ plan_actions)
  unfolding route_after_persist
  persist-others = ground arith

-- What holds of the execution section at every node.
record Sound (e : ExecutionState) : Type 0 where
  unplanned : e.plan ≡ [] → e.executed_step_ids ≡ []
  once : NoRepeats e.executed_step_ids

IsValid-Sound : (c : Config) → IsValid c → Sound c.state.execution
IsValid-Sound c v = record { unplanned = v.unplanned; once = v.once }

inspect-IsValid :
    (g : Setting) (s : InvestigationState) → Sound s.execution → IsValid (after_inspect g s)
inspect-IsValid g s v = record {
  unplanned = v.unplanned;
  before_plan = λ h. planless (evidence-plan g s h);
  has_step = evidence-collect g s;
  has_batch = λ h. absurd (evidence-persist g s h);
  may_replan = evidence-replan g s;
  once = v.once;
}
  where
    planless :
        (nat_eq (length s.execution.executed_step_ids) 0 ≡ true)
          ⊎ (nat_eq (length s.execution.plan) 0 ≡ true)
        → s.execution.executed_step_ids ≡ []
    planless (inl h) = no_ids s.execution.executed_step_ids h
    planless (inr h) = v.unplanned (no_plan s.execution.plan h)

plan-IsValid : (g : Setting) (s : InvestigationState) → Sound s.execution → IsValid (after_plan s)
plan-IsValid g s v = record {
  unplanned = v.unplanned;
  before_plan = λ h. absurd ((plan-others g s).1 h);
  has_step = plan-collect g s;
  has_batch = λ h. absurd ((plan-others g s).0 h);
  may_replan = λ h. absurd (plan-replan g s h);
  once = v.once;
}

collect-IsValid :
    (g : Setting) (s : InvestigationState)
    → Sound s.execution
    → (is_some s.execution.pending_collection ≡ true → has_remaining_steps s.execution ≡ true)
    → IsValid (after_collect g s)
collect-IsValid g s v left = record {
  unplanned = v.unplanned;
  before_plan = λ h. absurd (collect-plan g s h);
  has_step = collect-collect g s;
  has_batch = λ h. (left (collect-persist g s h), collect-persist g s h);
  may_replan = collect-replan g s;
  once = v.once;
}

persist-IsValid :
    (g : Setting) (s : InvestigationState) → Sound s.execution → IsValid (after_persist g s)
persist-IsValid g s v = record {
  unplanned = v.unplanned;
  before_plan = λ h. absurd ((persist-others g s).1 h);
  has_step = persist-collect g s;
  has_batch = λ h. absurd ((persist-others g s).0 h);
  may_replan = persist-replan g s;
  once = v.once;
}

-- The step that is found is one of the plan, and has not been executed.
first-unexecuted :
    (ids : List String) (steps : List PlanStep) (step : PlanStep)
    → first (λ (s : PlanStep). not (member s.step_id ids)) steps ≡ some step
    → (steps ≢ []) × (member step.step_id ids ≡ false)
first-unexecuted ids [] step h = absurd (cc)
first-unexecuted ids (s ∷ ss) step h = elim (Bool-cases (member s.step_id ids)) [
  | inl e ↦ (
    λ k. cc,
    (first-unexecuted ids ss step
        (first-miss (λ (s : PlanStep). not (member s.step_id ids)) s ss (ground (arith, e)) h)).1,
  )
  | inr e ↦ (
    λ k. cc,
    subst (λ (x : PlanStep). member x.step_id ids ≡ false)
        (first-hit (λ (s : PlanStep). not (member s.step_id ids)) s ss (ground (arith, e)) h) e,
  )
]

pub next_step-unexecuted :
    (e : ExecutionState) (step : PlanStep)
    → next_step e ≡ some step
    → (e.plan ≢ []) × (member step.step_id e.executed_step_ids ≡ false)
unfolding next_step is_executed
next_step-unexecuted e step h = first-unexecuted e.executed_step_ids e.plan step h

Executes-Sound :
    (before after : ExecutionState) → Sound before → Executes before after → Sound after
Executes-Sound before after v x =
    let found = next_step-unexecuted before x.step x.chosen in
    record {
      unplanned = λ h. absurd (found.0 (sym x.same_plan ∙ h));
      once =
          subst NoRepeats (sym x.added)
            (NoRepeats-snoc before.executed_step_ids x.step.step_id v.once found.1);
    }

Awaits-Sound : (before after : ExecutionState) → Sound before → Awaits before after → Sound after
Awaits-Sound before after v a = record {
  unplanned = λ h. a.same_ids ∙ v.unplanned (sym a.same_plan ∙ h);
  once = subst NoRepeats (sym a.same_ids) v.once;
}

no_batch : (o : Option Batch) → o ≡ none → is_some o ≢ true
no_batch none h k = cc
no_batch (some batch) h k = cc

collect-Sound :
    (e after : ExecutionState) (attempt : Attempt Batch)
    → Sound e
    → has_remaining_steps e ≡ true
    → collect_node e attempt ≡ updated after
    → Sound after × (is_some after.pending_collection ≡ true → has_remaining_steps after ≡ true)
unfolding has_remaining_steps is_executed
collect-Sound e after attempt v left h = elim (collect_node-cases e attempt after h) [
  | inl a ↦ (Awaits-Sound e after v a, λ k. rw (a.same_plan, a.same_ids) left)
  | inr x ↦
      (Executes-Sound e after v x, λ k. absurd (no_batch after.pending_collection x.cleared k))
]

pub planned-same_ids :
    (o : Option PlanStep) (steps : List PlanStep) (reason : String) (e : ExecutionState)
    → (planned o steps reason e).executed_step_ids ≡ e.executed_step_ids
planned-same_ids none steps reason e = refl
planned-same_ids (some step) steps reason e = refl

no_append : (xs ys : List PlanStep) → xs ++ ys ≡ [] → xs ≡ []
no_append [] ys h = refl
no_append (x ∷ xs) ys h = absurd (cc)

plan_actions-Sound :
    (g : Setting) (s : InvestigationState) (proposed : List PlanStep) (reason : String)
    → s.execution.executed_step_ids ≡ []
    → Sound s.execution
    → Sound (plan_actions_node g s proposed reason)
unfolding plan_actions_node
plan_actions-Sound g s proposed reason none_yet v =
    let same = planned-same_ids _ _ reason s.execution in
    record { unplanned = λ h. same ∙ none_yet; once = subst NoRepeats (sym same) v.once }

replan_actions-Sound :
    (g : Setting) (s : InvestigationState) (proposed : List PlanStep) (reason : String)
    → Sound s.execution
    → Sound (replan_actions_node g s proposed reason)
unfolding replan_actions_node
replan_actions-Sound g s proposed reason v =
    elim (Bool-cases
      (s.execution.replan_attempted || nat_eq (length (unused_capabilities g s)) 0)) [
        | inl e ↦ rw e (record { unplanned = v.unplanned; once = v.once })
        | inr e ↦ rw e (record {
          unplanned = λ h. v.unplanned (no_append s.execution.plan _ h);
          once = v.once;
        })
      ]

-- Every step of the graph keeps validity.
pub Next-IsValid : (g : Setting) (c d : Config) → Next g c d → IsValid c → IsValid d
Next-IsValid g c d (inspects enough at same) v =
    subst IsValid (sym same)
      (inspect-IsValid g (inspected_state c.state enough) (IsValid-Sound c v))
Next-IsValid g c d (plans proposed reason at same) v = subst IsValid (sym same) (
    plan-IsValid g _
      (plan_actions-Sound g c.state proposed reason (v.before_plan at) (IsValid-Sound c v)))
Next-IsValid g c d (replans proposed reason at same) v =
    subst IsValid (sym same)
      (plan-IsValid g _ (replan_actions-Sound g c.state proposed reason (IsValid-Sound c v)))
Next-IsValid g c d (collects attempt e at run same) v =
    let kept = collect-Sound c.state.execution e attempt (IsValid-Sound c v) (v.has_step at) run in
    subst IsValid (sym same) (collect-IsValid g (with_execution c.state e) kept.0 kept.1)
Next-IsValid g c d (persists attempt e at run same) v = subst IsValid (sym same) (
    persist-IsValid g (with_execution c.state e) (
      Executes-Sound c.state.execution e (IsValid-Sound c v)
        (persist_node-Executes g c.state.execution attempt e run)))
