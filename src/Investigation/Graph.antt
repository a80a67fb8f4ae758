-- ===== src/Investigation/Graph.antt =====
-- The steps of the compiled investigation graph (investigation_workflow.py `_build_graph`) from the
-- first look at the evidence on, and what holds along them.
use l2c.Common.{
  ℕ, ◌≤◌, ◌<◌, String, ◌≡◌, refl, Bool, true, false, not, Option, none, some, List, [], ◌∷◌, ◌++◌,
  arith, ==-refl, nat_eq, length, any, first, is_some, Bool-cases, inl, inr, ◌⊎◌, count_if,
}
use l2c.Planning.Contract.{PlanStep, member}
use l2c.Planning.Sound.{NoRepeats, member-append}
use l2c.Investigation.State.{
  Batch, PersistenceReport, CollectionResult, ExecutionState, InvestigationState,
}
use l2c.Investigation.Nodes.{
  Setting, Node, inspect_evidence, plan_actions, replan_actions, collect, persist, Attempt, updated,
  is_executed, has_remaining_steps, next_step, route_after_evidence, route_after_plan,
  route_after_collect, route_after_persist, plan_actions_node, replan_actions_node,
  complete_step_update, collected, collect_node, stored, persist_node,
}

-- The node that runs next, and the state that it finds.
pub record Config : Type 0 where
  pub node : Node
  pub state : InvestigationState

abbrev pub with_execution : InvestigationState → ExecutionState → InvestigationState
with_execution s e = record s { execution = e }

abbrev pub inspected_state : InvestigationState → Bool → InvestigationState
inspected_state s enough = record s { sufficient = enough }

-- Where each node leads, once the state is updated.
abbrev pub after_inspect : Setting → InvestigationState → Config
after_inspect g s = record { node = route_after_evidence g s; state = s }

abbrev pub after_plan : InvestigationState → Config
after_plan s = record { node = route_after_plan s; state = s }

abbrev pub after_collect : Setting → InvestigationState → Config
after_collect g s = record { node = route_after_collect g s; state = s }

abbrev pub after_persist : Setting → InvestigationState → Config
after_persist g s = record { node = route_after_persist g s; state = s }

-- One step, with what the outside answers as the constructor's arguments.
pub data Next (g : Setting) (c d : Config) : Type 0 where
  inspects :
      (enough : Bool)
      → c.node ≡ inspect_evidence
      → d ≡ after_inspect g (inspected_state c.state enough)
      → Next g c d
  plans :
      (proposed : List PlanStep) (reason : String)
      → c.node ≡ plan_actions
      → d ≡ after_plan (with_execution c.state (plan_actions_node g c.state proposed reason))
      → Next g c d
  replans :
      (proposed : List PlanStep) (reason : String)
      → c.node ≡ replan_actions
      → d ≡ after_plan (with_execution c.state (replan_actions_node g c.state proposed reason))
      → Next g c d
  collects :
      (attempt : Attempt Batch) (e : ExecutionState)
      → c.node ≡ collect
      → collect_node c.state.execution attempt ≡ updated e
      → d ≡ after_collect g (with_execution c.state e)
      → Next g c d
  persists :
      (attempt : Attempt PersistenceReport) (e : ExecutionState)
      → c.node ≡ persist
      → persist_node g c.state.execution attempt ≡ updated e
      → d ≡ after_persist g (with_execution c.state e)
      → Next g c d

-- What holds at each node.
pub record IsValid (c : Config) : Type 0 where
  pub unplanned : c.state.execution.plan ≡ [] → c.state.execution.executed_step_ids ≡ []
  pub before_plan : c.node ≡ plan_actions → c.state.execution.executed_step_ids ≡ []
  pub has_step : c.node ≡ collect → has_remaining_steps c.state.execution ≡ true
  pub has_batch :
      c.node ≡ persist
      → (has_remaining_steps c.state.execution ≡ true)
        × (is_some c.state.execution.pending_collection ≡ true)
  pub may_replan :
      c.node ≡ replan_actions
      → (c.state.execution.replan_attempted ≡ false)
        × (nat_eq (length c.state.execution.executed_step_ids) 0 ≡ false)
  pub once : NoRepeats c.state.execution.executed_step_ids

next_of_remaining :
    (ids : List String) (steps : List PlanStep)
    → any (λ (step : PlanStep). not (member step.step_id ids)) steps ≡ true
    → (step : PlanStep) × (first (λ (step : PlanStep). not (member step.step_id ids)) steps
        ≡ some step)
      × (member step.step_id ids ≡ false)
next_of_remaining ids [] h = absurd (cc)
next_of_remaining ids (x ∷ xs) h = elim (Bool-cases (member x.step_id ids)) [
  | inl e ↦
      let found = next_of_remaining ids xs (ground (arith, h, e)) in
      (found.0, ground (arith, e, found.1), found.2)
  | inr e ↦ (x, ground (arith, e), e)
]

-- A step that is left is found, and has not been executed.
pub next_step-found :
    (e : ExecutionState)
    → has_remaining_steps e ≡ true
    → (step : PlanStep) × (next_step e ≡ some step)
      × (member step.step_id e.executed_step_ids ≡ false)
unfolding has_remaining_steps next_step is_executed
next_step-found e h = next_of_remaining e.executed_step_ids e.plan h

-- The number of steps left.
abbrev pub remaining_of : List String → List PlanStep → ℕ
remaining_of ids steps = count_if (λ (step : PlanStep). not (member step.step_id ids)) steps

abbrev pub remaining : ExecutionState → ℕ
remaining e = remaining_of e.executed_step_ids e.plan

remaining-le :
    (ids : List String) (x : String) (steps : List PlanStep)
    → remaining_of (ids ++ x ∷ []) steps ≤ remaining_of ids steps
remaining-le ids x [] = omega arith
remaining-le ids x (s ∷ ss) =
    ground (arith, remaining-le ids x ss, member-append s.step_id ids (x ∷ []))

-- Executing the step that is found leaves fewer.
remaining-lt :
    (ids : List String) (steps : List PlanStep) (step : PlanStep)
    → first (λ (s : PlanStep). not (member s.step_id ids)) steps ≡ some step
    → remaining_of (ids ++ step.step_id ∷ []) steps < remaining_of ids steps
remaining-lt ids [] step h = absurd (cc)
remaining-lt ids (s ∷ ss) step h = elim (Bool-cases (member s.step_id ids)) [
  | inl e ↦
      ground (arith, remaining-lt ids ss step, member-append s.step_id ids (step.step_id ∷ []), e)
  | inr e ↦ ground (
    arith,
    remaining-le ids step.step_id ss,
    member-append s.step_id ids (step.step_id ∷ []),
    ==-refl step.step_id,
    e,
  )
]

-- What a node that executes a step makes of the execution section.
pub record Executes (before after : ExecutionState) : Type 0 where
  pub step : PlanStep
  pub chosen : next_step before ≡ some step
  pub same_plan : after.plan ≡ before.plan
  pub added : after.executed_step_ids ≡ before.executed_step_ids ++ step.step_id ∷ []
  pub same_replan : after.replan_attempted ≡ before.replan_attempted
  pub cleared : after.pending_collection ≡ none

-- What collecting a batch leaves to be persisted.
pub record Awaits (before after : ExecutionState) : Type 0 where
  pub same_plan : after.plan ≡ before.plan
  pub same_ids : after.executed_step_ids ≡ before.executed_step_ids
  pub same_replan : after.replan_attempted ≡ before.replan_attempted
  pub pending : is_some after.pending_collection ≡ true

Executes-complete :
    (e : ExecutionState) (step : PlanStep) (result : CollectionResult) (after : ExecutionState)
    → next_step e ≡ some step
    → updated (complete_step_update e step result) ≡ updated after
    → Executes e after
unfolding complete_step_update
Executes-complete e step result after h k = record {
  step = step;
  chosen = h;
  same_plan = cc;
  added = cc;
  same_replan = cc;
  cleared = cc;
}

collected-cases :
    (e : ExecutionState) (o : Option PlanStep) (attempt : Attempt Batch) (after : ExecutionState)
    → next_step e ≡ o
    → collected e o attempt ≡ updated after
    → Awaits e after ⊎ Executes e after
collected-cases e none attempt after h k = absurd (cc)
collected-cases e (some step) (Attempt.returned batch) after h k =
    inl (record { same_plan = cc; same_ids = cc; same_replan = cc; pending = ground arith })
collected-cases e (some step) (Attempt.raised name) after h k =
    inr (Executes-complete e step _ after h k)
collected-cases e (some step) Attempt.aborted after h k = absurd (cc)

stored-Executes :
    (g : Setting) (e : ExecutionState) (b : Option Batch) (o : Option PlanStep)
    (attempt : Attempt PersistenceReport) (after : ExecutionState)
    → next_step e ≡ o
    → stored g e b o attempt ≡ updated after
    → Executes e after
stored-Executes g e none o attempt after h k = absurd (cc)
stored-Executes g e (some b) none attempt after h k = absurd (cc)
stored-Executes g e (some b) (some step) (Attempt.returned report) after h k =
    Executes-complete e step _ after h k
stored-Executes g e (some b) (some step) (Attempt.raised name) after h k =
    Executes-complete e step _ after h k
stored-Executes g e (some b) (some step) Attempt.aborted after h k = absurd (cc)

pub collect_node-cases :
    (e : ExecutionState) (attempt : Attempt Batch) (after : ExecutionState)
    → collect_node e attempt ≡ updated after
    → Awaits e after ⊎ Executes e after
unfolding collect_node
collect_node-cases e attempt after h = collected-cases e (next_step e) attempt after refl h

pub persist_node-Executes :
    (g : Setting) (e : ExecutionState) (attempt : Attempt PersistenceReport)
    (after : ExecutionState)
    → persist_node g e attempt ≡ updated after
    → Executes e after
unfolding persist_node
persist_node-Executes g e attempt after h =
    stored-Executes g e e.pending_collection (next_step e) attempt after refl h

pub Executes-fewer :
    (before after : ExecutionState) → Executes before after → remaining after < remaining before
unfolding next_step is_executed
Executes-fewer before after x =
    rw (x.same_plan, x.added) (remaining-lt before.executed_step_ids before.plan x.step x.chosen)
