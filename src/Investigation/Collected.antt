-- ===== src/Investigation/Collected.antt =====
-- The steps that a run of the investigation gives to the worker, against those that it records.
use mathlib.Core.List.{append-nil}
use l2c.Common.{
  String, ◌≡◌, ◌≢◌, refl, ◌∙◌, ap, sym, subst, true, Option, none, some, List, [], ◌∷◌, ◌++◌, arith,
  is_some, inl, inr, ◌⊎◌,
}
use l2c.Planning.Contract.{PlanStep, Requirement, Investigation}
use l2c.Planning.Sound.{NoRepeats, NoRepeats-snoc}
use l2c.Investigation.State.{ExecutionState, InvestigationState}
use l2c.Investigation.Nodes.{
  Setting, Node, clarify, define_evidence, inspect_evidence, plan_actions, replan_actions, collect,
  persist, answer, next_step, route_after_collect, plan_actions_node, replan_actions_node,
  collection_route, is_executed,
}
use l2c.Investigation.Graph.{
  Config, Next, inspects, plans, replans, collects, persists, Executes, Awaits, with_execution,
  inspected_state, after_inspect, after_plan, collect_node-cases, persist_node-Executes,
}
use l2c.Investigation.Validity.{
  evidence-persist, plan-others, collect-persist, persist-others, planned-same_ids,
  next_step-unexecuted,
}
use l2c.Investigation.Safety.{first_look, Reaches, stays, follows, reached-IsValid}

abbrev pub step_ids : Option PlanStep → List String
step_ids none = []
step_ids (some step) = step.step_id ∷ []

-- The steps given to the worker, after one more step of the graph: the collection node gives it the
-- one that it finds.
abbrev pub collected_after :
    {g : Setting} {d : Config} → List String → (b : Config) → Next g b d → List String
collected_after ids b (inspects enough at same) = ids
collected_after ids b (plans proposed reason at same) = ids
collected_after ids b (replans proposed reason at same) = ids
collected_after ids b (collects attempt e at run same) =
    ids ++ step_ids (next_step b.state.execution)
collected_after ids b (persists attempt e at run same) = ids

-- The steps that the collection node gave to the worker on a run, one for each time that it ran.
unfoldable pub collected_ids : {g : Setting} {c d : Config} → Reaches g c d → List String
collected_ids (stays d same) = []
collected_ids (follows b d before step) = collected_after (collected_ids before) b step

-- At the persistence node, the step whose batch waits there.
abbrev pub waiting_at : Node → ExecutionState → List String
waiting_at persist e = step_ids (next_step e)
waiting_at _ e = []

waiting-elsewhere : (node : Node) (e : ExecutionState) → node ≢ persist → waiting_at node e ≡ []
waiting-elsewhere clarify e h = refl
waiting-elsewhere define_evidence e h = refl
waiting-elsewhere inspect_evidence e h = refl
waiting-elsewhere plan_actions e h = refl
waiting-elsewhere replan_actions e h = refl
waiting-elsewhere collect e h = refl
waiting-elsewhere persist e h = absurd (h refl)
waiting-elsewhere answer e h = refl

-- The recorded steps, and the one that waits to be recorded.
abbrev pub recorded : Config → List String
recorded c = c.state.execution.executed_step_ids ++ waiting_at c.node c.state.execution

-- Where no batch waits, before or after, and the recorded steps stay.
recorded-quiet :
    (b d : Config)
    → b.node ≢ persist
    → d.node ≢ persist
    → d.state.execution.executed_step_ids ≡ b.state.execution.executed_step_ids
    → recorded b ≡ recorded d
recorded-quiet b d h k same =
    rw
      (
        waiting-elsewhere b.node b.state.execution h,
        waiting-elsewhere d.node d.state.execution k,
        same,
      )
      refl

plan-same_ids :
    (g : Setting) (s : InvestigationState) (proposed : List PlanStep) (reason : String)
    → (plan_actions_node g s proposed reason).executed_step_ids ≡ s.execution.executed_step_ids
unfolding plan_actions_node
plan-same_ids g s proposed reason = planned-same_ids _ _ reason s.execution

replan-same_ids :
    (g : Setting) (s : InvestigationState) (proposed : List PlanStep) (reason : String)
    → (replan_actions_node g s proposed reason).executed_step_ids ≡ s.execution.executed_step_ids
unfolding replan_actions_node
replan-same_ids g s proposed reason = ground arith

awaiting-persist :
    (g : Setting) (s : InvestigationState)
    → is_some s.execution.pending_collection ≡ true
    → route_after_collect g s ≡ persist
unfolding route_after_collect collection_route
awaiting-persist g s h = ground arith

Awaits-recorded :
    (g : Setting) (b : Config) (e : ExecutionState)
    → b.node ≡ collect
    → Awaits b.state.execution e
    → recorded b ++ step_ids (next_step b.state.execution)
      ≡ e.executed_step_ids ++ waiting_at (route_after_collect g (with_execution b.state e)) e
unfolding next_step is_executed
Awaits-recorded g b e at a =
    rw
      (
        at,
        awaiting-persist g (with_execution b.state e) a.pending,
        a.same_plan,
        a.same_ids,
        append-nil b.state.execution.executed_step_ids,
      )
      refl

-- Executing a step records it.
Executes-recorded :
    (before after : ExecutionState) (node : Node)
    → Executes before after
    → node ≢ persist
    → before.executed_step_ids ++ step_ids (next_step before)
      ≡ after.executed_step_ids ++ waiting_at node after
Executes-recorded before after node x h =
    ap (λ o. before.executed_step_ids ++ step_ids o) x.chosen
    ∙ sym x.added
    ∙ sym (append-nil after.executed_step_ids)
    ∙ ap (λ ids. after.executed_step_ids ++ ids) (sym (waiting-elsewhere node after h))

cleared-elsewhere :
    (g : Setting) (s : InvestigationState)
    → s.execution.pending_collection ≡ none
    → route_after_collect g s ≢ persist
cleared-elsewhere g s h k = none_waits s.execution.pending_collection h (collect-persist g s k)
  where
    none_waits : {A : Type 0} (o : Option A) → o ≡ none → is_some o ≢ true
    none_waits none h k = cc
    none_waits (some a) h k = cc

collect-recorded :
    (g : Setting) (b : Config) (e : ExecutionState)
    → b.node ≡ collect
    → Awaits b.state.execution e ⊎ Executes b.state.execution e
    → recorded b ++ step_ids (next_step b.state.execution)
      ≡ e.executed_step_ids ++ waiting_at (route_after_collect g (with_execution b.state e)) e
collect-recorded g b e at (inl a) = Awaits-recorded g b e at a
collect-recorded g b e at (inr x) =
    rw (at, append-nil b.state.execution.executed_step_ids)
      (Executes-recorded b.state.execution e (route_after_collect g (with_execution b.state e)) x
        (cleared-elsewhere g (with_execution b.state e) x.cleared))

Next-recorded :
    (g : Setting) (b d : Config) (ids : List String) (step : Next g b d)
    → ids ≡ recorded b
    → collected_after ids b step ≡ recorded d
Next-recorded g b d ids (inspects enough at same) h =
    let away : b.node ≢ persist = λ k. cc in
    subst (λ (x : Config). ids ≡ recorded x) (sym same)
      (h
        ∙ recorded-quiet b (after_inspect g (inspected_state b.state enough)) away
            (evidence-persist g (inspected_state b.state enough)) refl)
Next-recorded g b d ids (plans proposed reason at same) h =
    let away : b.node ≢ persist = λ k. cc in
    let e = plan_actions_node g b.state proposed reason in
    subst (λ (x : Config). ids ≡ recorded x) (sym same)
      (h
        ∙ recorded-quiet b (after_plan (with_execution b.state e)) away
            (plan-others g (with_execution b.state e)).0 (plan-same_ids g b.state proposed reason))
Next-recorded g b d ids (replans proposed reason at same) h =
    let away : b.node ≢ persist = λ k. cc in
    let e = replan_actions_node g b.state proposed reason in
    subst (λ (x : Config). ids ≡ recorded x) (sym same)
      (h
        ∙ recorded-quiet b (after_plan (with_execution b.state e)) away
            (plan-others g (with_execution b.state e)).0
            (replan-same_ids g b.state proposed reason))
Next-recorded g b d ids (collects attempt e at run same) h =
    subst (λ (x : Config). ids ++ step_ids (next_step b.state.execution) ≡ recorded x) (sym same)
      (ap (λ is. is ++ step_ids (next_step b.state.execution)) h
        ∙ collect-recorded g b e at (collect_node-cases b.state.execution attempt e run))
Next-recorded g b d ids (persists attempt e at run same) h =
    subst (λ (x : Config). ids ≡ recorded x) (sym same)
      (h
        ∙ ap (λ node. b.state.execution.executed_step_ids ++ waiting_at node b.state.execution) at
        ∙ Executes-recorded b.state.execution e _
            (persist_node-Executes g b.state.execution attempt e run)
            (persist-others g (with_execution b.state e)).0)

Node-cases : (node : Node) → (node ≡ persist) ⊎ (node ≢ persist)
Node-cases clarify = inr (λ h. cc)
Node-cases define_evidence = inr (λ h. cc)
Node-cases inspect_evidence = inr (λ h. cc)
Node-cases plan_actions = inr (λ h. cc)
Node-cases replan_actions = inr (λ h. cc)
Node-cases collect = inr (λ h. cc)
Node-cases persist = inl refl
Node-cases answer = inr (λ h. cc)

once-found :
    (e : ExecutionState) (o : Option PlanStep)
    → next_step e ≡ o
    → NoRepeats e.executed_step_ids
    → NoRepeats (e.executed_step_ids ++ step_ids o)
once-found e none h once = subst NoRepeats (sym (append-nil e.executed_step_ids)) once
once-found e (some step) h once =
    NoRepeats-snoc e.executed_step_ids step.step_id once (next_step-unexecuted e step h).1

once-waiting :
    (node : Node) (e : ExecutionState)
    → NoRepeats e.executed_step_ids
    → NoRepeats (e.executed_step_ids ++ waiting_at node e)
once-waiting node e once = elim (Node-cases node) [
  | inl at ↦ rw at (once-found e (next_step e) refl once)
  | inr away ↦ rw (waiting-elsewhere node e away, append-nil e.executed_step_ids) once
]

module _ (g : Setting) (i : Investigation) (rs : List Requirement) where
  recorded_lem : (c : Config) (run : Reaches g (first_look i rs) c) → collected_ids run ≡ recorded c
  unfolding collected_ids
  recorded_lem c (stays _ same) = subst (λ (x : Config). [] ≡ recorded x) (sym same) refl
  recorded_lem c (follows b _ before step) =
      Next-recorded g b c (collected_ids before) step (recorded_lem b before)

  -- On any run from the first look at the evidence, no step is given to the worker twice, and the
  -- steps given to it are, in order, those that are recorded as executed, followed, at the
  -- persistence node, by the one whose batch waits there.
  pub collected-once :
      (c : Config) (run : Reaches g (first_look i rs) c)
      → NoRepeats (collected_ids run) × (collected_ids run ≡ recorded c)
  collected-once c run =
      let same = recorded_lem c run in
      (
        subst NoRepeats (sym same)
            (once-waiting c.node c.state.execution (reached-IsValid g i rs c run).once),
        same,
      )
