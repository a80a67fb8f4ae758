-- ===== src/Investigation/Safety.antt =====
-- The runs of an investigation from its first look at the evidence on, and the nodes of
-- investigation_collection_nodes.py that raise without a step or a batch.
use l2c.Common.{◌≡◌, ◌≢◌, refl, sym, subst, true, Option, none, some, List, is_some}
use l2c.Planning.Contract.{PlanStep, Requirement, Investigation}
use l2c.Investigation.State.{Batch, PersistenceReport, ExecutionState, create_investigation_state}
use l2c.Investigation.Nodes.{
  Setting, inspect_evidence, collect, persist, Attempt, broken, next_step, collect_node,
  persist_node,
}
use l2c.Investigation.Graph.{Config, Next, IsValid, next_step-found}
use l2c.Investigation.Validity.{Next-IsValid}

-- An investigation about to look at its evidence for the first time.
abbrev pub first_look : Investigation → List Requirement → Config
first_look investigation requirements = record {
  node = inspect_evidence;
  state = record (create_investigation_state investigation) { requirements = requirements };
}

pub data Reaches (g : Setting) (c : Config) : Config → Type 0 where
  stays : (d : Config) → d ≡ c → Reaches g c d
  follows : (b d : Config) → Reaches g c b → Next g b d → Reaches g c d

pub first_look-IsValid : (i : Investigation) (rs : List Requirement) → IsValid (first_look i rs)
first_look-IsValid i rs = record {
  unplanned = λ h. refl;
  before_plan = λ h. refl;
  has_step = λ h. absurd (cc);
  has_batch = λ h. absurd (cc);
  may_replan = λ h. absurd (cc);
  once = _;
}

module _ (g : Setting) (i : Investigation) (rs : List Requirement) where
  pub reached-IsValid : (c : Config) → Reaches g (first_look i rs) c → IsValid c
  reached-IsValid c (stays _ same) = subst IsValid (sym same) (first_look-IsValid i rs)
  reached-IsValid c (follows b _ before step) = Next-IsValid g b c step (reached-IsValid b before)

module _ (e : ExecutionState) where
  collect_node-found :
      (attempt : Attempt Batch) (step : PlanStep)
      → next_step e ≡ some step
      → collect_node e attempt ≢ broken
  unfolding collect_node
  collect_node-found (Attempt.returned batch) step h k = absurd (cc)
  collect_node-found (Attempt.raised name) step h k = absurd (cc)
  collect_node-found Attempt.aborted step h k = absurd (cc)

  persist_node-found :
      (g : Setting) (attempt : Attempt PersistenceReport) (step : PlanStep) (batch : Batch)
      → next_step e ≡ some step
      → e.pending_collection ≡ some batch
      → persist_node g e attempt ≢ broken
  unfolding persist_node
  persist_node-found g (Attempt.returned report) step batch h b k = absurd (cc)
  persist_node-found g (Attempt.raised name) step batch h b k = absurd (cc)
  persist_node-found g Attempt.aborted step batch h b k = absurd (cc)

no_batch : (o : Option Batch) → is_some o ≡ true → (batch : Batch) × (o ≡ some batch)
no_batch none h = absurd (cc)
no_batch (some batch) h = (batch, refl)

module _ (g : Setting) (i : Investigation) (rs : List Requirement) where
  -- On every run from the first look at the evidence, the collection node finds a step that is
  -- left, whatever the worker answers.
  pub collect_node-has_step :
      (c : Config) (attempt : Attempt Batch)
      → Reaches g (first_look i rs) c
      → c.node ≡ collect
      → collect_node c.state.execution attempt ≢ broken
  collect_node-has_step c attempt run at =
      let v = reached-IsValid g i rs c run in
      let found = next_step-found c.state.execution (v.has_step at) in
      collect_node-found c.state.execution attempt found.0 found.1

  -- On every run from the first look at the evidence, the persistence node finds a step that is
  -- left and a collected batch, whatever the database answers.
  pub persist_node-has_batch :
      (c : Config) (attempt : Attempt PersistenceReport)
      → Reaches g (first_look i rs) c
      → c.node ≡ persist
      → persist_node g c.state.execution attempt ≢ broken
  persist_node-has_batch c attempt run at =
      let v = reached-IsValid g i rs c run in
      let found = next_step-found c.state.execution (v.has_batch at).0 in
      let batch = no_batch c.state.execution.pending_collection (v.has_batch at).1 in
      persist_node-found c.state.execution g attempt found.0 batch.0 found.1 batch.1
