-- ===== src/Execution/Dispatch.antt =====
-- agent/graph/worker_execution_dispatch.py: the tool that a UI action calls, and the state actions.
use l2c.Common.{
  ℕ, String, true, false, Option, none, some, List, ◌==◌, length, leb, if◌then◌else◌, Raises,
  raised, returned,
}
use l2c.Common.Text.{or_text, append}
use l2c.Worker.State.{Card, Args, WorkerState}
use l2c.JobCards.Queue.{normalize_job_card_queue}
use l2c.Execution.Context.{
  ToolResult, ReviewMode, empty, unchanged, lightweight, primary, Env, Tools, Context, marker_bbox,
}

-- A call on the box that was found, or what the search for the box raised.
abbrev pub on_box {ℓ} : {A : Type ℓ} → (List ℕ → Raises A) → Raises (List ℕ) → Raises A
on_box f (raised error) = raised error
on_box f (returned bbox) = f bbox

abbrev pub scroll_on : Tools → Context → Args → Option ℕ → Raises ToolResult
scroll_on t c args none = t.scroll (or_text args.direction "down") none (or_text args.amount "page")
scroll_on t c args (some id) =
    on_box
      (λ bbox. t.scroll (or_text args.direction "down") (some bbox) (or_text args.amount "page"))
      (marker_bbox c (some id))

unfoldable pub dispatch_ui_action : Tools → Context → String → Args → Raises ToolResult
dispatch_ui_action t c action_name args =
    if action_name == "click_marker"
    then on_box t.click_marker (marker_bbox c args.marker_id)
    else if action_name == "type_in_marker"
    then on_box (λ bbox. t.type_in_marker bbox args.text) (marker_bbox c args.marker_id)
    else if action_name == "scroll"
    then scroll_on t c args args.marker_id
    else if action_name == "press_key"
    then t.press_key args.key
    else if action_name == "open_browser"
    then t.open_browser args.url c.state.observation.current_url
    else if action_name == "close_current_tab"
    then t.close_current_tab
    else if action_name == "switch_tab"
    then t.switch_tab args.direction
    else if action_name == "go_back"
    then t.go_back
    else raised (append "Unknown UI action: " action_name)

-- The update of a `StateActionOutcome`.
pub data StateUpdate : Type 0 where
  unchanged_state : StateUpdate
  stored_queue : List Card → StateUpdate
  requested_review : StateUpdate

abbrev pub StateActionOutcome : Type 0
StateActionOutcome = ToolResult × StateUpdate

abbrev pub told : String → String → String → String → ToolResult
told action status reason result = record {
  action = action;
  status = status;
  reason = reason;
  error = "";
  result = result;
  opened = false;
  url = "";
}

abbrev pub review_outcome : Raises ReviewMode → StateActionOutcome
review_outcome (raised error) = (
  told "review_job_detail" "error" "" (append "Failed to prepare detail review: " error),
  unchanged_state,
)
review_outcome (returned empty) = (
  told "review_job_detail" "skipped" "empty_job_detail_buffer"
      "No accumulated detail OCR text to review.",
  unchanged_state,
)
review_outcome (returned unchanged) =
    (told "review_job_detail" "skipped" "detail_evidence_unchanged" "", unchanged_state)
review_outcome (returned lightweight) = (
  told "review_job_detail" "success" "" "Accumulated detail OCR queued for review.",
  requested_review,
)
review_outcome (returned primary) = (
  told "review_job_detail" "success" "" "Accumulated detail OCR queued for review.",
  requested_review,
)

abbrev pub queue_outcome : Raises (List Card) → Raises StateActionOutcome
queue_outcome (raised error) = raised error
queue_outcome (returned queue) = returned (
  told "set_job_card_queue" (if leb 1 (length queue) then "success" else "skipped") "" (
      if leb 1 (length queue)
      then "Job card queue stored."
      else "No valid visible job cards were queued."),
  stored_queue queue,
)

unfoldable pub set_job_card_queue : Env → WorkerState → Args → Raises StateActionOutcome
unfolding normalize_job_card_queue
set_job_card_queue e s args = queue_outcome (
    e.mark_existing_job_cards (normalize_job_card_queue e.sites.unicode args.cards s)
      s.observation.current_url)

unfoldable pub dispatch_state_action : Env → WorkerState → String → Args → Raises StateActionOutcome
unfolding set_job_card_queue
dispatch_state_action e s action_name args =
    if action_name == "review_job_detail"
    then returned (review_outcome (e.job_review_request_mode s s.observation.current_url))
    else if action_name == "set_job_card_queue"
    then set_job_card_queue e s args
    else raised (append "Unknown state action: " action_name)

-- `apply_worker_state_update` of the update.
unfoldable pub apply_state_update : WorkerState → StateUpdate → WorkerState
apply_state_update s unchanged_state = s
apply_state_update s (stored_queue queue) = record s {
  collection = record s.collection { job_card_queue = queue };
  stage = "results";
}
apply_state_update s requested_review = record s {
  collection = record s.collection { has_job_draft = true };
}
