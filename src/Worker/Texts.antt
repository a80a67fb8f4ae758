-- ===== src/Worker/Texts.antt =====
-- agent/runtime/transition_runtime.py: the texts of a screen, and whether a typed text has appeared.
use l2c.Common.{
  String, Bool, false, ◌&&◌, ◌||◌, not, Option, none, some, List, [], ◌∷◌, any, ◌==◌, leb,
  if◌then◌else◌,
}
use l2c.Common.Text.{
  Unicode, is_empty, casefold, replace_char, text_length, starts_with, contains, normalize_text,
}
use l2c.Worker.State.{Marker, Previous, TransitionRequest, WorkerState}

module _ (u : Unicode) where
  -- `s.casefold().replace(" ", "")`
  unfoldable pub folded : String → String
  unfolding casefold replace_char
  folded s = replace_char b' ' "" (casefold u s)

  unfoldable pub marker_texts_from : List String → List Marker → List String
  unfolding folded text_length starts_with normalize_text
  marker_texts_from seen [] = []
  marker_texts_from seen (marker ∷ markers) =
      let value = normalize_text u marker.text in
      let key = folded value in
      let skipped = marker_texts_from seen markers in
      let taken = value ∷ marker_texts_from (key ∷ seen) markers in
      if not (leb 2 (text_length key))
        || any (λ k. k == key) seen
        || starts_with "상호작용 가능한 요소" value
      then skipped
      else taken

  unfoldable pub transition_marker_texts : List Marker → List String
  unfolding marker_texts_from
  transition_marker_texts markers = marker_texts_from [] markers

  abbrev pub previous_markers : Option Previous → List Marker
  previous_markers none = []
  previous_markers (some previous) = previous.markers

  unfoldable pub contains_input : String → List String → Bool
  unfolding folded contains
  contains_input input_text texts = any (λ text. contains input_text (folded text)) texts

  abbrev pub types_text : TransitionRequest → Bool
  types_text request =
      request.action == "type_in_marker"
      || any (λ a. a == "type_in_marker") request.transition_actions

  unfoldable pub input_text_confirmed_by_ocr : WorkerState → TransitionRequest → Bool
  unfolding folded contains_input transition_marker_texts
  input_text_confirmed_by_ocr s request =
      let input_text = folded request.input_text in
      if not (types_text request) || is_empty input_text
      then false
      else contains_input input_text (transition_marker_texts s.observation.current_markers)
        && not (
            contains_input input_text
              (transition_marker_texts (previous_markers s.observation.previous)))
