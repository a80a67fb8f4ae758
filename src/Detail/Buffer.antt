-- ===== src/Detail/Buffer.antt =====
-- agent/runtime/detail_runtime.py: the buffer in which the lines of a job's detail page add up over
-- its screens, and the text that is made of it.
use l2c.Common.{
  ℕ, suc, ◌+◌, ◌-◌, String, Bool, false, ◌&&◌, ◌||◌, not, Option, none, some, List, [], ◌∷◌, ◌++◌,
  map, ◌==◌, ltb, leb, length, take, drop, last?, keep, first, max, if◌then◌else◌,
}
use l2c.Common.Text.{
  Unicode, is_empty, or_text, append, text_length, strip, rstrip, to_lower, joined_words, take_text,
}
use l2c.Site.{Sites, is_job_detail_context}
use l2c.Worker.State.{Marker}
use l2c.Worker.Replay.{holds}
use l2c.JobCards.Queue.{show_nat}

-- A line that the markers of a screen make.
pub record TextLine : Type 0 where
  pub text : String
  pub bbox : List ℕ
  pub ids : List ℕ

-- `JobDetailLine`, its box as ratios left out.
pub record JobDetailLine : Type 0 where
  pub line_id : ℕ
  pub text : String
  pub bbox : List ℕ
  pub marker_ids : List ℕ
  pub first_screen : String

-- `JobDetailScreenEvidence`
pub record ScreenEvidence : Type 0 where
  pub path : String
  pub added_lines : ℕ
  pub duplicate_lines : ℕ

-- `JobDetailStats`
pub record Stats : Type 0 where
  pub screen_count : ℕ
  pub added_lines_last_screen : ℕ
  pub duplicate_lines_last_screen : ℕ
  pub total_lines : ℕ

-- `JobDetailBuffer`; a buffer that does not exist has no URL.
pub record JobDetailBuffer : Type 0 where
  pub url : String
  pub detail_key : String
  pub lines : List JobDetailLine
  pub seen_keys : List String
  pub screens : List String
  pub screen_evidence : List ScreenEvidence
  pub stats : Stats

-- What the buffer asks of the rest of the program: the lines of a screen's markers
-- (`group_text_markers_into_lines` of Detail.Lines at its floats), and the settings
-- `detail_buffer_max_lines`, `detail_buffer_max_line_chars` and `detail_final_ocr_max_chars`.
pub record Reader : Type 0 where
  pub sites : Sites
  pub lines_of : List Marker → List TextLine
  pub max_lines : ℕ
  pub max_line_chars : ℕ
  pub max_chars : ℕ

unfoldable pub detail_context_matches : Unicode → JobDetailBuffer → String → String → Bool
detail_context_matches u buffer current_url detail_key =
    let stored = strip u buffer.detail_key in
    let resolved = strip u detail_key in
    if not (is_empty stored) && not (is_empty resolved)
    then stored == resolved
    else not (is_empty current_url) && buffer.url == current_url

abbrev pub no_stats : Stats
no_stats = record {
  screen_count = 0;
  added_lines_last_screen = 0;
  duplicate_lines_last_screen = 0;
  total_lines = 0;
}

abbrev pub new_job_detail_buffer : String → String → JobDetailBuffer
new_job_detail_buffer current_url detail_key = record {
  url = current_url;
  detail_key = detail_key;
  lines = [];
  seen_keys = [];
  screens = [];
  screen_evidence = [];
  stats = no_stats;
}

-- The loop's variables.
pub record Appended : Type 0 where
  pub lines : List JobDetailLine
  pub seen_keys : List String
  pub next_line_id : ℕ
  pub added : ℕ
  pub duplicate : ℕ

abbrev pub max_line_id : List JobDetailLine → ℕ
max_line_id [] = 0
max_line_id (line ∷ lines) = max line.line_id (max_line_id lines)

unfoldable pub clipped : Unicode → ℕ → String → String
clipped u max_line_chars text =
    if ltb max_line_chars (text_length text)
    then append (rstrip u (take_text (max_line_chars - 1) text)) "…"
    else text

abbrev pub with_line : TextLine → String → String → String → Appended → Appended
with_line line text key screen_name a = record {
  lines =
      a.lines
      ++ (record {
        line_id = a.next_line_id;
        text = text;
        bbox = line.bbox;
        marker_ids = line.ids;
        first_screen = screen_name;
      })
        ∷ [];
  seen_keys = a.seen_keys ++ key ∷ [];
  next_line_id = suc a.next_line_id;
  added = suc a.added;
  duplicate = a.duplicate;
}

-- One line, and whether the loop ends with it.
unfoldable pub append_line : Reader → String → TextLine → Appended → Appended × Bool
unfolding clipped
append_line r screen_name line a =
    let u = r.sites.unicode in
    let whole = strip u line.text in
    let text = clipped u r.max_line_chars whole in
    let key = to_lower u (joined_words u text) in
    if not (leb 2 (text_length whole)) || is_empty key
    then (a, false)
    else if holds key a.seen_keys
    then (record a { duplicate = suc a.duplicate }, false)
    else (with_line line text key screen_name a, leb r.max_lines (suc (length a.lines)))

unfoldable pub append_lines : Reader → String → List TextLine → Appended → Appended
unfolding append_line
append_lines r screen_name [] a = a
append_lines r screen_name (line ∷ lines) a =
    let next = append_line r screen_name line a in
    let rest = append_lines r screen_name lines next.0 in if next.1 then next.0 else rest

abbrev pub beginning : JobDetailBuffer → Appended
beginning buffer = record {
  lines = buffer.lines;
  seen_keys = keep (λ k. not (is_empty k)) buffer.seen_keys;
  next_line_id = suc (max_line_id buffer.lines);
  added = 0;
  duplicate = 0;
}

unfoldable pub append_detail_buffer_lines :
    Reader → JobDetailBuffer → List Marker → String → Appended
unfolding append_lines
append_detail_buffer_lines r buffer markers screen_name =
    append_lines r screen_name (r.lines_of markers) (beginning buffer)

abbrev pub is_last_path : String → Option String → Bool
is_last_path path none = false
is_last_path path (some p) = p == path

abbrev pub path_of : Option ScreenEvidence → Option String
path_of none = none
path_of (some evidence) = some evidence.path

unfoldable pub append_detail_screen_evidence :
    JobDetailBuffer → String → ℕ → ℕ → List String × List ScreenEvidence
append_detail_screen_evidence buffer path added duplicate =
    let screens = keep (λ s. not (is_empty s)) buffer.screens in
    let evidence = buffer.screen_evidence in
    (
      if not (is_empty path) && not (is_last_path path (last? screens))
          then screens ++ path ∷ []
          else screens,
      if not (is_empty path) && not (is_last_path path (path_of (last? evidence)))
          then evidence
            ++ (record { path = path; added_lines = added; duplicate_lines = duplicate }) ∷ []
          else evidence,
    )

-- `xs[-n:]`
abbrev pub take_last {ℓ} : {A : Type ℓ} → ℕ → List A → List A
take_last n xs = drop (length xs - n) xs

abbrev pub updated_buffer :
    Reader → JobDetailBuffer → List Marker → String → String → String → String → JobDetailBuffer
updated_buffer r buffer markers current_url screen_name screen_path detail_key =
    let a = append_detail_buffer_lines r buffer markers screen_name in
    let (screens, evidence) =
      append_detail_screen_evidence buffer screen_path a.added a.duplicate in
    record {
      url = current_url;
      detail_key = or_text detail_key buffer.detail_key;
      lines = take r.max_lines a.lines;
      seen_keys = take r.max_lines a.seen_keys;
      screens = take_last 20 screens;
      screen_evidence = take_last 20 evidence;
      stats = record {
        screen_count = suc buffer.stats.screen_count;
        added_lines_last_screen = a.added;
        duplicate_lines_last_screen = a.duplicate;
        total_lines = length a.lines;
      };
    }

-- The name and the resolved path of the screenshot stand for `image_path`.
unfoldable pub update_job_detail_buffer :
    Reader
    → JobDetailBuffer
    → List Marker
    → String
    → String
    → String
    → String
    → String
    → JobDetailBuffer
unfolding detail_context_matches append_detail_buffer_lines append_detail_screen_evidence
update_job_detail_buffer r existing markers current_url screen_name screen_path page_role
      detail_key =
    let buffer =
      (if detail_context_matches r.sites.unicode existing current_url detail_key
        then existing
        else new_job_detail_buffer current_url detail_key) in
    if is_empty current_url
      || not (
          is_job_detail_context r.sites current_url page_role
            (map (λ (m : Marker). m.text) markers))
    then existing
    else updated_buffer r buffer markers current_url screen_name screen_path detail_key

-- The rows of the rendered text, from an index and a length on.
unfoldable pub rendered_rows : Reader → ℕ → ℕ → List JobDetailLine → List String
rendered_rows r index total [] = []
rendered_rows r index total (line ∷ lines) =
    let text = strip r.sites.unicode line.text in
    let row = append (show_nat index) (append ". " text) in
    let next = total + text_length row + 1 in
    let skipped = rendered_rows r (suc index) total lines in
    let more = rendered_rows r (suc index) next lines in
    if is_empty text then skipped else if ltb r.max_chars next then [] else row ∷ more

-- `"\n".join(rows)`
unfoldable pub joined_rows : List String → String
joined_rows [] = ""
joined_rows (row ∷ []) = row
joined_rows (row ∷ next ∷ rows) = append row (append "\n" (joined_rows (next ∷ rows)))

unfoldable pub detail_buffer_text : Reader → JobDetailBuffer → String
unfolding rendered_rows joined_rows
detail_buffer_text r buffer = joined_rows (rendered_rows r 1 0 buffer.lines)

abbrev pub first_path : List String → String
first_path [] = ""
first_path (path ∷ paths) = path

abbrev pub evidence_path : String → Option ScreenEvidence → String
evidence_path fallback none = fallback
evidence_path fallback (some evidence) = evidence.path

unfoldable pub detail_evidence_screenshot : Unicode → JobDetailBuffer → String
detail_evidence_screenshot u buffer =
    evidence_path (first_path (keep (λ s. not (is_empty s)) buffer.screens)) (
      first (λ (evidence : ScreenEvidence). leb 1 evidence.added_lines)
        (keep (λ (evidence : ScreenEvidence). not (is_empty (strip u evidence.path)))
          buffer.screen_evidence))
