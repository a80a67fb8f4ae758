-- ===== src/Examples/Details.antt =====
-- A buffer of at most one line, and two screens of a job's detail page.
use l2c.Common.{
  ℕ, ◌+◌, ◌-◌, ◌*◌, ◌/◌, ◌≤◌, String, ◌≡◌, refl, ◌&&◌, leb, List, [], ◌∷◌, map, length, count_if,
  arith,
}
use l2c.Common.Text.{text_length, replace_char, casefold, normalize_text, to_lower, joined_words}
use l2c.Site.{is_job_detail_context, normalize_page_role}
use l2c.Worker.State.{Marker}
use l2c.Detail.Buffer.{
  JobDetailBuffer, Reader, new_job_detail_buffer, update_job_detail_buffer, detail_context_matches,
  detail_buffer_text,
}
use l2c.Detail.Bounds.{IsValid, update_job_detail_buffer-IsValid}
use l2c.Detail.Rendered.{text_length-detail_buffer_text}
use l2c.Detail.Overflow.{full_buffer-overcounts}
use l2c.Detail.Lines.{Floats, concat, line_segments, group_text_markers_into_lines}
use l2c.Detail.Grouping.{count_if-line_segments}
use l2c.Examples.{ascii, sites}

-- Rounding down takes the place of floating point.
abbrev floats : Floats ℕ
floats = record {
  half = λ n. n / 2;
  near = λ tolerance a b. leb a (b + tolerance) && leb b (a + tolerance);
  average = λ old n centre. (old * (n - 1) + centre) / n;
  seven_tenths = λ n. n * 7 / 10;
}

abbrev reader : Reader
reader = record {
  sites = sites;
  lines_of = group_text_markers_into_lines ascii floats;
  max_lines = 1;
  max_line_chars = 80;
  max_chars = 100;
}

abbrev shown : String → List Marker
shown text = record { id = 1; text = text; bbox = []; kind = "text" } ∷ []

abbrev read_once : JobDetailBuffer
read_once =
    update_job_detail_buffer reader (new_job_detail_buffer "/job" "") (shown "python") "/job"
      "1.png" "/1.png" "" ""

read_once-IsValid : IsValid reader read_once
read_once-IsValid =
    update_job_detail_buffer-IsValid reader (new_job_detail_buffer "/job" "") (shown "python")
      "/job" "1.png" "/1.png" "" ""
      (record {
        lines_bound = omega arith;
        visible = tt;
        recorded = refl;
        screens_bound = omega arith;
        evidence_bound = omega arith;
        ids = tt;
        keys = tt;
      })

update_job_detail_buffer-IsValid_example :
    IsValid reader
      (update_job_detail_buffer reader read_once (shown "docker") "/job" "2.png" "/2.png" "" "")
update_job_detail_buffer-IsValid_example =
    update_job_detail_buffer-IsValid reader read_once (shown "docker") "/job" "2.png" "/2.png" "" ""
      read_once-IsValid

text_length-detail_buffer_text_example : text_length (detail_buffer_text reader read_once) ≤ 100
text_length-detail_buffer_text_example = text_length-detail_buffer_text reader read_once

full_buffer-overcounts_example :
    let after =
      update_job_detail_buffer reader read_once (shown "docker") "/job" "2.png" "/2.png" "" "" in
    (after.stats.total_lines ≡ 1 + 1)
    × (after.stats.added_lines_last_screen ≡ 1)
    × (length after.lines ≡ 1)
unfolding is_job_detail_context normalize_page_role replace_char casefold normalize_text
    detail_context_matches update_job_detail_buffer text_length to_lower joined_words
    group_text_markers_into_lines
full_buffer-overcounts_example =
    full_buffer-overcounts reader read_once (shown "docker") "/job" "2.png" "/2.png" "" ""
      (record { text = "docker"; bbox = 0 ∷ 0 ∷ 0 ∷ 0 ∷ []; ids = 1 ∷ [] }) [] refl refl refl refl
      refl refl

-- Two words of one line, and one below.
abbrev screen_markers : List Marker
screen_markers =
    record { id = 2; text = "engineer"; bbox = 60 ∷ 0 ∷ 110 ∷ 10 ∷ []; kind = "text" }
    ∷ record { id = 1; text = "qa"; bbox = 0 ∷ 0 ∷ 50 ∷ 10 ∷ []; kind = "text" }
    ∷ record { id = 3; text = "seoul"; bbox = 0 ∷ 80 ∷ 50 ∷ 90 ∷ []; kind = "text" }
    ∷ []

grouped_lines :
    map (λ line. line.text) (group_text_markers_into_lines ascii floats screen_markers)
    ≡ "qa engineer" ∷ "seoul" ∷ []
unfolding group_text_markers_into_lines to_lower
grouped_lines = refl

count_if-line_segments_example :
    count_if (λ m. leb 2 m.id) (concat (line_segments floats screen_markers)) ≡ 2
count_if-line_segments_example = count_if-line_segments floats (λ m. leb 2 m.id) screen_markers
