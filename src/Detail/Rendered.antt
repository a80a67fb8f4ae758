-- ===== src/Detail/Rendered.antt =====
-- The length of the text that is made of a buffer.
use l2c.Common.{ℕ, suc, ◌+◌, ◌≤◌, String, ◌≡◌, List, [], ◌∷◌, ltb, if_elim, arith}
use l2c.Common.Text.{is_empty, append, strip, text_length}
use l2c.JobCards.Queue.{show_nat}
use l2c.Detail.Buffer.{
  JobDetailLine, JobDetailBuffer, Reader, rendered_rows, joined_rows, detail_buffer_text,
}

text_length-append : (s t : String) → text_length (append s t) ≡ text_length s + text_length t
unfolding append text_length
text_length-append String.[] t = omega arith
text_length-append (String.◌∷◌ c s) t = omega (arith, text_length-append s t)

-- The lengths of rows, each with its line break.
size : List String → ℕ
size [] = 0
size (row ∷ rows) = text_length row + 1 + size rows

text_length-joined_rows : (rows : List String) → text_length (joined_rows rows) ≤ size rows
unfolding joined_rows size text_length
text_length-joined_rows [] = omega arith
text_length-joined_rows (row ∷ []) = omega arith
text_length-joined_rows (row ∷ next ∷ rows) =
    let rest = joined_rows (next ∷ rows) in
    let whole = text_length-append row (append "\n" rest) in
    let tail = text_length-append "\n" rest in
    omega (arith, whole, tail, text_length-joined_rows (next ∷ rows))

size-rendered_rows :
    (r : Reader) (index total : ℕ) (lines : List JobDetailLine)
    → total ≤ r.max_chars
    → total + size (rendered_rows r index total lines) ≤ r.max_chars
unfolding rendered_rows size
size-rendered_rows r index total [] h = omega (arith, h)
size-rendered_rows r index total (line ∷ lines) h =
    let text = strip r.sites.unicode line.text in
    let row = append (show_nat index) (append ". " text) in
    let next = total + text_length row + 1 in
    let P : List String → Type 0 = λ rows. total + size rows ≤ r.max_chars in
    if_elim P (is_empty text) (rendered_rows r (suc index) total lines) _
      (λ _. size-rendered_rows r (suc index) total lines h)
      (λ _.
        if_elim P (ltb r.max_chars next) [] (row ∷ rendered_rows r (suc index) next lines)
          (λ _. omega (arith, h))
          (λ fits.
            let small : next ≤ r.max_chars = ground arith in
            omega (arith, size-rendered_rows r (suc index) next lines small)))

-- The text for the final extraction is never longer than the setting says.
pub text_length-detail_buffer_text :
    (r : Reader) (buffer : JobDetailBuffer)
    → text_length (detail_buffer_text r buffer) ≤ r.max_chars
unfolding detail_buffer_text
text_length-detail_buffer_text r buffer =
    let rows = rendered_rows r 1 0 buffer.lines in
    omega (arith, text_length-joined_rows rows, size-rendered_rows r 1 0 buffer.lines (omega arith))
