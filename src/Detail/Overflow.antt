-- ===== src/Detail/Overflow.antt =====
-- A screen that shows something new to a buffer that is full.
use l2c.Common.{
  ℕ, zero, suc, ◌+◌, ◌≤◌, String, ◌≡◌, refl, ap, ◌∙◌, Bool, true, false, not, ◌||◌, List, [], ◌∷◌,
  map, leb, length, length-append, take, if◌then◌else◌, arith,
}
use l2c.Common.Text.{is_empty, text_length, strip, to_lower, joined_words}
use l2c.Worker.Replay.{holds}
use l2c.Site.{is_job_detail_context}
use l2c.Worker.State.{Marker}
use l2c.Detail.Buffer.{
  TextLine, JobDetailBuffer, Reader, Appended, clipped, with_line, append_line, append_lines,
  beginning, append_detail_buffer_lines, detail_context_matches, updated_buffer,
  update_job_detail_buffer,
}

length-take_all {ℓ} : {A : Type ℓ} (n : ℕ) (xs : List A) → n ≤ length xs → length (take n xs) ≡ n
length-take_all zero xs h = refl
length-take_all (suc n) [] h = omega (arith, h)
length-take_all (suc n) (x ∷ xs) h = omega (arith, length-take_all n xs (omega (arith, h)))

abbrev chosen : Bool → Bool → Bool → Appended → Appended → Appended → Appended × Bool
chosen skipped known stop a d b =
    if skipped then (a, false) else if known then (d, false) else (b, stop)

one_way :
    (skipped known stop : Bool) (a d b : Appended)
    → a.added ≡ 0
    → d.added ≡ 0
    → (chosen skipped known stop a d b).0.added ≡ 1
    → chosen skipped known stop a d b ≡ (b, stop)
one_way true known stop a d b h k one = ground arith
one_way false true stop a d b h k one = ground arith
one_way false false stop a d b h k one = refl

-- A step that adds a line adds it at the end, and stops where the buffer is full.
append_line-added :
    (r : Reader) (name : String) (line : TextLine) (a : Appended)
    → a.added ≡ 0
    → (append_line r name line a).0.added ≡ 1
    → r.max_lines ≤ length a.lines
    → (length (append_line r name line a).0.lines ≡ suc (length a.lines))
      × ((append_line r name line a).1 ≡ true)
unfolding append_line
append_line-added r name line a fresh one full =
    let u = r.sites.unicode in
    let whole = strip u line.text in
    let text = clipped u r.max_line_chars whole in
    let key = to_lower u (joined_words u text) in
    let added =
      one_way (not (leb 2 (text_length whole)) || is_empty key) (holds key a.seen_keys)
        (leb r.max_lines (suc (length a.lines))) a (record a { duplicate = suc a.duplicate })
        (with_line line text key name a) fresh fresh one in
    rw added (omega (arith, length-append a.lines (_ ∷ [])), ground (arith, full))

known_detail :
    (unknown detail same : Bool) (existing fresh : JobDetailBuffer)
    (update : JobDetailBuffer → JobDetailBuffer)
    → unknown ≡ false
    → detail ≡ true
    → same ≡ true
    → (if unknown || not detail then existing else update (if same then existing else fresh))
      ≡ update existing
known_detail false true true existing fresh update h k l = refl
known_detail false true false existing fresh update h k l = ground arith
known_detail false false same existing fresh update h k l = ground arith
known_detail true detail same existing fresh update h k l = ground arith

stopped_lines :
    (r : Reader) (name : String) (line : TextLine) (lines : List TextLine) (a : Appended)
    → (append_line r name line a).1 ≡ true
    → append_lines r name (line ∷ lines) a ≡ (append_line r name line a).0
unfolding append_lines
stopped_lines r name line lines a h = rw h refl

-- A screen that shows something new to a full buffer counts one line more than the buffer then
-- holds: the line is counted and dropped. The page is a detail page of the same job, and the first
-- of its lines is one that the buffer does not know.
pub full_buffer-overcounts :
    (r : Reader) (buffer : JobDetailBuffer) (markers : List Marker)
    (current_url screen_name screen_path page_role detail_key : String) (line : TextLine)
    (lines : List TextLine)
    → is_empty current_url ≡ false
    → is_job_detail_context r.sites current_url page_role (map (λ (m : Marker). m.text) markers)
      ≡ true
    → detail_context_matches r.sites.unicode buffer current_url detail_key ≡ true
    → length buffer.lines ≡ r.max_lines
    → r.lines_of markers ≡ line ∷ lines
    → (append_line r screen_name line (beginning buffer)).0.added ≡ 1
    → (let after =
          update_job_detail_buffer r buffer markers current_url screen_name screen_path page_role
            detail_key in
        (after.stats.total_lines ≡ r.max_lines + 1)
        × (after.stats.added_lines_last_screen ≡ 1)
        × (length after.lines ≡ r.max_lines))
unfolding update_job_detail_buffer append_detail_buffer_lines
full_buffer-overcounts r buffer markers current_url screen_name screen_path page_role detail_key
      line lines known detail same full first one =
    let start = beginning buffer in
    let last = (append_line r screen_name line start).0 in
    let (longer, stops) =
      append_line-added r screen_name line start refl one (omega (arith, full)) in
    let appended : append_lines r screen_name (r.lines_of markers) start ≡ last =
      ap (λ ls. append_lines r screen_name ls start) first
      ∙ stopped_lines r screen_name line lines start stops in
    let updated =
      known_detail (is_empty current_url) _ _ buffer _
        (λ b. updated_buffer r b markers current_url screen_name screen_path detail_key) known
        detail same in
    (
      ap (λ b. b.stats.total_lines) updated
          ∙ ap (λ a. length a.lines) appended
          ∙ omega (arith, longer, full),
      ap (λ b. b.stats.added_lines_last_screen) updated ∙ ap (λ a. a.added) appended ∙ one,
      ap (λ b. length b.lines) updated
          ∙ ap (λ a. length (take r.max_lines a.lines)) appended
          ∙ length-take_all r.max_lines last.lines (omega (arith, longer, full)),
    )
