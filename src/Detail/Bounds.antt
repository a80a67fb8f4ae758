-- ===== src/Detail/Bounds.antt =====
-- What holds of every buffer of a detail page, and the length of the text that is made of one.
use l2c.Common.{
  ℕ, zero, suc, ◌-◌, ◌≤◌, ◌<◌, String, ◌≡◌, refl, ◌∙◌, ap, sym, map, All, All-append, Bool, true,
  false, ◌||◌, not, List, [], ◌∷◌, ◌++◌, ◌==◌, leb, length, length-drop, take, keep, subst, ==-refl,
  ==→≡, Bool-cases, inl, inr, if_elim, arith,
}
use l2c.Common.Text.{Unicode, is_empty, strip, to_lower, joined_words, text_length}
use l2c.Worker.State.{Marker}
use l2c.Worker.Replay.{holds}
use l2c.Detail.Buffer.{
  TextLine, JobDetailLine, JobDetailBuffer, Reader, Appended, max_line_id, clipped, with_line,
  append_line, append_lines, beginning, append_detail_buffer_lines, append_detail_screen_evidence,
  take_last, new_job_detail_buffer, updated_buffer, detail_context_matches,
  update_job_detail_buffer,
}

-- The ids ascend from above `n`.
abbrev pub Ascending : ℕ → List JobDetailLine → Type 0
Ascending n [] = Unit
Ascending n (line ∷ lines) = (n < line.line_id) × Ascending line.line_id lines

abbrev pub Distinct : List String → Type 0
Distinct [] = Unit
Distinct (key ∷ keys) = (holds key keys ≡ false) × Distinct keys

-- The text of a line without its case and its spacing, by which lines are told apart.
abbrev pub line_key : Unicode → JobDetailLine → String
line_key u line = to_lower u (joined_words u line.text)

abbrev pub line_keys : Unicode → List JobDetailLine → List String
line_keys u lines = map (line_key u) lines

abbrev pub IsKey : String → Type 0
IsKey key = is_empty key ≡ false

-- At most so many lines as the setting says and 20 screens; ids that ascend; the keys are those of
-- the lines, in order, none twice and none empty.
pub record IsValid (r : Reader) (buffer : JobDetailBuffer) : Type 0 where
  pub lines_bound : length buffer.lines ≤ r.max_lines
  pub screens_bound : length buffer.screens ≤ 20
  pub evidence_bound : length buffer.screen_evidence ≤ 20
  pub ids : Ascending 0 buffer.lines
  pub keys : Distinct (line_keys r.sites.unicode buffer.lines)
  pub visible : All IsKey (line_keys r.sites.unicode buffer.lines)
  pub recorded : buffer.seen_keys ≡ line_keys r.sites.unicode buffer.lines

length-take_le {ℓ} : {A : Type ℓ} (n : ℕ) (xs : List A) → length (take n xs) ≤ n
length-take_le zero xs = omega arith
length-take_le (suc n) [] = omega arith
length-take_le (suc n) (x ∷ xs) = omega (arith, length-take_le n xs)

length-take_last_le {ℓ} : {A : Type ℓ} (n : ℕ) (xs : List A) → length (take_last n xs) ≤ n
length-take_last_le n xs = omega (arith, length-drop (length xs - n) xs)

Ascending-take :
    (n m : ℕ) (lines : List JobDetailLine) → Ascending n lines → Ascending n (take m lines)
Ascending-take n zero lines h = tt
Ascending-take n (suc m) [] h = tt
Ascending-take n (suc m) (line ∷ lines) h = (h.0, Ascending-take line.line_id m lines h.1)

Ascending-snoc :
    (n : ℕ) (lines : List JobDetailLine) (line : JobDetailLine)
    → Ascending n lines
    → max_line_id lines < line.line_id
    → n < line.line_id
    → Ascending n (lines ++ line ∷ [])
Ascending-snoc n [] line h k above = (above, tt)
Ascending-snoc n (first ∷ lines) line h k above =
    (h.0, Ascending-snoc first.line_id lines line h.1 (omega (arith, k)) (omega (arith, k)))

max_line_id-snoc :
    (lines : List JobDetailLine) (line : JobDetailLine) (n : ℕ)
    → max_line_id lines < n
    → line.line_id < n
    → max_line_id (lines ++ line ∷ []) < n
max_line_id-snoc [] line n h k = omega (arith, k)
max_line_id-snoc (first ∷ lines) line n h k =
    omega (arith, h, max_line_id-snoc lines line n (omega (arith, h)) k)

holds-take :
    (key : String) (m : ℕ) (keys : List String)
    → holds key keys ≡ false
    → holds key (take m keys) ≡ false
holds-take key zero keys h = refl
holds-take key (suc m) [] h = refl
holds-take key (suc m) (k ∷ keys) h = ground (arith, holds-take key m keys)

Distinct-take : (m : ℕ) (keys : List String) → Distinct keys → Distinct (take m keys)
Distinct-take zero keys h = tt
Distinct-take (suc m) [] h = tt
Distinct-take (suc m) (k ∷ keys) h = (holds-take k m keys h.0, Distinct-take m keys h.1)

holds-snoc :
    (key last : String) (keys : List String)
    → holds key keys ≡ false
    → (last == key) ≡ false
    → holds key (keys ++ last ∷ []) ≡ false
holds-snoc key last [] h k = ground arith
holds-snoc key last (x ∷ keys) h k = ground (arith, holds-snoc key last keys)

==-swap : (s t : String) → (s == t) ≡ false → (t == s) ≡ false
==-swap s t h = elim (Bool-cases (t == s)) [
  | inl e ↦
      let same : (s == t) ≡ true = subst (λ x. (s == x) ≡ true) (sym (==→≡ t s e)) (==-refl s) in
      ground arith
  | inr f ↦ f
]

Distinct-snoc :
    (last : String) (keys : List String)
    → Distinct keys
    → holds last keys ≡ false
    → Distinct (keys ++ last ∷ [])
Distinct-snoc last [] h k = (refl, tt)
Distinct-snoc last (x ∷ keys) h k = (
  holds-snoc x last keys h.0 (==-swap x last (ground arith)),
  Distinct-snoc last keys h.1 (ground arith),
)

All-take {ℓ κ} : {A : Type ℓ} (P : A → Type κ) (m : ℕ) (xs : List A) → All P xs → All P (take m xs)
All-take P zero xs h = tt
All-take P (suc m) [] h = tt
All-take P (suc m) (x ∷ xs) h = (h.0, All-take P m xs h.1)

take-map {ℓ κ} :
    {A : Type ℓ} {B : Type κ} (f : A → B) (m : ℕ) (xs : List A)
    → take m (map f xs) ≡ map f (take m xs)
take-map f zero xs = refl
take-map f (suc m) [] = refl
take-map f (suc m) (x ∷ xs) = ap (λ ys. f x ∷ ys) (take-map f m xs)

map-snoc {ℓ κ} :
    {A : Type ℓ} {B : Type κ} (f : A → B) (xs : List A) (x : A)
    → map f (xs ++ x ∷ []) ≡ map f xs ++ f x ∷ []
map-snoc f [] x = refl
map-snoc f (y ∷ xs) x = ap (λ ys. f y ∷ ys) (map-snoc f xs x)

-- Keys that are not empty are all kept.
kept-visible : (keys : List String) → All IsKey keys → keep (λ k. not (is_empty k)) keys ≡ keys
kept-visible [] h = refl
kept-visible (key ∷ keys) h = rw (h.0, kept-visible keys h.1) refl

-- What the loop over the lines of a screen keeps.
record Sound (u : Unicode) (a : Appended) : Type 0 where
  ids : Ascending 0 a.lines
  fresh : max_line_id a.lines < a.next_line_id
  keys : Distinct a.seen_keys
  visible : All IsKey a.seen_keys
  recorded : a.seen_keys ≡ line_keys u a.lines

with_line-Sound :
    (u : Unicode) (line : TextLine) (text screen_name : String) (a : Appended)
    → (let key = to_lower u (joined_words u text) in
        holds key a.seen_keys ≡ false
        → IsKey key
        → Sound u a
        → Sound u (with_line line text key screen_name a))
with_line-Sound u line text screen_name a new seen h = record {
  ids = Ascending-snoc 0 a.lines _ h.ids h.fresh (omega (arith, h.fresh));
  fresh = max_line_id-snoc a.lines _ (suc a.next_line_id) (omega (arith, h.fresh)) (omega arith);
  keys = Distinct-snoc (to_lower u (joined_words u text)) a.seen_keys h.keys new;
  visible = All-append IsKey a.seen_keys (_ ∷ []) h.visible (seen, tt);
  recorded =
      ap (λ keys. keys ++ to_lower u (joined_words u text) ∷ []) h.recorded
      ∙ sym (map-snoc (line_key u) a.lines _);
}

append_line-Sound :
    (r : Reader) (screen_name : String) (line : TextLine) (a : Appended)
    → Sound r.sites.unicode a
    → Sound r.sites.unicode (append_line r screen_name line a).0
unfolding append_line
append_line-Sound r screen_name line a h =
    let u = r.sites.unicode in
    let whole = strip u line.text in
    let text = clipped u r.max_line_chars whole in
    let key = to_lower u (joined_words u text) in
    let P : Appended × Bool → Type 0 = λ step. Sound u step.0 in
    if_elim P (not (leb 2 (text_length whole)) || is_empty key) (a, false) _ (λ _. h)
      (λ worth.
        if_elim P (holds key a.seen_keys) (record a { duplicate = suc a.duplicate }, false)
          (with_line line text key screen_name a, leb r.max_lines (suc (length a.lines)))
          (λ _. record {
            ids = h.ids;
            fresh = h.fresh;
            keys = h.keys;
            visible = h.visible;
            recorded = h.recorded;
          })
          (λ new. with_line-Sound u line text screen_name a new (ground (arith, worth)) h))

append_lines-Sound :
    (r : Reader) (screen_name : String) (lines : List TextLine) (a : Appended)
    → Sound r.sites.unicode a
    → Sound r.sites.unicode (append_lines r screen_name lines a)
unfolding append_lines
append_lines-Sound r screen_name [] a h = h
append_lines-Sound r screen_name (line ∷ lines) a h =
    let next = append_line r screen_name line a in
    let sound = append_line-Sound r screen_name line a h in
    if_elim (Sound r.sites.unicode) next.1 next.0 (append_lines r screen_name lines next.0)
      (λ _. sound) (λ _. append_lines-Sound r screen_name lines next.0 sound)

updated_buffer-IsValid :
    (r : Reader) (buffer : JobDetailBuffer) (markers : List Marker)
    (current_url screen_name screen_path detail_key : String)
    → Ascending 0 buffer.lines
    → Distinct (line_keys r.sites.unicode buffer.lines)
    → All IsKey (line_keys r.sites.unicode buffer.lines)
    → buffer.seen_keys ≡ line_keys r.sites.unicode buffer.lines
    → IsValid r (updated_buffer r buffer markers current_url screen_name screen_path detail_key)
unfolding append_detail_buffer_lines
updated_buffer-IsValid r buffer markers current_url screen_name screen_path detail_key ids keys
      visible recorded =
    let a = append_detail_buffer_lines r buffer markers screen_name in
    let paths = append_detail_screen_evidence buffer screen_path a.added a.duplicate in
    let u = r.sites.unicode in
    let same =
      ap (λ ks. keep (λ k. not (is_empty k)) ks) recorded
      ∙ kept-visible (line_keys u buffer.lines) visible in
    let start : Sound u (beginning buffer) = record {
      ids = ids;
      fresh = omega arith;
      keys = subst Distinct (sym same) keys;
      visible = subst (All IsKey) (sym same) visible;
      recorded = same;
    } in
    let sound = append_lines-Sound r screen_name (r.lines_of markers) (beginning buffer) start in
    record {
      lines_bound = length-take_le r.max_lines a.lines;
      screens_bound = length-take_last_le 20 paths.0;
      evidence_bound = length-take_last_le 20 paths.1;
      ids = Ascending-take 0 r.max_lines a.lines sound.ids;
      keys =
          subst Distinct
            (ap (take r.max_lines) sound.recorded ∙ take-map (line_key u) r.max_lines a.lines)
            (Distinct-take r.max_lines a.seen_keys sound.keys);
      visible =
          subst (All IsKey)
            (ap (take r.max_lines) sound.recorded ∙ take-map (line_key u) r.max_lines a.lines)
            (All-take IsKey r.max_lines a.seen_keys sound.visible);
      recorded = ap (take r.max_lines) sound.recorded ∙ take-map (line_key u) r.max_lines a.lines;
    }

-- Whatever a screen shows, updating a valid buffer leaves a valid one: it has at most as many lines
-- as the setting says and at most 20 screens with their evidence, the ids of its lines ascend, no
-- two lines have the same text, case and spacing aside, and the keys that are stored are those of
-- the lines, in order.
pub update_job_detail_buffer-IsValid :
    (r : Reader) (buffer : JobDetailBuffer) (markers : List Marker)
    (current_url screen_name screen_path page_role detail_key : String)
    → IsValid r buffer
    → IsValid r (
        update_job_detail_buffer r buffer markers current_url screen_name screen_path page_role
          detail_key)
unfolding update_job_detail_buffer
update_job_detail_buffer-IsValid r buffer markers current_url screen_name screen_path page_role
      detail_key h =
    let matches = detail_context_matches r.sites.unicode buffer current_url detail_key in
    let Kept : JobDetailBuffer → Type 0 =
      λ b. IsValid r (updated_buffer r b markers current_url screen_name screen_path detail_key) in
    if_elim (IsValid r) _ _ _ (λ _. h)
      (λ _.
        if_elim Kept matches buffer (new_job_detail_buffer current_url detail_key)
          (λ _.
            updated_buffer-IsValid r buffer markers current_url screen_name screen_path detail_key
              h.ids h.keys h.visible h.recorded)
          (λ _.
            updated_buffer-IsValid r (new_job_detail_buffer current_url detail_key) markers
              current_url screen_name screen_path detail_key tt tt tt refl))
