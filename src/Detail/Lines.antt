-- ===== src/Detail/Lines.antt =====
-- agent/runtime/detail_runtime.py: the markers of a screen, grouped into lines of text. The centres
-- of lines are floating-point numbers, whose operations are a parameter.
use l2c.Common.{
  ℕ, suc, ◌+◌, ◌-◌, ◌*◌, ◌/◌, String, Bool, true, false, ◌&&◌, ◌||◌, not, Option, none, some, List,
  [], ◌∷◌, ◌++◌, map, ◌==◌, nat_eq, ltb, leb, length, get_elem?, keep, any, min, max, collect_some,
  if◌then◌else◌,
}
use Prim.Native.Char.{Char, code}
use l2c.Common.Text.{Unicode, is_empty, append, starts_with, strip, lstrip, to_lower, joined_words}
use l2c.Worker.State.{Marker}
use l2c.JobCards.Queue.{marker_bbox}
use l2c.Detail.Buffer.{TextLine}

-- What is computed in floating point: half of a sum of coordinates, `abs(a - b) <= tolerance`, the
-- average of a line that a marker joins as its n-th, and `int(height * 0.7)`.
pub record Floats (F : Type 0) : Type 0 where
  pub half : ℕ → F
  pub near : ℕ → F → F → Bool
  pub average : F → ℕ → F → F
  pub seven_tenths : ℕ → ℕ

-- `sorted(xs, key=...)`, which is stable, by the order of the keys.
abbrev pub insert_by {ℓ} : {A : Type ℓ} → (A → A → Bool) → A → List A → List A
insert_by le x [] = x ∷ []
insert_by le x (y ∷ ys) = let rest = insert_by le x ys in if le x y then x ∷ y ∷ ys else y ∷ rest

abbrev pub sort_by {ℓ} : {A : Type ℓ} → (A → A → Bool) → List A → List A
sort_by le [] = []
sort_by le (x ∷ xs) = insert_by le x (sort_by le xs)

abbrev pub or_zero : Option ℕ → ℕ
or_zero none = 0
or_zero (some n) = n

-- A coordinate of a box, and of a marker's.
abbrev pub side : ℕ → List ℕ → ℕ
side i box = or_zero (get_elem? box i)

abbrev pub edge : ℕ → Marker → ℕ
edge i m = side i (marker_bbox m)

-- The order of pairs.
abbrev pub pair_le : ℕ → ℕ → ℕ → ℕ → Bool
pair_le a b c d = ltb a c || (nat_eq a c && leb b d)

abbrev pub is_no_box : List ℕ → Bool
is_no_box box = nat_eq (side 0 box + side 1 box + side 2 box + side 3 box) 0

abbrev pub around : List ℕ → List (List ℕ) → List ℕ
around box [] = box
around box (next ∷ boxes) =
    let rest = around next boxes in
    min (side 0 box) (side 0 rest)
    ∷ min (side 1 box) (side 1 rest)
    ∷ max (side 2 box) (side 2 rest)
    ∷ max (side 3 box) (side 3 rest)
    ∷ []

abbrev pub around_all : List (List ℕ) → List ℕ
around_all [] = 0 ∷ 0 ∷ 0 ∷ 0 ∷ []
around_all (box ∷ boxes) = around box boxes

unfoldable pub line_bbox : List Marker → List ℕ
unfolding marker_bbox
line_bbox markers = around_all (keep (λ box. not (is_no_box box)) (map marker_bbox markers))

abbrev pub closes : Char → Bool
closes c =
    any (λ k. nat_eq k (code c))
      (b',' ∷ b'.' ∷ b';' ∷ b':' ∷ b'!' ∷ b'?' ∷ b'%' ∷ b')' ∷ b']' ∷ b'}' ∷ [])

abbrev pub opens : Char → Bool
opens c = any (λ k. nat_eq k (code c)) (b'(' ∷ b'[' ∷ b'{' ∷ [])

abbrev pub head_closes : String → Bool
head_closes String.[] = false
head_closes (String.◌∷◌ c s) = closes c

abbrev pub spaced : List String → String
spaced [] = ""
spaced (t ∷ []) = t
spaced (t ∷ s ∷ ts) = append t (append " " (spaced (s ∷ ts)))

module _ (u : Unicode) where
  open u use {is_space}

  -- `re.sub(r"\s+([,.;:!?%)\]\}])", r"\1", s)`
  unfoldable pub tight_before : String → String
  unfolding lstrip
  tight_before String.[] = String.[]
  tight_before (String.◌∷◌ c s) =
      let rest = tight_before s in
      if is_space c && head_closes (lstrip u s) then rest else String.◌∷◌ c rest

  -- `re.sub(r"([(\[\{])\s+", r"\1", s)`; the flag says that only spaces stand since an opening.
  unfoldable pub tight_after : Bool → String → String
  tight_after after String.[] = String.[]
  tight_after after (String.◌∷◌ c s) =
      let rest = tight_after (if after && is_space c then true else opens c) s in
      if after && is_space c then rest else String.◌∷◌ c rest

  unfoldable pub join_line_marker_text : List Marker → String
  unfolding strip tight_before tight_after joined_words
  join_line_marker_text markers =
      let ordered =
        sort_by (λ (a b : Marker). pair_le (edge 0 a) (edge 1 a) (edge 0 b) (edge 1 b)) markers in
      let pieces = keep (λ t. not (is_empty t)) (map (λ (m : Marker). strip u m.text) ordered) in
      joined_words u (tight_after false (tight_before (spaced pieces)))

  unfoldable pub is_icon_marker : Marker → Bool
  unfolding starts_with
  is_icon_marker m =
      to_lower u (strip u m.kind) == "icon"
      || m.text == "icon"
      || starts_with "상호작용 가능한 요소 (" m.text
      || m.text == "상호작용 가능한 요소"

  unfoldable pub is_text_marker : Marker → Bool
  unfolding is_icon_marker
  is_text_marker m = not (is_empty (strip u m.text)) && not (is_icon_marker m)

-- A line in the making.
pub record Grouped (F : Type 0) : Type 0 where
  pub center_y : F
  pub markers : List Marker

module _ {F : Type 0} (f : Floats F) where
  abbrev pub centre : Marker → F
  centre m = f.half (edge 1 m + edge 3 m)

  abbrev pub joined_by : Marker → Grouped F → Grouped F
  joined_by m line = record {
    center_y = f.average line.center_y (suc (length line.markers)) (centre m);
    markers = line.markers ++ m ∷ [];
  }

  -- The first line that is near takes the marker; without one it starts a line.
  unfoldable pub place_marker : ℕ → Marker → List (Grouped F) → List (Grouped F)
  place_marker tolerance m [] = (record { center_y = centre m; markers = m ∷ [] }) ∷ []
  place_marker tolerance m (line ∷ lines) =
      let rest = place_marker tolerance m lines in
      if f.near tolerance (centre m) line.center_y then joined_by m line ∷ lines else line ∷ rest

  unfoldable pub place_markers : ℕ → List Marker → List (Grouped F) → List (Grouped F)
  unfolding place_marker
  place_markers tolerance [] lines = lines
  place_markers tolerance (m ∷ ms) lines =
      place_markers tolerance ms (place_marker tolerance m lines)

  -- The centres are sorted by the sums of which they are the halves.
  unfoldable pub group_markers_by_y : List Marker → ℕ → List (List Marker)
  unfolding place_markers
  group_markers_by_y markers tolerance =
      let ordered =
        sort_by
          (λ (a b : Marker).
            pair_le (edge 1 a + edge 3 a) (edge 0 a) (edge 1 b + edge 3 b) (edge 0 b))
          markers in
      map (λ (line : Grouped F). line.markers) (place_markers tolerance ordered [])

-- The segments from a current one and its right end on.
unfoldable pub segments_from : ℕ → List Marker → ℕ → List Marker → List (List Marker)
segments_from gap [] right [] = []
segments_from gap (c ∷ cs) right [] = (c ∷ cs) ∷ []
segments_from gap [] right (m ∷ ms) = segments_from gap (m ∷ []) (edge 2 m) ms
segments_from gap (c ∷ cs) right (m ∷ ms) =
    let apart = segments_from gap (m ∷ []) (max right (edge 2 m)) ms in
    let together = segments_from gap (c ∷ cs ++ m ∷ []) (max right (edge 2 m)) ms in
    if ltb (right + gap) (edge 0 m) then (c ∷ cs) ∷ apart else together

unfoldable pub split_inline_segments : List Marker → ℕ → List (List Marker)
unfolding segments_from
split_inline_segments markers gap =
    segments_from gap [] 0 (sort_by (λ (a b : Marker). leb (edge 0 a) (edge 0 b)) markers)

unfoldable pub compacted_marker_line : Unicode → List Marker → Option TextLine
unfolding join_line_marker_text line_bbox
compacted_marker_line u segment =
    let text = join_line_marker_text u segment in
    if is_empty text
    then none
    else some
        (record { text = text; bbox = line_bbox segment; ids = map (λ (m : Marker). m.id) segment })

abbrev pub concat {ℓ} : {A : Type ℓ} → List (List A) → List A
concat [] = []
concat (xs ∷ xss) = xs ++ concat xss

abbrev pub median_height : List Marker → ℕ
median_height markers =
    let heights = sort_by leb (map (λ (m : Marker). max 1 (edge 3 m - edge 1 m)) markers) in
    or_zero (get_elem? heights (length heights / 2))

-- The segments of the lines of a screen's text markers.
unfoldable pub line_segments : {F : Type 0} → Floats F → List Marker → List (List Marker)
unfolding group_markers_by_y split_inline_segments
line_segments f markers =
    let height = median_height markers in
    let tolerance = max 8 (min 24 (f.seven_tenths height)) in
    concat (
      map (λ line. split_inline_segments line (max 160 (height * 8)))
        (group_markers_by_y f markers tolerance))

unfoldable pub group_text_markers_into_lines :
    {F : Type 0} → Unicode → Floats F → List Marker → List TextLine
unfolding is_text_marker line_segments compacted_marker_line
group_text_markers_into_lines u f markers =
    sort_by
      (λ (a b : TextLine). pair_le (side 1 a.bbox) (side 0 a.bbox) (side 1 b.bbox) (side 0 b.bbox))
      (collect_some (compacted_marker_line u) (line_segments f (keep (is_text_marker u) markers)))
