-- ===== src/Detail/Grouping.antt =====
-- What the grouping of markers into segments keeps.
use l2c.Common.{
  ℕ, ◌+◌, ◌*◌, ◌≡◌, refl, ◌∙◌, Bool, List, [], ◌∷◌, ◌++◌, map, ltb, leb, max, min, count_if,
  count_if-append, if_elim, arith,
}
use l2c.Worker.State.{Marker}
use l2c.Detail.Lines.{
  pair_le, insert_by, sort_by, edge, Floats, Grouped, centre, joined_by, place_marker,
  place_markers, group_markers_by_y, segments_from, split_inline_segments, concat, median_height,
  line_segments,
}

count_if-insert_by {ℓ} :
    {A : Type ℓ} (p : A → Bool) (le : A → A → Bool) (x : A) (xs : List A)
    → count_if p (insert_by le x xs) ≡ count_if p (x ∷ xs)
count_if-insert_by p le x [] = refl
count_if-insert_by p le x (y ∷ ys) = ground (arith, count_if-insert_by p le x ys)

count_if-sort_by {ℓ} :
    {A : Type ℓ} (p : A → Bool) (le : A → A → Bool) (xs : List A)
    → count_if p (sort_by le xs) ≡ count_if p xs
count_if-sort_by p le [] = refl
count_if-sort_by p le (x ∷ xs) =
    count_if-insert_by p le x (sort_by le xs) ∙ ground (arith, count_if-sort_by p le xs)

module _ {F : Type 0} (f : Floats F) (p : Marker → Bool) where
  members : List (Grouped F) → ℕ
  members lines = count_if p (concat (map (λ (line : Grouped F). line.markers) lines))

  members-place_marker :
      (tolerance : ℕ) (m : Marker) (lines : List (Grouped F))
      → members (place_marker f tolerance m lines) ≡ count_if p (m ∷ []) + members lines
  unfolding place_marker members
  members-place_marker tolerance m [] = ground arith
  members-place_marker tolerance m (line ∷ lines) =
      if_elim (λ ls. members ls ≡ count_if p (m ∷ []) + members (line ∷ lines))
        (f.near tolerance (centre f m) line.center_y) (joined_by f m line ∷ lines)
        (line ∷ place_marker f tolerance m lines)
        (λ _.
          let rest = concat (map (λ (l : Grouped F). l.markers) lines) in
          ground (
            arith,
            count_if-append p (line.markers ++ m ∷ []) rest,
            count_if-append p line.markers (m ∷ []),
            count_if-append p line.markers rest,
          ))
        (λ _.
          let placed = place_marker f tolerance m lines in
          let markers = λ (l : Grouped F). l.markers in
          ground (
            arith,
            members-place_marker tolerance m lines,
            count_if-append p line.markers (concat (map markers placed)),
            count_if-append p line.markers (concat (map markers lines)),
          ))

  members-place_markers :
      (tolerance : ℕ) (ms : List Marker) (lines : List (Grouped F))
      → members (place_markers f tolerance ms lines) ≡ count_if p ms + members lines
  unfolding place_markers
  members-place_markers tolerance [] lines = omega arith
  members-place_markers tolerance (m ∷ ms) lines =
      members-place_markers tolerance ms (place_marker f tolerance m lines)
      ∙ ground (arith, members-place_marker tolerance m lines)

module _ (p : Marker → Bool) where
  count_if-segments_from :
      (gap : ℕ) (current : List Marker) (right : ℕ) (ms : List Marker)
      → count_if p (concat (segments_from gap current right ms))
        ≡ count_if p current + count_if p ms
  unfolding segments_from
  count_if-segments_from gap [] right [] = refl
  count_if-segments_from gap (c ∷ cs) right [] = ground (arith, count_if-append p cs [])
  count_if-segments_from gap [] right (m ∷ ms) =
      count_if-segments_from gap (m ∷ []) (edge 2 m) ms ∙ ground arith
  count_if-segments_from gap (c ∷ cs) right (m ∷ ms) =
      let far = max right (edge 2 m) in
      if_elim (λ xss. count_if p (concat xss) ≡ count_if p (c ∷ cs) + count_if p (m ∷ ms))
        (ltb (right + gap) (edge 0 m)) ((c ∷ cs) ∷ segments_from gap (m ∷ []) far ms)
        (segments_from gap (c ∷ cs ++ m ∷ []) far ms)
        (λ _. ground (
          arith,
          count_if-segments_from gap (m ∷ []) far ms,
          count_if-append p cs (concat (segments_from gap (m ∷ []) far ms)),
        ))
        (λ _.
          count_if-segments_from gap (c ∷ cs ++ m ∷ []) far ms
          ∙ ground (arith, count_if-append p cs (m ∷ [])))

  count_if-split :
      (markers : List Marker) (gap : ℕ)
      → count_if p (concat (split_inline_segments markers gap)) ≡ count_if p markers
  unfolding split_inline_segments
  count_if-split markers gap =
      let le : Marker → Marker → Bool = λ a b. leb (edge 0 a) (edge 0 b) in
      let all = count_if-segments_from gap [] 0 (sort_by le markers) in
      omega (arith, all, count_if-sort_by p le markers)

  count_if-concat_append :
      (xss yss : List (List Marker))
      → count_if p (concat (xss ++ yss)) ≡ count_if p (concat xss) + count_if p (concat yss)
  count_if-concat_append [] yss = omega arith
  count_if-concat_append (xs ∷ xss) yss = ground (
    arith,
    count_if-concat_append xss yss,
    count_if-append p xs (concat (xss ++ yss)),
    count_if-append p xs (concat xss),
  )

  count_if-split_all :
      (gap : ℕ) (lines : List (List Marker))
      → count_if p (concat (concat (map (λ line. split_inline_segments line gap) lines)))
        ≡ count_if p (concat lines)
  count_if-split_all gap [] = refl
  count_if-split_all gap (line ∷ lines) =
      let segments = split_inline_segments line gap in
      let rest = concat (map (λ l. split_inline_segments l gap) lines) in
      count_if-concat_append segments rest
      ∙ ground (
        arith,
        count_if-split line gap,
        count_if-split_all gap lines,
        count_if-append p line (concat lines),
      )

-- Every text marker of a screen stands in the segments of its lines as often as on the screen: the
-- grouping by height and the cutting at gaps lose none and repeat none, whatever is rounded.
pub count_if-line_segments :
    {F : Type 0} (f : Floats F) (p : Marker → Bool) (markers : List Marker)
    → count_if p (concat (line_segments f markers)) ≡ count_if p markers
unfolding line_segments group_markers_by_y members
count_if-line_segments f p markers =
    let le : Marker → Marker → Bool =
      λ a b. pair_le (edge 1 a + edge 3 a) (edge 0 a) (edge 1 b + edge 3 b) (edge 0 b) in
    let height = median_height markers in
    let tolerance = max 8 (min 24 (f.seven_tenths height)) in
    let placed = members-place_markers f p tolerance (sort_by le markers) [] in
    let split =
      count_if-split_all p (max 160 (height * 8)) (group_markers_by_y f markers tolerance) in
    split ∙ placed ∙ omega (arith, count_if-sort_by p le markers)
