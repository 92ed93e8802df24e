-- ===== src/Evidence/Segments/Tiles.antt =====
-- The segments of an excerpt tile the lines of its candidate.
use focal_span.Prelude.{
  ℕ, suc, ◌+◌, ◌-◌, ◌≤◌, ◌<◌, ◌≡◌, refl, subst, ap, ◌∙◌, ℤ, pos, ◌≤ℤ◌, String, ◌&&◌, List, [], ◌∷◌,
  take, drop, length, All, arith, ltb, ◌==◌, Bool-cases, inl, inr, if◌then◌else◌, if_both,
}
use Prim.Native.Char.{Char, code}
use text.Mathlib.TextLemmas.{nil-append, cons-append}
use focal_span.Evidence.Validate.{is_nil}
use focal_span.Prelude.Text.{concat}
use focal_span.Prelude.Sort.{
  sort_by, All-sort_by, SortedFrom, SortedFrom-weaken, SortedFrom-sort_by,
}
use focal_span.Evidence.Model.{Segment, SegmentKind}
use focal_span.Evidence.Candidate.{Plan, ClassifiedCandidate}
use focal_span.Evidence.Runtime.{TextTables}
use focal_span.Evidence.Segments.Lines.{
  index_lines, onto_line, concat_all, join_lines, focused_terms, distinct_matches, prefix_end_from,
  declaration_prefix_end,
}
use focal_span.Evidence.Segments.Windows.{
  SourceWindow, is_near, extend_window, merge_behind, merge_ordered, merge_windows, absorb,
  add_or_merge_window,
}
use focal_span.Evidence.Segments.{
  absolute_lines, hits_from, add_hits, stronger_hit, starts_before, prefix_window, ordered_hits,
  selected_windows, segments_from, source_segment, focused_segments,
}

-- a window of lines that there are
abbrev pub Fits : ℕ → SourceWindow → Type 0
Fits n w = (w.start ≤ w.end) × (w.end < n)

-- windows from a line on that do not overlap
abbrev pub InOrder : ℕ → ℕ → List SourceWindow → Type 0
InOrder n lo [] = Unit
InOrder n lo (w ∷ rest) = (lo ≤ w.start) × Fits n w × InOrder n (suc w.end) rest

abbrev start_of : SourceWindow → ℤ
start_of w = pos w.start

merge_behind-InOrder :
    (n lo : ℕ) (last : SourceWindow) (ws : List SourceWindow)
    → lo ≤ last.start
    → Fits n last
    → All (Fits n) ws
    → SortedFrom start_of (start_of last) ws
    → InOrder n lo (merge_behind last ws)
unfolding merge_behind extend_window
merge_behind-InOrder n lo last [] h f fs o = (h, f, tt)
merge_behind-InOrder n lo last (w ∷ ws) h f fs o = elim (Bool-cases (is_near last w)) [
  | inl near ↦ rw near (
      merge_behind-InOrder n lo (extend_window last w) ws h (ground (arith, f, fs.0)) fs.1
        (SortedFrom-weaken start_of (start_of w) (start_of last) ws o.0 o.1))
  | inr apart ↦
      rw apart (h, f, merge_behind-InOrder n (suc last.end) w ws (ground arith) fs.0 fs.1 o.1)
]

merge_ordered-InOrder :
    (n lo : ℕ) (ws : List SourceWindow)
    → All (Fits n) ws
    → SortedFrom start_of (pos lo) ws
    → InOrder n lo (merge_ordered ws)
unfolding merge_ordered
merge_ordered-InOrder n lo [] fs o = tt
merge_ordered-InOrder n lo (w ∷ ws) fs o =
    merge_behind-InOrder n lo w ws (omega (arith, o.0)) fs.0 fs.1 o.1

pub merge_windows-InOrder :
    (n : ℕ) (ws : List SourceWindow) → All (Fits n) ws → InOrder n 0 (merge_windows ws)
unfolding merge_windows
merge_windows-InOrder n ws fs =
    merge_ordered-InOrder n 0 (sort_by starts_before ws) (All-sort_by (Fits n) starts_before ws fs)
      (SortedFrom-sort_by start_of starts_before (λ x y h. ground arith) (λ x y h. ground arith)
        (pos 0) ws (from_zero ws))
  where
    from_zero : (ws : List SourceWindow) → All (λ w. pos 0 ≤ℤ start_of w) ws
    from_zero [] = tt
    from_zero (w ∷ ws) = (omega arith, from_zero ws)

InOrder-All : (n lo : ℕ) (ws : List SourceWindow) → InOrder n lo ws → All (Fits n) ws
InOrder-All n lo [] h = tt
InOrder-All n lo (w ∷ ws) h = (h.1, InOrder-All n (suc w.end) ws h.2)

add_or_merge_window-Fits :
    (n : ℕ) (ws : List SourceWindow) (hit : SourceWindow)
    → All (Fits n) ws
    → Fits n hit
    → All (Fits n) (add_or_merge_window ws hit)
unfolding add_or_merge_window absorb
add_or_merge_window-Fits n [] hit fs f = (f, tt)
add_or_merge_window-Fits n (w ∷ ws) hit fs f =
    if_both (All (Fits n)) (is_near w hit && is_near hit w) _ _ (ground (arith, f, fs.0), fs.1)
      (fs.0, add_or_merge_window-Fits n ws hit fs.1 f)

add_hits-Fits :
    (n : ℕ) (selected hits : List SourceWindow)
    → All (Fits n) selected
    → All (Fits n) hits
    → All (Fits n) (add_hits selected hits)
unfolding add_hits
add_hits-Fits n selected [] fs gs = fs
add_hits-Fits n selected (hit ∷ rest) fs gs =
    let next = add_or_merge_window-Fits n selected hit fs gs.0 in
    if_both (All (Fits n)) (length (add_or_merge_window selected hit) == 3) _ _ next
      (add_hits-Fits n (add_or_merge_window selected hit) rest next gs.1)

module _ (t : TextTables) (terms : List String) where
  hits_from-Fits :
      (n index : ℕ) (lines : List String)
      → index + length lines ≡ n
      → All (Fits n) (hits_from t terms n index lines)
  unfolding hits_from
  hits_from-Fits n index [] h = tt
  hits_from-Fits n index (line ∷ rest) h =
      let later = hits_from-Fits n (suc index) rest (omega (arith, h)) in
      if_both (All (Fits n)) (distinct_matches t line terms == 0) _ _ later
        (ground (arith, h), later)

  prefix_end-lt :
      (limit index n : ℕ) (lines : List String) → limit < n → prefix_end_from limit index lines < n
  unfolding prefix_end_from
  prefix_end-lt limit index n [] h = h
  prefix_end-lt limit index n (line ∷ rest) h =
      ground (arith, prefix_end-lt limit (suc index) n rest h)

  declaration_prefix_end-lt :
      (line : String) (rest : List String)
      → declaration_prefix_end (line ∷ rest) < length (line ∷ rest)
  unfolding declaration_prefix_end
  declaration_prefix_end-lt line rest =
      let last = length (line ∷ rest) - 1 in
      prefix_end-lt (if ltb 5 last then 5 else last) 0 (length (line ∷ rest)) (line ∷ rest)
        (ground arith)

  selected_windows-InOrder :
      (line : String) (rest : List String)
      → InOrder (length (line ∷ rest)) 0 (selected_windows t terms (line ∷ rest))
  unfolding selected_windows prefix_window ordered_hits
  selected_windows-InOrder line rest =
      let n = length (line ∷ rest) in
      let hits = hits_from-Fits n 0 (line ∷ rest) (omega arith) in
      let merged = InOrder-All n 0 _ (merge_windows-InOrder n _ hits) in
      merge_windows-InOrder n _ (
        All-sort_by (Fits n) starts_before _ (
          add_hits-Fits n (prefix_window t terms (line ∷ rest) ∷ [])
            (ordered_hits t terms (line ∷ rest))
            ((omega arith, declaration_prefix_end-lt line rest), tt)
            (All-sort_by (Fits n) stronger_hit _ merged)))

-- the text of a segment for a range of lines
abbrev pub Shows : List String → ℕ → ℕ → Segment → Type 0
Shows lines start stop s = elim (s.kind) [
  | SegmentKind.source ↦ s.text ≡ concat_all (take (stop + 1 - start) (drop start lines))
  | SegmentKind.omitted ↦ s.text ≡ ""
  | SegmentKind.unknown k ↦ ⊥
]

-- The segments from a line on: each begins behind the one before, and the last one ends with the lines.
abbrev pub Tiles : ℤ → List String → ℕ → List Segment → Type 0
Tiles first lines start [] = start ≡ length lines
Tiles first lines start (s ∷ rest) =
    (stop : ℕ) × (start ≤ stop)
    × (stop < length lines)
    × (s.lines ≡ absolute_lines first start stop)
    × Shows lines start stop s
    × Tiles first lines (suc stop) rest

join_lines-take :
    (lines : List String) (start stop : ℕ)
    → start ≤ stop
    → stop < length lines
    → join_lines lines start stop ≡ concat_all (take (stop + 1 - start) (drop start lines))
unfolding join_lines
join_lines-take lines start stop h k = ground arith

tile_window :
    (first : ℤ) (lines : List String) (cursor : ℕ) (w : SourceWindow) (rest : List Segment)
    → w.start ≡ cursor
    → Fits (length lines) w
    → Tiles first lines (suc w.end) rest
    → Tiles first lines cursor (source_segment first lines w.start w.end ∷ rest)
tile_window first lines cursor w rest e fits later =
    subst (λ c. Tiles first lines c (source_segment first lines w.start w.end ∷ rest)) e
      (w.end, fits.0, fits.1, refl, join_lines-take lines w.start w.end fits.0 fits.1, later)

segments_from-Tiles :
    (first : ℤ) (lines : List String) (cursor : ℕ) (ws : List SourceWindow)
    → cursor ≤ length lines
    → InOrder (length lines) cursor ws
    → Tiles first lines cursor (segments_from first lines cursor ws)
unfolding segments_from
segments_from-Tiles first lines cursor [] h o = elim (Bool-cases (ltb cursor (length lines))) [
  | inl more ↦ rw more (length lines - 1, ground arith, ground arith, refl, refl, ground arith)
  | inr done ↦ rw done (ground arith)
]
segments_from-Tiles first lines cursor (w ∷ rest) h o =
    let (lo, fits, others) = o in
    let later = segments_from-Tiles first lines (suc w.end) rest (omega (arith, fits)) others in
    elim (Bool-cases (ltb cursor w.start)) [
      | inl gap ↦ rw gap (
        w.start - 1,
        ground arith,
        ground arith,
        refl,
        refl,
        tile_window first lines (suc (w.start - 1)) w _ (ground arith) fits later,
      )
      | inr none_left ↦ rw none_left (tile_window first lines cursor w _ (ground arith) fits later)
    ]

single-append : (c : Char) (s : String) → concat (String.◌∷◌ c "") s ≡ String.◌∷◌ c s
single-append c s = cons-append c "" s ∙ ap (String.◌∷◌ c) (nil-append s)

concat-onto_line :
    (c : Char) (rest : List String) → concat_all (onto_line c rest) ≡ String.◌∷◌ c (concat_all rest)
unfolding concat_all onto_line
concat-onto_line c [] = single-append c ""
concat-onto_line c (line ∷ rest) = cons-append c line (concat_all rest)

whole_nil : concat_all [] ≡ ""
unfolding concat_all
whole_nil = refl

whole_cons :
    (c : Char) (rest : List String)
    → concat_all (String.◌∷◌ c "" ∷ rest) ≡ String.◌∷◌ c (concat_all rest)
unfolding concat_all
whole_cons c rest = single-append c (concat_all rest)

lines-whole : (s : String) → concat_all (index_lines s) ≡ s
unfolding index_lines
lines-whole String.[] = whole_nil
lines-whole (String.◌∷◌ c s) =
    if_both (λ lines. concat_all lines ≡ String.◌∷◌ c s) (code c == b'\n') _ _
      (whole_cons c (index_lines s) ∙ ap (String.◌∷◌ c) (lines-whole s))
      (concat-onto_line c (index_lines s) ∙ ap (String.◌∷◌ c) (lines-whole s))

-- `focused_segments` tiles the lines of the content, which are the content again when joined: each segment
-- covers the lines behind the one before, with the candidate's line numbers, and shows exactly their text
-- or, if it is omitted, none; the last one ends with the last line.
pub focused_segments_lem :
    {F : Type 0} (t : TextTables) (c : ClassifiedCandidate F) (plan : Plan)
    → Tiles c.candidate.start_line (index_lines c.candidate.content) 0 (focused_segments t c plan)
      × (concat_all (index_lines c.candidate.content) ≡ c.candidate.content)
unfolding focused_segments
focused_segments_lem t c plan =
    (go (index_lines c.candidate.content), lines-whole c.candidate.content)
  where
    go :
        (lines : List String)
        → Tiles c.candidate.start_line lines 0 (
            if is_nil lines
            then []
            else segments_from c.candidate.start_line lines 0
                (selected_windows t (focused_terms plan) lines))
    go [] = refl
    go (line ∷ rest) =
        segments_from-Tiles c.candidate.start_line (line ∷ rest) 0
          (selected_windows t (focused_terms plan) (line ∷ rest)) (omega arith)
          (selected_windows-InOrder t (focused_terms plan) line rest)
