-- ===== src/Evidence/Segments.antt =====
-- internal/evidence/segments.go: the excerpt of a candidate around the lines that the question is about.
pub mod Lines
pub mod Windows
pub mod Tiles
use focal_span.Prelude.{
  ℕ, zero, suc, ◌+◌, ◌-◌, ℤ, pos, ◌+ℤ◌, String, Bool, true, false, not, ◌&&◌, ◌||◌, List, [], ◌∷◌,
  ◌++◌, map, any, keep, length, take, drop, ltb, leb, ◌==◌, str_eq, if◌then◌else◌,
}
use focal_span.Prelude.Text.{concat, trim_space}
use focal_span.Prelude.Sort.{sort_by}
use focal_span.Evidence.Model.{Segment, SegmentKind}
use focal_span.Evidence.Candidate.{Plan, RankedCandidate, ClassifiedCandidate}
use focal_span.Evidence.Validate.{is_nil}
use focal_span.Evidence.Runtime.{TextTables}
use Lines.{index_lines, focused_terms, distinct_matches, declaration_prefix_end, join_lines}
use Windows.{SourceWindow, merge_windows, add_or_merge_window}

-- `absoluteLines`
abbrev pub absolute_lines : ℤ → ℕ → ℕ → ℤ × ℤ
absolute_lines first start end = (first +ℤ pos start, first +ℤ pos end)

-- The loop that finds the hits, from an index on; `count` is the number of lines.
unfoldable pub hits_from : TextTables → List String → ℕ → ℕ → List String → List SourceWindow
hits_from t terms count index [] = []
hits_from t terms count index (line ∷ rest) =
    let later = hits_from t terms count (suc index) rest in
    let score = distinct_matches t line terms in
    let end = if leb count (index + 4) then count - 1 else index + 4 in
    if score == 0 then later else record { start = index - 2; end = end; score = score } ∷ later

-- the order in which the hits are tried
abbrev pub stronger_hit : SourceWindow → SourceWindow → Bool
stronger_hit a b = if not (a.score == b.score) then ltb b.score a.score else ltb a.start b.start

abbrev pub starts_before : SourceWindow → SourceWindow → Bool
starts_before a b = ltb a.start b.start

-- the loop that adds the hits, which stops at three windows
unfoldable pub add_hits : List SourceWindow → List SourceWindow → List SourceWindow
add_hits selected [] = selected
add_hits selected (hit ∷ rest) =
    let next = add_or_merge_window selected hit in
    let more = add_hits next rest in if length next == 3 then next else more

-- `prefix`: the declaration
unfoldable pub prefix_window : TextTables → List String → List String → SourceWindow
prefix_window t terms lines =
    let prefix_end = declaration_prefix_end lines in
    record {
      start = 0;
      end = prefix_end;
      score = distinct_matches t (join_lines lines 0 prefix_end) terms;
    }

-- `hits`, merged and in the order in which they are tried
unfoldable pub ordered_hits : TextTables → List String → List String → List SourceWindow
unfolding hits_from
ordered_hits t terms lines =
    sort_by stronger_hit (merge_windows (hits_from t terms (length lines) 0 lines))

-- the windows of the excerpt
unfoldable pub selected_windows : TextTables → List String → List String → List SourceWindow
unfolding add_hits prefix_window ordered_hits
selected_windows t terms lines = merge_windows (
    sort_by starts_before
      (add_hits (prefix_window t terms lines ∷ []) (ordered_hits t terms lines)))

abbrev pub omitted_segment : ℤ → ℕ → ℕ → Segment
omitted_segment first start end = record {
  kind = SegmentKind.omitted;
  lines = absolute_lines first start end;
  text = "";
}

abbrev pub source_segment : ℤ → List String → ℕ → ℕ → Segment
source_segment first lines start end = record {
  kind = SegmentKind.source;
  lines = absolute_lines first start end;
  text = join_lines lines start end;
}

-- the loop over the windows, with `cursor`, and what follows it
unfoldable pub segments_from : ℤ → List String → ℕ → List SourceWindow → List Segment
segments_from first lines cursor [] =
    if ltb cursor (length lines) then omitted_segment first cursor (length lines - 1) ∷ [] else []
segments_from first lines cursor (w ∷ rest) =
    let later =
      source_segment first lines w.start w.end ∷ segments_from first lines (suc w.end) rest in
    if ltb cursor w.start then omitted_segment first cursor (w.start - 1) ∷ later else later

unfoldable pub focused_segments :
    {F : Type 0} → TextTables → ClassifiedCandidate F → Plan → List Segment
focused_segments t c plan =
    let lines = index_lines c.candidate.content in
    if is_nil lines
    then []
    else segments_from c.candidate.start_line lines 0
        (selected_windows t (focused_terms plan) lines)
