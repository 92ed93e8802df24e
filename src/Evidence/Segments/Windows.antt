-- ===== src/Evidence/Segments/Windows.antt =====
-- `mergeWindows` and `addOrMergeWindow` of internal/evidence/segments.go.
use focal_span.Prelude.{ℕ, ◌+◌, Bool, ◌&&◌, List, [], ◌∷◌, ltb, leb, if◌then◌else◌}
use focal_span.Prelude.Sort.{sort_by}

pub record SourceWindow : Type 0 where
  pub start : ℕ
  pub end : ℕ
  pub score : ℕ

-- `window.start-last.end <= 3`
abbrev pub is_near : SourceWindow → SourceWindow → Bool
is_near last window = leb window.start (last.end + 3)

abbrev larger : ℕ → ℕ → ℕ
larger a b = if ltb a b then b else a

unfoldable pub extend_window : SourceWindow → SourceWindow → SourceWindow
extend_window last window = record {
  start = last.start;
  end = larger last.end window.end;
  score = larger last.score window.score;
}

-- the loop behind the first window, with the last one of the result
unfoldable pub merge_behind : SourceWindow → List SourceWindow → List SourceWindow
unfolding extend_window
merge_behind last [] = last ∷ []
merge_behind last (window ∷ rest) =
    let joined = merge_behind (extend_window last window) rest in
    let apart = last ∷ merge_behind window rest in if is_near last window then joined else apart

unfoldable pub merge_ordered : List SourceWindow → List SourceWindow
unfolding merge_behind
merge_ordered [] = []
merge_ordered (window ∷ rest) = merge_behind window rest

unfoldable pub merge_windows : List SourceWindow → List SourceWindow
unfolding merge_ordered
merge_windows windows = merge_ordered (sort_by (λ a b. ltb a.start b.start) windows)

-- a window that takes in the candidate
unfoldable pub absorb : SourceWindow → SourceWindow → SourceWindow
absorb window candidate = record {
  start = if ltb candidate.start window.start then candidate.start else window.start;
  end = larger window.end candidate.end;
  score = larger window.score candidate.score;
}

unfoldable pub add_or_merge_window : List SourceWindow → SourceWindow → List SourceWindow
unfolding absorb
add_or_merge_window [] candidate = candidate ∷ []
add_or_merge_window (window ∷ rest) candidate =
    let later = add_or_merge_window rest candidate in
    if is_near window candidate && is_near candidate window
    then absorb window candidate ∷ rest
    else window ∷ later
