-- ===== src/Tests/Sourceutil.antt =====
-- internal/extract/sourceutil at concrete inputs.
use focal_span.Prelude.{
  ℕ, map, add_int, sub_int, ◌+ℤ◌, ◌-ℤ◌, ◌≡◌, ◌↔◌, refl, ℤ, pos, negsuc, ◌≤ℤ◌, true, not, ◌&&◌, List,
  [], ◌∷◌, some, any, arith,
}
use focal_span.Prelude.Sort.{insert_by, sort_by}
use focal_span.Prelude.Text.{codes}
use focal_span.Sourceutil.Intervals.{
  Interval, merge_intervals, subtract_intervals, covers, covers_usable,
}
use focal_span.Sourceutil.Intervals.Merge.{
  IsSeparated, covers-merge_intervals, merge_intervals-IsSeparated,
}
use focal_span.Sourceutil.Intervals.Normal.{merge_intervals-normal, merge_intervals_separated}
use focal_span.Sourceutil.Intervals.Cut.{covers-subtract_intervals, subtract_intervals-IsSeparated}
use focal_span.Sourceutil.SourceMap.{Span, new_source_map, line_at, span, slice}
use focal_span.Sourceutil.SourceMap.LineAt.{line_at-new_source_map, span-slice}
use focal_span.Sourceutil.Chunks.{
  Outcome, with_window, window_capacity, window_end, windows_from, bounded_line_windows,
}
use focal_span.Sourceutil.Chunks.Windows.{
  holds_line, as_ints, IsTiling, bounded_line_windows-IsTiling, bounded_line_windows-covers,
}

abbrev between : ℕ → ℕ → Interval
between a b = record { start = pos a; end = pos b }

-- overlapping, adjacent, empty and invalid intervals, out of order
abbrev messy : List Interval
messy =
    between 8 12
    ∷ between 0 3
    ∷ between 3 5
    ∷ between 7 7
    ∷ record { start = negsuc 2; end = pos 20 }
    ∷ between 10 11
    ∷ []

abbrev tidy : List Interval
tidy = between 0 5 ∷ between 8 12 ∷ []

merge_runs : merge_intervals messy ≡ tidy
unfolding merge_intervals sort_by insert_by
merge_runs = refl

subtract_runs :
    subtract_intervals messy (between 2 9 ∷ between 11 30 ∷ []) ≡ between 0 2 ∷ between 9 11 ∷ []
unfolding subtract_intervals sort_by insert_by
subtract_runs = refl

covers-merge_intervals_example :
    covers (pos 4) (merge_intervals messy) ≡ covers_usable (pos 4) messy
covers-merge_intervals_example = covers-merge_intervals (pos 4) messy

merge_intervals-IsSeparated_example : IsSeparated (merge_intervals messy)
merge_intervals-IsSeparated_example = merge_intervals-IsSeparated messy

merge_intervals-normal_example :
    (merge_intervals messy ≡ merge_intervals tidy)
    ↔ ((p : ℤ) → covers_usable p messy ≡ covers_usable p tidy)
merge_intervals-normal_example = merge_intervals-normal messy tidy

merge_intervals_separated_example : merge_intervals tidy ≡ tidy
merge_intervals_separated_example = merge_intervals_separated tidy (omega arith)

covers-subtract_intervals_example :
    covers (pos 9) (subtract_intervals messy (between 2 9 ∷ []))
    ≡ (covers_usable (pos 9) messy && not (covers_usable (pos 9) (between 2 9 ∷ [])))
covers-subtract_intervals_example = covers-subtract_intervals (pos 9) messy (between 2 9 ∷ [])

subtract_intervals-IsSeparated_example : IsSeparated (subtract_intervals messy (between 2 9 ∷ []))
subtract_intervals-IsSeparated_example = subtract_intervals-IsSeparated messy (between 2 9 ∷ [])

abbrev file : List ℕ
file = codes "ab\ncd\n"

line_at_runs : line_at (new_source_map file) (pos 4) ≡ 2
unfolding line_at new_source_map
line_at_runs = refl

line_at-new_source_map_example : line_at (new_source_map file) (pos 6) ≡ 3
line_at-new_source_map_example = line_at-new_source_map file 6

span-slice_example :
    (sp : Span) × (span (new_source_map file) (pos 1) (pos 5) ≡ some sp)
    × (sp.start_line ≡ pos 1)
    × (sp.start_line ≤ℤ sp.end_line)
    × (slice (new_source_map file) sp ≡ some (codes "b\ncd"))
span-slice_example = span-slice file 1 5 (omega arith) (omega arith)

windows_run :
    bounded_line_windows 1000 (pos 10) (pos 4) (pos 1)
    ≡ Outcome.returned ((pos 1, pos 4) ∷ (pos 4, pos 7) ∷ (pos 7, pos 10) ∷ [])
unfolding bounded_line_windows windows_from with_window window_capacity window_end add_int sub_int
    ◌+ℤ◌ ◌-ℤ◌
windows_run = refl

-- the capacity of two lines with the greatest limit wraps around to a negative one
wrapped_run :
    bounded_line_windows 1000 (pos 2) (pos 0x7FFF_FFFF_FFFF_FFFF) (pos 0) ≡ Outcome.panicked
unfolding bounded_line_windows window_capacity add_int sub_int ◌+ℤ◌ ◌-ℤ◌
wrapped_run = refl

bounded_line_windows-IsTiling_example :
    (ws : List (ℕ × ℕ)) × (bounded_line_windows 1000 (pos 10) (pos 4) (pos 1)
      ≡ Outcome.returned (map as_ints ws))
    × IsTiling 10 4 3 1 ws
bounded_line_windows-IsTiling_example =
    bounded_line_windows-IsTiling 1000 10 (pos 4) (pos 1) (omega arith) (omega arith) (omega arith)

bounded_line_windows-covers_example :
    (ws : List (ℕ × ℕ)) × (bounded_line_windows 1000 (pos 10) (negsuc 0) (pos 100)
      ≡ Outcome.returned (map as_ints ws))
    × (any (holds_line 9) ws ≡ true)
bounded_line_windows-covers_example =
    bounded_line_windows-covers 1000 10 9 (negsuc 0) (pos 100) (omega arith) (omega arith)
      (omega arith) (omega arith)
