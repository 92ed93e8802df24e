-- ===== src/Sourceutil/Intervals.antt =====
-- `Interval`, `MergeIntervals` and `SubtractIntervals` of
-- internal/extract/sourceutil/intervals.go. The loops compare and copy offsets and compute none, so
-- Go's `int` is an unbounded integer here.
pub mod Merge
pub mod Normal
pub mod Cut
use focal_span.Prelude.{
  ℤ, pos, leb_ℤ, ltb_ℤ, eqb_ℤ, Bool, true, false, not, ◌&&◌, ◌||◌, List, [], ◌∷◌, ◌++◌, ◌+◌, keep,
  any, pos_part, neg_part, if◌then◌else◌,
}
use focal_span.Prelude.Sort.{sort_by}

pub record Interval : Type 0 where
  pub start : ℤ
  pub end : ℤ

abbrev pub valid : Interval → Bool
valid i = leb_ℤ (pos 0) i.start && leb_ℤ i.start i.end

-- the test of the first loop
abbrev pub usable : Interval → Bool
usable i = valid i && ltb_ℤ i.start i.end

-- the `less` of `sort.Slice`
abbrev pub before : Interval → Interval → Bool
before a b = if not (eqb_ℤ a.start b.start) then ltb_ℤ a.start b.start else ltb_ℤ a.end b.end

-- the assignment to the last element's `End`
abbrev pub extend : Interval → Interval → Interval
extend last value = if ltb_ℤ last.end value.end then record last { end = value.end } else last

-- The second loop; `last` is the last element of `merged`, which is the one that the loop may
-- still extend.
unfoldable pub merge_from : Interval → List Interval → List Interval
merge_from last [] = last ∷ []
merge_from last (value ∷ rest) = elim (ltb_ℤ last.end value.start) [
  | true ↦ last ∷ merge_from value rest
  | false ↦ merge_from (extend last value) rest
]

unfoldable pub merge_sorted : List Interval → List Interval
unfolding merge_from
merge_sorted [] = []
merge_sorted (value ∷ rest) = merge_from value rest

unfoldable pub merge_intervals : List Interval → List Interval
unfolding merge_sorted
merge_intervals values = merge_sorted (sort_by before (keep usable values))

-- what one cut leaves of one value
abbrev pub fragments : Interval → Interval → List Interval
fragments cut value =
    if leb_ℤ cut.end value.start || leb_ℤ value.end cut.start
    then value ∷ []
    else (if ltb_ℤ value.start cut.start
        then record { start = value.start; end = cut.start } ∷ []
        else [])
      ++ (if ltb_ℤ cut.end value.end then record { start = cut.end; end = value.end } ∷ [] else [])

-- the inner loop over `remaining`
unfoldable pub cut_all : Interval → List Interval → List Interval
cut_all cut [] = []
cut_all cut (value ∷ rest) = fragments cut value ++ cut_all cut rest

-- the outer loop over the cuts
unfoldable pub cut_each : List Interval → List Interval → List Interval
unfolding cut_all
cut_each remaining [] = remaining
cut_each remaining (cut ∷ cuts) = cut_each (cut_all cut remaining) cuts

unfoldable pub subtract_intervals : List Interval → List Interval → List Interval
unfolding cut_each merge_intervals
subtract_intervals values cuts = cut_each (merge_intervals values) (merge_intervals cuts)

-- Whether a byte offset lies in an interval, in some interval of a list, and in some interval that
-- `MergeIntervals` does not drop.
abbrev pub contains : ℤ → Interval → Bool
contains p i = leb_ℤ i.start p && ltb_ℤ p i.end

abbrev pub covers : ℤ → List Interval → Bool
covers p = any (contains p)

abbrev pub covers_usable : ℤ → List Interval → Bool
covers_usable p = any (λ i. usable i && contains p i)
