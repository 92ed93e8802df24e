-- ===== src/Sourceutil/Intervals/Cut.antt =====
-- `SubtractIntervals` leaves exactly the bytes of the values that no cut covers.
use focal_span.Prelude.{
  ◌≡◌, refl, ap, ap₂, ◌∙◌, ℤ, negsuc, ◌≤ℤ◌, ◌<ℤ◌, Bool, not, ◌&&◌, ◌||◌, List, [], ◌∷◌, ◌++◌,
  any-append, All, arith,
}
use focal_span.Sourceutil.Intervals.{
  Interval, merge_intervals, fragments, cut_all, cut_each, subtract_intervals, contains, covers,
  covers_usable,
}
use focal_span.Sourceutil.Intervals.Merge.{
  SeparatedFrom, IsSeparated, NonEmpty, covers-merge_intervals, merge_intervals-IsSeparated,
}

covers-fragments :
    (p : ℤ) (cut value : Interval)
    → NonEmpty cut
    → covers p (fragments cut value) ≡ (contains p value && not (contains p cut))
covers-fragments p cut value c = ground arith

covers-cut_all :
    (p : ℤ) (cut : Interval) (xs : List Interval)
    → NonEmpty cut
    → covers p (cut_all cut xs) ≡ (covers p xs && not (contains p cut))
unfolding cut_all
covers-cut_all p cut [] c = refl
covers-cut_all p cut (x ∷ xs) c =
    any-append (contains p) (fragments cut x) (cut_all cut xs)
    ∙ ap₂ ◌||◌ (covers-fragments p cut x c) (covers-cut_all p cut xs c)
    ∙ distribute (contains p x) (covers p xs) (contains p cut)
  where
    distribute : (a b c : Bool) → ((a && not c) || (b && not c)) ≡ ((a || b) && not c)
    distribute a b c = ground arith

covers-cut_each :
    (p : ℤ) (xs cuts : List Interval)
    → All NonEmpty cuts
    → covers p (cut_each xs cuts) ≡ (covers p xs && not (covers p cuts))
unfolding cut_each
covers-cut_each p xs [] c = ground arith
covers-cut_each p xs (cut ∷ cuts) c =
    covers-cut_each p (cut_all cut xs) cuts c.1
    ∙ ap (λ b. b && not (covers p cuts)) (covers-cut_all p cut xs c.0)
    ∙ both (covers p xs) (contains p cut) (covers p cuts)
  where
    both : (a b c : Bool) → ((a && not b) && not c) ≡ (a && not (b || c))
    both a b c = ground arith

SeparatedFrom-weaken :
    (lo lo' : ℤ) (xs : List Interval) → lo' ≤ℤ lo → SeparatedFrom lo xs → SeparatedFrom lo' xs
SeparatedFrom-weaken lo lo' [] h k = tt
SeparatedFrom-weaken lo lo' (x ∷ xs) h k = (omega arith, k.1, k.2)

separated_nonempty : (lo : ℤ) (xs : List Interval) → SeparatedFrom lo xs → All NonEmpty xs
separated_nonempty lo [] h = tt
separated_nonempty lo (x ∷ xs) h = (h.1, separated_nonempty x.end xs h.2)

fragments-append :
    (lo : ℤ) (cut x : Interval) (ys : List Interval)
    → lo <ℤ x.start
    → NonEmpty x
    → NonEmpty cut
    → SeparatedFrom x.end ys
    → SeparatedFrom lo (fragments cut x ++ ys)
fragments-append lo cut x ys l e c h =
    ground (arith, SeparatedFrom-weaken x.end lo ys, SeparatedFrom-weaken x.end cut.start ys)

cut_all-SeparatedFrom :
    (lo : ℤ) (cut : Interval) (xs : List Interval)
    → NonEmpty cut
    → SeparatedFrom lo xs
    → SeparatedFrom lo (cut_all cut xs)
unfolding cut_all
cut_all-SeparatedFrom lo cut [] c h = tt
cut_all-SeparatedFrom lo cut (x ∷ xs) c h =
    fragments-append lo cut x (cut_all cut xs) h.0 h.1 c (cut_all-SeparatedFrom x.end cut xs c h.2)

cut_each-SeparatedFrom :
    (lo : ℤ) (xs cuts : List Interval)
    → All NonEmpty cuts
    → SeparatedFrom lo xs
    → SeparatedFrom lo (cut_each xs cuts)
unfolding cut_each
cut_each-SeparatedFrom lo xs [] c h = h
cut_each-SeparatedFrom lo xs (cut ∷ cuts) c h =
    cut_each-SeparatedFrom lo (cut_all cut xs) cuts c.1 (cut_all-SeparatedFrom lo cut xs c.0 h)

-- `SubtractIntervals` covers an offset exactly when some valid, nonempty value contains it and no
-- valid, nonempty cut does.
pub covers-subtract_intervals :
    (p : ℤ) (values cuts : List Interval)
    → covers p (subtract_intervals values cuts)
      ≡ (covers_usable p values && not (covers_usable p cuts))
unfolding subtract_intervals
covers-subtract_intervals p values cuts =
    covers-cut_each p (merge_intervals values) (merge_intervals cuts)
      (separated_nonempty (negsuc 0) (merge_intervals cuts) (merge_intervals-IsSeparated cuts))
    ∙ ap₂ (λ a b. a && not b) (covers-merge_intervals p values) (covers-merge_intervals p cuts)

-- The fragments that `SubtractIntervals` returns are in order, not empty and at least one byte apart.
pub subtract_intervals-IsSeparated :
    (values cuts : List Interval) → IsSeparated (subtract_intervals values cuts)
unfolding subtract_intervals
subtract_intervals-IsSeparated values cuts =
    cut_each-SeparatedFrom (negsuc 0) (merge_intervals values) (merge_intervals cuts)
      (separated_nonempty (negsuc 0) (merge_intervals cuts) (merge_intervals-IsSeparated cuts))
      (merge_intervals-IsSeparated values)
