-- ===== src/Sourceutil/Intervals/Merge.antt =====
-- `MergeIntervals` keeps the bytes covered, and returns separated intervals.
use focal_span.Prelude.{
  ◌≡◌, refl, ap, ◌∙◌, ℤ, pos, negsuc, ltb_ℤ, ◌≤ℤ◌, ◌<ℤ◌, Bool, true, false, ◌||◌, List, [], ◌∷◌,
  keep, All, arith, Bool-cases, inl, inr,
}
use focal_span.Prelude.Sort.{
  sort_by, any-sort_by, All-sort_by, SortedFrom, SortedFrom-weaken, SortedFrom-sort_by,
}
use focal_span.Sourceutil.Intervals.{
  Interval, usable, before, extend, merge_from, merge_sorted, merge_intervals, contains, covers,
  covers_usable,
}

-- In order, none empty, and a gap of at least one byte after `lo` and between neighbours.
abbrev pub SeparatedFrom : ℤ → List Interval → Type 0
SeparatedFrom lo [] = Unit
SeparatedFrom lo (x ∷ xs) = (lo <ℤ x.start) × (x.start <ℤ x.end) × SeparatedFrom x.end xs

-- Separated, with the first interval at offset 0 or later.
abbrev pub IsSeparated : List Interval → Type 0
IsSeparated = SeparatedFrom (negsuc 0)

abbrev pub NonEmpty : Interval → Type 0
NonEmpty i = i.start <ℤ i.end

abbrev ByStart : ℤ → List Interval → Type 0
ByStart = SortedFrom (λ i. i.start)

merge_from-gap :
    (last v : Interval) (vs : List Interval)
    → ltb_ℤ last.end v.start ≡ true
    → merge_from last (v ∷ vs) ≡ last ∷ merge_from v vs
unfolding merge_from
merge_from-gap last v vs h = rw (h, merge_from)

merge_from-touch :
    (last v : Interval) (vs : List Interval)
    → ltb_ℤ last.end v.start ≡ false
    → merge_from last (v ∷ vs) ≡ merge_from (extend last v) vs
unfolding merge_from
merge_from-touch last v vs h = rw (h, merge_from)

contains-extend :
    (p : ℤ) (last v : Interval)
    → last.start ≤ℤ v.start
    → ltb_ℤ last.end v.start ≡ false
    → contains p (extend last v) ≡ (contains p last || contains p v)
contains-extend p last v h t = ground arith

start-extend : (last v : Interval) → (extend last v).start ≡ last.start
start-extend last v = ground arith

or_assoc : (a b c : Bool) → ((a || b) || c) ≡ (a || (b || c))
or_assoc a b c = ground arith

extend-ByStart :
    (last v : Interval) (vs : List Interval)
    → ByStart last.start (v ∷ vs)
    → ByStart (extend last v).start vs
extend-ByStart last v vs h =
    rw (start-extend last v) (SortedFrom-weaken _ v.start last.start vs h.0 h.1)

covers-merge_from :
    (p : ℤ) (last : Interval) (vs : List Interval)
    → ByStart last.start vs
    → covers p (merge_from last vs) ≡ (contains p last || covers p vs)
covers-merge_from p last [] h = unfold merge_from in refl
covers-merge_from p last (v ∷ vs) h = elim (Bool-cases (ltb_ℤ last.end v.start)) [
  | inl gap ↦ rw (merge_from-gap last v vs gap) (rw (covers-merge_from p v vs h.1))
  | inr touch ↦ rw (merge_from-touch last v vs touch) (
      covers-merge_from p (extend last v) vs (extend-ByStart last v vs h)
      ∙ ap (λ b. b || covers p vs) (contains-extend p last v h.0 touch)
      ∙ or_assoc (contains p last) (contains p v) (covers p vs))
]

extend-NonEmpty : (last v : Interval) → NonEmpty last → NonEmpty (extend last v)
extend-NonEmpty last v e = ground arith

separated-merge_from :
    (lo : ℤ) (last : Interval) (vs : List Interval)
    → lo <ℤ last.start
    → NonEmpty last
    → ByStart last.start vs
    → All NonEmpty vs
    → SeparatedFrom lo (merge_from last vs)
separated-merge_from lo last [] l e h n = unfold merge_from in (l, e, tt)
separated-merge_from lo last (v ∷ vs) l e h n = elim (Bool-cases (ltb_ℤ last.end v.start)) [
  | inl gap ↦
      rw (merge_from-gap last v vs gap)
        (l, e, separated-merge_from last.end v vs (ground arith) n.0 h.1 n.1)
  | inr touch ↦ rw (merge_from-touch last v vs touch) (
      separated-merge_from lo (extend last v) vs (rw (start-extend last v) l)
        (extend-NonEmpty last v e) (extend-ByStart last v vs h) n.1)
]

abbrev FromZero : Interval → Type 0
FromZero i = pos 0 ≤ℤ i.start

keep-FromZero : (vs : List Interval) → All FromZero (keep usable vs)
keep-FromZero [] = tt
keep-FromZero (v ∷ vs) = elim (Bool-cases (usable v)) [
  | inl e ↦ rw e (ground arith, keep-FromZero vs)
  | inr e ↦ rw e (keep-FromZero vs)
]

keep-NonEmpty : (vs : List Interval) → All NonEmpty (keep usable vs)
keep-NonEmpty [] = tt
keep-NonEmpty (v ∷ vs) = elim (Bool-cases (usable v)) [
  | inl e ↦ rw e (ground arith, keep-NonEmpty vs)
  | inr e ↦ rw e (keep-NonEmpty vs)
]

covers-keep : (p : ℤ) (vs : List Interval) → covers p (keep usable vs) ≡ covers_usable p vs
covers-keep p [] = refl
covers-keep p (v ∷ vs) = ground (arith, covers-keep p vs)

abbrev ordered : List Interval → List Interval
ordered vs = sort_by before (keep usable vs)

ordered-sorted : (vs : List Interval) → ByStart (pos 0) (ordered vs)
ordered-sorted vs =
    SortedFrom-sort_by (λ i. i.start) before (λ x y h. ground arith) (λ x y h. ground arith) (pos 0)
      (keep usable vs) (keep-FromZero vs)

covers-merge_sorted :
    (p : ℤ) (vs : List Interval) → ByStart (pos 0) vs → covers p (merge_sorted vs) ≡ covers p vs
unfolding merge_sorted
covers-merge_sorted p [] h = refl
covers-merge_sorted p (v ∷ vs) h = covers-merge_from p v vs h.1

IsSeparated-merge_sorted :
    (vs : List Interval) → ByStart (pos 0) vs → All NonEmpty vs → IsSeparated (merge_sorted vs)
unfolding merge_sorted
IsSeparated-merge_sorted [] h n = tt
IsSeparated-merge_sorted (v ∷ vs) h n =
    separated-merge_from (negsuc 0) v vs (omega arith) n.0 h.1 n.1

-- `MergeIntervals` covers an offset exactly when some input interval that is valid and not empty
-- contains it.
pub covers-merge_intervals :
    (p : ℤ) (vs : List Interval) → covers p (merge_intervals vs) ≡ covers_usable p vs
unfolding merge_intervals
covers-merge_intervals p vs =
    covers-merge_sorted p (ordered vs) (ordered-sorted vs)
    ∙ any-sort_by before (contains p) (keep usable vs)
    ∙ covers-keep p vs

-- The result of `MergeIntervals` starts at 0 or later, is in ascending order, has no empty
-- interval, and leaves at least one byte between neighbours.
pub merge_intervals-IsSeparated : (vs : List Interval) → IsSeparated (merge_intervals vs)
unfolding merge_intervals
merge_intervals-IsSeparated vs =
    IsSeparated-merge_sorted (ordered vs) (ordered-sorted vs)
      (All-sort_by NonEmpty before (keep usable vs) (keep-NonEmpty vs))
