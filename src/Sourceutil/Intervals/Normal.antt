-- ===== src/Sourceutil/Intervals/Normal.antt =====
-- The result of `MergeIntervals` is the one separated list that covers its bytes.
use focal_span.Prelude.{
  ◌≡◌, ◌↔◌, refl, sym, ap, ◌∙◌, ℤ, negsuc, leb_ℤ, ltb_ℤ, ◌≤ℤ◌, ◌<ℤ◌, true, false, List, [], ◌∷◌,
  arith, Bool-cases, inl, inr, eq_of_parts,
}
use focal_span.Sourceutil.Intervals.{Interval, merge_intervals, covers, covers_usable}
use focal_span.Sourceutil.Intervals.Merge.{
  SeparatedFrom, IsSeparated, covers-merge_intervals, merge_intervals-IsSeparated,
}

-- An offset at or before the lower bound is in no interval.
covers-below : (p lo : ℤ) (xs : List Interval) → SeparatedFrom lo xs → p ≤ℤ lo → covers p xs ≡ false
covers-below p lo [] h l = refl
covers-below p lo (x ∷ xs) h l = ground (arith, covers-below p x.end xs h.2)

-- The first offset covered is the first interval's start, and its end is not covered.
covers-start :
    (lo : ℤ) (x : Interval) (xs : List Interval)
    → SeparatedFrom lo (x ∷ xs)
    → covers x.start (x ∷ xs) ≡ true
covers-start lo x xs h = ground arith

covers-end :
    (lo : ℤ) (x : Interval) (xs : List Interval)
    → SeparatedFrom lo (x ∷ xs)
    → covers x.end (x ∷ xs) ≡ false
covers-end lo x xs h = ground (arith, covers-below x.end x.end xs h.2)

from_cover :
    (p lo : ℤ) (x : Interval) (xs : List Interval)
    → SeparatedFrom lo (x ∷ xs)
    → covers p (x ∷ xs) ≡ true
    → x.start ≤ℤ p
from_cover p lo x xs h c = ground (arith, covers-below p x.end xs h.2)

within_first :
    (p : ℤ) (x : Interval) (xs : List Interval)
    → x.start ≤ℤ p
    → p <ℤ x.end
    → covers p (x ∷ xs) ≡ true
within_first p x xs a b = ground arith

module _ (lo : ℤ) (x y : Interval) (xs ys : List Interval) (hx : SeparatedFrom lo (x ∷ xs))
    (hy : SeparatedFrom lo (y ∷ ys)) (same : (p : ℤ) → covers p (x ∷ xs) ≡ covers p (y ∷ ys)) where
  start-le : y.start ≤ℤ x.start
  start-le = from_cover x.start lo y ys hy (sym (same x.start) ∙ covers-start lo x xs hx)

  end-le : x.start ≡ y.start → y.end ≤ℤ x.end
  end-le e = elim (Bool-cases (ltb_ℤ x.end y.end)) [
    | inl less ↦
        let inside : covers x.end (y ∷ ys) ≡ true =
          within_first x.end y ys (rw (← e) (ground arith)) (ground arith) in
        absurd (ground (arith, covers-end lo x xs hx, same x.end))
    | inr more ↦ ground arith
  ]

same_head :
    (lo : ℤ) (x y : Interval) (xs ys : List Interval)
    → SeparatedFrom lo (x ∷ xs)
    → SeparatedFrom lo (y ∷ ys)
    → ((p : ℤ) → covers p (x ∷ xs) ≡ covers p (y ∷ ys))
    → x ≡ y
same_head lo x y xs ys hx hy same =
    let starts : x.start ≡ y.start = eq_of_parts x.start y.start (
      omega (
        arith,
        start-le lo x y xs ys hx hy same,
        start-le lo y x ys xs hy hx (λ p. sym (same p)),
      )) in
    let ends : x.end ≡ y.end = eq_of_parts x.end y.end (
      omega (
        arith,
        end-le lo x y xs ys hx hy same starts,
        end-le lo y x ys xs hy hx (λ p. sym (same p)) (sym starts),
      )) in
    λ i. record { start = starts i; end = ends i }

same_tail :
    (lo : ℤ) (x y : Interval) (xs ys : List Interval)
    → SeparatedFrom lo (x ∷ xs)
    → SeparatedFrom lo (y ∷ ys)
    → x ≡ y
    → ((p : ℤ) → covers p (x ∷ xs) ≡ covers p (y ∷ ys))
    → (p : ℤ) → covers p xs ≡ covers p ys
same_tail lo x y xs ys hx hy e same p = elim (Bool-cases (leb_ℤ p x.end)) [
  | inl low ↦
      covers-below p x.end xs hx.2 (ground arith)
      ∙ sym (covers-below p y.end ys hy.2 (rw (← e) (ground arith)))
  | inr high ↦ let e' : x.end ≡ y.end = ap (λ (i : Interval). i.end) e in ground (arith, same p)
]

-- Two separated lists that cover the same bytes are the same list.
separated_unique :
    (lo : ℤ) (xs ys : List Interval)
    → SeparatedFrom lo xs
    → SeparatedFrom lo ys
    → ((p : ℤ) → covers p xs ≡ covers p ys)
    → xs ≡ ys
separated_unique lo [] [] hx hy same = refl
separated_unique lo [] (y ∷ ys) hx hy same =
    absurd (ground (arith, same y.start, covers-start lo y ys hy))
separated_unique lo (x ∷ xs) [] hx hy same =
    absurd (ground (arith, same x.start, covers-start lo x xs hx))
separated_unique lo (x ∷ xs) (y ∷ ys) hx hy same =
    let head : x ≡ y = same_head lo x y xs ys hx hy same in
    let tail : xs ≡ ys =
      separated_unique x.end xs ys hx.2 (rw head hy.2) (same_tail lo x y xs ys hx hy head same) in
    λ i. head i ∷ tail i

-- Two inputs merge to the same list exactly when their valid, nonempty intervals cover the same
-- offsets: the merged list is a normal form, whatever the order and the overlaps of the input.
pub merge_intervals-normal :
    (vs ws : List Interval)
    → (merge_intervals vs ≡ merge_intervals ws)
      ↔ ((p : ℤ) → covers_usable p vs ≡ covers_usable p ws)
merge_intervals-normal vs ws = (
  λ e p. sym (covers-merge_intervals p vs) ∙ ap (λ l. covers p l) e ∙ covers-merge_intervals p ws,
  λ same.
      separated_unique (negsuc 0) (merge_intervals vs) (merge_intervals ws)
        (merge_intervals-IsSeparated vs) (merge_intervals-IsSeparated ws)
        (λ p. covers-merge_intervals p vs ∙ same p ∙ sym (covers-merge_intervals p ws)),
)

covers_usable_separated :
    (p lo : ℤ) (xs : List Interval)
    → negsuc 0 ≤ℤ lo
    → SeparatedFrom lo xs
    → covers_usable p xs ≡ covers p xs
covers_usable_separated p lo [] l h = refl
covers_usable_separated p lo (x ∷ xs) l h =
    ground (arith, covers_usable_separated p x.end xs (omega arith) h.2)

-- A list that is separated already is returned unchanged; so merging twice is merging once.
pub merge_intervals_separated : (xs : List Interval) → IsSeparated xs → merge_intervals xs ≡ xs
merge_intervals_separated xs h =
    separated_unique (negsuc 0) (merge_intervals xs) xs (merge_intervals-IsSeparated xs) h
      (λ p. covers-merge_intervals p xs ∙ covers_usable_separated p (negsuc 0) xs (omega arith) h)
