-- ===== src/Budget/Elide.antt =====
-- `Packer.elide` of internal/budget/budget.go: the first lines of a content, as many as fit.
use focal_span.Prelude.{
  ℕ, zero, suc, ℤ, pos, leb_ℤ, ◌≡◌, refl, inl, inr, ◌⊎◌, String, Bool, true, false, ◌&&◌, List, [],
  ◌∷◌, take, length, ltb, leb, ◌≤◌, ◌<◌, ◌==◌, if◌then◌else◌, Bool-cases, arith,
}
use Prim.Native.Char.{Char, code}
use focal_span.Prelude.Text.{concat}
use focal_span.Prelude.Search.{starts_with}
use focal_span.Evidence.Validate.{blank}

-- `strings.ReplaceAll(content, "\r\n", "\n")`
unfoldable pub without_returns : String → String
without_returns String.[] = ""
without_returns (String.◌∷◌ c s) =
    let rest = without_returns s in
    if code c == b'\r' && starts_with "\n" s then rest else String.◌∷◌ c rest

onto_part : Char → List String → List String
onto_part c [] = String.◌∷◌ c "" ∷ []
onto_part c (part ∷ rest) = String.◌∷◌ c part ∷ rest

-- `strings.Split` at newlines
unfoldable pub split_lines : String → List String
unfolding onto_part
split_lines String.[] = "" ∷ []
split_lines (String.◌∷◌ c s) =
    let rest = split_lines s in if code c == b'\n' then "" ∷ rest else onto_part c rest

-- `strings.Join` with newlines
unfoldable pub join_with_newlines : List String → String
join_with_newlines [] = ""
join_with_newlines (line ∷ []) = line
join_with_newlines (line ∷ more ∷ rest) =
    concat line (concat "\n" (join_with_newlines (more ∷ rest)))

abbrev pub elided_mark : String
elided_mark = "[...elided...]\n"

abbrev pub elided_text : List String → String
elided_text lines = concat (join_with_newlines lines) (concat "\n" elided_mark)

-- the loop, with the number of lines that are left
unfoldable pub elide_from : (String → ℤ) → ℕ → ℕ → List String → String
unfolding join_with_newlines
elide_from estimate limit zero lines = elided_mark
elide_from estimate limit (suc n) lines =
    let shorter = elide_from estimate limit n lines in
    if leb_ℤ (estimate (elided_text (take (suc n) lines))) (pos limit)
    then elided_text (take (suc n) lines)
    else shorter

unfoldable pub elide : (String → ℤ) → String → ℕ → String
unfolding elide_from split_lines without_returns
elide estimate content limit =
    let lines = split_lines (without_returns content) in
    if blank content
    then elided_mark
    else if ltb limit 8
    then elided_mark
    else elide_from estimate limit (length lines) lines

module _ (estimate : String → ℤ) (limit : ℕ) (lines : List String) where
  abbrev pub fits : ℕ → Bool
  fits n = leb_ℤ (estimate (elided_text (take n lines))) (pos limit)

  -- a text of no lines, since none of the lengths up to `most` fits, or of the greatest length that fits
  abbrev pub IsLongest : ℕ → String → Type 0
  IsLongest most text =
      ((text ≡ elided_mark) × ((m : ℕ) → 0 < m → m ≤ most → fits m ≡ false))
      ⊎ ((n : ℕ) × (0 < n)
          × (n ≤ most)
          × (text ≡ elided_text (take n lines))
          × (fits n ≡ true)
          × ((m : ℕ) → n < m → m ≤ most → fits m ≡ false))

  at_top : (n m : ℕ) → fits (suc n) ≡ false → (m ≤ n → fits m ≡ false) → m ≤ suc n → fits m ≡ false
  at_top n m over below h = elim (Bool-cases (leb m n)) [
    | inl low ↦ below (ground arith)
    | inr high ↦ let top : m ≡ suc n = ground arith in rw top over
  ]

  elide_from-IsLongest : (n : ℕ) → IsLongest n (elide_from estimate limit n lines)
  unfolding elide_from
  elide_from-IsLongest zero = inl (refl, λ m low high. absurd (omega (arith, low, high)))
  elide_from-IsLongest (suc n) = elim (Bool-cases (fits (suc n))) [
    | inl within ↦ rw within (
        inr (
          suc n,
          omega arith,
          omega arith,
          refl,
          within,
          λ m low high. absurd (omega (arith, low, high)),
        ))
    | inr over ↦ rw over (longer over (elide_from-IsLongest n))
  ]
    where
      longer :
          fits (suc n) ≡ false
          → IsLongest n (elide_from estimate limit n lines)
          → IsLongest (suc n) (elide_from estimate limit n lines)
      longer over (inl (same, none_fits)) =
          inl (same, λ m low high. at_top n m over (none_fits m low) high)
      longer over (inr (k, low, high, same, within, others)) = inr (
        k,
        low,
        omega (arith, high),
        same,
        within,
        λ m above most. at_top n m over (others m above) most,
      )

-- `elide` of a content that is not empty, within 8 tokens or more: the first lines of the content, as many as
-- fit with the mark behind them, or the mark alone if no number of lines fits.
pub elide-IsLongest :
    (estimate : String → ℤ) (content : String) (limit : ℕ)
    → blank content ≡ false
    → 8 ≤ limit
    → IsLongest estimate limit
        (split_lines (without_returns content))
        (length (split_lines (without_returns content)))
        (elide estimate content limit)
unfolding elide
elide-IsLongest estimate content limit full h =
    let high : ltb limit 8 ≡ false = ground arith in
    let lines = split_lines (without_returns content) in
    rw full (rw high (elide_from-IsLongest estimate limit lines (length lines)))
