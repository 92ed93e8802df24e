-- ===== src/Evidence/Variants/Filled.antt =====
-- Texts that are not empty, among them each line of a content and the text of a range of lines.
use focal_span.Prelude.{
  ℕ, zero, suc, ◌+◌, ◌-◌, ◌≤◌, ◌<◌, ◌≡◌, ◌≢◌, refl, sym, subst, String, Bool, true, false, ◌&&◌,
  List, [], ◌∷◌, take, drop, length, All, arith, Bool-cases, inl, inr, eq_iff, if_both,
}
use text.Mathlib.TextLemmas.{append-ne-nil_of_right_ne-nil, cons-append, cons≢nil}
use Prim.Native.Char.{Char}
use focal_span.Prelude.Text.{concat}
use focal_span.Evidence.Validate.{blank}
use focal_span.Evidence.Segments.Lines.{index_lines, onto_line, concat_all}

pub no_and : (b : Bool) → (b && false) ≡ false
no_and true = refl
no_and false = refl

abbrev pub Filled : String → Type 0
Filled s = blank s ≡ false

pub not-blank : (s : String) → s ≢ "" → Filled s
not-blank s h = elim (Bool-cases (blank s)) [
  | inl empty ↦ absurd (h ((eq_iff s "").0 empty))
  | inr full ↦ full
]

pub concat-Filled : (s t : String) → Filled t → Filled (concat s t)
concat-Filled s t h =
    not-blank (concat s t) (append-ne-nil_of_right_ne-nil s (λ e. cc (h, (eq_iff t "").1 e)))

pub cons-Filled : (c : Char) (s : String) → Filled (String.◌∷◌ c s)
cons-Filled c s = not-blank (String.◌∷◌ c s) cons≢nil

-- every line holds a character
pub lines-Filled : (s : String) → All Filled (index_lines s)
unfolding index_lines
lines-Filled String.[] = tt
lines-Filled (String.◌∷◌ c s) =
    if_both (All Filled) _ (String.◌∷◌ c "" ∷ index_lines s) (onto_line c (index_lines s))
      (cons-Filled c "", lines-Filled s) (onto (index_lines s) (lines-Filled s))
  where
    onto : (lines : List String) → All Filled lines → All Filled (onto_line c lines)
    onto [] h = (cons-Filled c "", tt)
    onto (line ∷ rest) h = (cons-Filled c line, h.1)

pub concat-Filled_left : (s t : String) → Filled s → Filled (concat s t)
concat-Filled_left String.[] t h = cc
concat-Filled_left (String.◌∷◌ c s) t h =
    subst Filled (sym (cons-append c s t)) (cons-Filled c (concat s t))

-- the text of a range of lines
pub range-Filled :
    (lines : List String) (start more : ℕ)
    → start + more < length lines
    → All Filled lines
    → Filled (concat_all (take (suc more) (drop start lines)))
unfolding concat_all
range-Filled [] start more h f = absurd (omega (arith, h))
range-Filled (line ∷ rest) zero more h f = concat-Filled_left line (concat_all (take more rest)) f.0
range-Filled (line ∷ rest) (suc start) more h f =
    range-Filled rest start more (omega (arith, h)) f.1

pub shown-Filled :
    (lines : List String) (start stop : ℕ)
    → start ≤ stop
    → stop < length lines
    → All Filled lines
    → Filled (concat_all (take (stop + 1 - start) (drop start lines)))
shown-Filled lines start stop h k f =
    let e : suc (stop - start) ≡ stop + 1 - start = omega arith in
    subst (λ n. Filled (concat_all (take n (drop start lines)))) e
      (range-Filled lines start (stop - start) (omega (arith, h, k)) f)
