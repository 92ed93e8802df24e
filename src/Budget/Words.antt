-- ===== src/Budget/Words.antt =====
-- The tests of internal/budget/budget.go on the words of a request and of a candidate.
use focal_span.Prelude.{
  ℕ, String, Bool, true, false, not, ◌&&◌, ◌||◌, List, [], ◌∷◌, any, str_eq, if◌then◌else◌,
}
use Prim.Native.Char.{Char, code}
use focal_span.Prelude.Text.{codes, has_code, is_space, trim_space, to_slashes}
use focal_span.Prelude.Search.{starts_with, contains, one_of}
use focal_span.Evidence.Candidate.{RankedCandidate, ScoreReason}
use focal_span.Evidence.Runtime.{TextTables}

-- whether a word ends here
ends_word : String → Bool
ends_word String.[] = true
ends_word (String.◌∷◌ c s) = is_space (code c)

onto_word : Char → List String → List String
onto_word c [] = String.◌∷◌ c "" ∷ []
onto_word c (word ∷ rest) = String.◌∷◌ c word ∷ rest

-- `strings.Fields`
unfoldable pub fields : String → List String
unfolding ends_word onto_word is_space
fields String.[] = []
fields (String.◌∷◌ c s) =
    let rest = fields s in
    if is_space (code c)
    then rest
    else if ends_word s
    then String.◌∷◌ c "" ∷ rest
    else onto_word c rest

-- `strings.Trim` with a set of marks
unfoldable pub trim_marks_left : List ℕ → String → String
trim_marks_left marks String.[] = ""
trim_marks_left marks (String.◌∷◌ c s) =
    let rest = trim_marks_left marks s in if has_code (code c) marks then rest else String.◌∷◌ c s

only_marks : List ℕ → String → Bool
only_marks marks String.[] = true
only_marks marks (String.◌∷◌ c s) = has_code (code c) marks && only_marks marks s

unfoldable pub trim_marks_right : List ℕ → String → String
unfolding only_marks
trim_marks_right marks String.[] = ""
trim_marks_right marks (String.◌∷◌ c s) =
    let rest = trim_marks_right marks s in
    if only_marks marks (String.◌∷◌ c s) then "" else String.◌∷◌ c rest

abbrev trim_marks : String → String → String
trim_marks marks s = trim_marks_right (codes marks) (trim_marks_left (codes marks) s)

abbrev test_words : List String
test_words = "test" ∷ "tests" ∷ "testing" ∷ "coverage" ∷ "cover" ∷ "spec" ∷ "specs" ∷ []

-- `hasTestIntent`
unfoldable pub has_test_intent : TextTables → String → List String → Bool
unfolding fields trim_marks_left trim_marks_right
has_test_intent t query hints =
    any (λ hint. t.equal_fold (trim_space hint) "tests") hints
    || any (λ term. one_of test_words (trim_marks ".,?!:;()[]{}" term)) (fields (t.to_lower query))

module _ {F : Type 0} where
  unfoldable pub is_documentation_candidate : RankedCandidate F → Bool
  is_documentation_candidate c =
      str_eq c.kind "heading" || str_eq c.language "markdown" || str_eq c.language "text"

  abbrev pub is_exact_reason : ScoreReason F → Bool
  is_exact_reason r = str_eq r.code "symbol-exact" || str_eq r.code "symbol-prefix"

  unfoldable pub has_structural_signal : RankedCandidate F → Bool
  has_structural_signal c =
      any
        (λ (r : ScoreReason F).
          is_exact_reason r
          || str_eq r.code "path"
          || str_eq r.code "changed-file"
          || str_eq r.code "test-pair"
          || starts_with "relation-" r.code)
        c.reasons

  unfoldable pub is_test_candidate : TextTables → RankedCandidate F → Bool
  is_test_candidate t c =
      let path = t.to_lower (to_slashes c.path) in
      if not (str_eq c.kind "test")
        && not (str_eq c.kind "test-suite")
        && not (starts_with "Test" c.symbol)
      then false
      else contains "/test" path
        || starts_with "test" path
        || contains "_test." path
        || contains ".test." path
        || contains ".spec." path
