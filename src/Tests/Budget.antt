-- ===== src/Tests/Budget.antt =====
-- internal/budget/budget.go at a concrete request.
use focal_span.Prelude.{
  ℕ, ◌≤◌, ◌≡◌, refl, pos, String, true, List, [], ◌∷◌, some, map, any, length, arith,
}
use Prim.Native.String.{count}
use focal_span.Prelude.Text.{concat, has_code, has_prefix, to_slashes}
use focal_span.Prelude.Search.{contains}
use focal_span.Evidence.Candidate.{RankedCandidate}
use focal_span.Budget.{PackRequest, ContextItem, Pricing}
use focal_span.Budget.Words.{
  is_documentation_candidate, has_structural_signal, fields, has_test_intent, is_test_candidate,
  trim_marks_left, trim_marks_right,
}
use focal_span.Budget.Elide.{
  elide, split_lines, without_returns, join_with_newlines, IsLongest, elide-IsLongest,
}
use focal_span.Budget.Pack.{pack, pack_budget, estimate_bundle}
use focal_span.Budget.Fits.{Within, pack-Within, pack-few_tests}
use focal_span.Budget.Order.{Holds, pack-Holds}
use focal_span.Tests.Fixtures.{hundredths, tables, candidate}

abbrev listed : List (ContextItem ℕ) → String
listed [] = ""
listed (item ∷ rest) = concat item.content (listed rest)

-- one token for each character of a content
abbrev pricing : Pricing ℕ
pricing = record { marshal = λ b. some (listed b.items); estimate = λ s. pos (count s) }

abbrev tested : String → RankedCandidate ℕ
tested handle = record (candidate handle "TestA" (pos 3) (pos 9)) {
  kind = "test";
  path = "internal/a_test.go";
}

-- three tests and a function, for a question about tests
abbrev request : PackRequest ℕ
request = record {
  query = "where are the tests?";
  index_revision = "r1";
  token_budget = pos 90;
  mode = "source";
  candidates = tested "h1" ∷ candidate "h2" "A" (pos 3) (pos 9) ∷ tested "h3" ∷ tested "h4" ∷ [];
  intent_hints = [];
}

asks_for_tests : has_test_intent tables "where are the tests?" [] ≡ true
unfolding has_test_intent fields trim_marks_left trim_marks_right has_code
asks_for_tests = refl

has_tests : any (is_test_candidate tables) request.candidates ≡ true
unfolding is_test_candidate contains has_prefix to_slashes
has_tests = refl

pack-few_tests_example : length (pack hundredths pricing tables request).items ≤ 2
pack-few_tests_example = pack-few_tests hundredths pricing tables request asks_for_tests has_tests

pack-Within_example :
    Within hundredths pricing (pack_budget (pos 90)) (pack hundredths pricing tables request)
    × (256 ≤ pack_budget (pos 90))
    × (pack_budget (pos 90) ≤ 64000)
pack-Within_example = pack-Within hundredths pricing tables request

pack-Holds_example :
    Holds hundredths pricing request.candidates (pack hundredths pricing tables request)
pack-Holds_example = pack-Holds hundredths pricing tables request

handles_run :
    map (λ (item : ContextItem ℕ). item.handle) (pack hundredths pricing tables request).items
    ≡ "h1" ∷ "h3" ∷ []
unfolding pack is_documentation_candidate has_structural_signal has_test_intent has_code
    is_test_candidate contains to_slashes has_prefix pack_budget estimate_bundle
handles_run = refl

abbrev content : String
content = "first\nsecond\r\nthird\n"

elide-IsLongest_example :
    IsLongest
      (λ s. pos (count s))
      30
      (split_lines (without_returns content))
      (length (split_lines (without_returns content)))
      (elide (λ s. pos (count s)) content 30)
elide-IsLongest_example = elide-IsLongest (λ s. pos (count s)) content 30 refl (omega arith)

two_lines_fit : elide (λ s. pos (count s)) content 30 ≡ "first\nsecond\n[...elided...]\n"
unfolding elide split_lines without_returns join_with_newlines has_prefix
two_lines_fit = refl
