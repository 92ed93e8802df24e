-- ===== src/Evidence/Segments/Lines.antt =====
-- The lines of a content and the terms of a plan, in internal/evidence/segments.go. The offsets that
-- `indexLines` also records are not read.
use focal_span.Prelude.{
  ℕ, suc, ◌+◌, ◌-◌, String, Bool, false, ◌&&◌, ◌||◌, List, [], ◌∷◌, ◌++◌, map, any, keep, every,
  length, take, drop, ltb, leb, ◌==◌, str_eq, if◌then◌else◌,
}
use Prim.Native.Char.{Char, code}
use Prim.Native.String.{count}
use focal_span.Prelude.Text.{codes, concat, trim_space, has_code}
use focal_span.Prelude.Search.{contains, after_last}
use focal_span.Evidence.Candidate.{Plan}
use focal_span.Evidence.Validate.{blank}
use focal_span.Evidence.Runtime.{TextTables}

-- a character before the first line
unfoldable pub onto_line : Char → List String → List String
onto_line c [] = String.◌∷◌ c "" ∷ []
onto_line c (line ∷ rest) = String.◌∷◌ c line ∷ rest

-- each line with its newline; what follows the last newline is a line if it is not empty
unfoldable pub index_lines : String → List String
unfolding onto_line
index_lines String.[] = []
index_lines (String.◌∷◌ c s) =
    let rest = index_lines s in if code c == b'\n' then String.◌∷◌ c "" ∷ rest else onto_line c rest

-- all texts, one behind the other
unfoldable pub concat_all : List String → String
concat_all [] = ""
concat_all (s ∷ rest) = concat s (concat_all rest)

-- `joinLines`; an end behind the last line is the last line
unfoldable pub join_lines : List String → ℕ → ℕ → String
unfolding concat_all
join_lines lines start end =
    if ltb end start || leb (length lines) start
    then ""
    else concat_all (take (end + 1 - start) (drop start lines))

-- `add`: a term is trimmed, and stands once
unfoldable pub add_term : List String → String → List String
add_term terms value =
    let term = trim_space value in
    if blank term || any (str_eq term) terms then terms else terms ++ term ∷ []

unfoldable pub add_terms : List String → List String → List String
unfolding add_term
add_terms terms [] = terms
add_terms terms (value ∷ rest) = add_terms (add_term terms value) rest

abbrev is_term_code : ℕ → Bool
is_term_code c =
    (leb b'a' c && leb c b'z')
    || (leb b'A' c && leb c b'Z')
    || (leb b'0' c && leb c b'9')
    || c == b'_'

unfoldable pub is_useful_focused_term : String → Bool
is_useful_focused_term value =
    let term = trim_space value in
    if blank term
    then false
    else if any (λ c. ltb 127 c) (codes term)
    then leb 2 (count term)
    else if ltb (count term) 3
    then false
    else every is_term_code (codes term)

unfoldable pub terminal_name : String → String
terminal_name value =
    after_last "\\" (after_last "." (after_last "::" (after_last "->" (trim_space value))))

unfoldable pub focused_terms : Plan → List String
unfolding add_terms is_useful_focused_term terminal_name
focused_terms plan =
    let terms = plan.terms in
    add_terms [] (
      terms.identifiers
      ++ terms.symbols
      ++ terms.phrases
      ++ keep (λ value. leb 2 (count value)) terms.unicode_runs
      ++ keep is_useful_focused_term terms.words
      ++ map terminal_name plan.anchors)

unfoldable pub distinct_matches : TextTables → String → List String → ℕ
distinct_matches t line [] = 0
distinct_matches t line (term ∷ rest) =
    (if contains term line || contains (t.to_lower term) (t.to_lower line) then 1 else 0)
    + distinct_matches t line rest

-- the loop of `declarationPrefixEnd`, from an index on; `strings.ContainsAny(line, "{:")`
unfoldable pub prefix_end_from : ℕ → ℕ → List String → ℕ
prefix_end_from limit index [] = limit
prefix_end_from limit index (line ∷ rest) =
    let later = prefix_end_from limit (suc index) rest in
    if ltb limit index
    then limit
    else if has_code b'{' (codes line) || has_code b':' (codes line)
    then index
    else later

-- the limit is 5, or the index of the last line
unfoldable pub declaration_prefix_end : List String → ℕ
unfolding prefix_end_from
declaration_prefix_end lines =
    let last = length lines - 1 in prefix_end_from (if ltb 5 last then 5 else last) 0 lines
