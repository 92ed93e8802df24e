-- ===== src/Scope/Php.antt =====
-- internal/phpscope/resolve.go.
use focal_span.Prelude.{
  String, Bool, not, ◌&&◌, ◌||◌, List, [], ◌∷◌, any, keep, str_eq, if◌then◌else◌,
}
use Prim.Native.String.{count}
use focal_span.Prelude.Text.{codes, concat, has_code}
use focal_span.Prelude.Search.{starts_with, contains, one_of, drop_text}
use focal_span.Evidence.Validate.{blank, is_nil}
use focal_span.Evidence.Runtime.{TextTables}

-- the fields of `model.Symbol` that this package reads
pub record Symbol : Type 0 where
  pub language : String
  pub kind : String
  pub qualified_name : String

-- what stands before the first `part`: all, if it is not there
unfoldable pub before_first : String → String → String
before_first part String.[] = ""
before_first part (String.◌∷◌ c s) =
    let rest = before_first part s in
    if starts_with part (String.◌∷◌ c s) then "" else String.◌∷◌ c rest

-- what stands before the last `part`: nothing, if it is not there
unfoldable pub before_last : String → String → String
before_last part String.[] = ""
before_last part (String.◌∷◌ c s) =
    let rest = before_last part s in if contains part s then String.◌∷◌ c rest else ""

abbrev has_any_of : String → String → Bool
has_any_of marks s = any (λ c. has_code c (codes marks)) (codes s)

unfoldable pub namespace_of : Symbol → String
unfolding before_first before_last
namespace_of from = before_last "\\" (before_first "::" from.qualified_name)

abbrev in_namespace : String → String → String
in_namespace namespace name = if blank namespace then name else concat namespace (concat "\\" name)

-- the test for a target that is no name
abbrev pub is_no_name : String → Bool
is_no_name target = blank target || contains "->" target || has_any_of "$()[]{}<>?" target

abbrev pub is_unqualified : String → Bool
is_unqualified target = not (contains "\\" target) && not (contains "::" target)

module _ (t : TextTables) where
  -- `Candidates`
  unfoldable pub candidates : Symbol → String → List String
  candidates from target =
      let namespace = namespace_of from in
      if is_no_name target
      then []
      else if starts_with "\\" target
      then drop_text 1 target ∷ []
      else if starts_with "namespace\\" (t.to_lower target)
      then in_namespace namespace (drop_text (count "namespace\\") target) ∷ []
      else if not (blank namespace) && is_unqualified target
      then in_namespace namespace target ∷ target ∷ []
      else in_namespace namespace target ∷ []

  -- whether a symbol has a name that is called
  unfoldable pub matches : String → Symbol → Bool
  matches name symbol =
      str_eq symbol.language "php"
      && (if contains "::" name
          then str_eq symbol.kind "method" || str_eq symbol.kind "test"
          else str_eq symbol.kind "function")
      && t.equal_fold symbol.qualified_name name

  -- the loop of `Resolve`
  unfoldable pub resolve_names : List Symbol → List String → List Symbol
  unfolding matches
  resolve_names symbols [] = []
  resolve_names symbols (name ∷ rest) =
      let later = resolve_names symbols rest in
      if is_nil (keep (matches name) symbols) then later else keep (matches name) symbols

  -- `Resolve`
  unfoldable pub resolve : Symbol → String → List Symbol → List Symbol
  unfolding candidates resolve_names
  resolve from target symbols = resolve_names symbols (candidates from target)

-- `ReferenceKind`
unfoldable pub reference_kind : String → String
reference_kind source =
    if starts_with "php-import-" source
    then drop_text (count "php-import-") source
    else if one_of
        ("new" ∷ "class-reference" ∷ "type" ∷ "property-type" ∷ "signature-type" ∷ "inheritance"
          ∷ "trait-use" ∷ "phpdoc-type" ∷ [])
        source
    then "type"
    else ""

abbrev is_class : Symbol → Bool
is_class symbol = one_of ("class" ∷ "interface" ∷ "trait" ∷ "enum" ∷ []) symbol.kind

abbrev pub is_allowed : String → Symbol → Bool
is_allowed kind symbol =
    (str_eq kind "type" && is_class symbol)
    || (str_eq kind "class" && (is_class symbol || str_eq symbol.kind "namespace"))
    || (str_eq kind "function" && str_eq symbol.kind "function")
    || (str_eq kind "const" && str_eq symbol.kind "constant")

-- `ResolveReference`
unfoldable pub resolve_reference : TextTables → String → String → List Symbol → List Symbol
resolve_reference t target kind symbols =
    let name = if starts_with "\\" target then drop_text 1 target else target in
    keep
      (λ (s : Symbol).
        str_eq s.language "php"
        && is_allowed kind s
        && (if str_eq kind "const"
            then str_eq s.qualified_name name
            else t.equal_fold s.qualified_name name))
      symbols
