-- ===== src/Evidence/Roles.antt =====
-- `Classify` and `SortForPresentation` of internal/evidence/roles.go.
pub mod Kinds
pub mod Classify
pub mod Presented
use focal_span.Prelude.{
  ℕ, zero, suc, ◌+◌, String, Bool, true, false, not, ◌&&◌, ◌||◌, List, [], ◌∷◌, Option, none, some,
  map, any, keep, take, length, ◌==◌, str_eq, if◌then◌else◌,
}
use focal_span.Prelude.Text.{to_slashes, trim_space}
use focal_span.Prelude.Sort.{sort_by}
use focal_span.Prelude.Search.{one_of}
use focal_span.Evidence.Model.{Role, Certainty, role_text}
use focal_span.Evidence.Candidate.{
  Intent, Plan, Direction, RelationContext, ScoreReason, RankedCandidate, ClassifiedCandidate,
  PresentationKey,
}
use focal_span.Evidence.Validate.{blank}
use focal_span.Evidence.Runtime.{Floats, TextTables}
use focal_span.Evidence.Compiler.Utility.{certainty_for}
use focal_span.Evidence.Compiler.Build.{key_before, is_incoming}
use Kinds.{
  is_header_declaration, is_config_evidence, is_declaration_evidence, is_type_evidence,
  is_implementation_evidence, is_test_evidence, is_template_evidence, is_documentation_evidence,
}

module _ {F : Type 0} where
  abbrev pub has_reason_code : List (ScoreReason F) → String → Bool
  has_reason_code reasons code = any (λ (r : ScoreReason F). str_eq r.code code) reasons

  -- `relation` and `direction` of a candidate
  abbrev pub relation_in : String → Option (RelationContext F) → String × Direction
  relation_in relation none = (relation, Direction.related)
  relation_in relation (some context) = (context.kind, context.direction)

  abbrev pub has_context : Option (RelationContext F) → Bool
  has_context none = false
  has_context (some context) = true

  abbrev pub comes_by_relation : RankedCandidate F → Bool
  comes_by_relation c = not (blank c.relation) || has_context c.relation_context

abbrev pub is_impact : Intent → Bool
is_impact Intent.impact = true
is_impact _ = false

-- the switch over the relation
unfoldable pub relation_role : String → Direction → Option Role
relation_role relation direction =
    if str_eq relation "callers"
    then some Role.caller
    else if str_eq relation "callees"
    then some Role.callee
    else if str_eq relation "tests"
    then some Role.test
    else if str_eq relation "imports"
    then some (if is_incoming direction then Role.dependent else Role.import_role)
    else if str_eq relation "exports"
    then some (if is_incoming direction then Role.dependent else Role.export_role)
    else if str_eq relation "references"
    then some Role.reference
    else none

-- the codes that a reason makes available
unfoldable pub reason_why : String → String
reason_why code =
    if str_eq code "symbol-exact"
    then "exact_symbol"
    else if str_eq code "qualified-symbol" || str_eq code "symbol-prefix"
    then "qualified_symbol"
    else if str_eq code "path"
    then "path_match"
    else if str_eq code "lexical" || str_eq code "retrieval-fusion"
    then "lexical_match"
    else if str_eq code "changed-file"
    then "changed_span"
    else if str_eq code "same-symbol"
    then "same_symbol"
    else if str_eq code "same-file"
    then "same_file"
    else ""

unfoldable pub relation_why : String → Direction → String
relation_why relation direction =
    if str_eq relation "callers"
    then "direct_caller"
    else if str_eq relation "callees"
    then "direct_callee"
    else if str_eq relation "tests"
    then "related_test"
    else if str_eq relation "imports"
    then (if is_incoming direction then "imported_by" else "imports_target")
    else if str_eq relation "references"
    then "references_target"
    else if str_eq relation "children"
    then "contains_target"
    else if str_eq relation "parent"
    then "parent_context"
    else ""

abbrev pub why_priority : List String
why_priority =
    "exact_symbol" ∷ "qualified_symbol" ∷ "direct_caller" ∷ "direct_callee" ∷ "related_test"
    ∷ "imports_target" ∷ "imported_by" ∷ "references_target" ∷ "contains_target" ∷ "parent_context"
    ∷ "changed_span" ∷ "path_match" ∷ "lexical_match" ∷ "same_symbol" ∷ "same_file" ∷ []

-- `roles` for an intent whose profile is not the one of templates
unfoldable pub roles_for : Intent → List Role
roles_for Intent.callers =
    Role.target ∷ Role.caller ∷ Role.implementation ∷ Role.test ∷ Role.type_role ∷ Role.import_role
    ∷ Role.reference ∷ Role.dependent ∷ Role.context ∷ Role.documentation ∷ []
roles_for Intent.callees =
    Role.target ∷ Role.callee ∷ Role.type_role ∷ Role.import_role ∷ Role.implementation ∷ Role.test
    ∷ Role.reference ∷ Role.context ∷ Role.documentation ∷ []
roles_for Intent.tests =
    Role.target ∷ Role.test ∷ Role.implementation ∷ Role.type_role ∷ Role.config ∷ Role.context
    ∷ Role.documentation ∷ []
roles_for Intent.imports =
    Role.target ∷ Role.import_role ∷ Role.export_role ∷ Role.dependent ∷ Role.implementation
    ∷ Role.type_role ∷ Role.config ∷ Role.context ∷ Role.documentation ∷ []
roles_for Intent.exports =
    Role.target ∷ Role.import_role ∷ Role.export_role ∷ Role.dependent ∷ Role.implementation
    ∷ Role.type_role ∷ Role.config ∷ Role.context ∷ Role.documentation ∷ []
roles_for Intent.references =
    Role.target ∷ Role.reference ∷ Role.type_role ∷ Role.implementation ∷ Role.dependent ∷ Role.test
    ∷ Role.context ∷ Role.documentation ∷ []
roles_for Intent.impact =
    Role.change ∷ Role.target ∷ Role.dependent ∷ Role.caller ∷ Role.reference ∷ Role.test
    ∷ Role.implementation ∷ Role.type_role ∷ Role.config ∷ Role.context ∷ Role.documentation ∷ []
roles_for _ =
    Role.target ∷ Role.implementation ∷ Role.definition ∷ Role.declaration ∷ Role.type_role
    ∷ Role.caller ∷ Role.callee ∷ Role.test ∷ Role.import_role ∷ Role.reference ∷ Role.config
    ∷ Role.template ∷ Role.change ∷ Role.dependent ∷ Role.context ∷ Role.documentation ∷ []

unfoldable pub presentation_roles : Plan → List Role
unfolding roles_for
presentation_roles plan =
    if str_eq plan.profile "template"
    then Role.target ∷ Role.template ∷ Role.import_role ∷ Role.implementation ∷ Role.caller
      ∷ Role.test ∷ Role.config ∷ Role.context ∷ Role.documentation ∷ []
    else roles_for plan.primary_intent

-- The priority of a role: its index, or one more than the number of roles.
unfoldable pub priority_from : ℕ → List Role → Role → ℕ
priority_from i [] role = suc i
priority_from i (r ∷ rs) role =
    let later = priority_from (suc i) rs role in
    if str_eq (role_text r) (role_text role) then i else later
