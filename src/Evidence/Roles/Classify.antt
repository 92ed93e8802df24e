-- ===== src/Evidence/Roles/Classify.antt =====
-- `Classify`, `classifyRole` and `whyCodes`, and `SortForPresentation`, of internal/evidence/roles.go.
use focal_span.Prelude.{
  ℕ, suc, pos, String, Bool, false, not, ◌&&◌, ◌||◌, List, [], ◌∷◌, ◌++◌, Option, none, some, map,
  any, keep, take, ◌==◌, str_eq, if◌then◌else◌,
}
use focal_span.Prelude.Text.{to_slashes, trim_space}
use focal_span.Prelude.Sort.{sort_by}
use focal_span.Evidence.Model.{Role, Certainty}
use focal_span.Evidence.Candidate.{Plan, RelationContext, RankedCandidate, ClassifiedCandidate}
use focal_span.Evidence.Validate.{blank}
use focal_span.Evidence.Runtime.{Floats, TextTables}
use focal_span.Evidence.Compiler.Utility.{certainty_for}
use focal_span.Evidence.Compiler.Build.{key_before}
use focal_span.Evidence.Roles.{
  has_reason_code, relation_in, comes_by_relation, is_impact, relation_role, reason_why,
  relation_why, why_priority, presentation_roles, priority_from,
}
use focal_span.Evidence.Roles.Kinds.{
  is_header_declaration, is_config_evidence, is_declaration_evidence, is_type_evidence,
  is_implementation_evidence, is_test_evidence, is_template_evidence, is_documentation_evidence,
}

-- `available`, and the codes of it in the order of priority
unfoldable pub available_codes : {F : Type 0} → RankedCandidate F → List String
unfolding reason_why relation_why
available_codes c =
    let (relation, direction) = relation_in c.relation c.relation_context in
    map (λ r. reason_why r.code) c.reasons
    ++ (if c.changed then "changed_span" ∷ [] else [])
    ++ relation_why relation direction ∷ []

unfoldable pub why_codes : {F : Type 0} → RankedCandidate F → List String
why_codes c = take 4 (keep (λ code. any (str_eq code) (available_codes c)) why_priority)

module _ (t : TextTables) where
  -- from the kind and the path on
  unfoldable pub evidence_role : String → String → String → String → Role
  evidence_role kind path symbol language =
      if is_test_evidence t kind path symbol
      then Role.test
      else if is_template_evidence t kind language
      then Role.template
      else if is_config_evidence path kind
      then Role.config
      else if is_documentation_evidence t path kind language
      then Role.documentation
      else if is_header_declaration path kind language
      then Role.declaration
      else if is_declaration_evidence kind
      then Role.declaration
      else if is_type_evidence kind
      then Role.type_role
      else if str_eq kind "definition"
      then Role.definition
      else if is_implementation_evidence kind
      then Role.implementation
      else Role.context

  role_or : Option Role → Role → Role
  role_or none role = role
  role_or (some found) role = found

  -- what is left once the candidate is neither a change, a dependent of one, nor the target
  unfoldable pub other_role : {F : Type 0} → RankedCandidate F → Role
  unfolding role_or
  other_role c =
      let (relation, direction) = relation_in c.relation c.relation_context in
      role_or (relation_role relation direction)
        (evidence_role (t.to_lower c.kind) (t.to_lower (to_slashes c.path)) c.symbol c.language)

  unfoldable pub classify_role : {F : Type 0} → Plan → RankedCandidate F → Bool → Role
  classify_role plan c target =
      if is_impact plan.primary_intent && c.changed
      then Role.change
      else if is_impact plan.primary_intent && comes_by_relation c
      then Role.dependent
      else if target
      then Role.target
      else other_role c

  -- `anchors`
  unfoldable pub anchor_names : Plan → List String
  anchor_names plan =
      keep (λ name. not (blank name)) (map (λ name. t.to_lower (trim_space name)) plan.anchors)

  -- whether the loop of `exactTargetIndex` returns at a candidate
  unfoldable pub is_exact_target : {F : Type 0} → List String → RankedCandidate F → Bool
  is_exact_target anchors c =
      not (comes_by_relation c)
      && (has_reason_code c.reasons "symbol-exact"
          || has_reason_code c.reasons "qualified-symbol"
          || any (str_eq (t.to_lower (trim_space c.symbol))) anchors)

  -- the loop, from an index on; -1 is none
  unfoldable pub exact_target_from :
      {F : Type 0} → List String → ℕ → List (RankedCandidate F) → Option ℕ
  exact_target_from anchors i [] = none
  exact_target_from anchors i (c ∷ cs) =
      let later = exact_target_from anchors (suc i) cs in
      if is_exact_target anchors c then some i else later

  unfoldable pub exact_target_index : {F : Type 0} → Plan → List (RankedCandidate F) → Option ℕ
  exact_target_index plan cs = exact_target_from (anchor_names plan) 0 cs

abbrev pub is_at : Option ℕ → ℕ → Bool
is_at none i = false
is_at (some target) i = i == target

module _ (fl : Floats) (t : TextTables) where
  open fl use {F}

  abbrev context_certainty : Option (RelationContext F) → Certainty
  context_certainty none = Certainty.unknown ""
  context_certainty (some context) = certainty_for fl context

  -- the loop of `Classify`, from an index on; the presentation key is not set yet
  unfoldable pub classify_from :
      Plan → Option ℕ → ℕ → List (RankedCandidate F) → List (ClassifiedCandidate F)
  classify_from plan target i [] = []
  classify_from plan target i (c ∷ cs) =
      record {
        candidate = c;
        original_rank = i;
        role = classify_role t plan c (is_at target i);
        certainty = context_certainty c.relation_context;
        why = why_codes c;
        presentation_key = record {
          role_priority = 0;
          original_rank = 0;
          path = "";
          start_line = pos 0;
          handle = "";
        };
      }
      ∷ classify_from plan target (suc i) cs

  unfoldable pub classify : Plan → List (RankedCandidate F) → List (ClassifiedCandidate F)
  classify plan cs = classify_from plan (exact_target_index t plan cs) 0 cs

module _ (fl : Floats) where
  open fl use {F}

  -- the first loop of `SortForPresentation`
  unfoldable pub with_key : Plan → ClassifiedCandidate F → ClassifiedCandidate F
  with_key plan c = record c {
    presentation_key = record {
      role_priority = priority_from 0 (presentation_roles plan) c.role;
      original_rank = c.original_rank;
      path = c.candidate.path;
      start_line = c.candidate.start_line;
      handle = c.candidate.handle;
    };
  }

  abbrev pub presented_before : ClassifiedCandidate F → ClassifiedCandidate F → Bool
  presented_before a b = key_before a.presentation_key b.presentation_key

  unfoldable pub sort_for_presentation :
      Plan → List (ClassifiedCandidate F) → List (ClassifiedCandidate F)
  sort_for_presentation plan cs = sort_by presented_before (map (with_key plan) cs)
