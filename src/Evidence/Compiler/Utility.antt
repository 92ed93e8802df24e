-- ===== src/Evidence/Compiler/Utility.antt =====
-- `candidateUtility`, `roleWeight`, `variantQuality`, `selectedDiversity` and `betterOption` of
-- internal/evidence/compiler.go, and `certaintyFor` of roles.go.
use focal_span.Prelude.{
  ℕ, ◌+◌, pos, String, Bool, true, false, not, ◌||◌, List, Option, none, some, map, ltb, ◌==◌,
  str_lt, if◌then◌else◌,
}
use focal_span.Evidence.Model.{Role, Fidelity, Certainty, role_text}
use focal_span.Evidence.Candidate.{
  Intent, Plan, RelationContext, ClassifiedCandidate, ContentVariant, PreparedCandidate,
}
use focal_span.Evidence.Guidance.{has}
use focal_span.Evidence.Runtime.{Floats}

pub record SelectedCandidate (F : Type 0) : Type 0 where
  pub prepared : PreparedCandidate F
  pub variant : ContentVariant
  pub utility : F

-- the tables of `roleWeight`; a role that is not in the table of its intent weighs 8
unfoldable pub role_weight : Intent → Role → ℕ
role_weight Intent.definition Role.target = 45
role_weight Intent.definition Role.implementation = 34
role_weight Intent.definition Role.definition = 30
role_weight Intent.definition Role.declaration = 24
role_weight Intent.definition Role.type_role = 18
role_weight Intent.callers Role.target = 40
role_weight Intent.callers Role.caller = 46
role_weight Intent.callers Role.test = 20
role_weight Intent.callers Role.implementation = 18
role_weight Intent.callees Role.target = 40
role_weight Intent.callees Role.callee = 46
role_weight Intent.callees Role.type_role = 20
role_weight Intent.callees Role.import_role = 18
role_weight Intent.tests Role.target = 36
role_weight Intent.tests Role.test = 50
role_weight Intent.tests Role.implementation = 18
role_weight Intent.tests Role.config = 12
role_weight Intent.imports Role.target = 34
role_weight Intent.imports Role.import_role = 46
role_weight Intent.imports Role.export_role = 38
role_weight Intent.imports Role.dependent = 24
role_weight Intent.imports Role.config = 14
role_weight Intent.exports Role.target = 34
role_weight Intent.exports Role.import_role = 46
role_weight Intent.exports Role.export_role = 38
role_weight Intent.exports Role.dependent = 24
role_weight Intent.exports Role.config = 14
role_weight Intent.references Role.target = 38
role_weight Intent.references Role.reference = 44
role_weight Intent.references Role.type_role = 30
role_weight Intent.references Role.dependent = 20
role_weight Intent.impact Role.change = 50
role_weight Intent.impact Role.dependent = 46
role_weight Intent.impact Role.caller = 30
role_weight Intent.impact Role.test = 28
role_weight Intent.impact Role.target = 26
role_weight _ _ = 8

-- `selectedDiversity`: the roles and the paths selected so far. A nil map, as for the anchor, is none.
pub record Diversity : Type 0 where
  pub roles : List String
  pub paths : List String

abbrev pub is_some {ℓ} : {A : Type ℓ} → Option A → Bool
is_some none = false
is_some (some a) = true

module _ (fl : Floats) where
  open fl use {F, of_int, decimal, add, sub, mul, div, le}

  unfoldable pub selected_diversity : List (SelectedCandidate F) → Diversity
  selected_diversity selected = record {
    roles = map (λ (s : SelectedCandidate F). role_text s.prepared.classified.role) selected;
    paths = map (λ (s : SelectedCandidate F). s.prepared.classified.candidate.path) selected;
  }

  certainty_in : RelationContext F → Certainty
  certainty_in context =
      if not context.resolved
      then Certainty.lexical
      else if le (decimal 90 100) context.confidence
      then Certainty.exact
      else Certainty.scoped

  unfoldable pub certainty_for : RelationContext F → Certainty
  unfolding certainty_in
  certainty_for context = certainty_in context

  variant_quality : Fidelity → F
  variant_quality Fidelity.verbatim = decimal 130 100
  variant_quality Fidelity.excerpt = decimal 120 100
  variant_quality Fidelity.synthetic = decimal 105 100
  variant_quality _ = of_int (pos 1)

  -- the bonuses and the penalty on the role and the path
  diversity_bonus : Option Diversity → ClassifiedCandidate F → F → F
  diversity_bonus none candidate utility = utility
  diversity_bonus (some d) candidate utility =
      let with_role =
        if not (has d.roles (role_text candidate.role))
        then add utility (of_int (pos 18))
        else utility in
      if not (has d.paths candidate.candidate.path)
      then add with_role (of_int (pos 10))
      else sub with_role (of_int (pos 7))

  relation_bonus : Option (RelationContext F) → F → F
  relation_bonus none utility = utility
  relation_bonus (some context) utility =
      let direct = add utility (of_int (pos 16)) in
      if context.resolved then add direct (of_int (pos 8)) else direct

  unfoldable pub candidate_utility : Plan → ClassifiedCandidate F → Option Diversity → F
  unfolding role_weight diversity_bonus relation_bonus
  candidate_utility plan candidate diversity =
      let base = div (of_int (pos 100)) (of_int (pos (1 + candidate.original_rank))) in
      let weighted = add base (of_int (pos (role_weight plan.primary_intent candidate.role))) in
      let diverse = diversity_bonus diversity candidate weighted in
      let related = relation_bonus candidate.candidate.relation_context diverse in
      let exact =
        if has candidate.why "exact_symbol" || has candidate.why "qualified_symbol"
        then add related (of_int (pos 14))
        else related in
      if candidate.candidate.changed then add exact (of_int (pos 12)) else exact

  unfoldable pub variant_utility : F → ContentVariant → F
  unfolding variant_quality
  variant_utility base variant = mul base (variant_quality variant.fidelity)

  -- `betterOption` against an option that there is; without one it is true
  unfoldable pub better_option : PreparedCandidate F → ℕ → PreparedCandidate F → ℕ → Bool
  better_option left left_variant right right_variant =
      let lk = left.classified.presentation_key in
      let rk = right.classified.presentation_key in
      if not (lk.role_priority == rk.role_priority)
      then ltb lk.role_priority rk.role_priority
      else if not (lk.original_rank == rk.original_rank)
      then ltb lk.original_rank rk.original_rank
      else if not (left_variant == right_variant)
      then ltb left_variant right_variant
      else str_lt left.classified.candidate.handle right.classified.candidate.handle
