-- ===== src/Evidence/Guidance.antt =====
-- `BuildGuidance`, `addGuidanceAction` and `pruneKnownDeltaGuidance` of internal/evidence/next.go, and
-- `applyGuidanceWithinBudget` of internal/evidence/compiler.go. A Go set of texts is the list of what
-- was put in. The map of actions is the list of its entries, which are sorted before they are used.
pub mod Built
pub mod Applied
use focal_span.Prelude.{
  ℕ, zero, suc, ◌+◌, ℤ, pos, pos_part, neg_part, ltb_ℤ, String, Bool, true, false, not, ◌&&◌, ◌||◌,
  List, [], ◌∷◌, ◌++◌, map, Option, none, some, any, keep, take, length, ltb, ◌==◌, str_eq, str_lt,
  if◌then◌else◌,
}
use focal_span.Prelude.Sort.{sort_by}
use focal_span.Prelude.Text.{concat, trim_space}
use focal_span.Evidence.Model.{Mode, Role, Fidelity, NextAction, Packet}
use focal_span.Evidence.Candidate.{
  Intent, Plan, RelationContext, RankedCandidate, ClassifiedCandidate,
}
use focal_span.Evidence.Validate.{blank, is_nil}
use focal_span.Evidence.Wire.{Encoder, settled, settle_wire_usage}

abbrev pub limitation_order : List String
limitation_order =
    "budget_limited" ∷ "source_reduced_to_excerpt" ∷ "source_reduced_to_signature"
    ∷ "additional_callers_omitted" ∷ "additional_callees_omitted" ∷ "additional_tests_omitted"
    ∷ "additional_imports_omitted" ∷ "additional_references_omitted" ∷ "dynamic_dispatch_unresolved"
    ∷ "lexical_relation_only" ∷ "known_anchor_not_repeated" ∷ "no_relevant_source_found"
    ∷ "syntax_only_impact" ∷ []

abbrev pub next_reason_order : List String
next_reason_order =
    "more_callers_omitted" ∷ "more_callees_omitted" ∷ "more_tests_omitted" ∷ "more_imports_omitted"
    ∷ "more_references_omitted" ∷ "parent_context_available" ∷ "children_available"
    ∷ "source_body_omitted" ∷ []

abbrev pub has : List String → String → Bool
has set value = any (str_eq value) set

abbrev pub action : String → String → String → NextAction
action handle relation reason = record { handle = handle; relation = relation; reason = reason }

-- the key of the map of actions
abbrev pub action_key : NextAction → String
action_key a = concat a.handle (concat "\0" a.relation)

unfoldable pub add_guidance_action : List NextAction → NextAction → List NextAction
add_guidance_action actions a =
    if blank a.handle || blank a.relation || blank a.reason
    then actions
    else if any (λ (b : NextAction). str_eq (action_key a) (action_key b)) actions
    then actions
    else a ∷ actions

pub record Notes : Type 0 where
  pub limitations : List String
  pub actions : List NextAction

abbrev pub note : String → Notes → Notes
note code n = record n { limitations = code ∷ n.limitations }

abbrev pub note_if : Bool → String → Notes → Notes
note_if b code n = if b then note code n else n

unfoldable pub suggest : String → String → String → Notes → Notes
unfolding add_guidance_action
suggest handle relation reason n = record n {
  actions = add_guidance_action n.actions (action handle relation reason);
}

-- the notes on a relation that was not resolved
note_unresolved : {F : Type 0} → RelationContext F → Notes → Notes
note_unresolved context n =
    if not context.resolved
    then note_if (str_eq context.kind "callers" || str_eq context.kind "callees")
        "dynamic_dispatch_unresolved" (note "lexical_relation_only" n)
    else n

-- the switch on the kind of a relation
suggest_family : String → String → Notes → Notes
unfolding suggest
suggest_family kind handle n =
    if str_eq kind "parent"
    then suggest handle "parent" "parent_context_available" n
    else if str_eq kind "children"
    then suggest handle "children" "children_available" n
    else n

note_fidelity : Fidelity → String → Notes → Notes
unfolding suggest
note_fidelity Fidelity.excerpt handle n = note "source_reduced_to_excerpt" n
note_fidelity Fidelity.signature handle n =
    suggest handle "self" "source_body_omitted" (note "source_reduced_to_signature" n)
note_fidelity _ handle n = n

abbrev pub is_anchor_role : Role → Bool
is_anchor_role Role.target = true
is_anchor_role Role.change = true
is_anchor_role _ = false

-- the first of a list, if there is one
head_or : String → List String → String
head_or d [] = d
head_or d (x ∷ xs) = x

pub record GuidanceSelection (F : Type 0) : Type 0 where
  pub candidate : ClassifiedCandidate F
  pub fidelity : Fidelity

pub record GuidanceInput (F : Type 0) : Type 0 where
  pub plan : Plan
  pub selected : List (GuidanceSelection F)
  pub omitted : List (ClassifiedCandidate F)
  pub known_handles : List String
  pub expansion_anchors : List String
  pub truncated : Bool

module _ {F : Type 0} where
  -- the body behind `if context == nil { continue }`
  note_selected_context : List String → List String → Option (RelationContext F) → Notes → Notes
  unfolding note_unresolved suggest_family
  note_selected_context known seen none n = n
  note_selected_context known seen (some context) n =
      suggest_family context.kind context.anchor_handle (
        note_if (has known context.anchor_handle && not (has seen context.anchor_handle))
          "known_anchor_not_repeated" (note_unresolved context n))

  -- the loop over the selected items, with `selectedHandles`
  unfoldable pub note_selected :
      List String → List String → List (GuidanceSelection F) → Notes → Notes
  unfolding note_selected_context note_fidelity
  note_selected known seen [] n = n
  note_selected known seen (s ∷ rest) n =
      let handle = s.candidate.candidate.handle in
      let seen' = handle ∷ seen in
      note_selected known seen' rest (
        note_selected_context known seen' s.candidate.candidate.relation_context
          (note_fidelity s.fidelity handle n))

  -- `target` after the loop: the handle of the first anchor whose handle is not blank
  unfoldable pub first_anchor : List (GuidanceSelection F) → String
  first_anchor [] = ""
  first_anchor (s ∷ rest) =
      let later = first_anchor rest in
      if is_anchor_role s.candidate.role && not (blank s.candidate.candidate.handle)
      then s.candidate.candidate.handle
      else later

  unfoldable pub guidance_target : GuidanceInput F → String
  unfolding first_anchor head_or
  guidance_target input =
      let selected = first_anchor input.selected in
      let anchored =
        if blank selected then head_or selected input.expansion_anchors else selected in
      if blank anchored then head_or anchored input.known_handles else anchored

  context_anchor : String → Option (RelationContext F) → String
  context_anchor target none = target
  context_anchor target (some context) =
      if not (blank context.anchor_handle) then context.anchor_handle else target

  note_omitted_context : Option (RelationContext F) → Notes → Notes
  unfolding note_unresolved
  note_omitted_context none n = n
  note_omitted_context (some context) n = note_unresolved context n

  suggest_omitted_family : String → Option (RelationContext F) → Notes → Notes
  unfolding suggest_family
  suggest_omitted_family anchor none n = n
  suggest_omitted_family anchor (some context) n = suggest_family context.kind anchor n

-- the switch on the role of an omitted candidate
note_omitted_role : Role → String → Notes → Notes
unfolding suggest
note_omitted_role Role.caller anchor n =
    suggest anchor "callers" "more_callers_omitted" (note "additional_callers_omitted" n)
note_omitted_role Role.callee anchor n =
    suggest anchor "callees" "more_callees_omitted" (note "additional_callees_omitted" n)
note_omitted_role Role.test anchor n =
    suggest anchor "tests" "more_tests_omitted" (note "additional_tests_omitted" n)
note_omitted_role Role.import_role anchor n =
    suggest anchor "imports" "more_imports_omitted" (note "additional_imports_omitted" n)
note_omitted_role Role.export_role anchor n =
    suggest anchor "imports" "more_imports_omitted" (note "additional_imports_omitted" n)
note_omitted_role Role.reference anchor n =
    suggest anchor "references" "more_references_omitted" (note "additional_references_omitted" n)
note_omitted_role _ anchor n = n

module _ {F : Type 0} where
  -- the loop over the omitted candidates
  unfoldable pub note_omitted : String → List (ClassifiedCandidate F) → Notes → Notes
  unfolding context_anchor note_omitted_context suggest_omitted_family note_omitted_role
  note_omitted target [] n = n
  note_omitted target (o ∷ rest) n =
      let context = o.candidate.relation_context in
      let anchor = context_anchor target context in
      note_omitted target rest (
        suggest_omitted_family anchor context
          (note_omitted_role o.role anchor (note_omitted_context context n)))

abbrev is_impact : Intent → Bool
is_impact Intent.impact = true
is_impact _ = false

-- the position of a reason in `nextReasonOrder`, 0 for one that is not there
index_of : ℕ → String → List String → ℕ
index_of i r [] = 0
index_of i r (x ∷ xs) = let later = index_of (suc i) r xs in if str_eq x r then i else later

abbrev reason_priority : String → ℕ
reason_priority r = index_of 0 r next_reason_order

unfoldable pub action_before : NextAction → NextAction → Bool
unfolding index_of
action_before left right =
    if not (reason_priority left.reason == reason_priority right.reason)
    then ltb (reason_priority left.reason) (reason_priority right.reason)
    else if not (str_eq left.handle right.handle)
    then str_lt left.handle right.handle
    else str_lt left.relation right.relation

module _ {F : Type 0} where
  -- the limitations that are set before the loops
  unfoldable pub first_notes : GuidanceInput F → Notes
  first_notes input = note_if (is_impact input.plan.primary_intent) "syntax_only_impact" (
      note_if (is_nil input.selected) "no_relevant_source_found"
        (note_if input.truncated "budget_limited" (record { limitations = []; actions = [] })))

  unfoldable pub all_notes : GuidanceInput F → Notes
  unfolding first_notes note_selected note_omitted guidance_target
  all_notes input =
      note_omitted (guidance_target input) input.omitted
        (note_selected input.known_handles [] input.selected (first_notes input))

  unfoldable pub build_guidance : GuidanceInput F → List String × List NextAction
  unfolding all_notes action_before
  build_guidance input =
      let n = all_notes input in
      (
        take 8 (keep (has n.limitations) limitation_order),
        take 4 (sort_by action_before (keep (λ (a : NextAction). not (blank a.handle)) n.actions)),
      )

-- `values[:len(values)-1]`
unfoldable pub drop_last {ℓ} : {A : Type ℓ} → List A → List A
drop_last [] = []
drop_last (x ∷ []) = []
drop_last (x ∷ y ∷ ys) = x ∷ drop_last (y ∷ ys)

-- the last element of a list that has one
unfoldable pub last_is : String → List String → Bool
last_is value [] = false
last_is value (x ∷ []) = str_eq x value
last_is value (x ∷ y ∷ ys) = last_is value (y ∷ ys)

abbrev pub over_limit : Packet → Bool
over_limit packet = ltb_ℤ packet.budget.limit packet.budget.used

module _ (e : Encoder) where
  -- `for used > limit && len(next) > 0`, a round for each action at most
  unfoldable pub trim_next : ℕ → Packet → Packet
  unfolding drop_last
  trim_next zero packet = packet
  trim_next (suc fuel) packet =
      let shorter = trim_next fuel (settled e (record packet { next = drop_last packet.next })) in
      if over_limit packet && not (is_nil packet.next) then shorter else packet

  -- `for used > limit && len(limitations) > 0`, which stops before "budget_limited"
  unfoldable pub trim_limitations : ℕ → Packet → Packet
  unfolding drop_last last_is
  trim_limitations zero packet = packet
  trim_limitations (suc fuel) packet =
      let shorter =
        trim_limitations fuel
          (settled e (record packet { limitations = drop_last packet.limitations })) in
      let blocked = last_is "budget_limited" packet.limitations in
      if over_limit packet && not (is_nil packet.limitations) && not blocked
      then shorter
      else packet

  unfoldable pub apply_guidance_within_budget : Packet → List String → List NextAction → Packet
  apply_guidance_within_budget packet limitations next =
      let filled = settled e (record packet { limitations = limitations; next = next }) in
      let trimmed = trim_next (length filled.next) filled in
      trim_limitations (length trimmed.limitations) trimmed

-- the tests of the two loops of `pruneKnownDeltaGuidance`
prune_limitation : Bool → String → Bool
prune_limitation known_only_empty limitation = not (
    str_eq limitation "known_anchor_not_repeated"
    || (known_only_empty && str_eq limitation "no_relevant_source_found"))

prune_action : List String → NextAction → Bool
prune_action known a = not (str_eq a.relation "self" && has known a.handle)

abbrev other_relation : NextAction → Bool
other_relation a = not (blank a.relation) && not (str_eq a.relation "self")

unfoldable pub prune_known_delta_guidance :
    Packet → List String → List String → List NextAction → List String × List NextAction
unfolding prune_limitation prune_action trim_space
prune_known_delta_guidance packet known_values limitations actions =
    let known = keep (λ (h : String). not (blank h)) (map trim_space known_values) in
    let known_only_empty = is_nil packet.evidence && ltb_ℤ (pos 0) packet.skipped_known in
    if is_nil known_values || not (is_nil packet.relations)
    then (limitations, actions)
    else if is_nil known
    then (limitations, actions)
    else if any other_relation actions
    then (limitations, actions)
    else (keep (prune_limitation known_only_empty) limitations, keep (prune_action known) actions)
