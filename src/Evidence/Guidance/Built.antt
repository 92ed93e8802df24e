-- ===== src/Evidence/Guidance/Built.antt =====
-- What `BuildGuidance` returns, whatever it is given.
use focal_span.Prelude.{
  ◌≤◌, ◌≡◌, refl, String, Bool, true, false, not, ◌||◌, ◌&&◌, List, [], ◌∷◌, Option, none, some,
  any, keep, take, drop, length, All, All-take, length-take-le, arith, eq_iff, Bool-cases, inl, inr,
  str_eq,
}
use focal_span.Prelude.Sort.{
  sort_by, All-sort_by, Pairwise, Pairwise-take, All-keep, Pairwise-keep, Pairwise-sort_by,
}
use focal_span.Evidence.Model.{Role, Fidelity, NextAction}
use focal_span.Evidence.Candidate.{RelationContext, ClassifiedCandidate}
use focal_span.Evidence.Validate.{blank}
use focal_span.Evidence.Guidance.{
  limitation_order, has, action, action_key, add_guidance_action, Notes, note, note_if, suggest,
  note_unresolved, suggest_family, note_fidelity, GuidanceSelection, GuidanceInput,
  note_selected_context, note_selected, guidance_target, context_anchor, note_omitted_context,
  suggest_omitted_family, note_omitted_role, note_omitted, first_notes, all_notes, action_before,
  build_guidance,
}

-- An action names a handle, a relation and a reason.
abbrev pub IsAction : NextAction → Type 0
IsAction a = (blank a.handle ≡ false) × (blank a.relation ≡ false) × (blank a.reason ≡ false)

-- Two actions are for different handles or for different relations.
abbrev pub OtherKey : NextAction → NextAction → Type 0
OtherKey a b = str_eq (action_key a) (action_key b) ≡ false

OtherKey-flip : (a b : NextAction) → OtherKey a b → OtherKey b a
OtherKey-flip a b h =
    ground (arith, eq_iff (action_key a) (action_key b), eq_iff (action_key b) (action_key a))

abbrev IsSound : List NextAction → Type 0
IsSound actions = All IsAction actions × Pairwise OtherKey actions

none_other :
    (a : NextAction) (bs : List NextAction)
    → any (λ (b : NextAction). str_eq (action_key a) (action_key b)) bs ≡ false
    → All (OtherKey a) bs
none_other a [] h = tt
none_other a (b ∷ bs) h = (ground arith, none_other a bs (ground arith))

add_guidance_action-IsSound :
    (actions : List NextAction) (a : NextAction)
    → IsSound actions
    → IsSound (add_guidance_action actions a)
unfolding add_guidance_action
add_guidance_action-IsSound actions a h =
    elim (Bool-cases (blank a.handle || blank a.relation || blank a.reason)) [
      | inl bad ↦ rw bad h
      | inr good ↦
          rw good
            (elim (Bool-cases
              (any (λ (b : NextAction). str_eq (action_key a) (action_key b)) actions)) [
                | inl old ↦ rw old h
                | inr new ↦ rw new ((fine good, h.0), (none_other a actions new, h.1))
              ])
    ]
  where
    fine : (blank a.handle || blank a.relation || blank a.reason) ≡ false → IsAction a
    fine e = ground arith

-- One step of the notes: the actions stay sound, and no limitation is lost.
record Extends (n m : Notes) : Type 0 where
  sound : IsSound n.actions → IsSound m.actions
  kept : (c : String) → has n.limitations c ≡ true → has m.limitations c ≡ true

Extends-refl : (n : Notes) → Extends n n
Extends-refl n = record { sound = λ h. h; kept = λ c h. h }

Extends-trans : {l m n : Notes} → Extends l m → Extends m n → Extends l n
Extends-trans p q = record { sound = λ h. q.sound (p.sound h); kept = λ c h. q.kept c (p.kept c h) }

or_right : (a b : Bool) → b ≡ true → (a || b) ≡ true
or_right a b h = ground arith

note-Extends : (code : String) (n : Notes) → Extends n (note code n)
note-Extends code n = record {
  sound = λ h. h;
  kept = λ c h. or_right (str_eq c code) (has n.limitations c) h;
}

note_if-Extends : (b : Bool) (code : String) (n : Notes) → Extends n (note_if b code n)
note_if-Extends true code n = note-Extends code n
note_if-Extends false code n = Extends-refl n

suggest-Extends : (h r w : String) (n : Notes) → Extends n (suggest h r w n)
unfolding suggest
suggest-Extends h r w n = record {
  sound = add_guidance_action-IsSound n.actions (action h r w);
  kept = λ c k. k;
}

module _ {F : Type 0} where
  note_unresolved-Extends : (c : RelationContext F) (n : Notes) → Extends n (note_unresolved c n)
  unfolding note_unresolved
  note_unresolved-Extends c n = elim (Bool-cases c.resolved) [
    | inl e ↦ rw e (Extends-refl n)
    | inr e ↦ rw e (
        Extends-trans (note-Extends "lexical_relation_only" n) (
          note_if-Extends (str_eq c.kind "callers" || str_eq c.kind "callees")
            "dynamic_dispatch_unresolved" (note "lexical_relation_only" n)))
  ]

suggest_family-Extends : (k h : String) (n : Notes) → Extends n (suggest_family k h n)
unfolding suggest_family
suggest_family-Extends k h n = elim (Bool-cases (str_eq k "parent")) [
  | inl e ↦ rw e (suggest-Extends h "parent" "parent_context_available" n)
  | inr e ↦ rw e (elim (Bool-cases (str_eq k "children")) [
    | inl f ↦ rw f (suggest-Extends h "children" "children_available" n)
    | inr f ↦ rw f (Extends-refl n)
  ])
]

note_fidelity-Extends : (f : Fidelity) (h : String) (n : Notes) → Extends n (note_fidelity f h n)
unfolding note_fidelity
note_fidelity-Extends Fidelity.excerpt h n = note-Extends "source_reduced_to_excerpt" n
note_fidelity-Extends Fidelity.signature h n =
    Extends-trans (note-Extends "source_reduced_to_signature" n)
      (suggest-Extends h "self" "source_body_omitted" (note "source_reduced_to_signature" n))
note_fidelity-Extends _ h n = Extends-refl n

note-suggest-Extends : (code h r w : String) (n : Notes) → Extends n (suggest h r w (note code n))
note-suggest-Extends code h r w n =
    Extends-trans (note-Extends code n) (suggest-Extends h r w (note code n))

note_omitted_role-Extends :
    (r : Role) (h : String) (n : Notes) → Extends n (note_omitted_role r h n)
unfolding note_omitted_role
note_omitted_role-Extends Role.caller h n =
    note-suggest-Extends "additional_callers_omitted" h "callers" "more_callers_omitted" n
note_omitted_role-Extends Role.callee h n =
    note-suggest-Extends "additional_callees_omitted" h "callees" "more_callees_omitted" n
note_omitted_role-Extends Role.test h n =
    note-suggest-Extends "additional_tests_omitted" h "tests" "more_tests_omitted" n
note_omitted_role-Extends Role.import_role h n =
    note-suggest-Extends "additional_imports_omitted" h "imports" "more_imports_omitted" n
note_omitted_role-Extends Role.export_role h n =
    note-suggest-Extends "additional_imports_omitted" h "imports" "more_imports_omitted" n
note_omitted_role-Extends Role.reference h n =
    note-suggest-Extends "additional_references_omitted" h "references" "more_references_omitted" n
note_omitted_role-Extends _ h n = Extends-refl n

module _ {F : Type 0} where
  note_selected_context-Extends :
      (known seen : List String) (c : Option (RelationContext F)) (n : Notes)
      → Extends n (note_selected_context known seen c n)
  unfolding note_selected_context
  note_selected_context-Extends known seen none n = Extends-refl n
  note_selected_context-Extends known seen (some c) n =
      let first = note_unresolved c n in
      let second =
        note_if (has known c.anchor_handle && not (has seen c.anchor_handle))
          "known_anchor_not_repeated" first in
      Extends-trans (note_unresolved-Extends c n) (
        Extends-trans
          (note_if-Extends (has known c.anchor_handle && not (has seen c.anchor_handle))
            "known_anchor_not_repeated" first)
          (suggest_family-Extends c.kind c.anchor_handle second))

  note_selected-Extends :
      (known seen : List String) (ss : List (GuidanceSelection F)) (n : Notes)
      → Extends n (note_selected known seen ss n)
  unfolding note_selected
  note_selected-Extends known seen [] n = Extends-refl n
  note_selected-Extends known seen (s ∷ ss) n =
      let handle = s.candidate.candidate.handle in
      let first = note_fidelity s.fidelity handle n in
      let context = s.candidate.candidate.relation_context in
      Extends-trans (note_fidelity-Extends s.fidelity handle n) (
        Extends-trans (note_selected_context-Extends known (handle ∷ seen) context first) (
          note_selected-Extends known (handle ∷ seen) ss
            (note_selected_context known (handle ∷ seen) context first)))

  note_omitted_context-Extends :
      (c : Option (RelationContext F)) (n : Notes) → Extends n (note_omitted_context c n)
  unfolding note_omitted_context
  note_omitted_context-Extends none n = Extends-refl n
  note_omitted_context-Extends (some c) n = note_unresolved-Extends c n

  suggest_omitted_family-Extends :
      (h : String) (c : Option (RelationContext F)) (n : Notes)
      → Extends n (suggest_omitted_family h c n)
  unfolding suggest_omitted_family
  suggest_omitted_family-Extends h none n = Extends-refl n
  suggest_omitted_family-Extends h (some c) n = suggest_family-Extends c.kind h n

  note_omitted-Extends :
      (target : String) (os : List (ClassifiedCandidate F)) (n : Notes)
      → Extends n (note_omitted target os n)
  unfolding note_omitted
  note_omitted-Extends target [] n = Extends-refl n
  note_omitted-Extends target (o ∷ os) n =
      let context = o.candidate.relation_context in
      let anchor = context_anchor target context in
      let first = note_omitted_context context n in
      let second = note_omitted_role o.role anchor first in
      Extends-trans (note_omitted_context-Extends context n) (
        Extends-trans (note_omitted_role-Extends o.role anchor first) (
          Extends-trans (suggest_omitted_family-Extends anchor context second)
            (note_omitted-Extends target os (suggest_omitted_family anchor context second))))

  all_notes-Extends : (input : GuidanceInput F) → Extends (first_notes input) (all_notes input)
  unfolding all_notes
  all_notes-Extends input =
      let selected = note_selected input.known_handles [] input.selected (first_notes input) in
      Extends-trans
        (note_selected-Extends input.known_handles [] input.selected (first_notes input))
        (note_omitted-Extends (guidance_target input) input.omitted selected)

  first_notes-empty : (input : GuidanceInput F) → (first_notes input).actions ≡ []
  unfolding first_notes
  first_notes-empty input = ground arith

  first_notes-truncated :
      (input : GuidanceInput F)
      → input.truncated ≡ true
      → has (first_notes input).limitations "budget_limited" ≡ true
  unfolding first_notes
  first_notes-truncated input h = ground arith

  all_notes-IsSound : (input : GuidanceInput F) → IsSound (all_notes input).actions
  all_notes-IsSound input = (all_notes-Extends input).sound (rw (first_notes-empty input) (tt, tt))

  -- `BuildGuidance` returns at most 8 limitations and at most 4 next actions; each action names a
  -- handle, a relation and a reason, and no two have the same key of handle and relation.
  pub build_guidance-bounds :
      (input : GuidanceInput F)
      → (length (build_guidance input).0 ≤ 8)
        × (length (build_guidance input).1 ≤ 4)
        × All IsAction (build_guidance input).1
        × Pairwise OtherKey (build_guidance input).1
  unfolding build_guidance
  build_guidance-bounds input =
      let actions = (all_notes input).actions in
      let named = λ (a : NextAction). not (blank a.handle) in
      let sound = all_notes-IsSound input in
      (
        length-take-le 8 (keep (has (all_notes input).limitations) limitation_order),
        length-take-le 4 (sort_by action_before (keep named actions)),
        All-take IsAction 4 (sort_by action_before (keep named actions)) (
            All-sort_by IsAction action_before (keep named actions)
              (All-keep IsAction named actions sound.0)),
        Pairwise-take OtherKey 4 (sort_by action_before (keep named actions)) (
            Pairwise-sort_by OtherKey OtherKey-flip action_before (keep named actions)
              (Pairwise-keep OtherKey named actions sound.1)),
      )

  -- When the packet was truncated, the first limitation says so.
  pub build_guidance-truncated :
      (input : GuidanceInput F)
      → input.truncated ≡ true
      → (rest : List String) × ((build_guidance input).0 ≡ "budget_limited" ∷ rest)
  unfolding build_guidance
  build_guidance-truncated input h = (
    take 7 (keep (has (all_notes input).limitations) (drop 1 limitation_order)),
    rw ((all_notes-Extends input).kept "budget_limited" (first_notes-truncated input h)) refl,
  )
