-- ===== src/Tests/Compiler.antt =====
-- internal/evidence/compiler.go at a concrete request.
use focal_span.Tests.Fixtures.{hundredths, tables, encoder, request}
use mathlib.Core.List.{Perm}
use focal_span.Prelude.{
  ◌⊎◌, map, ℕ, ◌≤◌, ◌≡◌, refl, pos, true, false, List, [], ◌∷◌, length, All, ◌+ℤ◌, ◌-ℤ◌,
}
use focal_span.Prelude.Sort.{Pairwise, sort_by}
use focal_span.Evidence.Compiler.Utility.{
  SelectedCandidate, selected_diversity, candidate_utility, variant_utility,
}
use focal_span.Evidence.Compiler.Select.{
  Run, select_all, best_option, shrink, selection_limit, packet_of, find_anchor, try_anchor,
  anchor_variants, select_anchor, consider, try_variants, consider_candidate, try_candidates,
  select_rounds,
}
use focal_span.Evidence.Compiler.Select.Finished.{too_big, shrink_lem}
use focal_span.Evidence.Compiler.Select.Exhausted.{IsSpent, select_all-exhausted}
use focal_span.Evidence.Compiler.Compile.{
  statistics, run_of, ok, clamp_budget, compile, mode_or_focused, guidance_input, finish_packet,
  finish,
}
use focal_span.Evidence.Roles.Classify.{
  classify, sort_for_presentation, with_key, classify_from, classify_role, exact_target_index,
  exact_target_from, is_exact_target, anchor_names, other_role, evidence_role, available_codes,
  why_codes,
}
use focal_span.Evidence.Roles.Presented.{
  HasRanksFrom, targets, KeyBefore, classify_lem, sort_for_presentation_lem,
}
use focal_span.Prelude.Text.{has_code, clean, ext, to_slashes}
use focal_span.Evidence.Compiler.Metadata.{
  can_omit_kind, prune_why, language_is_implied_by_path, prune_item, prune_items,
  prune_packet_metadata,
}
use focal_span.Evidence.Validate.{
  windows_drive_path, validate_location, validate_shape, validate_item, validate_evidence,
  validate_relations, validate,
}
use focal_span.Evidence.Model.{Mode, Role, Fidelity, Packet, local_id, assign_local_ids}
use focal_span.Evidence.Candidate.{ClassifiedCandidate}
use focal_span.Evidence.Validate.WellFormed.{IsWellFormed}
use focal_span.Evidence.Variants.{
  build_variants, synthetic_candidate, remove_duplicate_variants, compact_verbatim_candidate,
  line_count_of, signature_of,
}
use focal_span.Evidence.Segments.Lines.{index_lines, concat_all}
use focal_span.Evidence.Wire.{summary, measure_model_visible, settle_wire_usage}
use focal_span.Evidence.Guidance.{
  build_guidance, trim_next, trim_limitations, apply_guidance_within_budget,
  prune_known_delta_guidance,
}
use focal_span.Evidence.Compiler.Statistics.{
  CompileResult, selected_evidence_tokens, duplicate_source_bytes,
}
use focal_span.Evidence.Known.{byte_length}
use focal_span.Evidence.Compiler.Build.{selected_edges, item_of, ordered_selection, build_packet}
use focal_span.Evidence.Compiler.Preprocess.{
  preprocess, line_identity, with_handle, normalize_onto, unusable, prepare_one, prepare_all,
}
use focal_span.Evidence.Compiler.Compile.Result.{handles_of}
use focal_span.Evidence.Compiler.Compile.Delivered.{UnknownHandle, compile_lem}
use focal_span.Evidence.Roles.{priority_from, presentation_roles, relation_role}
use focal_span.Evidence.Roles.Kinds.{
  is_test_evidence, is_template_evidence, is_config_evidence, is_declaration_evidence,
  is_documentation_evidence, is_header_declaration, is_implementation_evidence, is_type_evidence,
}

abbrev delivered : Packet
delivered = record {
  schema = "focalspan.context.v1";
  revision = "r1";
  intent = "callers";
  mode = Mode.focused;
  budget = record { limit = pos 256; used = pos 34; truncated = true; omitted = pos 2 };
  evidence =
      record {
        id = "e1";
        handle = "h1";
        role = Role.target;
        location = record { path = "internal/a.go"; lines = (pos 3, pos 9) };
        language = "";
        kind = "function";
        symbol = "A";
        signature = "";
        fidelity = Fidelity.verbatim;
        why = [];
        source = "func A() {}";
        segments = [];
        outline = "";
      }
      ∷ record {
        id = "e2";
        handle = "h2";
        role = Role.implementation;
        location = record { path = "internal/a.go"; lines = (pos 11, pos 14) };
        language = "";
        kind = "function";
        symbol = "B";
        signature = "";
        fidelity = Fidelity.verbatim;
        why = [];
        source = "func A() {}";
        segments = [];
        outline = "";
      }
      ∷ [];
  relations = [];
  limitations = "budget_limited" ∷ [];
  next = [];
  skipped_known = pos 1;
}

abbrev result : CompileResult
result = record {
  packet = delivered;
  stats = record {
    wire_tokens = pos 34;
    evidence_tokens = pos 22;
    metadata_tokens = pos 12;
    duplicate_source_bytes = 11;
    selected = 2;
    omitted = pos 2;
    skipped_known = pos 1;
  };
}

request_is_compiled : compile hundredths encoder tables request ≡ ok result
unfolding build_variants synthetic_candidate remove_duplicate_variants compact_verbatim_candidate
    line_count_of index_lines signature_of concat_all sort_for_presentation classify classify_from
    with_key classify_role exact_target_index exact_target_from is_exact_target anchor_names
    other_role evidence_role available_codes why_codes priority_from presentation_roles
    relation_role is_test_evidence is_template_evidence is_config_evidence is_declaration_evidence
    is_documentation_evidence is_header_declaration is_implementation_evidence is_type_evidence
    windows_drive_path validate_location validate_shape validate_item validate_evidence
    validate_relations validate summary measure_model_visible settle_wire_usage local_id
    assign_local_ids build_guidance trim_next trim_limitations apply_guidance_within_budget
    prune_known_delta_guidance selection_limit packet_of find_anchor try_anchor anchor_variants
    select_anchor consider try_variants consider_candidate try_candidates best_option select_rounds
    select_all shrink line_identity with_handle normalize_onto unusable prepare_one prepare_all
    preprocess selected_edges item_of ordered_selection build_packet selected_diversity
    candidate_utility variant_utility can_omit_kind prune_why language_is_implied_by_path prune_item
    prune_items prune_packet_metadata clamp_budget mode_or_focused guidance_input finish_packet
    finish run_of compile has_code clean ext to_slashes ◌+ℤ◌ ◌-ℤ◌ sort_by selected_evidence_tokens
    duplicate_source_bytes byte_length statistics
request_is_compiled = refl

compile_lem_example :
    IsWellFormed delivered
    × (delivered.budget.limit ≡ clamp_budget request.token_budget)
    × (length delivered.evidence ≤ selection_limit request.plan)
    × All (UnknownHandle hundredths encoder tables request) (handles_of delivered.evidence)
compile_lem_example = compile_lem hundredths encoder tables request result request_is_compiled

abbrev run : Run ℕ
run =
    run_of hundredths encoder tables request Mode.focused
      (preprocess hundredths encoder tables request Mode.focused)

select_all-exhausted_example :
    (selection_limit run.req.plan ≤ length (select_all hundredths encoder run))
    ⊎ All (IsSpent hundredths encoder run (select_all hundredths encoder run)) run.prepared
select_all-exhausted_example = select_all-exhausted hundredths encoder run

-- two selections, of a limit that neither fits
abbrev chosen : List (SelectedCandidate ℕ)
chosen = select_all hundredths encoder run

abbrev tight_run : Run ℕ
tight_run = record run { limit = pos 10 }

shrink_lem_example :
    (too_big hundredths encoder tight_run
        (shrink hundredths encoder (length chosen) tight_run (pos 2) chosen).0
        (shrink hundredths encoder (length chosen) tight_run (pos 2) chosen).1
      ≡ false)
    ⊎ ((shrink hundredths encoder (length chosen) tight_run (pos 2) chosen).0 ≡ [])
shrink_lem_example = shrink_lem hundredths encoder tight_run (pos 2) chosen

classify_lem_example :
    (map
        (λ (c : ClassifiedCandidate ℕ). c.candidate)
        (classify hundredths tables request.plan request.candidates)
      ≡ request.candidates)
    × HasRanksFrom hundredths tables request.plan 0
        (classify hundredths tables request.plan request.candidates)
    × (length (
          targets hundredths tables request.plan
            (classify hundredths tables request.plan request.candidates))
        ≤ 1)
classify_lem_example = classify_lem hundredths tables request.plan request.candidates

abbrev found : List (ClassifiedCandidate ℕ)
found = classify hundredths tables request.plan request.candidates

sort_for_presentation_lem_example :
    Pairwise
      (λ a b. KeyBefore a.presentation_key b.presentation_key)
      (sort_for_presentation hundredths request.plan found)
    × Perm
        (sort_for_presentation hundredths request.plan found)
        (map (with_key hundredths request.plan) found)
sort_for_presentation_lem_example = sort_for_presentation_lem hundredths request.plan found
