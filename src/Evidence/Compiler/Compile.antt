-- ===== src/Evidence/Compiler/Compile.antt =====
-- `Compile` of internal/evidence/compiler.go.
pub mod Selected
pub mod Unseen
pub mod Result
pub mod Delivered
use focal_span.Prelude.{
  ℕ, ◌+◌, ℤ, pos, pos_part, neg_part, ◌-ℤ◌, ◌+ℤ◌, ltb_ℤ, String, Bool, true, false, not, List, [],
  ◌∷◌, Option, none, some, map, any, keep, length, str_eq, if◌then◌else◌,
}
use focal_span.Evidence.Model.{Mode, Packet}
use focal_span.Evidence.Candidate.{ClassifiedCandidate, PreparedCandidate}
use focal_span.Evidence.Validate.{Violation, valid_mode, validate, blank}
use focal_span.Evidence.Wire.{Encoder, settled, min_budget, max_budget}
use focal_span.Evidence.Guidance.{
  GuidanceSelection, GuidanceInput, build_guidance, apply_guidance_within_budget,
  prune_known_delta_guidance, has, over_limit,
}
use focal_span.Evidence.Runtime.{Floats, TextTables}
use focal_span.Evidence.Compiler.Utility.{SelectedCandidate}
use focal_span.Evidence.Compiler.Build.{CompileRequest, build_packet}
use focal_span.Evidence.Compiler.Statistics.{
  Stats, CompileResult, selected_evidence_tokens, duplicate_source_bytes, max_int,
}
use focal_span.Evidence.Compiler.Select.{Run, handle_of, select_all, shrink}
use focal_span.Evidence.Compiler.Metadata.{prune_packet_metadata}
use focal_span.Evidence.Compiler.Preprocess.{Seen, preprocess}

pub data CompileError : Type 0 where
  unsupported_evidence_mode empty_packet_does_not_fit : CompileError
  invalid_packet : Violation → CompileError

pub data Compiled : Type 0 where
  ok : CompileResult → Compiled
  err : CompileError → Compiled

unfoldable pub clamp_budget : ℤ → ℤ
clamp_budget value =
    if ltb_ℤ value (pos min_budget)
    then pos min_budget
    else if ltb_ℤ (pos max_budget) value
    then pos max_budget
    else value

-- `mode == ""`
unfoldable pub mode_or_focused : Mode → Mode
mode_or_focused (Mode.unknown t) = if blank t then Mode.focused else Mode.unknown t
mode_or_focused mode = mode

-- the last check
unfoldable pub checked : CompileResult → Option Violation → Compiled
checked result none = ok result
checked result (some v) = err (invalid_packet v)

module _ (fl : Floats) (e : Encoder) (t : TextTables) where
  open fl use {F}

  unfoldable pub omitted_classified :
      List (PreparedCandidate F) → List (SelectedCandidate F) → List (ClassifiedCandidate F)
  omitted_classified prepared selected =
      let handles = map (λ (s : SelectedCandidate F). handle_of s.prepared) selected in
      map (λ (p : PreparedCandidate F). p.classified)
        (keep (λ (p : PreparedCandidate F). not (has handles (handle_of p))) prepared)

  unfoldable pub guidance_input : Run F → List (SelectedCandidate F) → ℤ → GuidanceInput F
  unfolding omitted_classified
  guidance_input run selected omitted = record {
    plan = run.req.plan;
    selected =
        map
          (λ (s : SelectedCandidate F). record {
            candidate = s.prepared.classified;
            fidelity = s.variant.fidelity;
          })
          selected;
    omitted = omitted_classified run.prepared selected;
    known_handles = run.req.known_handles;
    expansion_anchors = run.req.expansion_anchors;
    truncated = ltb_ℤ (pos 0) omitted;
  }

  -- from the guidance on: what is added to the packet, and the last measure
  unfoldable pub finish_packet : Run F → List (SelectedCandidate F) → ℤ → Packet → Packet
  finish_packet run selected omitted packet =
      let (limitations, next) = build_guidance (guidance_input run selected omitted) in
      let (limitations', next') =
        prune_known_delta_guidance packet run.req.known_handles limitations next in
      settled e (prune_packet_metadata t (apply_guidance_within_budget e packet limitations' next'))

  unfoldable pub statistics : Run F → List (SelectedCandidate F) → ℤ → Packet → Stats
  statistics run selected omitted final =
      let evidence_tokens = selected_evidence_tokens selected in
      record {
        wire_tokens = final.budget.used;
        evidence_tokens = evidence_tokens;
        metadata_tokens = max_int (pos 0) (final.budget.used -ℤ evidence_tokens);
        duplicate_source_bytes = duplicate_source_bytes final.evidence;
        selected = length final.evidence;
        omitted = omitted;
        skipped_known = run.skipped_known;
      }

  -- from the loop that removes what does not fit on
  unfoldable pub finish : Run F → List (SelectedCandidate F) → Compiled
  unfolding checked
  finish run chosen =
      let (selected, omitted) =
        shrink fl e (length chosen) run
          (pos (length run.prepared) -ℤ pos (length chosen) +ℤ run.base_omitted) chosen in
      let packet =
        build_packet fl e run.req run.mode run.limit selected omitted run.skipped_known in
      let final = finish_packet run selected omitted packet in
      let result : CompileResult = record {
        packet = final;
        stats = statistics run selected omitted final;
      } in
      if over_limit packet then err empty_packet_does_not_fit else checked result (validate final)

  unfoldable pub run_of : CompileRequest F → Mode → Seen fl → Run F
  run_of req mode seen = record {
    req = req;
    mode = mode;
    limit = clamp_budget req.token_budget;
    prepared = seen.prepared;
    base_omitted = pos (seen.duplicates + seen.skipped);
    skipped_known = pos seen.skipped;
  }

  unfoldable pub compile : CompileRequest F → Compiled
  compile req =
      let mode = mode_or_focused req.mode in
      let run = run_of req mode (preprocess fl e t req mode) in
      if not (valid_mode mode)
      then err unsupported_evidence_mode
      else finish run (select_all fl e run)
