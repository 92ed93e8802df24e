-- ===== src/Evidence/Variants.antt =====
-- `BuildVariants` of internal/evidence/fidelity.go: the ways to show one candidate.
pub mod Filled
pub mod Selected
pub mod Shapes
use focal_span.Prelude.{
  ℕ, ◌+◌, ℤ, pos, pos_part, neg_part, ◌-ℤ◌, ◌+ℤ◌, ltb_ℤ, leb_ℤ, String, Bool, true, false, not,
  ◌&&◌, ◌||◌, List, [], ◌∷◌, ◌++◌, map, any, length, ltb, ◌==◌, str_eq, if◌then◌else◌,
}
use focal_span.Prelude.Text.{concat, trim_space}
use focal_span.Prelude.Search.{ends_with, contains}
use focal_span.Evidence.Model.{Mode, Role, Fidelity, Segment, SegmentKind}
use focal_span.Evidence.Candidate.{Plan, RankedCandidate, ClassifiedCandidate, ContentVariant}
use focal_span.Evidence.Validate.{blank, is_nil, is_source}
use focal_span.Evidence.Wire.{Encoder, int_text}
use focal_span.Evidence.Runtime.{TextTables}
use focal_span.Evidence.Segments.{focused_segments}
use focal_span.Evidence.Segments.Lines.{index_lines, focused_terms, distinct_matches, concat_all}

abbrev fidelity_text : Fidelity → String
fidelity_text Fidelity.verbatim = "verbatim"
fidelity_text Fidelity.excerpt = "excerpt"
fidelity_text Fidelity.signature = "signature"
fidelity_text Fidelity.synthetic = "synthetic"
fidelity_text (Fidelity.unknown t) = t

abbrev segment_kind_text : SegmentKind → String
segment_kind_text SegmentKind.source = "source"
segment_kind_text SegmentKind.omitted = "omitted"
segment_kind_text (SegmentKind.unknown t) = t

segment_key : Segment → String
segment_key s = concat "\0" (
    concat (segment_kind_text s.kind) (
      concat ":" (
        concat (int_text s.lines.0)
          (concat ":" (concat (int_text s.lines.1) (concat ":" s.text))))))

-- the key of `removeDuplicateVariants`
variant_key : ContentVariant → String
unfolding segment_key
variant_key v = concat (fidelity_text v.fidelity) (
    concat "\0" (
      concat v.source (
        concat "\0" (
          concat v.outline
            (concat "\0" (concat v.signature (concat_all (map segment_key v.segments))))))))

abbrev is_excerpt : Fidelity → Bool
is_excerpt Fidelity.excerpt = true
is_excerpt _ = false

-- the loop, with the keys seen so far
unfoldable pub distinct_from : List String → List ContentVariant → List ContentVariant
unfolding variant_key
distinct_from seen [] = []
distinct_from seen (v ∷ rest) =
    let skipped = distinct_from seen rest in
    let kept = v ∷ distinct_from (variant_key v ∷ seen) rest in
    if is_excerpt v.fidelity && is_nil v.segments
    then skipped
    else if any (str_eq (variant_key v)) seen
    then skipped
    else kept

unfoldable pub remove_duplicate_variants : List ContentVariant → List ContentVariant
unfolding distinct_from
remove_duplicate_variants variants = distinct_from [] variants

abbrev or_text : String → String → String
or_text s fallback = if blank s then fallback else s

abbrev pub is_main_role : Role → Bool
is_main_role Role.target = true
is_main_role Role.implementation = true
is_main_role _ = false

abbrev pub is_neighbour_role : Role → Bool
is_neighbour_role Role.caller = true
is_neighbour_role Role.callee = true
is_neighbour_role Role.test = true
is_neighbour_role _ = false

-- `source.String()`: the text of the source segments
source_text : List Segment → String
source_text [] = ""
source_text (s ∷ rest) =
    let later = source_text rest in if is_source s then concat s.text later else later

unfoldable pub excerpt_variant : Encoder → List Segment → ContentVariant
unfolding source_text
excerpt_variant e segments = record {
  fidelity = Fidelity.excerpt;
  source = "";
  segments = segments;
  outline = "";
  signature = "";
  evidence_tokens = e.estimate (source_text segments);
}

module _ {F : Type 0} where
  unfoldable pub fallback_signature : ClassifiedCandidate F → String
  fallback_signature c =
      let v = c.candidate in
      concat (or_text (trim_space v.kind) "source") (
        concat " " (
          concat (or_text (trim_space v.symbol) "unnamed") (
            concat " (" (
              concat v.path (
                concat ":" (
                  concat (int_text v.start_line)
                    (concat "-" (concat (int_text v.end_line) ")"))))))))

  -- `signature`
  unfoldable pub signature_of : ClassifiedCandidate F → String
  unfolding fallback_signature
  signature_of c = or_text (trim_space c.candidate.signature) (fallback_signature c)

  -- `lineCount`
  unfoldable pub line_count_of : RankedCandidate F → ℤ
  line_count_of v =
      let count = length (index_lines v.content) in
      if count == 0 && leb_ℤ v.start_line v.end_line
      then v.end_line -ℤ v.start_line +ℤ pos 1
      else pos count

  unfoldable pub compact_verbatim_candidate : ClassifiedCandidate F → ℤ → Bool
  compact_verbatim_candidate c count =
      if is_main_role c.role && ltb_ℤ count (pos 40)
      then true
      else is_neighbour_role c.role && ltb_ℤ count (pos 24)

  unfoldable pub synthetic_candidate : TextTables → ClassifiedCandidate F → Bool
  synthetic_candidate t c =
      let kind = t.to_lower c.candidate.kind in
      ends_with "-outline" kind
      || str_eq kind "test-suite"
      || contains "synthetic outline" (t.to_lower c.candidate.signature)

  unfoldable pub has_focused_hits : TextTables → ClassifiedCandidate F → Plan → Bool
  has_focused_hits t c plan =
      any (λ line. ltb 0 (distinct_matches t line (focused_terms plan)))
        (index_lines c.candidate.content)

  module _ (e : Encoder) where
    unfoldable pub verbatim_variant : RankedCandidate F → ContentVariant
    verbatim_variant v = record {
      fidelity = Fidelity.verbatim;
      source = v.content;
      segments = [];
      outline = "";
      signature = "";
      evidence_tokens = e.estimate v.content;
    }

    unfoldable pub signature_variant : ClassifiedCandidate F → ContentVariant
    signature_variant c = record {
      fidelity = Fidelity.signature;
      source = "";
      segments = [];
      outline = "";
      signature = signature_of c;
      evidence_tokens = e.estimate (signature_of c);
    }

    unfoldable pub synthetic_variant : RankedCandidate F → ContentVariant
    synthetic_variant v = record {
      fidelity = Fidelity.synthetic;
      source = "";
      segments = [];
      outline = v.content;
      signature = "";
      evidence_tokens = e.estimate v.content;
    }

    module _ (t : TextTables) where
      excerpt_of : ClassifiedCandidate F → Plan → ContentVariant
      unfolding excerpt_variant
      excerpt_of c plan = excerpt_variant e (focused_segments t c plan)

      -- the case of `ModeSource`
      source_variants : ClassifiedCandidate F → Plan → List ContentVariant
      unfolding verbatim_variant excerpt_of
      source_variants c plan =
          if blank c.candidate.content
          then []
          else if ltb_ℤ (pos 1) (line_count_of c.candidate)
          then verbatim_variant c.candidate ∷ excerpt_of c plan ∷ []
          else verbatim_variant c.candidate ∷ []

      -- the default case
      focused_variants : ClassifiedCandidate F → Plan → List ContentVariant
      unfolding verbatim_variant excerpt_of
      focused_variants c plan =
          if compact_verbatim_candidate c (line_count_of c.candidate)
            && not (blank c.candidate.content)
          then verbatim_variant c.candidate ∷ []
          else if not (blank c.candidate.content)
              && (is_main_role c.role || has_focused_hits t c plan)
          then excerpt_of c plan ∷ []
          else []

      -- the switch over the mode; the candidate is not synthetic
      unfoldable pub mode_variants : Mode → ClassifiedCandidate F → Plan → List ContentVariant
      unfolding source_variants focused_variants
      mode_variants Mode.outline c plan = []
      mode_variants Mode.source c plan = source_variants c plan
      mode_variants Mode.focused c plan = focused_variants c plan
      mode_variants (Mode.unknown _) c plan = focused_variants c plan

      unfoldable pub build_variants : ClassifiedCandidate F → Plan → Mode → List ContentVariant
      unfolding synthetic_variant signature_variant mode_variants
      build_variants c plan mode =
          if synthetic_candidate t c
          then (if blank c.candidate.content then [] else synthetic_variant c.candidate ∷ [])
          else remove_duplicate_variants (mode_variants mode c plan ++ signature_variant c ∷ [])
