-- ===== src/Evidence/Validate.antt =====
-- `Validate` of internal/evidence/validate.go. Go's `error` is an optional violation; the message's
-- operands are left out.
pub mod WellFormed
use focal_span.Prelude.{
  ℕ, suc, ◌+◌, ℤ, pos, pos_part, neg_part, leb_ℤ, ltb_ℤ, String, Bool, true, false, not, ◌&&◌, ◌||◌,
  List, [], ◌∷◌, map, Option, none, some, any, length, leb, ltb, ◌==◌, str_eq, if◌then◌else◌,
}
use focal_span.Prelude.Text.{codes, clean, same_codes, has_prefix, has_code}
use focal_span.Evidence.Model.{
  Mode, Role, Fidelity, Certainty, SegmentKind, Location, Segment, Item, Edge, Packet,
  schema_context_v1, certainty_text, local_id,
}

pub data Violation : Type 0 where
  invalid_schema unsupported_mode invalid_budget negative_skipped_known : Violation
  too_many_limitations too_many_next : Violation
  ids_not_sequential blank_handle duplicate_handle : Violation
  unknown_role unknown_fidelity path_not_relative path_not_slashed path_not_normalized : Violation
  invalid_lines too_many_why verbatim_shape excerpt_shape no_source_segment : Violation
  segment_lines blank_source_segment text_in_omitted_segment unknown_segment_kind : Violation
  signature_shape synthetic_shape : Violation
  missing_from missing_to self_edge blank_kind unknown_certainty duplicate_edge : Violation

-- a test that returns an error, and two checks in a row
abbrev pub reject_if : Bool → Violation → Option Violation
reject_if true v = some v
reject_if false v = none

infixr 6 ◌then_check◌
abbrev pub ◌then_check◌ : Option Violation → Option Violation → Option Violation
none then_check k = k
some v then_check k = some v

abbrev pub blank : String → Bool
blank s = str_eq s ""

abbrev pub is_nil {ℓ} : {A : Type ℓ} → List A → Bool
is_nil [] = true
is_nil (x ∷ xs) = false

abbrev pub valid_lines : ℤ × ℤ → Bool
valid_lines lines = leb_ℤ (pos 1) lines.0 && leb_ℤ lines.0 lines.1

abbrev pub valid_mode : Mode → Bool
valid_mode (Mode.unknown _) = false
valid_mode Mode.outline = true
valid_mode _ = true

abbrev pub valid_fidelity : Fidelity → Bool
valid_fidelity (Fidelity.unknown _) = false
valid_fidelity Fidelity.verbatim = true
valid_fidelity _ = true

abbrev pub valid_certainty : Certainty → Bool
valid_certainty (Certainty.unknown _) = false
valid_certainty Certainty.exact = true
valid_certainty _ = true

abbrev pub valid_role : Role → Bool
valid_role (Role.unknown _) = false
valid_role Role.target = true
valid_role _ = true

-- the regular expression `^[A-Za-z]:/`
is_letter : ℕ → Bool
is_letter c = (leb b'A' c && leb c b'Z') || (leb b'a' c && leb c b'z')

unfoldable pub windows_drive_path : List ℕ → Bool
unfolding is_letter
windows_drive_path (c ∷ colon ∷ slash ∷ rest) = is_letter c && colon == b':' && slash == b'/'
windows_drive_path _ = false

-- `path.Clean(p) == p`
abbrev pub is_clean : String → Bool
is_clean p = same_codes (clean (codes p)) (codes p)

unfoldable pub validate_location : Location → Option Violation
validate_location location =
    reject_if
      (blank location.path
        || has_prefix (codes "/") (codes location.path)
        || windows_drive_path (codes location.path))
      path_not_relative
    then_check reject_if (has_code b'\\' (codes location.path)) path_not_slashed
    then_check reject_if
        (not (is_clean location.path)
          || str_eq location.path "."
          || has_prefix (codes "../") (codes location.path))
        path_not_normalized
    then_check reject_if (not (valid_lines location.lines)) invalid_lines

segment_text : SegmentKind → String → Option Violation
segment_text SegmentKind.source text = reject_if (blank text) blank_source_segment
segment_text SegmentKind.omitted text = reject_if (not (blank text)) text_in_omitted_segment
segment_text (SegmentKind.unknown _) text = some unknown_segment_kind

unfoldable pub validate_segment : Segment → ℤ × ℤ → Option Violation
unfolding segment_text
validate_segment segment item_lines =
    reject_if
      (not (valid_lines segment.lines)
        || ltb_ℤ segment.lines.0 item_lines.0
        || ltb_ℤ item_lines.1 segment.lines.1)
      segment_lines
    then_check segment_text segment.kind segment.text

abbrev pub is_source : Segment → Bool
is_source segment = elim segment.kind [ SegmentKind.source ↦ true | _ ↦ false ]

-- the loop over the segments; the flag is `hasSource`
unfoldable pub validate_segments : Bool → List Segment → ℤ × ℤ → Option Violation
validate_segments has_source [] item_lines = reject_if (not has_source) no_source_segment
validate_segments has_source (segment ∷ rest) item_lines =
    validate_segment segment item_lines
    then_check validate_segments (has_source || is_source segment) rest item_lines

-- the switch on the fidelity
unfoldable pub validate_shape : Fidelity → Item → Option Violation
validate_shape Fidelity.verbatim item =
    reject_if
      (blank item.source
        || not (is_nil item.segments)
        || not (blank item.outline)
        || not (blank item.signature))
      verbatim_shape
validate_shape Fidelity.excerpt item =
    reject_if
      (not (blank item.source)
        || not (blank item.outline)
        || not (blank item.signature)
        || is_nil item.segments)
      excerpt_shape
    then_check validate_segments false item.segments item.location.lines
validate_shape Fidelity.signature item =
    reject_if
      (blank item.signature
        || not (blank item.source)
        || not (is_nil item.segments)
        || not (blank item.outline))
      signature_shape
validate_shape Fidelity.synthetic item =
    reject_if
      (blank item.outline
        || not (blank item.source)
        || not (is_nil item.segments)
        || not (blank item.signature))
      synthetic_shape
validate_shape (Fidelity.unknown _) item = none

unfoldable pub validate_item : Item → Option Violation
validate_item item =
    reject_if (not (valid_role item.role)) unknown_role
    then_check reject_if (not (valid_fidelity item.fidelity)) unknown_fidelity
    then_check validate_location item.location
    then_check reject_if (ltb 4 (length item.why)) too_many_why
    then_check validate_shape item.fidelity item

-- the loop over the evidence from index `i`, with the handles seen so far
unfoldable pub validate_evidence : ℕ → List String → List Item → Option Violation
validate_evidence i handles [] = none
validate_evidence i handles (item ∷ rest) =
    reject_if (not (str_eq item.id (local_id (i + 1)))) ids_not_sequential
    then_check reject_if (blank item.handle) blank_handle
    then_check reject_if (any (str_eq item.handle) handles) duplicate_handle
    then_check validate_item item
    then_check validate_evidence (i + 1) (item.handle ∷ handles) rest

-- equality of edges, as the keys of Go's map
abbrev pub edge_eq : Edge → Edge → Bool
edge_eq a b =
    str_eq a.from b.from
    && str_eq a.to b.to
    && str_eq a.kind b.kind
    && str_eq (certainty_text a.certainty) (certainty_text b.certainty)

-- the loop over the relations, with the edges seen so far
unfoldable pub validate_relations : List String → List Edge → List Edge → Option Violation
validate_relations ids edges [] = none
validate_relations ids edges (edge ∷ rest) =
    reject_if (not (any (str_eq edge.from) ids)) missing_from
    then_check reject_if (not (any (str_eq edge.to) ids)) missing_to
    then_check reject_if (str_eq edge.from edge.to && not (str_eq edge.kind "self")) self_edge
    then_check reject_if (blank edge.kind) blank_kind
    then_check reject_if (not (valid_certainty edge.certainty)) unknown_certainty
    then_check reject_if (any (edge_eq edge) edges) duplicate_edge
    then_check validate_relations ids (edge ∷ edges) rest

unfoldable pub validate : Packet → Option Violation
validate packet =
    reject_if (not (str_eq packet.schema schema_context_v1)) invalid_schema
    then_check reject_if (not (valid_mode packet.mode)) unsupported_mode
    then_check reject_if
        (ltb_ℤ packet.budget.limit (pos 0)
          || ltb_ℤ packet.budget.used (pos 0)
          || ltb_ℤ packet.budget.limit packet.budget.used
          || ltb_ℤ packet.budget.omitted (pos 0))
        invalid_budget
    then_check reject_if (ltb_ℤ packet.skipped_known (pos 0)) negative_skipped_known
    then_check reject_if (ltb 8 (length packet.limitations)) too_many_limitations
    then_check reject_if (ltb 4 (length packet.next)) too_many_next
    then_check validate_evidence 0 [] packet.evidence
    then_check validate_relations (map (λ (item : Item). item.id) packet.evidence) []
        packet.relations
