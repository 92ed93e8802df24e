-- ===== src/Evidence/Compiler/Statistics.antt =====
-- The statistics that `Compile` of internal/evidence/compiler.go returns beside the packet.
use focal_span.Prelude.{
  ℕ, ◌+◌, ℤ, pos, ◌+ℤ◌, ltb_ℤ, String, List, [], ◌∷◌, ◌++◌, any, str_eq, if◌then◌else◌,
}
use focal_span.Evidence.Model.{Segment, Item, Packet}
use focal_span.Evidence.Validate.{blank, is_source}
use focal_span.Evidence.Known.{byte_length}
use focal_span.Evidence.Compiler.Utility.{SelectedCandidate}

pub record Stats : Type 0 where
  pub wire_tokens : ℤ
  pub evidence_tokens : ℤ
  pub metadata_tokens : ℤ
  pub duplicate_source_bytes : ℕ
  pub selected : ℕ
  pub omitted : ℤ
  pub skipped_known : ℤ

pub record CompileResult : Type 0 where
  pub packet : Packet
  pub stats : Stats

unfoldable pub selected_evidence_tokens : {F : Type 0} → List (SelectedCandidate F) → ℤ
selected_evidence_tokens [] = pos 0
selected_evidence_tokens (s ∷ rest) = s.variant.evidence_tokens +ℤ selected_evidence_tokens rest

-- `texts` of an item behind its source
segment_texts : List Segment → List String
segment_texts [] = []
segment_texts (s ∷ rest) =
    let later = segment_texts rest in if is_source s then s.text ∷ later else later

-- the texts that the loops read, in order
texts_of : List Item → List String
unfolding segment_texts
texts_of [] = []
texts_of (item ∷ rest) = item.source ∷ segment_texts item.segments ++ texts_of rest

-- the inner loop, with `seen`
repeated_bytes : List String → List String → ℕ
repeated_bytes seen [] = 0
repeated_bytes seen (text ∷ rest) =
    let known = repeated_bytes seen rest in
    let fresh = repeated_bytes (text ∷ seen) rest in
    if blank text then known else if any (str_eq text) seen then byte_length text + known else fresh

unfoldable pub duplicate_source_bytes : List Item → ℕ
unfolding texts_of repeated_bytes
duplicate_source_bytes items = repeated_bytes [] (texts_of items)

abbrev pub max_int : ℤ → ℤ → ℤ
max_int left right = if ltb_ℤ right left then left else right
