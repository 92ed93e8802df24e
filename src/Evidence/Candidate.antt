-- ===== src/Evidence/Candidate.antt =====
-- What the evidence compiler is given: the plan, the ranked candidates of internal/model/model.go,
-- their classification (`ClassifiedCandidate` of internal/evidence/roles.go) and the content variants
-- of internal/evidence/fidelity.go. `F` stands for Go's float64.
use focal_span.Prelude.{ℕ, ℤ, String, Bool, List, Option}
use focal_span.Evidence.Model.{Role, Fidelity, Certainty, Segment}

pub data Intent : Type 0 where
  definition callers callees tests imports exports references impact : Intent
  unknown : String → Intent

abbrev pub intent_text : Intent → String
intent_text Intent.definition = "definition"
intent_text Intent.callers = "callers"
intent_text Intent.callees = "callees"
intent_text Intent.tests = "tests"
intent_text Intent.imports = "imports"
intent_text Intent.exports = "exports"
intent_text Intent.references = "references"
intent_text Intent.impact = "impact"
intent_text (Intent.unknown t) = t

pub record Terms : Type 0 where
  pub words : List String
  pub identifiers : List String
  pub phrases : List String
  pub paths : List String
  pub symbols : List String
  pub unicode_runs : List String

-- the fields of `query.Plan` that this package reads
pub record Plan : Type 0 where
  pub raw_query : String
  pub terms : Terms
  pub primary_intent : Intent
  pub anchors : List String
  pub profile : String

pub data Direction : Type 0 where
  incoming outgoing related : Direction
  unknown : String → Direction

abbrev pub direction_text : Direction → String
direction_text Direction.incoming = "incoming"
direction_text Direction.outgoing = "outgoing"
direction_text Direction.related = "related"
direction_text (Direction.unknown t) = t

pub record RelationContext (F : Type 0) : Type 0 where
  pub anchor_handle : String
  pub kind : String
  pub direction : Direction
  pub confidence : F
  pub source : String
  pub resolved : Bool

pub record ScoreReason (F : Type 0) : Type 0 where
  pub code : String
  pub weight : F
  pub detail : String

pub record RankedCandidate (F : Type 0) : Type 0 where
  pub handle : String
  pub path : String
  pub language : String
  pub kind : String
  pub symbol : String
  pub signature : String
  pub start_line : ℤ
  pub end_line : ℤ
  pub start_byte : ℤ
  pub end_byte : ℤ
  pub content : String
  pub content_hash : String
  pub score : F
  pub retrieval_score : F
  pub confidence : F
  pub reasons : List (ScoreReason F)
  pub estimated_tokens : ℤ
  pub changed : Bool
  pub relation : String
  pub relation_context : Option (RelationContext F)

pub record PresentationKey : Type 0 where
  pub role_priority : ℕ
  pub original_rank : ℕ
  pub path : String
  pub start_line : ℤ
  pub handle : String

pub record ClassifiedCandidate (F : Type 0) : Type 0 where
  pub candidate : RankedCandidate F
  pub original_rank : ℕ
  pub role : Role
  pub certainty : Certainty
  pub why : List String
  pub presentation_key : PresentationKey

pub record ContentVariant : Type 0 where
  pub fidelity : Fidelity
  pub source : String
  pub segments : List Segment
  pub outline : String
  pub signature : String
  pub evidence_tokens : ℤ

pub record PreparedCandidate (F : Type 0) : Type 0 where
  pub classified : ClassifiedCandidate F
  pub variants : List ContentVariant
