-- ===== src/Tests/Evidence.antt =====
-- internal/evidence at concrete inputs.
use focal_span.Prelude.{
  ℕ, ◌≡◌, ◌↔◌, refl, ◌≤◌, ℤ, pos, String, Bool, true, false, ◌||◌, List, [], ◌∷◌, Option, none,
  some, length, All, arith,
}
use Prim.Native.String.{count}
use focal_span.Prelude.Sort.{Pairwise}
use focal_span.Prelude.Text.{has_prefix, has_code}
use focal_span.Evidence.Model.{
  Mode, Role, Fidelity, Certainty, Item, NextAction, Packet, schema_context_v1, local_id,
}
use focal_span.Evidence.Validate.{
  validate, validate_evidence, validate_item, validate_location, windows_drive_path, validate_shape,
  validate_relations, duplicate_handle, is_nil,
}
use focal_span.Evidence.Validate.WellFormed.{IsWellFormed, validate_iff}
use focal_span.Evidence.Candidate.{Terms, Intent, Plan, RankedCandidate, ClassifiedCandidate}
use focal_span.Evidence.Wire.{Encoder, set_used, measure_model_visible, settle_wire_usage}
use focal_span.Evidence.Wire.Settle.{settle_wire_usage_lem}
use focal_span.Evidence.Guidance.{
  GuidanceInput, build_guidance, apply_guidance_within_budget, over_limit, last_is, action,
}
use focal_span.Evidence.Guidance.Built.{
  IsAction, OtherKey, build_guidance-bounds, build_guidance-truncated,
}
use focal_span.Evidence.Guidance.Applied.{Shortens, apply_guidance_within_budget_lem}

abbrev no_terms : Terms
no_terms = record {
  words = [];
  identifiers = [];
  phrases = [];
  paths = [];
  symbols = [];
  unicode_runs = [];
}

abbrev item : String → String → Item
item id handle = record {
  id = id;
  handle = handle;
  role = Role.target;
  location = record { path = "internal/a.go"; lines = (pos 3, pos 9) };
  language = "go";
  kind = "function";
  symbol = "A";
  signature = "";
  fidelity = Fidelity.verbatim;
  why = [];
  source = "func A() {}";
  segments = [];
  outline = "";
}

abbrev packet : Packet
packet = record {
  schema = schema_context_v1;
  revision = "r1";
  intent = "definition";
  mode = Mode.focused;
  budget = record { limit = pos 300; used = pos 120; truncated = false; omitted = pos 0 };
  evidence = item "e1" "h1" ∷ item "e2" "h2" ∷ [];
  relations = record { from = "e1"; to = "e2"; kind = "calls"; certainty = Certainty.exact } ∷ [];
  limitations = [];
  next = [];
  skipped_known = pos 0;
}

packet_is_valid : validate packet ≡ none
unfolding validate validate_evidence validate_item validate_location windows_drive_path
    validate_shape validate_relations local_id focal_span.Prelude.Text.clean has_prefix has_code
packet_is_valid = refl

twice_is_refused :
    validate (record packet { evidence = item "e1" "h1" ∷ item "e2" "h1" ∷ [] })
    ≡ some duplicate_handle
unfolding validate validate_evidence validate_item validate_location windows_drive_path
    validate_shape validate_relations local_id focal_span.Prelude.Text.clean has_prefix has_code
twice_is_refused = refl

validate_iff_example : (validate packet ≡ none) ↔ IsWellFormed packet
validate_iff_example = validate_iff packet

packet-IsWellFormed : IsWellFormed packet
packet-IsWellFormed = (validate_iff packet).0 packet_is_valid

-- one token for each character of the revision and of the summary
abbrev encoder : Encoder
encoder = record { marshal = λ p. some p.revision; estimate = λ s. pos (count s) }

settle_wire_usage_lem_example :
    ((settle_wire_usage encoder packet).0
      ≡ set_used packet (settle_wire_usage encoder packet).0.budget.used)
    × ((settle_wire_usage encoder packet).1
        ≡ measure_model_visible encoder (settle_wire_usage encoder packet).0)
    × (measure_model_visible encoder packet ≡ packet.budget.used
        → (settle_wire_usage encoder packet).0 ≡ packet)
settle_wire_usage_lem_example = settle_wire_usage_lem encoder packet

abbrev candidate : String → RankedCandidate ℕ
candidate handle = record {
  handle = handle;
  path = "internal/a.go";
  language = "go";
  kind = "function";
  symbol = "A";
  signature = "func A()";
  start_line = pos 3;
  end_line = pos 9;
  start_byte = pos 20;
  end_byte = pos 90;
  content = "func A() {}";
  content_hash = "";
  score = 0;
  retrieval_score = 0;
  confidence = 0;
  reasons = [];
  estimated_tokens = pos 4;
  changed = false;
  relation = "";
  relation_context = none;
}

abbrev classified : String → ℕ → Role → ClassifiedCandidate ℕ
classified handle rank role = record {
  candidate = candidate handle;
  original_rank = rank;
  role = role;
  certainty = Certainty.unknown "";
  why = [];
  presentation_key = record {
    role_priority = 0;
    original_rank = rank;
    path = "internal/a.go";
    start_line = pos 3;
    handle = handle;
  };
}

abbrev plan : Plan
plan = record {
  raw_query = "A";
  terms = no_terms;
  primary_intent = Intent.callers;
  anchors = [];
  profile = "";
}

abbrev sample_input : GuidanceInput ℕ
sample_input = record {
  plan = plan;
  selected =
      record { candidate = classified "h1" 0 Role.target; fidelity = Fidelity.signature } ∷ [];
  omitted = classified "h2" 1 Role.caller ∷ [];
  known_handles = [];
  expansion_anchors = [];
  truncated = true;
}

build_guidance-bounds_example :
    (length (build_guidance sample_input).0 ≤ 8)
    × (length (build_guidance sample_input).1 ≤ 4)
    × All IsAction (build_guidance sample_input).1
    × Pairwise OtherKey (build_guidance sample_input).1
build_guidance-bounds_example = build_guidance-bounds sample_input

build_guidance-truncated_example :
    (rest : List String) × ((build_guidance sample_input).0 ≡ "budget_limited" ∷ rest)
build_guidance-truncated_example = build_guidance-truncated sample_input refl

abbrev hint : NextAction
hint = action "h1" "callers" "more_callers_omitted"

apply_guidance_within_budget_lem_example :
    let q = apply_guidance_within_budget encoder packet ("budget_limited" ∷ []) (hint ∷ []) in
    Shortens (record packet { limitations = "budget_limited" ∷ []; next = hint ∷ [] }) q
    × (over_limit q ≡ true
        → (is_nil q.next ≡ true)
          × ((is_nil q.limitations || last_is "budget_limited" q.limitations) ≡ true))
apply_guidance_within_budget_lem_example =
    apply_guidance_within_budget_lem encoder packet ("budget_limited" ∷ []) (hint ∷ [])
