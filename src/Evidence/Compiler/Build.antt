-- ===== src/Evidence/Compiler/Build.antt =====
-- `buildPacket`, `selectedEdges` and `edgeKind` of internal/evidence/compiler.go.
use focal_span.Prelude.{
  ℤ, pos, eqb_ℤ, ltb_ℤ, String, Bool, true, false, not, ◌&&◌, ◌||◌, List, [], ◌∷◌, Option, none,
  some, map, any, take, ltb, ◌==◌, str_eq, str_lt, if◌then◌else◌,
}
use focal_span.Prelude.Sort.{sort_by}
use focal_span.Evidence.Model.{
  Mode, Item, Edge, Packet, LocalIds, schema_context_v1, certainty_text, lookup_id,
  assign_local_ids,
}
use focal_span.Evidence.Candidate.{
  Plan, Direction, RelationContext, RankedCandidate, PresentationKey, intent_text,
}
use focal_span.Evidence.Validate.{blank, edge_eq}
use focal_span.Evidence.Wire.{Encoder, settled}
use focal_span.Evidence.Runtime.{Floats}
use focal_span.Evidence.Compiler.Utility.{SelectedCandidate, certainty_for}

pub record CompileRequest (F : Type 0) : Type 0 where
  pub plan : Plan
  pub revision : String
  pub token_budget : ℤ
  pub mode : Mode
  pub candidates : List (RankedCandidate F)
  pub known_handles : List String
  pub expansion_anchors : List String

unfoldable pub key_before : PresentationKey → PresentationKey → Bool
key_before left right =
    if not (left.role_priority == right.role_priority)
    then ltb left.role_priority right.role_priority
    else if not (left.original_rank == right.original_rank)
    then ltb left.original_rank right.original_rank
    else if not (str_eq left.path right.path)
    then str_lt left.path right.path
    else if not (eqb_ℤ left.start_line right.start_line)
    then ltb_ℤ left.start_line right.start_line
    else str_lt left.handle right.handle

edge_kind : String → String
edge_kind relation =
    if str_eq relation "callers" || str_eq relation "callees"
    then "calls"
    else if str_eq relation "parent" || str_eq relation "children"
    then "contains"
    else if str_eq relation "tests"
        || str_eq relation "imports"
        || str_eq relation "exports"
        || str_eq relation "references"
    then relation
    else ""

edge_before : Edge → Edge → Bool
edge_before a b =
    if not (str_eq a.from b.from)
    then str_lt a.from b.from
    else if not (str_eq a.to b.to)
    then str_lt a.to b.to
    else if not (str_eq a.kind b.kind)
    then str_lt a.kind b.kind
    else str_lt (certainty_text a.certainty) (certainty_text b.certainty)

abbrev pub is_related : Direction → Bool
is_related Direction.related = true
is_related _ = false

abbrev pub is_incoming : Direction → Bool
is_incoming Direction.incoming = true
is_incoming _ = false

-- `add` of an edge to the list and to the set of those seen
unfoldable pub push_edge : Edge → List Edge → List Edge
push_edge edge edges =
    if not (blank edge.kind) && not (any (edge_eq edge) edges) then edge ∷ edges else edges

module _ (fl : Floats) where
  open fl use {F}

  -- the edge of a candidate with a context, once both ends have their local IDs
  make_edge : RelationContext F → String → String → Edge
  unfolding edge_kind
  make_edge context candidate_id anchor_id = record {
    from = if is_incoming context.direction then candidate_id else anchor_id;
    to = if is_incoming context.direction then anchor_id else candidate_id;
    kind = edge_kind context.kind;
    certainty = certainty_for fl context;
  }

  join_ends : RelationContext F → Option String → Option String → List Edge → List Edge
  unfolding make_edge
  join_ends context (some candidate_id) (some anchor_id) edges =
      if str_eq candidate_id anchor_id
      then edges
      else push_edge (make_edge context candidate_id anchor_id) edges
  join_ends context _ _ edges = edges

  -- the body of the loop; a candidate without a context, or with a related one, has no edge
  edge_of : LocalIds → String → Option (RelationContext F) → List Edge → List Edge
  unfolding join_ends
  edge_of ids handle none edges = edges
  edge_of ids handle (some context) edges =
      if is_related context.direction
      then edges
      else join_ends context (lookup_id handle ids) (lookup_id context.anchor_handle ids) edges

  -- the loop; the edges in reverse, which are sorted afterwards
  unfoldable pub edges_onto : LocalIds → List Edge → List (SelectedCandidate F) → List Edge
  unfolding edge_of
  edges_onto ids edges [] = edges
  edges_onto ids edges (s ∷ rest) =
      let candidate = s.prepared.classified.candidate in
      edges_onto ids (edge_of ids candidate.handle candidate.relation_context edges) rest

  unfoldable pub selected_edges : List (SelectedCandidate F) → LocalIds → List Edge
  unfolding edge_before edges_onto
  selected_edges selected ids = sort_by edge_before (edges_onto ids [] selected)

  abbrev pub selected_before : SelectedCandidate F → SelectedCandidate F → Bool
  selected_before a b =
      key_before a.prepared.classified.presentation_key b.prepared.classified.presentation_key

  -- the item of a selected candidate, before it gets its local ID
  unfoldable pub item_of : SelectedCandidate F → Item
  item_of s =
      let c = s.prepared.classified in
      record {
        id = "";
        handle = c.candidate.handle;
        role = c.role;
        location = record {
          path = c.candidate.path;
          lines = (c.candidate.start_line, c.candidate.end_line);
        };
        language = c.candidate.language;
        kind = c.candidate.kind;
        symbol = c.candidate.symbol;
        signature = s.variant.signature;
        fidelity = s.variant.fidelity;
        why = take 2 c.why;
        source = s.variant.source;
        segments = s.variant.segments;
        outline = s.variant.outline;
      }

  unfoldable pub ordered_selection : List (SelectedCandidate F) → List (SelectedCandidate F)
  unfolding key_before
  ordered_selection selected = sort_by selected_before selected

  unfoldable pub build_packet :
      Encoder → CompileRequest F → Mode → ℤ → List (SelectedCandidate F) → ℤ → ℤ → Packet
  build_packet e req mode limit selected omitted skipped_known =
      let ordered = ordered_selection selected in
      let (items, ids) = assign_local_ids (map item_of ordered) in
      settled e (record {
        schema = schema_context_v1;
        revision = req.revision;
        intent = intent_text req.plan.primary_intent;
        mode = mode;
        budget = record {
          limit = limit;
          used = pos 0;
          truncated = ltb_ℤ (pos 0) omitted;
          omitted = omitted;
        };
        evidence = items;
        relations = selected_edges ordered ids;
        limitations = if ltb_ℤ (pos 0) omitted then "budget_limited" ∷ [] else [];
        next = [];
        skipped_known = skipped_known;
      })
