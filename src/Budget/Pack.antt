-- ===== src/Budget/Pack.antt =====
-- `Packer.Pack` of internal/budget/budget.go.
use focal_span.Prelude.{
  ℕ, zero, suc, ◌*◌, ◌/◌, ℤ, pos, negsuc, leb_ℤ, ltb_ℤ, String, Bool, true, false, not, ◌&&◌, ◌||◌,
  List, [], ◌∷◌, ◌++◌, Option, none, some, any, length, ltb, leb, ◌==◌, str_eq, if◌then◌else◌,
}
use focal_span.Prelude.Text.{concat}
use focal_span.Evidence.Candidate.{RankedCandidate}
use focal_span.Evidence.Guidance.{drop_last}
use focal_span.Evidence.Validate.{blank, is_nil}
use focal_span.Evidence.Runtime.{Floats, TextTables}
use focal_span.Evidence.Wire.{min_budget, max_budget}
use focal_span.Budget.{PackRequest, ContextItem, ContextBundle, Pricing}
use focal_span.Budget.Words.{
  has_test_intent, is_documentation_candidate, is_exact_reason, has_structural_signal,
  is_test_candidate,
}
use focal_span.Budget.Elide.{elide}

-- the budget, clamped
unfoldable pub pack_budget : ℤ → ℕ
pack_budget (pos n) =
    if ltb n min_budget then min_budget else if ltb max_budget n then max_budget else n
pack_budget (negsuc n) = min_budget

-- The values before the loop. `source` is false in outline mode.
pub record PackPlan (F : Type 0) : Type 0 where
  pub budget : ℕ
  pub source : Bool
  pub top : RankedCandidate F
  pub test_intent : Bool
  pub impact_intent : Bool
  pub has_test : Bool
  pub has_non_documentation : Bool
  pub has_structural : Bool
  pub has_production : Bool

-- The loop's variables; `relations` are the relations that `relationItems` counts, once for each item.
pub record PackState (F : Type 0) : Type 0 where
  pub bundle : ContextBundle F
  pub test_items : ℕ
  pub relations : List String

module _ (fl : Floats) where
  open fl use {F}

  abbrev zero_score : F
  zero_score = fl.of_int (pos 0)

  unfoldable pub pack_plan : TextTables → PackRequest F → RankedCandidate F → PackPlan F
  pack_plan t req top = record {
    budget = pack_budget req.token_budget;
    source = not (str_eq req.mode "outline");
    top = top;
    test_intent = has_test_intent t req.query req.intent_hints;
    impact_intent = any (λ hint. str_eq hint "impact") req.intent_hints;
    has_test = any (is_test_candidate t) req.candidates;
    has_non_documentation =
        any (λ (c : RankedCandidate F). not (is_documentation_candidate c)) req.candidates;
    has_structural = any (λ (c : RankedCandidate F). has_structural_signal c) req.candidates;
    has_production =
        any
          (λ (c : RankedCandidate F).
            not (is_documentation_candidate c) && not (is_test_candidate t c))
          req.candidates;
  }

  unfoldable pub candidate_item : RankedCandidate F → Bool → ContextItem F
  candidate_item c source = record {
    handle = c.handle;
    path = c.path;
    language = c.language;
    kind = c.kind;
    symbol = c.symbol;
    signature = c.signature;
    start_line = c.start_line;
    end_line = c.end_line;
    score = c.score;
    reasons = c.reasons;
    relation = c.relation;
    estimated_tokens = c.estimated_tokens;
    content = if source then c.content else "";
    elided = false;
  }

  -- an item whose relation has one already
  unfoldable pub repeated_item : ContextItem F → ContextItem F
  repeated_item item = record item {
    content = if blank item.signature then "[...elided...]\n" else item.signature;
    elided = true;
  }

  abbrev pub omit : PackState F → PackState F
  omit s = record s {
    bundle = record s.bundle { omitted_count = suc s.bundle.omitted_count; truncated = true };
  }

  module _ (e : Pricing F) where
    -- the text of `json.Marshal`, whose error is not read
    abbrev pub text_or_none : Option String → String
    text_or_none none = ""
    text_or_none (some text) = text

    abbrev with_extra : List (ContextItem F) → Option (ContextItem F) → List (ContextItem F)
    with_extra items none = items
    with_extra items (some item) = if blank item.handle then items else items ++ item ∷ []

    -- `estimateBundle`; the empty item is `none`
    unfoldable pub estimate_bundle : ContextBundle F → Option (ContextItem F) → ℤ
    estimate_bundle bundle extra = e.estimate (
        text_or_none (
          e.marshal
            (record bundle { estimated_tokens = pos 0; items = with_extra bundle.items extra })))

    source_payload : List (ContextItem F) → String
    source_payload [] = ""
    source_payload (item ∷ rest) =
        concat (if blank item.content then item.signature else item.content)
          (concat "\n" (source_payload rest))

    unfoldable pub estimate_source_payload : ContextBundle F → ℤ
    unfolding source_payload
    estimate_source_payload bundle = e.estimate (source_payload bundle.items)

    unfoldable pub low_utility_under_pressure :
        ContextBundle F → ContextItem F → RankedCandidate F → PackPlan F → Bool
    low_utility_under_pressure bundle item c p =
        let top = p.top.score in
        if any is_exact_reason c.reasons
        then false
        else if blank c.relation
            && fl.lt zero_score c.score
            && fl.lt zero_score top
            && fl.lt (fl.mul c.score (fl.of_int (pos 2))) top
        then true
        else if fl.le top zero_score
            || fl.le c.score zero_score
            || fl.le top (fl.mul c.score (fl.of_int (pos 4)))
        then false
        else not (leb_ℤ (estimate_bundle bundle (some item)) (pos (p.budget * 3 / 5)))

    abbrev over_budget : PackPlan F → ContextBundle F → ContextItem F → Bool
    over_budget p bundle item = ltb_ℤ (pos p.budget) (estimate_bundle bundle (some item))

    abbrev elided_item : ContextItem F → String → ContextItem F
    elided_item item content = record item { content = content; elided = true }

    -- the three steps that shorten the content of an item
    unfoldable pub shorten_large :
        PackPlan F → ContextBundle F → ℕ → RankedCandidate F → ContextItem F → ContextItem F
    shorten_large p bundle index c item =
        if p.source
          && not (blank item.content)
          && (over_budget p bundle item
              || (ltb_ℤ (pos (p.budget * 40 / 100)) (e.estimate item.content) && not (index == 0)))
        then elided_item item (elide e.estimate c.content (p.budget / 3))
        else item

    unfoldable pub shorten_again :
        PackPlan F → ContextBundle F → RankedCandidate F → ContextItem F → ContextItem F
    shorten_again p bundle c item =
        if over_budget p bundle item && p.source
        then elided_item item (elide e.estimate c.content (p.budget / 5))
        else item

    unfoldable pub empty_content : PackPlan F → ContextBundle F → ContextItem F → ContextItem F
    empty_content p bundle item =
        if over_budget p bundle item then elided_item item "[...elided...]" else item

    unfoldable pub shorten :
        PackPlan F → ContextBundle F → ℕ → RankedCandidate F → ContextItem F → ContextItem F
    unfolding shorten_large shorten_again empty_content
    shorten p bundle index c item =
        empty_content p bundle (shorten_again p bundle c (shorten_large p bundle index c item))

    -- the last test, and the item put into the bundle
    unfoldable pub append_item : PackPlan F → ContextItem F → PackState F → PackState F
    append_item p item s = if over_budget p s.bundle item then omit s else record s {
      bundle = record s.bundle {
        items = s.bundle.items ++ record item { estimated_tokens = e.estimate item.content } ∷ [];
      };
    }

    -- the item of a candidate whose relation may have one already
    unfoldable pub related_item : PackPlan F → RankedCandidate F → List String → ContextItem F
    unfolding candidate_item repeated_item
    related_item p c relations =
        let item = candidate_item c p.source in
        if not (blank c.relation)
          && any (str_eq c.relation) relations
          && p.source
          && not (blank item.content)
        then repeated_item item
        else item

    abbrev count_relation : RankedCandidate F → PackState F → PackState F
    count_relation c s = record s {
      relations = if blank c.relation then s.relations else c.relation ∷ s.relations;
    }

    -- what follows the tests on the kind of a candidate
    unfoldable pub place : PackPlan F → ℕ → RankedCandidate F → PackState F → PackState F
    unfolding related_item append_item shorten low_utility_under_pressure
    place p index c s =
        let item = related_item p c s.relations in
        let counted = count_relation c s in
        if ltb 0 index
          && not (is_nil s.bundle.items)
          && low_utility_under_pressure s.bundle item c p
        then omit counted
        else append_item p (shorten p s.bundle index c item) counted

    module _ (t : TextTables) where
      -- the tests at the head of the loop's body
      abbrev pub is_unwanted_documentation : PackPlan F → RankedCandidate F → Bool
      is_unwanted_documentation p c = p.has_non_documentation && is_documentation_candidate c

      abbrev pub is_unstructured : PackPlan F → ℕ → RankedCandidate F → Bool
      is_unstructured p index c = p.has_structural && ltb 0 index && not (has_structural_signal c)

      abbrev pub is_unasked_test : PackPlan F → RankedCandidate F → Bool
      is_unasked_test p c =
          not p.test_intent
          && not p.impact_intent
          && p.has_production
          && not (blank c.language)
          && is_test_candidate t c

      -- the body of the loop
      unfoldable pub pack_one : PackPlan F → ℕ → RankedCandidate F → PackState F → PackState F
      unfolding place
      pack_one p index c s =
          if is_unwanted_documentation p c
          then omit s
          else if is_unstructured p index c
          then omit s
          else if p.test_intent && p.has_test
          then (if not (is_test_candidate t c)
              then omit s
              else if leb 2 s.test_items
              then omit s
              else place p index c (record s { test_items = suc s.test_items }))
          else if is_unasked_test p c
          then omit s
          else place p index c s

      unfoldable pub pack_all :
          PackPlan F → ℕ → List (RankedCandidate F) → PackState F → PackState F
      unfolding pack_one
      pack_all p index [] s = s
      pack_all p index (c ∷ rest) s = pack_all p (suc index) rest (pack_one p index c s)

      abbrev pub first_state : PackRequest F → PackState F
      first_state req = record {
        bundle = record {
          query = req.query;
          index_revision = req.index_revision;
          budget_tokens = pack_budget req.token_budget;
          estimated_tokens = pos 0;
          savings = none;
          truncated = false;
          items = [];
          omitted_count = 0;
          diagnostics = [];
        };
        test_items = 0;
        relations = [];
      }

      -- the candidates, and the first of them for the plan
      unfoldable pub packed : PackRequest F → List (RankedCandidate F) → ContextBundle F
      unfolding pack_all pack_plan
      packed req [] = (first_state req).bundle
      packed req (top ∷ rest) =
          (pack_all (pack_plan t req top) 0 (top ∷ rest) (first_state req)).bundle

    -- the last loop, on fuel: the number of items
    unfoldable pub trim_items : ℕ → ℕ → ContextBundle F → ContextBundle F
    trim_items zero budget bundle = bundle
    trim_items (suc fuel) budget bundle =
        let shorter = trim_items fuel budget (record bundle {
          items = drop_last bundle.items;
          omitted_count = suc bundle.omitted_count;
          truncated = true;
        }) in
        if leb_ℤ (estimate_bundle bundle none) (pos budget)
        then bundle
        else if is_nil bundle.items
        then bundle
        else shorter

    unfoldable pub settle : ContextBundle F → ContextBundle F
    settle bundle = record bundle { truncated = bundle.truncated || ltb 0 bundle.omitted_count }

    unfoldable pub pack : TextTables → PackRequest F → ContextBundle F
    unfolding packed trim_items settle estimate_source_payload
    pack t req =
        let whole = settle (packed t req req.candidates) in
        let bundle = trim_items (length whole.items) (pack_budget req.token_budget) whole in
        record bundle { estimated_tokens = estimate_source_payload bundle }
