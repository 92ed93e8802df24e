-- ===== src/Evidence/Validate/WellFormed.antt =====
-- What `Validate` accepts, described without its order of checks or its loops.
pub mod Parts
pub mod Loops
use focal_span.Prelude.{
  ℕ, ◌+◌, ◌≤◌, ◌≡◌, ◌↔◌, refl, ℤ, pos, pos_part, neg_part, ltb_ℤ, ◌≤ℤ◌, Bool, true, false, ◌||◌,
  List, [], ◌∷◌, map, none, String, any, All, length, ltb, arith, eq_iff, if◌then◌else◌, not,
  str_eq, Option,
}
use focal_span.Evidence.Model.{Item, Edge, Packet, schema_context_v1}
use focal_span.Evidence.Validate.{
  Violation, valid_mode, validate_evidence, validate_relations, validate, reject_if, ◌then_check◌,
  invalid_schema, unsupported_mode, invalid_budget, negative_skipped_known, too_many_limitations,
  too_many_next,
}
use Parts.{IsItem}
use Loops.{
  HasIdsFrom, Distinct, IsNamed, IsEdge, DistinctEdges, Fresh, FreshEdge, validate_evidence_iff,
  validate_relations_iff, none-Fresh, none-FreshEdge,
}

-- A packet that a client may rely on.
pub record IsWellFormed (p : Packet) : Type 0 where
  pub schema : p.schema ≡ schema_context_v1
  pub mode : valid_mode p.mode ≡ true
  pub limit : pos 0 ≤ℤ p.budget.limit
  pub used : pos 0 ≤ℤ p.budget.used
  pub within : p.budget.used ≤ℤ p.budget.limit
  pub omitted : pos 0 ≤ℤ p.budget.omitted
  pub skipped : pos 0 ≤ℤ p.skipped_known
  pub limitations : length p.limitations ≤ 8
  pub next : length p.next ≤ 4
  pub ids : HasIdsFrom 0 p.evidence
  pub named : All IsNamed p.evidence
  pub handles : Distinct (map (λ (i : Item). i.handle) p.evidence)
  pub items : All IsItem p.evidence
  pub edges : All (IsEdge (map (λ (i : Item). i.id) p.evidence)) p.relations
  pub distinct : DistinctEdges p.relations

-- the checks before the loops
head_checks : Packet → Option Violation
head_checks packet =
    reject_if (not (str_eq packet.schema schema_context_v1)) invalid_schema
    then_check reject_if (not (valid_mode packet.mode)) unsupported_mode
    then_check reject_if
        (ltb_ℤ packet.budget.limit (pos 0)
          || ltb_ℤ packet.budget.used (pos 0)
          || ltb_ℤ packet.budget.limit packet.budget.used
          || ltb_ℤ packet.budget.omitted (pos 0))
        invalid_budget
    then_check reject_if (ltb_ℤ packet.skipped_known (pos 0)) negative_skipped_known
    then_check reject_if (ltb 8 (length packet.limitations)) too_many_limitations
    then_check reject_if (ltb 4 (length packet.next)) too_many_next

abbrev ids_of : Packet → List String
ids_of p = map (λ (i : Item). i.id) p.evidence

abbrev HeadFits : Packet → Type 0
HeadFits p =
    (p.schema ≡ schema_context_v1)
    × (valid_mode p.mode ≡ true)
    × (pos 0 ≤ℤ p.budget.limit)
    × (pos 0 ≤ℤ p.budget.used)
    × (p.budget.used ≤ℤ p.budget.limit)
    × (pos 0 ≤ℤ p.budget.omitted)
    × (pos 0 ≤ℤ p.skipped_known)
    × (length p.limitations ≤ 8)
    × (length p.next ≤ 4)

head_checks_iff : (p : Packet) → (head_checks p ≡ none) ↔ HeadFits p
unfolding head_checks
head_checks_iff p = (
  λ h. ground (arith, eq_iff p.schema schema_context_v1),
  λ h. ground (arith, eq_iff p.schema schema_context_v1),
)

validate-split :
    (p : Packet)
    → (validate p ≡ none) ↔ (
        (head_checks p ≡ none)
        × (validate_evidence 0 [] p.evidence ≡ none)
        × (validate_relations (ids_of p) [] p.relations ≡ none))
unfolding validate head_checks
validate-split p = (λ h. ground arith, λ h. ground arith)

-- `Validate` returns no error exactly for the well-formed packets: the schema, the mode and the
-- counts fit, the usage is within the limit, the IDs are e1, e2, … in order, the handles are
-- distinct and not blank, every item has the one payload of its fidelity and a normalized relative
-- path, and every relation joins two local IDs and occurs once.
pub validate_iff : (p : Packet) → (validate p ≡ none) ↔ IsWellFormed p
validate_iff p = (
  λ h.
      let (head, evidence, relations) = (validate-split p).0 h in
      let f = (head_checks_iff p).0 head in
      let e = (validate_evidence_iff 0 [] p.evidence).0 evidence in
      let r = (validate_relations_iff (ids_of p) [] p.relations).0 relations in
      record {
        schema = f.0;
        mode = f.1;
        limit = f.2;
        used = f.3;
        within = f.4;
        omitted = f.5;
        skipped = f.6;
        limitations = f.7;
        next = f.8;
        ids = e.0;
        named = e.1;
        handles = e.3;
        items = e.4;
        edges = r.0;
        distinct = r.2;
      },
  λ w. (validate-split p).1 (
    (head_checks_iff p).1
        (w.schema, w.mode, w.limit, w.used, w.within, w.omitted, w.skipped, w.limitations, w.next),
    (validate_evidence_iff 0 [] p.evidence).1
        (w.ids, w.named, none-Fresh p.evidence, w.handles, w.items),
    (validate_relations_iff (ids_of p) [] p.relations).1
        (w.edges, none-FreshEdge p.relations, w.distinct),
  ),
)
