-- ===== src/Evidence/Validate/WellFormed/Loops.antt =====
-- What the loops over the evidence and over the relations check, without their maps of what was seen.
use focal_span.Prelude.{
  ℕ, ◌+◌, ◌≡◌, ◌≢◌, ◌↔◌, refl, String, Bool, true, false, ◌||◌, List, [], ◌∷◌, map, any, All, none,
  arith, eq_iff, str_eq,
}
use focal_span.Evidence.Model.{Item, Edge, local_id}
use focal_span.Evidence.Validate.{
  valid_certainty, validate_item, validate_evidence, validate_relations, edge_eq,
}
use focal_span.Evidence.Validate.WellFormed.Parts.{IsItem, validate_item_iff}

-- The IDs are `local_id (i + 1)`, `local_id (i + 2)`, … in order.
abbrev pub HasIdsFrom : ℕ → List Item → Type 0
HasIdsFrom i [] = Unit
HasIdsFrom i (item ∷ rest) = (item.id ≡ local_id (i + 1)) × HasIdsFrom (i + 1) rest

abbrev pub IsNamed : Item → Type 0
IsNamed item = item.handle ≢ ""

-- No text occurs twice.
abbrev pub Distinct : List String → Type 0
Distinct [] = Unit
Distinct (x ∷ xs) = All (λ y. y ≢ x) xs × Distinct xs

-- None of the handles is among those seen.
abbrev pub Fresh : List String → List Item → Type 0
Fresh seen items = All (λ (i : Item). any (str_eq i.handle) seen ≡ false) items

abbrev pub handles_of : List Item → List String
handles_of items = map (λ (i : Item). i.handle) items

Fresh-split :
    (h : String) (seen : List String) (items : List Item)
    → Fresh (h ∷ seen) items
    → Fresh seen items × All (λ y. y ≢ h) (handles_of items)
Fresh-split h seen [] f = (tt, tt)
Fresh-split h seen (i ∷ is) f =
    let (rest, others) = Fresh-split h seen is f.1 in
    ((ground arith, rest), ((λ e. ground (arith, eq_iff i.handle h)), others))

Fresh-join :
    (h : String) (seen : List String) (items : List Item)
    → Fresh seen items
    → All (λ y. y ≢ h) (handles_of items)
    → Fresh (h ∷ seen) items
Fresh-join h seen [] f o = tt
Fresh-join h seen (i ∷ is) f o = (ground (arith, eq_iff i.handle h), Fresh-join h seen is f.1 o.1)

pub none-Fresh : (items : List Item) → Fresh [] items
none-Fresh [] = tt
none-Fresh (i ∷ is) = (refl, none-Fresh is)

abbrev EvidenceFits : ℕ → List String → List Item → Type 0
EvidenceFits i seen items =
    HasIdsFrom i items
    × All IsNamed items
    × Fresh seen items
    × Distinct (handles_of items)
    × All IsItem items

evidence_step :
    (i : ℕ) (seen : List String) (item : Item) (rest : List Item)
    → (validate_evidence i seen (item ∷ rest) ≡ none) ↔ (
        (item.id ≡ local_id (i + 1))
        × (item.handle ≢ "")
        × (any (str_eq item.handle) seen ≡ false)
        × (validate_item item ≡ none)
        × (validate_evidence (i + 1) (item.handle ∷ seen) rest ≡ none))
unfolding validate_evidence
evidence_step i seen item rest = (
  λ h. ground (arith, eq_iff item.id (local_id (i + 1)), eq_iff item.handle ""),
  λ h. ground (arith, eq_iff item.id (local_id (i + 1)), eq_iff item.handle ""),
)

pub validate_evidence_iff :
    (i : ℕ) (seen : List String) (items : List Item)
    → (validate_evidence i seen items ≡ none) ↔ EvidenceFits i seen items
validate_evidence_iff i seen [] = (λ h. (tt, tt, tt, tt, tt), λ h. unfold validate_evidence in refl)
validate_evidence_iff i seen (item ∷ rest) =
    let step = evidence_step i seen item rest in
    let later = validate_evidence_iff (i + 1) (item.handle ∷ seen) rest in
    (
      λ h.
          let (id, named, fresh, valid, more) = step.0 h in
          let (ids, names, freshes, distinct, items) = later.0 more in
          let (old, others) = Fresh-split item.handle seen rest freshes in
          (
            (id, ids),
            (named, names),
            (fresh, old),
            (others, distinct),
            ((validate_item_iff item).0 valid, items),
          ),
      λ (ids, names, freshes, distinct, items). step.1 (
        ids.0,
        names.0,
        freshes.0,
        (validate_item_iff item).1 items.0,
        later.1 (
          ids.1,
          names.1,
          Fresh-join item.handle seen rest freshes.1 distinct.0,
          distinct.1,
          items.1,
        ),
      ),
    )

-- A relation joins two IDs, and has a kind and a known certainty; only kind "self" joins one to itself.
pub record IsEdge (ids : List String) (e : Edge) : Type 0 where
  pub from : any (str_eq e.from) ids ≡ true
  pub to : any (str_eq e.to) ids ≡ true
  pub self : e.from ≡ e.to → e.kind ≡ "self"
  pub kind : e.kind ≢ ""
  pub certainty : valid_certainty e.certainty ≡ true

-- No relation occurs twice.
abbrev pub DistinctEdges : List Edge → Type 0
DistinctEdges [] = Unit
DistinctEdges (x ∷ xs) = All (λ y. edge_eq y x ≡ false) xs × DistinctEdges xs

abbrev pub FreshEdge : List Edge → List Edge → Type 0
FreshEdge seen edges = All (λ (e : Edge). any (edge_eq e) seen ≡ false) edges

FreshEdge-split :
    (h : Edge) (seen edges : List Edge)
    → FreshEdge (h ∷ seen) edges
    → FreshEdge seen edges × All (λ y. edge_eq y h ≡ false) edges
FreshEdge-split h seen [] f = (tt, tt)
FreshEdge-split h seen (e ∷ es) f =
    let (rest, others) = FreshEdge-split h seen es f.1 in
    let (a, b) = neither (edge_eq e h) (any (edge_eq e) seen) f.0 in ((b, rest), (a, others))
  where
    neither : (a b : Bool) → (a || b) ≡ false → (a ≡ false) × (b ≡ false)
    neither a b h = ground arith

FreshEdge-join :
    (h : Edge) (seen edges : List Edge)
    → FreshEdge seen edges
    → All (λ y. edge_eq y h ≡ false) edges
    → FreshEdge (h ∷ seen) edges
FreshEdge-join h seen [] f o = tt
FreshEdge-join h seen (e ∷ es) f o =
    (joined (edge_eq e h) (any (edge_eq e) seen) o.0 f.0, FreshEdge-join h seen es f.1 o.1)
  where
    joined : (a b : Bool) → a ≡ false → b ≡ false → (a || b) ≡ false
    joined a b h k = ground arith

pub none-FreshEdge : (edges : List Edge) → FreshEdge [] edges
none-FreshEdge [] = tt
none-FreshEdge (e ∷ es) = (refl, none-FreshEdge es)

relations_step :
    (ids : List String) (seen : List Edge) (e : Edge) (rest : List Edge)
    → (validate_relations ids seen (e ∷ rest) ≡ none) ↔ (
        IsEdge ids e
        × (any (edge_eq e) seen ≡ false)
        × (validate_relations ids (e ∷ seen) rest ≡ none))
unfolding validate_relations
relations_step ids seen e rest = (
  λ h. ground (arith, eq_iff e.from e.to, eq_iff e.kind "self", eq_iff e.kind ""),
  λ h. ground (arith, eq_iff e.from e.to, eq_iff e.kind "self", eq_iff e.kind ""),
)

pub validate_relations_iff :
    (ids : List String) (seen edges : List Edge)
    → (validate_relations ids seen edges ≡ none)
      ↔ (All (IsEdge ids) edges × FreshEdge seen edges × DistinctEdges edges)
validate_relations_iff ids seen [] = (λ h. (tt, tt, tt), λ h. unfold validate_relations in refl)
validate_relations_iff ids seen (e ∷ rest) =
    let step = relations_step ids seen e rest in
    let later = validate_relations_iff ids (e ∷ seen) rest in
    (
      λ h.
          let (edge, fresh, more) = step.0 h in
          let (edges, freshes, distinct) = later.0 more in
          let (old, others) = FreshEdge-split e seen rest freshes in
          ((edge, edges), (fresh, old), (others, distinct)),
      λ (edges, freshes, distinct). step.1 (
        edges.0,
        freshes.0,
        later.1 (edges.1, FreshEdge-join e seen rest freshes.1 distinct.0, distinct.1),
      ),
    )
