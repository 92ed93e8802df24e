-- ===== src/Evidence/Model.antt =====
-- The packet of internal/evidence/model.go. A Go string type with constants is a data type with the
-- constants and `unknown` for any other text; an `int` is an unbounded integer.
use focal_span.Prelude.{
  ℕ, suc, ℤ, String, Bool, List, [], ◌∷◌, Option, none, some, any, str_eq, if◌then◌else◌,
}
use focal_span.Prelude.Text.{concat, itoa}

abbrev pub schema_context_v1 : String
schema_context_v1 = "focalspan.context.v1"

pub data Mode : Type 0 where
  outline focused source : Mode
  unknown : String → Mode

pub data Role : Type 0 where
  target definition declaration implementation caller callee test : Role
  type_role import_role export_role reference config template documentation : Role
  change dependent context : Role
  unknown : String → Role

pub data Fidelity : Type 0 where
  verbatim excerpt signature synthetic : Fidelity
  unknown : String → Fidelity

pub data Certainty : Type 0 where
  exact scoped lexical : Certainty
  unknown : String → Certainty

pub data SegmentKind : Type 0 where
  source omitted : SegmentKind
  unknown : String → SegmentKind

pub record Location : Type 0 where
  pub path : String
  pub lines : ℤ × ℤ

pub record Segment : Type 0 where
  pub kind : SegmentKind
  pub lines : ℤ × ℤ
  pub text : String

pub record Item : Type 0 where
  pub id : String
  pub handle : String
  pub role : Role
  pub location : Location
  pub language : String
  pub kind : String
  pub symbol : String
  pub signature : String
  pub fidelity : Fidelity
  pub why : List String
  pub source : String
  pub segments : List Segment
  pub outline : String

pub record Edge : Type 0 where
  pub from : String
  pub to : String
  pub kind : String
  pub certainty : Certainty

pub record Budget : Type 0 where
  pub limit : ℤ
  pub used : ℤ
  pub truncated : Bool
  pub omitted : ℤ

pub record NextAction : Type 0 where
  pub handle : String
  pub relation : String
  pub reason : String

pub record Packet : Type 0 where
  pub schema : String
  pub revision : String
  pub intent : String
  pub mode : Mode
  pub budget : Budget
  pub evidence : List Item
  pub relations : List Edge
  pub limitations : List String
  pub next : List NextAction
  pub skipped_known : ℤ

-- the text of a certainty, by which Go compares two of them
abbrev pub certainty_text : Certainty → String
certainty_text Certainty.exact = "exact"
certainty_text Certainty.scoped = "scoped"
certainty_text Certainty.lexical = "lexical"
certainty_text (Certainty.unknown t) = t

-- the text of a role
abbrev pub role_text : Role → String
role_text Role.target = "target"
role_text Role.definition = "definition"
role_text Role.declaration = "declaration"
role_text Role.implementation = "implementation"
role_text Role.caller = "caller"
role_text Role.callee = "callee"
role_text Role.test = "test"
role_text Role.type_role = "type"
role_text Role.import_role = "import"
role_text Role.export_role = "export"
role_text Role.reference = "reference"
role_text Role.config = "config"
role_text Role.template = "template"
role_text Role.documentation = "documentation"
role_text Role.change = "change"
role_text Role.dependent = "dependent"
role_text Role.context = "context"
role_text (Role.unknown t) = t

-- `fmt.Sprintf("e%d", i)`
unfoldable pub local_id : ℕ → String
unfolding itoa
local_id i = concat "e" (itoa i)

-- The map that `AssignLocalIDs` fills: the first item with a handle gives its ID.
abbrev pub LocalIds : Type 0
LocalIds = List (String × String)

unfoldable pub lookup_id : String → LocalIds → Option String
lookup_id handle [] = none
lookup_id handle ((h, id) ∷ ids) = if str_eq h handle then some id else lookup_id handle ids

-- the loop over the items, from index `i`: the items with their IDs, and the map
unfoldable pub assign_from : ℕ → LocalIds → List Item → List Item × LocalIds
unfolding lookup_id
assign_from i ids [] = ([], ids)
assign_from i ids (item ∷ rest) =
    let id = local_id (suc i) in
    let known = any (λ (e : String × String). str_eq e.0 item.handle) ids in
    let ids' =
      if str_eq item.handle "" then ids else if known then ids else (item.handle, id) ∷ ids in
    let (items, all) = assign_from (suc i) ids' rest in (record item { id = id } ∷ items, all)

unfoldable pub assign_local_ids : List Item → List Item × LocalIds
unfolding assign_from
assign_local_ids items = assign_from 0 [] items
