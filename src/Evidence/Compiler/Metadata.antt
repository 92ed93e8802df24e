-- ===== src/Evidence/Compiler/Metadata.antt =====
-- `prunePacketMetadata`, `canOmitKind`, `pruneWhy` and `languageIsImpliedByPath` of
-- internal/evidence/compiler.go.
use focal_span.Prelude.{
  String, Bool, true, false, not, ◌&&◌, ◌||◌, List, [], ◌∷◌, Option, none, some, keep, str_eq,
  if◌then◌else◌,
}
use focal_span.Prelude.Text.{ext}
use focal_span.Evidence.Model.{Role, Fidelity, Item, Packet}
use focal_span.Evidence.Validate.{blank, is_nil}
use focal_span.Evidence.Guidance.{has, is_anchor_role}
use focal_span.Evidence.Runtime.{TextTables}

-- the switch of `canOmitKind`
droppable_role : Role → Bool
droppable_role Role.caller = true
droppable_role Role.callee = true
droppable_role Role.test = true
droppable_role Role.import_role = true
droppable_role Role.export_role = true
droppable_role Role.reference = true
droppable_role Role.dependent = true
droppable_role Role.context = true
droppable_role Role.documentation = true
droppable_role Role.config = true
droppable_role Role.template = true
droppable_role _ = false

abbrev is_outline : Fidelity → Bool
is_outline Fidelity.signature = true
is_outline Fidelity.synthetic = true
is_outline _ = false

unfoldable pub can_omit_kind : Item → Bool
unfolding droppable_role
can_omit_kind item =
    not (blank item.kind || is_anchor_role item.role || blank item.symbol)
    && not (is_outline item.fidelity)
    && not (blank item.source && is_nil item.segments)
    && droppable_role item.role

-- the values that `pruneWhy` keeps
keeps_why : Item → String → Bool
keeps_why item value =
    not (str_eq value "path_match" || str_eq value "lexical_match" || str_eq value "same_file")
    && not (
        is_anchor_role item.role
        && not (blank item.symbol)
        && (str_eq value "exact_symbol" || str_eq value "qualified_symbol"))

unfoldable pub prune_why : Item → List String
unfolding keeps_why
prune_why item = keep (keeps_why item) item.why

-- the map `byExtension`
by_extension : String → Option String
by_extension e =
    if str_eq e ".go"
    then some "go"
    else if str_eq e ".rs"
    then some "rust"
    else if str_eq e ".py" || str_eq e ".pyi"
    then some "python"
    else if str_eq e ".cs"
    then some "csharp"
    else if str_eq e ".java"
    then some "java"
    else if str_eq e ".js" || str_eq e ".jsx"
    then some "javascript"
    else if str_eq e ".ts" || str_eq e ".tsx"
    then some "typescript"
    else none

module _ (t : TextTables) where
  open t use {to_lower, equal_fold}

  agrees : String → Option String → Bool
  agrees language none = false
  agrees language (some want) = equal_fold language want

  unfoldable pub language_is_implied_by_path : String → String → Bool
  unfolding by_extension agrees
  language_is_implied_by_path filename language =
      not (blank language) && agrees language (by_extension (to_lower (ext filename)))

  -- `anchorLanguages`
  unfoldable pub anchor_languages : List Item → List String
  anchor_languages [] = []
  anchor_languages (item ∷ rest) =
      let later = anchor_languages rest in
      if is_anchor_role item.role && not (blank item.language)
      then to_lower item.language ∷ later
      else later

  -- an item whose language its path implies loses it
  without_implied : Item → Item
  without_implied item =
      if language_is_implied_by_path item.location.path item.language
      then record item { language = "" }
      else item

  without_kind : Item → Item
  without_kind item = if can_omit_kind item then record item { kind = "" } else item

  -- The body of the loop, with `explicitLanguages`, which begins as the anchors' languages and only
  -- grows, so that it answers for `anchorLanguages` too. It gives the item and the languages after it.
  unfoldable pub prune_item : List String → Item → Item × List String
  unfolding without_implied without_kind
  prune_item languages item =
      let implied = without_implied item in
      let language = to_lower implied.language in
      let weighs = not (blank implied.language) && not (is_anchor_role implied.role) in
      let repeated = weighs && has languages language in
      let spoken = if repeated then record implied { language = "" } else implied in
      let kindless = without_kind spoken in
      (
        record kindless { why = prune_why kindless },
        if weighs && not repeated then language ∷ languages else languages,
      )

  unfoldable pub prune_items : List String → List Item → List Item
  prune_items languages [] = []
  prune_items languages (item ∷ rest) =
      let (item', languages') = prune_item languages item in item' ∷ prune_items languages' rest

  unfoldable pub prune_packet_metadata : Packet → Packet
  prune_packet_metadata packet = record packet {
    evidence = prune_items (anchor_languages packet.evidence) packet.evidence;
  }
