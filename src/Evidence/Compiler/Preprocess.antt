-- ===== src/Evidence/Compiler/Preprocess.antt =====
-- `preprocess`, `lineIdentity` and `strongerCompilerProvenance` of internal/evidence/compiler.go.
use focal_span.Prelude.{
  ℕ, suc, pos, ltb_ℤ, String, Bool, true, false, not, ◌&&◌, ◌||◌, List, [], ◌∷◌, ◌++◌, Option, none,
  some, map, any, str_eq, str_lt, if◌then◌else◌,
}
use focal_span.Prelude.Text.{codes, concat, has_prefix, to_slashes, trim_space}
use focal_span.Evidence.Model.{Mode}
use focal_span.Evidence.Candidate.{
  Plan, RelationContext, RankedCandidate, ClassifiedCandidate, PreparedCandidate, direction_text,
}
use focal_span.Evidence.Validate.{blank, is_nil, is_clean}
use focal_span.Evidence.Variants.{build_variants}
use focal_span.Evidence.Wire.{Encoder, int_text}
use focal_span.Evidence.Guidance.{has}
use focal_span.Evidence.Handles.{stable_handle}
use focal_span.Evidence.Runtime.{Floats, TextTables}
use focal_span.Evidence.Roles.Classify.{classify, sort_for_presentation}
use focal_span.Evidence.Compiler.Build.{CompileRequest, is_related}

module _ {F : Type 0} where
  unfoldable pub line_identity : RankedCandidate F → String
  line_identity c =
      concat c.path
        (concat "\0" (concat (int_text c.start_line) (concat "\0" (int_text c.end_line))))

  abbrev pub hash_key : RankedCandidate F → String
  hash_key c = concat c.path (concat "\0" c.content_hash)

-- the key of the last comparison of two contexts
provenance_key : {F : Type 0} → RelationContext F → String
provenance_key c = concat c.kind (
    concat "\0" (
      concat (direction_text c.direction)
        (concat "\0" (concat c.anchor_handle (concat "\0" c.source)))))

module _ (fl : Floats) where
  open fl use {F, lt, eq}

  stronger_context : RelationContext F → RelationContext F → Bool
  unfolding provenance_key
  stronger_context left right =
      let left_direct = not (is_related left.direction) in
      let right_direct = not (is_related right.direction) in
      if (left.resolved && not right.resolved) || (not left.resolved && right.resolved)
      then left.resolved
      else if not (eq left.confidence right.confidence)
      then lt right.confidence left.confidence
      else if (left_direct && not right_direct) || (not left_direct && right_direct)
      then left_direct
      else str_lt (provenance_key left) (provenance_key right)

  unfoldable pub stronger_compiler_provenance :
      Option (RelationContext F) → Option (RelationContext F) → Bool
  unfolding stronger_context
  stronger_compiler_provenance none right = false
  stronger_compiler_provenance (some left) none = true
  stronger_compiler_provenance (some left) (some right) = stronger_context left right

  module _ (t : TextTables) where
    -- the first loop: a handle where there is none, and slashes in the path
    unfoldable pub with_handle : RankedCandidate F → RankedCandidate F
    with_handle c =
        let named =
          if blank c.handle && not (blank c.path)
          then record c {
            handle =
                stable_handle t "evidence"
                  (c.path ∷ c.kind ∷ c.symbol ∷ c.content_hash ∷ line_identity c ∷ []);
          }
          else c in
        record named { path = to_slashes c.path }

  -- a stronger candidate takes the place of the one with its handle
  unfoldable pub replace_handle :
      RankedCandidate F → List (RankedCandidate F) → List (RankedCandidate F)
  replace_handle c [] = []
  replace_handle c (d ∷ ds) =
      let later = replace_handle c ds in
      if str_eq d.handle c.handle
      then (if stronger_compiler_provenance c.relation_context d.relation_context then c else d)
        ∷ ds
      else d ∷ later

  -- the second loop: `normalized` and `preDuplicates`
  unfoldable pub normalize_onto :
      List (RankedCandidate F) → ℕ → List (RankedCandidate F) → List (RankedCandidate F) × ℕ
  unfolding replace_handle
  normalize_onto normalized duplicates [] = (normalized, duplicates)
  normalize_onto normalized duplicates (c ∷ rest) =
      let exists =
        not (blank c.handle)
        && any (λ (d : RankedCandidate F). str_eq d.handle c.handle) normalized in
      normalize_onto (if exists then replace_handle c normalized else normalized ++ c ∷ [])
        (if exists then suc duplicates else duplicates) rest

  -- what the third loop passes over without a count
  unfoldable pub unusable : RankedCandidate F → Bool
  unusable c =
      blank c.handle
      || blank c.path
      || has_prefix (codes "/") (codes c.path)
      || not (is_clean c.path)
      || ltb_ℤ c.start_line (pos 1)
      || ltb_ℤ c.end_line c.start_line

  -- the variables of the third loop
  pub record Seen : Type 0 where
    pub handles : List String
    pub hashes : List String
    pub spans : List String
    pub prepared : List (PreparedCandidate F)
    pub duplicates : ℕ
    pub skipped : ℕ

  module _ (e : Encoder) (t : TextTables) (plan : Plan) (mode : Mode) (known : List String) where
    -- the body of the third loop
    unfoldable pub prepare_one : ClassifiedCandidate F → Seen → Seen
    prepare_one c s =
        let v = c.candidate in
        let met = record s { handles = v.handle ∷ s.handles } in
        let hashed = not (blank v.content_hash) in
        let spanned = record met {
          spans = line_identity v ∷ s.spans;
          hashes = if hashed then hash_key v ∷ s.hashes else s.hashes;
        } in
        let variants = build_variants e t c plan mode in
        if unusable v
        then s
        else if has s.handles v.handle
        then record s { duplicates = suc s.duplicates }
        else if hashed && has s.hashes (hash_key v)
        then record met { duplicates = suc s.duplicates }
        else if has s.spans (line_identity v)
        then record met { duplicates = suc s.duplicates }
        else if has known v.handle
        then record spanned { skipped = suc s.skipped }
        else if is_nil variants
        then spanned
        else record spanned {
          prepared = s.prepared ++ record { classified = c; variants = variants } ∷ [];
        }

    unfoldable pub prepare_all : List (ClassifiedCandidate F) → Seen → Seen
    prepare_all [] s = s
    prepare_all (c ∷ rest) s = prepare_all rest (prepare_one c s)

  -- `known`
  abbrev pub known_set : CompileRequest F → List String
  known_set req = map trim_space req.known_handles

  -- the third result is `duplicates`, the fourth `skipped`
  unfoldable pub preprocess : Encoder → TextTables → CompileRequest F → Mode → Seen
  preprocess e t req mode =
      let (normalized, duplicates) = normalize_onto [] 0 (map (with_handle t) req.candidates) in
      prepare_all e t req.plan mode (known_set req)
        (sort_for_presentation fl req.plan (classify fl t req.plan normalized))
        (record {
          handles = [];
          hashes = [];
          spans = [];
          prepared = [];
          duplicates = duplicates;
          skipped = 0;
        })
