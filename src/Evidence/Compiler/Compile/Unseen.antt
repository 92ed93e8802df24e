-- ===== src/Evidence/Compiler/Compile/Unseen.antt =====
-- The handles that the client knows are not prepared again.
use focal_span.Prelude.{
  ◌≡◌, String, Bool, false, not, ◌&&◌, ◌||◌, List, [], ◌∷◌, ◌++◌, map, All, All-append, arith,
  Bool-cases, inl, inr, if◌then◌else◌,
}
use focal_span.Evidence.Model.{Mode}
use focal_span.Evidence.Candidate.{ClassifiedCandidate, PreparedCandidate, Plan}
use focal_span.Evidence.Validate.{is_nil, blank}
use focal_span.Evidence.Wire.{Encoder}
use focal_span.Evidence.Variants.{build_variants}
use focal_span.Evidence.Guidance.{has}
use focal_span.Evidence.Runtime.{Floats, TextTables}
use focal_span.Evidence.Roles.Classify.{classify, sort_for_presentation}
use focal_span.Evidence.Compiler.Build.{CompileRequest}
use focal_span.Evidence.Compiler.Select.{handle_of}
use focal_span.Evidence.Compiler.Preprocess.{
  Seen, line_identity, hash_key, unusable, prepare_one, prepare_all, known_set, preprocess,
  with_handle, normalize_onto,
}

module _ (fl : Floats) where
  open fl use {F}

  module _ (known : List String) where
    abbrev Unknown : PreparedCandidate F → Type 0
    Unknown p = has known (handle_of p) ≡ false

    abbrev skips : Encoder → TextTables → Plan → Mode → ClassifiedCandidate F → Seen fl → Bool
    skips e t plan mode c s =
        let v = c.candidate in
        let hashed = not (blank v.content_hash) in
        unusable fl v
        || has s.handles v.handle
        || (hashed && has s.hashes (hash_key v))
        || has s.spans (line_identity v)
        || has known v.handle
        || is_nil (build_variants e t c plan mode)

    prepare_one-prepared :
        (e : Encoder) (t : TextTables) (plan : Plan) (mode : Mode) (c : ClassifiedCandidate F)
        (s : Seen fl)
        → (prepare_one fl e t plan mode known c s).prepared ≡ (
            if skips e t plan mode c s
            then s.prepared
            else s.prepared
              ++ record { classified = c; variants = build_variants e t c plan mode } ∷ [])
    unfolding prepare_one
    prepare_one-prepared e t plan mode c s = ground arith

    skips-known :
        (e : Encoder) (t : TextTables) (plan : Plan) (mode : Mode) (c : ClassifiedCandidate F)
        (s : Seen fl)
        → skips e t plan mode c s ≡ false
        → has known c.candidate.handle ≡ false
    skips-known e t plan mode c s h = ground arith

    prepare_one-Unknown :
        (e : Encoder) (t : TextTables) (plan : Plan) (mode : Mode) (c : ClassifiedCandidate F)
        (s : Seen fl)
        → All Unknown s.prepared
        → All Unknown (prepare_one fl e t plan mode known c s).prepared
    prepare_one-Unknown e t plan mode c s h =
        rw (prepare_one-prepared e t plan mode c s) (elim (Bool-cases (skips e t plan mode c s)) [
          | inl skip ↦ rw skip h
          | inr take_it ↦ rw take_it (
              All-append Unknown s.prepared
                (record { classified = c; variants = build_variants e t c plan mode } ∷ []) h
                (skips-known e t plan mode c s take_it, tt))
        ])

    prepare_all-Unknown :
        (e : Encoder) (t : TextTables) (plan : Plan) (mode : Mode)
        (cs : List (ClassifiedCandidate F)) (s : Seen fl)
        → All Unknown s.prepared
        → All Unknown (prepare_all fl e t plan mode known cs s).prepared
    unfolding prepare_all
    prepare_all-Unknown e t plan mode [] s h = h
    prepare_all-Unknown e t plan mode (c ∷ cs) s h =
        prepare_all-Unknown e t plan mode cs (prepare_one fl e t plan mode known c s)
          (prepare_one-Unknown e t plan mode c s h)

  -- `preprocess` prepares no candidate whose handle the client already has.
  pub preprocess-Unknown :
      (e : Encoder) (t : TextTables) (req : CompileRequest F) (mode : Mode)
      → All
          (λ p. has (known_set fl req) (handle_of p) ≡ false)
          (preprocess fl e t req mode).prepared
  unfolding preprocess
  preprocess-Unknown e t req mode =
      prepare_all-Unknown (known_set fl req) e t req.plan mode
        (sort_for_presentation fl req.plan (
          classify fl t req.plan
            (normalize_onto fl [] 0 (map (with_handle fl t) req.candidates)).0))
        _ tt
