-- ===== src/Evidence/Variants/Shapes.antt =====
-- `Validate` accepts the payload of every variant that `BuildVariants` gives.
use focal_span.Prelude.{
  ℕ, suc, ◌≤◌, ◌<◌, ◌≡◌, refl, sym, subst, ℤ, pos, ltb_ℤ, ◌≤ℤ◌, ◌+ℤ◌, +ℤ_parts, String, Bool, true,
  false, ◌&&◌, ◌||◌, List, [], ◌∷◌, ◌++◌, any, length, none, All, All-append, arith, Bool-cases,
  inl, inr, eq_iff, if_both, str_eq,
}
use focal_span.Prelude.Text.{trim_space}
use focal_span.Evidence.Model.{Mode, Segment, SegmentKind}
use focal_span.Evidence.Candidate.{Plan, ClassifiedCandidate, ContentVariant}
use focal_span.Evidence.Validate.{
  blank, is_nil, is_source, validate_segment, validate_segments, validate_shape,
}
use focal_span.Evidence.Wire.{Encoder}
use focal_span.Evidence.Runtime.{Floats, TextTables}
use focal_span.Evidence.Segments.{absolute_lines, focused_segments}
use focal_span.Evidence.Segments.Lines.{index_lines}
use focal_span.Evidence.Compiler.Build.{item_of}
use focal_span.Evidence.Segments.Tiles.{Tiles, Shows, focused_segments_lem}
use focal_span.Evidence.Variants.{
  or_text, fallback_signature, signature_of, verbatim_variant, excerpt_variant, signature_variant,
  synthetic_variant, excerpt_of, source_variants, focused_variants, mode_variants, distinct_from,
  variant_key, is_excerpt, remove_duplicate_variants, build_variants, line_count_of,
  compact_verbatim_candidate, is_main_role, has_focused_hits, synthetic_candidate,
}
use focal_span.Evidence.Variants.Filled.{
  no_and, Filled, concat-Filled, lines-Filled, concat-Filled_left, shown-Filled,
}
use focal_span.Evidence.Variants.Selected.{focused_segments-source}

module _ (lines : List String) (first last : ℤ) (full : All Filled lines) (low : pos 1 ≤ℤ first)
    (high : first +ℤ pos (length lines) ≤ℤ last +ℤ pos 1) where
  lines_fit :
      (start stop : ℕ)
      → start ≤ stop
      → stop < length lines
      → (pos 1 ≤ℤ first +ℤ pos start)
        × (first +ℤ pos start ≤ℤ first +ℤ pos stop)
        × (first ≤ℤ first +ℤ pos start)
        × (first +ℤ pos stop ≤ℤ last)
  lines_fit start stop h k = omega (
    arith,
    low,
    high,
    h,
    k,
    +ℤ_parts first (pos start),
    +ℤ_parts first (pos stop),
    +ℤ_parts first (pos (length lines)),
    +ℤ_parts last (pos 1),
  )

  valid_at :
      (kind : SegmentKind) (text : String) (start stop : ℕ)
      → start ≤ stop
      → stop < length lines
      → Shows lines start stop (record { kind = kind; lines = (first, last); text = text })
      → validate_segment
          (record { kind = kind; lines = absolute_lines first start stop; text = text })
          (first, last)
        ≡ none
  unfolding validate_segment
  valid_at SegmentKind.source text start stop h k shows =
      let fits = lines_fit start stop h k in
      let filled = subst Filled (sym shows) (shown-Filled lines start stop h k full) in
      ground (arith, fits, filled)
  valid_at SegmentKind.omitted text start stop h k shows =
      let fits = lines_fit start stop h k in ground (arith, fits, (eq_iff text "").1 shows)
  valid_at (SegmentKind.unknown u) text start stop h k shows = absurd shows

  Tiles-none :
      (found : Bool) (cursor : ℕ) (segments : List Segment)
      → Tiles first lines cursor segments
      → (found || any is_source segments) ≡ true
      → validate_segments found segments (first, last) ≡ none
  unfolding validate_segments
  Tiles-none found cursor [] tiles h = ground (arith, h)
  Tiles-none found cursor (s ∷ rest) tiles h =
      let (stop, ordered, below, placed, shows, others) = tiles in
      let here =
        subst
          (λ l.
            validate_segment (record { kind = s.kind; lines = l; text = s.text }) (first, last)
            ≡ none)
          (sym placed) (valid_at s.kind s.text cursor stop ordered below shows) in
      let later = Tiles-none (found || is_source s) (suc stop) rest others (ground (arith, h)) in
      rw here later

or_text-Filled : (s fallback : String) → Filled fallback → Filled (or_text s fallback)
or_text-Filled s fallback h = elim (Bool-cases (blank s)) [
  | inl empty ↦ rw empty h
  | inr full ↦ rw full full
]

signature-Filled : {F : Type 0} (c : ClassifiedCandidate F) → Filled (signature_of c)
unfolding signature_of fallback_signature
signature-Filled c = or_text-Filled (trim_space c.candidate.signature) _ (
    concat-Filled (or_text (trim_space c.candidate.kind) "source") _
      (concat-Filled_left " " _ (refl)))

module _ (fl : Floats) (e : Encoder) (t : TextTables) (c : ClassifiedCandidate fl.F)
    (plan : Plan) where
  open fl use {F}

  -- the item of a variant has the payload of its fidelity
  abbrev pub IsShown : ContentVariant → Type 0
  IsShown v =
      (vs : List ContentVariant) (u : F)
      → validate_shape v.fidelity (
          item_of fl (record {
            prepared = record { classified = c; variants = vs };
            variant = v;
            utility = u;
          }))
        ≡ none

  verbatim-IsShown : Filled c.candidate.content → IsShown (verbatim_variant e c.candidate)
  unfolding verbatim_variant item_of validate_shape
  verbatim-IsShown h vs u = ground (arith, h)

  synthetic-IsShown : Filled c.candidate.content → IsShown (synthetic_variant e c.candidate)
  unfolding synthetic_variant item_of validate_shape
  synthetic-IsShown h vs u = ground (arith, h)

  excerpt-IsShown :
      pos 1 ≤ℤ c.candidate.start_line
      → c.candidate.start_line +ℤ pos (length (index_lines c.candidate.content))
        ≤ℤ c.candidate.end_line +ℤ pos 1
      → is_nil (focused_segments t c plan) ≡ false
      → IsShown (excerpt_of e t c plan)
  unfolding excerpt_of excerpt_variant item_of validate_shape
  excerpt-IsShown low high some_segments vs u = rw some_segments (
      Tiles-none (index_lines c.candidate.content) c.candidate.start_line c.candidate.end_line
        (lines-Filled c.candidate.content) low high false 0 (focused_segments t c plan)
        (focused_segments_lem t c plan).0 (focused_segments-source t c plan some_segments))

  signature-IsShown : IsShown (signature_variant e c)
  unfolding signature_variant item_of validate_shape
  signature-IsShown vs u = ground (arith, signature-Filled c)

  -- what the removal of duplicates makes of a variant
  abbrev IsKept : ContentVariant → Type 0
  IsKept v = (is_excerpt v.fidelity && is_nil v.segments) ≡ false → IsShown v

  distinct_from-IsShown :
      (seen : List String) (vs : List ContentVariant)
      → All IsKept vs
      → All IsShown (distinct_from seen vs)
  unfolding distinct_from
  distinct_from-IsShown seen [] h = tt
  distinct_from-IsShown seen (v ∷ rest) h =
      elim (Bool-cases (is_excerpt v.fidelity && is_nil v.segments)) [
        | inl empty ↦ rw empty (distinct_from-IsShown seen rest h.1)
        | inr full ↦ rw full (
            if_both (All IsShown) (any (str_eq (variant_key v)) seen) _ _
              (distinct_from-IsShown seen rest h.1)
              (h.0 full, distinct_from-IsShown (variant_key v ∷ seen) rest h.1))
      ]

  module _ (low : pos 1 ≤ℤ c.candidate.start_line)
      (high : c.candidate.start_line +ℤ pos (length (index_lines c.candidate.content))
        ≤ℤ c.candidate.end_line +ℤ pos 1) where
    excerpt-IsKept : IsKept (excerpt_of e t c plan)
    unfolding excerpt_of excerpt_variant
    excerpt-IsKept h = excerpt-IsShown low high h

    source_variants-IsKept : All IsKept (source_variants e t c plan)
    unfolding source_variants
    source_variants-IsKept = elim (Bool-cases (blank c.candidate.content)) [
      | inl empty ↦ rw empty tt
      | inr full ↦ rw full (
          if_both (All IsKept) (ltb_ℤ (pos 1) (line_count_of c.candidate)) _ _
            ((λ h. verbatim-IsShown full), (excerpt-IsKept, tt)) ((λ h. verbatim-IsShown full), tt))
    ]

    focused_variants-IsKept : All IsKept (focused_variants e t c plan)
    unfolding focused_variants
    focused_variants-IsKept = elim (Bool-cases (blank c.candidate.content)) [
      | inl empty ↦
          rw empty (rw (no_and (compact_verbatim_candidate c (line_count_of c.candidate))) tt)
      | inr full ↦ rw full (
          if_both (All IsKept) (compact_verbatim_candidate c (line_count_of c.candidate) && true) _
            _ ((λ h. verbatim-IsShown full), tt)
            (if_both (All IsKept) (is_main_role c.role || has_focused_hits t c plan) _ _
              (excerpt-IsKept, tt) tt))
    ]

    mode_variants-IsKept : (mode : Mode) → All IsKept (mode_variants e t mode c plan)
    unfolding mode_variants
    mode_variants-IsKept Mode.outline = tt
    mode_variants-IsKept Mode.source = source_variants-IsKept
    mode_variants-IsKept Mode.focused = focused_variants-IsKept
    mode_variants-IsKept (Mode.unknown u) = focused_variants-IsKept

    -- Where the content's lines lie within the candidate's, from line 1 on, `Validate` finds no fault with
    -- the payload of an item that shows a variant of `build_variants`, whatever the mode.
    pub build_variants-IsShown : (mode : Mode) → All IsShown (build_variants e t c plan mode)
    unfolding build_variants remove_duplicate_variants
    build_variants-IsShown mode = elim (Bool-cases (blank c.candidate.content)) [
      | inl empty ↦ rw empty (if_both (All IsShown) (synthetic_candidate t c) _ _ tt kept)
      | inr full ↦
          rw full
            (if_both (All IsShown) (synthetic_candidate t c) _ _ (synthetic-IsShown full, tt) kept)
    ]
      where
        kept :
            All IsShown
              (distinct_from [] (mode_variants e t mode c plan ++ signature_variant e c ∷ []))
        kept =
            distinct_from-IsShown [] (mode_variants e t mode c plan ++ signature_variant e c ∷ []) (
              All-append IsKept (mode_variants e t mode c plan) (signature_variant e c ∷ [])
                (mode_variants-IsKept mode) ((λ h. signature-IsShown), tt))
