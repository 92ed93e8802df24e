-- ===== src/Evidence/Validate/WellFormed/Parts.antt =====
-- What one item must be like, and that the checks of an item say so.
use focal_span.Prelude.{
  ◌≤◌, ◌≡◌, ◌≢◌, ◌↔◌, refl, ℤ, pos, ◌≤ℤ◌, String, Bool, true, false, ◌||◌, List, [], ◌∷◌, any, All,
  length, none, arith, eq_iff,
}
use focal_span.Prelude.Text.{codes, clean, same_codes, has_prefix, has_code}
use focal_span.Evidence.Model.{Fidelity, SegmentKind, Location, Segment, Item}
use focal_span.Evidence.Validate.{
  valid_role, valid_fidelity, windows_drive_path, validate_location, validate_segment,
  validate_segments, validate_shape, validate_item, is_source, ◌then_check◌,
}

abbrev pub IsLines : ℤ × ℤ → Type 0
IsLines lines = (pos 1 ≤ℤ lines.0) × (lines.0 ≤ℤ lines.1)

-- Relative to the repository, with slashes, and as `path.Clean` leaves it.
pub record IsLocation (l : Location) : Type 0 where
  pub path_ne_blank : l.path ≢ ""
  pub relative : has_prefix (codes "/") (codes l.path) ≡ false
  pub no_drive : windows_drive_path (codes l.path) ≡ false
  pub no_backslash : has_code b'\\' (codes l.path) ≡ false
  pub normalized : same_codes (clean (codes l.path)) (codes l.path) ≡ true
  pub path_ne_dot : l.path ≢ "."
  pub inside : has_prefix (codes "../") (codes l.path) ≡ false
  pub lines : IsLines l.lines

abbrev pub IsSegmentText : SegmentKind → String → Type 0
IsSegmentText SegmentKind.source text = text ≢ ""
IsSegmentText SegmentKind.omitted text = text ≡ ""
IsSegmentText (SegmentKind.unknown _) text = ⊥

abbrev pub IsSegment : ℤ × ℤ → Segment → Type 0
IsSegment item_lines s =
    IsLines s.lines
    × (item_lines.0 ≤ℤ s.lines.0)
    × (s.lines.1 ≤ℤ item_lines.1)
    × IsSegmentText s.kind s.text

-- One payload, the one that the fidelity names.
abbrev pub IsShaped : Fidelity → Item → Type 0
IsShaped Fidelity.verbatim i =
    (i.source ≢ "") × (i.segments ≡ []) × (i.outline ≡ "") × (i.signature ≡ "")
IsShaped Fidelity.excerpt i =
    (i.source ≡ "")
    × (i.outline ≡ "")
    × (i.signature ≡ "")
    × All (IsSegment i.location.lines) i.segments
    × (any is_source i.segments ≡ true)
IsShaped Fidelity.signature i =
    (i.signature ≢ "") × (i.source ≡ "") × (i.segments ≡ []) × (i.outline ≡ "")
IsShaped Fidelity.synthetic i =
    (i.outline ≢ "") × (i.source ≡ "") × (i.segments ≡ []) × (i.signature ≡ "")
IsShaped (Fidelity.unknown _) i = ⊥

pub record IsItem (i : Item) : Type 0 where
  pub role : valid_role i.role ≡ true
  pub location : IsLocation i.location
  pub why : length i.why ≤ 4
  pub shape : IsShaped i.fidelity i

validate_location_iff : (l : Location) → (validate_location l ≡ none) ↔ IsLocation l
unfolding validate_location
validate_location_iff l = (
  λ h. ground (arith, eq_iff l.path "", eq_iff l.path "."),
  λ h. ground (arith, eq_iff l.path "", eq_iff l.path "."),
)

validate_segment_iff :
    (lines : ℤ × ℤ) (s : Segment) → (validate_segment s lines ≡ none) ↔ IsSegment lines s
unfolding validate_segment
validate_segment_iff lines s =
    (λ h. ground (arith, eq_iff s.text ""), λ h. ground (arith, eq_iff s.text ""))

validate_segments_iff :
    (b : Bool) (ss : List Segment) (lines : ℤ × ℤ)
    → (validate_segments b ss lines ≡ none)
      ↔ (All (IsSegment lines) ss × ((b || any is_source ss) ≡ true))
unfolding validate_segments
validate_segments_iff b [] lines = (λ h. ground arith, λ h. ground arith)
validate_segments_iff b (s ∷ ss) lines =
    let rest = validate_segments_iff (b || is_source s) ss lines in
    let one = validate_segment_iff lines s in
    (
      λ h.
          let (first, later) = both h in
          let (all, found) = rest.0 later in
          ((one.0 first, all), assoc b (is_source s) (any is_source ss) found),
      λ h. (rw (one.1 h.0.0) (rest.1 (h.0.1, unassoc b (is_source s) (any is_source ss) h.1))),
    )
  where
    both :
        (validate_segment s lines then_check validate_segments (b || is_source s) ss lines) ≡ none
        → (validate_segment s lines ≡ none) × (validate_segments (b || is_source s) ss lines ≡ none)
    both h = ground arith

    assoc : (x y z : Bool) → ((x || y) || z) ≡ true → (x || (y || z)) ≡ true
    assoc x y z h = ground arith

    unassoc : (x y z : Bool) → (x || (y || z)) ≡ true → ((x || y) || z) ≡ true
    unassoc x y z h = ground arith

validate_shape_iff :
    (f : Fidelity) (i : Item) → valid_fidelity f ≡ true → (validate_shape f i ≡ none) ↔ IsShaped f i
unfolding validate_shape
validate_shape_iff Fidelity.verbatim i v = (
  λ h. ground (arith, eq_iff i.source "", eq_iff i.outline "", eq_iff i.signature ""),
  λ h. ground (arith, eq_iff i.source "", eq_iff i.outline "", eq_iff i.signature ""),
)
validate_shape_iff Fidelity.excerpt i v =
    let segments = validate_segments_iff false i.segments i.location.lines in
    (
      λ h.
          ground
            (arith, eq_iff i.source "", eq_iff i.outline "", eq_iff i.signature "", segments.0),
      λ h. ground (
        arith,
        eq_iff i.source "",
        eq_iff i.outline "",
        eq_iff i.signature "",
        segments.1 (h.3, h.4),
      ),
    )
validate_shape_iff Fidelity.signature i v = (
  λ h. ground (arith, eq_iff i.source "", eq_iff i.outline "", eq_iff i.signature ""),
  λ h. ground (arith, eq_iff i.source "", eq_iff i.outline "", eq_iff i.signature ""),
)
validate_shape_iff Fidelity.synthetic i v = (
  λ h. ground (arith, eq_iff i.source "", eq_iff i.outline "", eq_iff i.signature ""),
  λ h. ground (arith, eq_iff i.source "", eq_iff i.outline "", eq_iff i.signature ""),
)
validate_shape_iff (Fidelity.unknown _) i v = (λ h. cc, λ h. cc)

IsShaped-valid : (f : Fidelity) (i : Item) → IsShaped f i → valid_fidelity f ≡ true
IsShaped-valid (Fidelity.unknown _) i h = absurd h
IsShaped-valid Fidelity.verbatim i h = refl
IsShaped-valid _ i h = refl

validate_item-split :
    (i : Item)
    → validate_item i ≡ none
    → (valid_role i.role ≡ true)
      × (valid_fidelity i.fidelity ≡ true)
      × (validate_location i.location ≡ none)
      × (length i.why ≤ 4)
      × (validate_shape i.fidelity i ≡ none)
unfolding validate_item
validate_item-split i h = ground arith

validate_item-join :
    (i : Item)
    → valid_role i.role ≡ true
    → valid_fidelity i.fidelity ≡ true
    → validate_location i.location ≡ none
    → length i.why ≤ 4
    → validate_shape i.fidelity i ≡ none
    → validate_item i ≡ none
unfolding validate_item
validate_item-join i a b c d e = ground arith

pub validate_item_iff : (i : Item) → (validate_item i ≡ none) ↔ IsItem i
validate_item_iff i = (
  λ h.
      let (role, fidelity, location, why, shape) = validate_item-split i h in
      record {
        role = role;
        location = (validate_location_iff i.location).0 location;
        why = why;
        shape = (validate_shape_iff i.fidelity i fidelity).0 shape;
      },
  λ w.
      let fidelity = IsShaped-valid i.fidelity i w.shape in
      validate_item-join i w.role fidelity ((validate_location_iff i.location).1 w.location) w.why
        ((validate_shape_iff i.fidelity i fidelity).1 w.shape),
)
