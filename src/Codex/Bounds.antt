-- ===== src/Codex/Bounds.antt =====
-- `findManagedBounds` of internal/integration/codex/managed_block.go. Offsets count code points.
pub mod Pieces
pub mod Found
use focal_span.Prelude.{
  ℕ, zero, suc, ◌+◌, String, Bool, true, false, ◌&&◌, List, [], ◌∷◌, ◌++◌, drop, length, ltb, ◌==◌,
  if◌then◌else◌,
}
use focal_span.Prelude.Text.{same_codes}
use focal_span.Codex.Toml.{StringState, toml_string_state}
use focal_span.Codex.Block.{begin_marker, end_marker}

onto_first : ℕ → List (List ℕ) → List (List ℕ)
onto_first c [] = (c ∷ []) ∷ []
onto_first c (line ∷ rest) = (c ∷ line) ∷ rest

-- the lines of a content, each with its newline
unfoldable pub raw_lines : List ℕ → List (List ℕ)
unfolding onto_first
raw_lines [] = []
raw_lines (c ∷ rest) =
    let later = raw_lines rest in if c == b'\n' then (c ∷ []) ∷ later else onto_first c later

-- `strings.TrimSuffix` of one character
unfoldable pub trim_end : ℕ → List ℕ → List ℕ
trim_end last [] = []
trim_end last (c ∷ []) = if c == last then [] else c ∷ []
trim_end last (c ∷ d ∷ rest) = c ∷ trim_end last (d ∷ rest)

abbrev pub line_of : List ℕ → List ℕ
line_of raw = trim_end b'\r' (trim_end b'\n' raw)

abbrev pub is_outside : StringState → Bool
is_outside StringState.outside = true
is_outside _ = false

-- `foundBegin` and `foundEnd`
pub record Marks : Type 0 where
  pub begins : List ℕ
  pub ends : List ℕ

abbrev pub add_mark : Bool → ℕ → List ℕ → List ℕ
add_mark here offset marks = if here then offset ∷ marks else marks

-- the loop over the lines, from a state and an offset
unfoldable pub find_marks : String → StringState → ℕ → List (List ℕ) → Marks
find_marks name state offset [] = record { begins = []; ends = [] }
find_marks name state offset (raw ∷ rest) =
    let line = line_of raw in
    let later = find_marks name (toml_string_state line state) (offset + length raw) rest in
    record {
      begins =
          add_mark (is_outside state && same_codes line (begin_marker name)) offset later.begins;
      ends = add_mark (is_outside state && same_codes line (end_marker name)) offset later.ends;
    }

-- where the first line ends
unfoldable pub line_end : List ℕ → ℕ
line_end [] = 0
line_end (c ∷ rest) = let more = line_end rest in if c == b'\n' then 1 else suc more

pub data ManagedBounds : Type 0 where
  absent invalid_markers : ManagedBounds
  found : ℕ → ℕ → ManagedBounds

unfoldable pub bounds_of : List ℕ → List ℕ → List ℕ → ManagedBounds
unfolding line_end
bounds_of content [] [] = absent
bounds_of content (start ∷ []) (end ∷ []) =
    if ltb end start then invalid_markers else found start (end + line_end (drop end content))
bounds_of content _ _ = invalid_markers

-- `findManagedBounds`
unfoldable pub find_managed_bounds : List ℕ → String → ManagedBounds
unfolding find_marks bounds_of
find_managed_bounds content name =
    let marks = find_marks name StringState.outside 0 (raw_lines content) in
    bounds_of content marks.begins marks.ends
