-- ===== src/Sourceutil/SourceMap.antt =====
-- `SourceMap` of internal/extract/sourceutil/source_map.go: the index of line starts, and the
-- conversion of byte offsets to lines. Bytes are numbers; an offset that a caller gives is a Go
-- `int`, which may be negative.
pub mod LineAt
use focal_span.Prelude.{
  ℕ, suc, ◌+◌, ◌-◌, ℤ, pos, pos_part, neg_part, leb_ℤ, ltb_ℤ, Bool, ◌&&◌, ◌||◌, List, [], ◌∷◌,
  Option, none, some, length, take, drop, ltb, leb, ◌==◌, if◌then◌else◌,
}

pub record Span : Type 0 where
  pub start_byte : ℤ
  pub end_byte : ℤ
  pub start_line : ℤ
  pub end_line : ℤ

pub record SourceMap : Type 0 where
  pub content : List ℕ
  pub line_starts : List ℕ

-- the loop of `NewSourceMap` at `index`; `total` is `len(content)`
unfoldable pub starts_from : ℕ → ℕ → List ℕ → List ℕ
starts_from total index [] = []
starts_from total index (value ∷ rest) =
    let later = starts_from total (index + 1) rest in
    if value == b'\n' && leb (index + 1) total then (index + 1) ∷ later else later

unfoldable pub new_source_map : List ℕ → SourceMap
unfolding starts_from
new_source_map content = record {
  content = content;
  line_starts = 0 ∷ starts_from (length content) 0 content;
}

unfoldable pub line_count : SourceMap → ℕ
line_count m = if length m.line_starts == 0 then 1 else length m.line_starts

-- `sort.Search` over the line starts: the first index whose start lies past the offset. It is what
-- the binary search returns on ascending starts, which `new_source_map` gives.
unfoldable pub search_past : ℤ → List ℕ → ℕ
search_past offset [] = 0
search_past offset (start ∷ rest) =
    let later = search_past offset rest in if ltb_ℤ offset (pos start) then 0 else suc later

unfoldable pub line_at : SourceMap → ℤ → ℕ
unfolding line_count search_past
line_at m offset =
    if leb_ℤ offset (pos 0) || length m.line_starts == 0
    then 1
    else if leb_ℤ (pos (length m.content)) offset
    then line_count m
    else search_past offset m.line_starts

-- the last byte of the range, or its start when it is empty
abbrev pub line_end : ℤ → ℤ → ℤ
line_end start end = if ltb_ℤ start end then pos (pos_part end - 1) else start

-- `none` is Go's `Span{}, false`. After the guard both offsets are at least 0.
unfoldable pub span : SourceMap → ℤ → ℤ → Option Span
unfolding line_at
span m start end =
    if ltb_ℤ start (pos 0) || ltb_ℤ end start || ltb_ℤ (pos (length m.content)) end
    then none
    else some (record {
      start_byte = start;
      end_byte = end;
      start_line = pos (line_at m start);
      end_line = pos (line_at m (line_end start end));
    })

-- `none` is Go's `"", false`.
unfoldable pub slice : SourceMap → Span → Option (List ℕ)
slice m s =
    if ltb_ℤ s.start_byte (pos 0)
      || ltb_ℤ s.end_byte s.start_byte
      || ltb_ℤ (pos (length m.content)) s.end_byte
    then none
    else some (
        take (pos_part s.end_byte - pos_part s.start_byte) (drop (pos_part s.start_byte) m.content))
