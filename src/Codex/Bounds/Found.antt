-- ===== src/Codex/Bounds/Found.antt =====
-- `findManagedBounds` finds the block that `BuildManagedBlock` wrote between other lines.
use focal_span.Prelude.{
  ℕ, suc, ◌+◌, ◌≡◌, refl, sym, ◌∙◌, ap, ap₂, subst, String, Bool, true, false, ◌&&◌, List, [], ◌∷◌,
  ◌++◌, append_assoc, map, drop, length, length-append, every, All, All-append, arith,
}
use focal_span.Prelude.Text.{same_codes}
use focal_span.Codex.Toml.{StringState, toml_string_state}
use focal_span.Codex.Block.{
  RegistrationSpec, is_valid_name, begin_marker, end_marker, setting_lines, block_lines,
  with_newlines,
}
use focal_span.Codex.Block.Lines.{IsLine, is_inline, block_lines-IsLine}
use focal_span.Codex.Bounds.{
  raw_lines, trim_end, is_outside, add_mark, Marks, find_marks, line_end, found, bounds_of,
  find_managed_bounds,
}
use focal_span.Codex.Bounds.Pieces.{
  no_newline, newline_behind, raw_lines-line, trim_end-none, line_of-behind, line_end-line,
  drop-append, with_newlines-append, same_codes_refl, with_newlines-cons, zero_plus, sizes,
  block-size, two_marks, All-split, All-map,
}

module _ (name : String) where
  -- a line that is none of the two markers
  abbrev pub IsForeign : List ℕ → Type 0
  IsForeign line =
      (every no_newline line ≡ true)
      × (same_codes (trim_end b'\r' line) (begin_marker name) ≡ false)
      × (same_codes (trim_end b'\r' line) (end_marker name) ≡ false)

  -- the scanner's state behind some lines
  abbrev pub state_behind : List (List ℕ) → StringState → StringState
  state_behind [] state = state
  state_behind (line ∷ rest) state =
      state_behind rest (toml_string_state (trim_end b'\r' line) state)

  abbrev marks_in : StringState → ℕ → List (List ℕ) → Marks
  marks_in state offset lines = find_marks name state offset (map newline_behind lines)

  raw_lines-All :
      (lines : List (List ℕ))
      → All (λ line. every no_newline line ≡ true) lines
      → raw_lines (with_newlines lines) ≡ map newline_behind lines
  unfolding with_newlines raw_lines
  raw_lines-All [] h = refl
  raw_lines-All (line ∷ rest) h =
      raw_lines-line line (with_newlines rest) h.0
      ∙ ap (◌∷◌ (newline_behind line)) (raw_lines-All rest h.1)

  marked :
      (state : StringState) (offset : ℕ) (line : List ℕ) (lines : List (List ℕ)) (b e : Bool)
      → (is_outside state && same_codes (trim_end b'\r' line) (begin_marker name)) ≡ b
      → (is_outside state && same_codes (trim_end b'\r' line) (end_marker name)) ≡ e
      → marks_in state offset (line ∷ lines) ≡ record {
        begins =
            add_mark b offset
              (marks_in
                (toml_string_state (trim_end b'\r' line) state)
                (offset + length (newline_behind line))
                lines).begins;
        ends =
            add_mark e offset
              (marks_in
                (toml_string_state (trim_end b'\r' line) state)
                (offset + length (newline_behind line))
                lines).ends;
      }
  unfolding find_marks
  marked state offset line lines b e p q = rw (line_of-behind line, p, q) refl

  no_and : (b c : Bool) → c ≡ false → (b && c) ≡ false
  no_and b c h = ground (arith, h)

  foreign-skipped :
      (state : StringState) (offset : ℕ) (line : List ℕ) (lines : List (List ℕ))
      → IsForeign line
      → marks_in state offset (line ∷ lines)
        ≡ marks_in
            (toml_string_state (trim_end b'\r' line) state)
            (offset + length (newline_behind line))
            lines
  foreign-skipped state offset line lines (plain, b, e) =
      marked state offset line lines false false (no_and (is_outside state) _ b)
        (no_and (is_outside state) _ e)

  foreigns-skipped :
      (state : StringState) (offset : ℕ) (foreigns lines : List (List ℕ))
      → All IsForeign foreigns
      → marks_in state offset (foreigns ++ lines)
        ≡ marks_in (state_behind foreigns state) (offset + length (with_newlines foreigns)) lines
  unfolding with_newlines
  foreigns-skipped state offset [] lines h =
      let e : offset ≡ offset + 0 = omega arith in ap (λ o. marks_in state o lines) e
  foreigns-skipped state offset (line ∷ rest) lines h =
      let next = toml_string_state (trim_end b'\r' line) state in
      let e : offset + length (newline_behind line) + length (with_newlines rest)
          ≡ offset + length (line ++ (b'\n' ∷ with_newlines rest)) =
        omega (
          arith,
          length-append line (b'\n' ∷ []),
          length-append line (b'\n' ∷ with_newlines rest),
        ) in
      foreign-skipped state offset line (rest ++ lines) h.0
      ∙ foreigns-skipped next (offset + length (newline_behind line)) rest lines h.1
      ∙ ap (λ o. marks_in (state_behind rest next) o lines) e

  none_left :
      (state : StringState) (offset : ℕ) (lines : List (List ℕ))
      → All IsForeign lines
      → marks_in state offset lines ≡ record { begins = []; ends = [] }
  unfolding find_marks
  none_left state offset [] h = refl
  none_left state offset (line ∷ rest) h =
      foreign-skipped state offset line rest h.0
      ∙ none_left (toml_string_state (trim_end b'\r' line) state)
          (offset + length (newline_behind line)) rest h.1

  lines_behind :
      (lines : List (List ℕ))
      → All IsLine lines
      → state_behind lines StringState.outside ≡ StringState.outside
  lines_behind [] h = refl
  lines_behind (line ∷ rest) h =
      let (outside, inline) = h.0 in rw (trim_end-none line inline, outside) (lines_behind rest h.1)

  inline-no_newline : (line : List ℕ) → every is_inline line ≡ true → every no_newline line ≡ true
  inline-no_newline [] h = refl
  inline-no_newline (c ∷ line) h =
      let here : is_inline c ≡ true = ground (arith, h) in
      let later : every is_inline line ≡ true = ground (arith, h) in
      ground (arith, here, inline-no_newline line later)

  setting :
      (line : List ℕ)
      → IsLine line
      → same_codes line (begin_marker name) ≡ false
      → same_codes line (end_marker name) ≡ false
      → IsForeign line
  setting line (outside, inline) b e =
      let same = sym (trim_end-none line inline) in
      (
        inline-no_newline line inline,
        subst (λ l. same_codes l (begin_marker name) ≡ false) same b,
        subst (λ l. same_codes l (end_marker name) ≡ false) same e,
      )

  settings-IsForeign :
      (spec : RegistrationSpec)
      → All IsLine (setting_lines name spec)
      → All IsForeign (setting_lines name spec)
  unfolding setting_lines same_codes
  settings-IsForeign spec (a, (b, (c, (d, (e, (f, (g, h))))))) = (
    setting _ a refl refl,
    (
      setting _ b refl refl,
      (
        setting _ c refl refl,
        (
          setting _ d refl refl,
          (setting _ e refl refl, (setting _ f refl refl, (setting _ g refl refl, tt))),
        ),
      ),
    ),
  )

  own_marked :
      (offset : ℕ) (line : List ℕ) (lines : List (List ℕ))
      → IsLine line
      → marks_in StringState.outside offset (line ∷ lines) ≡ record {
        begins =
            add_mark
              (same_codes line (begin_marker name))
              offset
              (marks_in StringState.outside (offset + length (newline_behind line)) lines).begins;
        ends =
            add_mark
              (same_codes line (end_marker name))
              offset
              (marks_in StringState.outside (offset + length (newline_behind line)) lines).ends;
      }
  own_marked offset line lines (outside, inline) =
      let m =
        marked StringState.outside offset line lines
          (same_codes (trim_end b'\r' line) (begin_marker name))
          (same_codes (trim_end b'\r' line) (end_marker name)) refl refl in
      rw (trim_end-none line inline, outside) at m

  different :
      (same_codes (begin_marker name) (end_marker name) ≡ false)
      × (same_codes (end_marker name) (begin_marker name) ≡ false)
  unfolding same_codes
  different = (refl, refl)

  end_marked :
      (offset : ℕ) (after : List (List ℕ))
      → IsLine (end_marker name)
      → All IsForeign after
      → marks_in StringState.outside offset (end_marker name ∷ after)
        ≡ record { begins = []; ends = offset ∷ [] }
  end_marked offset after line h =
      let m = own_marked offset (end_marker name) after line in
      let n =
        none_left StringState.outside (offset + length (newline_behind (end_marker name))) after
          h in
      m ∙ rw (different.1, same_codes_refl (end_marker name), n) refl

  module _ (spec : RegistrationSpec) (valid : is_valid_name name ≡ true) where
    -- where the last line of the block starts
    abbrev end_offset : ℕ → ℕ
    end_offset offset =
        offset
        + length (newline_behind (begin_marker name))
        + length (with_newlines (setting_lines name spec))

    begin_marker-IsLine : IsLine (begin_marker name)
    unfolding block_lines
    begin_marker-IsLine = (block_lines-IsLine name spec valid).0

    other_lines : All IsLine (setting_lines name spec) × IsLine (end_marker name)
    unfolding block_lines
    other_lines =
        let (settings, last) =
          All-split IsLine (setting_lines name spec) (end_marker name ∷ [])
            (block_lines-IsLine name spec valid).1 in
        (settings, last.0)

    block-marks :
        (offset : ℕ) (after : List (List ℕ))
        → All IsForeign after
        → marks_in StringState.outside offset
            (begin_marker name ∷ (setting_lines name spec ++ end_marker name ∷ after))
          ≡ record { begins = offset ∷ []; ends = end_offset offset ∷ [] }
    block-marks offset after h =
        let settings = setting_lines name spec in
        let start = offset + length (newline_behind (begin_marker name)) in
        let rest = settings ++ end_marker name ∷ after in
        let inner : marks_in StringState.outside start rest
            ≡ record { begins = []; ends = end_offset offset ∷ [] } =
          foreigns-skipped StringState.outside start settings (end_marker name ∷ after)
            (settings-IsForeign spec other_lines.0)
          ∙ ap (λ state. marks_in state (end_offset offset) (end_marker name ∷ after))
              (lines_behind settings other_lines.0)
          ∙ end_marked (end_offset offset) after other_lines.1 h in
        own_marked offset (begin_marker name) rest begin_marker-IsLine
        ∙ rw (same_codes_refl (begin_marker name), different.0, inner) refl

    marked_once :
        (before after : List (List ℕ))
        → All IsForeign before
        → All IsForeign after
        → state_behind before StringState.outside ≡ StringState.outside
        → marks_in StringState.outside 0 (before ++ (block_lines name spec ++ after)) ≡ record {
          begins = length (with_newlines before) ∷ [];
          ends = end_offset (length (with_newlines before)) ∷ [];
        }
    unfolding block_lines
    marked_once before after h k outside =
        let block = block_lines name spec ++ after in
        let shape : block
            ≡ begin_marker name ∷ (setting_lines name spec ++ end_marker name ∷ after) =
          ap (◌∷◌ (begin_marker name))
            (append_assoc (setting_lines name spec) (end_marker name ∷ []) after) in
        foreigns-skipped StringState.outside 0 before block h
        ∙ ap (λ offset. marks_in (state_behind before StringState.outside) offset block)
            (zero_plus (length (with_newlines before)))
        ∙ ap₂ (λ state lines. marks_in state (length (with_newlines before)) lines) outside shape
        ∙ block-marks (length (with_newlines before)) after k

    plain_lines :
        (before after : List (List ℕ))
        → All IsForeign before
        → All IsForeign after
        → All (λ line. every no_newline line ≡ true) (before ++ (block_lines name spec ++ after))
    plain_lines before after h k =
        let P : List ℕ → Type 0 = λ line. every no_newline line ≡ true in
        All-append P before (block_lines name spec ++ after)
          (All-map IsForeign P (λ line f. f.0) before h)
          (All-append P (block_lines name spec) after
            (All-map IsLine P (λ line l. inline-no_newline line l.1) (block_lines name spec)
              (block_lines-IsLine name spec valid))
            (All-map IsForeign P (λ line f. f.0) after k))

    -- the content up to the last line of the block
    abbrev head_of : List (List ℕ) → List ℕ
    head_of before = with_newlines (before ++ (begin_marker name ∷ setting_lines name spec))

    regrouped :
        (before after : List (List ℕ))
        → before ++ (block_lines name spec ++ after)
          ≡ (before ++ (begin_marker name ∷ setting_lines name spec)) ++ (end_marker name ∷ after)
    unfolding block_lines
    regrouped before after =
        let settings = setting_lines name spec in
        ap (λ (l : List (List ℕ)). before ++ (begin_marker name ∷ l))
          (append_assoc settings (end_marker name ∷ []) after)
        ∙ sym (append_assoc before (begin_marker name ∷ settings) (end_marker name ∷ after))

    content-split :
        (before after : List (List ℕ))
        → with_newlines (before ++ (block_lines name spec ++ after))
          ≡ head_of before ++ (end_marker name ++ b'\n' ∷ with_newlines after)
    content-split before after =
        ap with_newlines (regrouped before after)
        ∙ with_newlines-append (before ++ (begin_marker name ∷ setting_lines name spec))
            (end_marker name ∷ after)
        ∙ ap (λ (l : List ℕ). head_of before ++ l) (with_newlines-cons (end_marker name) after)

    head-length :
        (before : List (List ℕ))
        → length (head_of before) ≡ end_offset (length (with_newlines before))
    head-length before =
        let settings = with_newlines (setting_lines name spec) in
        let begin = begin_marker name in
        ap length (
          with_newlines-append before (begin ∷ setting_lines name spec)
          ∙ ap (λ (l : List ℕ). with_newlines before ++ l)
              (with_newlines-cons begin (setting_lines name spec)))
        ∙ sizes (with_newlines before) begin settings

    block-length :
        length (with_newlines (block_lines name spec))
        ≡ length (newline_behind (begin_marker name))
          + length (with_newlines (setting_lines name spec))
          + suc (length (end_marker name))
    unfolding block_lines
    block-length =
        let settings = setting_lines name spec in
        let begin = begin_marker name in
        let end = end_marker name in
        ap length (
          with_newlines-cons begin (settings ++ end ∷ [])
          ∙ ap (λ (l : List ℕ). begin ++ (b'\n' ∷ l))
              (with_newlines-append settings (end ∷ [])
                ∙ ap (λ (l : List ℕ). with_newlines settings ++ l) (with_newlines-cons end [])))
        ∙ block-size begin (with_newlines settings) end

    last_line :
        (before after : List (List ℕ))
        → line_end (
            drop
              (end_offset (length (with_newlines before)))
              (with_newlines (before ++ (block_lines name spec ++ after))))
          ≡ suc (length (end_marker name))
    last_line before after =
        let tail = end_marker name ++ b'\n' ∷ with_newlines after in
        ap₂ (λ (n : ℕ) (content : List ℕ). line_end (drop n content)) (sym (head-length before))
          (content-split before after)
        ∙ ap line_end (drop-append (head_of before) tail)
        ∙ line_end-line (end_marker name) (with_newlines after)
            (inline-no_newline (end_marker name) other_lines.1.1)

    -- Between other lines, none of which is a marker, and behind which the scanner is outside of strings,
    -- `find_managed_bounds` finds the block of a valid name: from its first character to its last newline.
    pub find_managed_bounds-block_lines :
        (before after : List (List ℕ))
        → All IsForeign before
        → All IsForeign after
        → state_behind before StringState.outside ≡ StringState.outside
        → find_managed_bounds (with_newlines (before ++ (block_lines name spec ++ after))) name
          ≡ found
              (length (with_newlines before))
              (length (with_newlines before) + length (with_newlines (block_lines name spec)))
    unfolding find_managed_bounds
    find_managed_bounds-block_lines before after h k outside =
        let marks = marked_once before after h k outside in
        let raws =
          raw_lines-All (before ++ (block_lines name spec ++ after))
            (plain_lines before after h k) in
        let content = with_newlines (before ++ (block_lines name spec ++ after)) in
        let start = length (with_newlines before) in
        let stop : end_offset start + line_end (drop (end_offset start) content)
            ≡ start + length (with_newlines (block_lines name spec)) =
          omega (arith, last_line before after, block-length) in
        ap (λ (m : Marks). bounds_of content m.begins m.ends)
          (ap (find_marks name StringState.outside 0) raws ∙ marks)
        ∙ two_marks content start (end_offset start) (omega arith)
        ∙ ap (found start) stop
