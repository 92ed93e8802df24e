-- ===== src/Tests/Codex.antt =====
-- internal/integration/codex/managed_block.go at a concrete registration.
use focal_span.Prelude.{
  none, false, ℕ, ◌≡◌, refl, ◌↔◌, pos, true, List, [], ◌∷◌, ◌++◌, ◌+◌, length, All,
}
use focal_span.Prelude.Text.{codes, same_codes, itoa, digits_onto}
use focal_span.Evidence.Wire.{int_text}
use focal_span.Codex.Toml.{
  quote_toml, quote_rest, quote_rune, run_length, is_triple, scan_one, scan, StringState,
  toml_string_state,
}
use focal_span.Codex.Block.{
  setting_lines, quoted_list, RegistrationSpec, all_tools, block, block_lines, with_newlines,
  build_managed_block, validate_toml_values, check_values, refused, BlockError,
}
use focal_span.Codex.Block.Lines.{IsLine, block_lines-IsLine}
use focal_span.Codex.Bounds.{
  raw_lines, trim_end, find_marks, bounds_of, ManagedBounds, found, find_managed_bounds,
}
use focal_span.Codex.Bounds.Found.{IsForeign, state_behind, find_managed_bounds-block_lines}
use focal_span.Codex.Append.{
  has_crlf, has_bare_lf, uses_crlf, with_crlf, ends_in_newline, append_block, append_managed_block,
  bounds_option,
}
use focal_span.Codex.Append.Updated.{content_of, append_managed_block-update}
use focal_span.Codex.Toml.Ends.{Runs, toml_string_state-Runs}
use focal_span.Codex.Block.Accepts.{IsRegistrable, build_managed_block_iff}

abbrev spec : RegistrationSpec
spec = record {
  command = codes "C:\\bin\\focal \"x\"";
  args = codes "mcp" ∷ codes "serve#" ∷ [];
  enabled = true;
  startup_timeout_sec = pos 20;
  tool_timeout_sec = pos 120;
  enabled_tools = all_tools;
}

block_lines-IsLine_example : All IsLine (block_lines "focal-1" spec)
block_lines-IsLine_example = block_lines-IsLine "focal-1" spec refl

build_managed_block_iff_example :
    (build_managed_block "focal-1" spec ≡ block (with_newlines (block_lines "focal-1" spec)))
    ↔ IsRegistrable "focal-1" spec
build_managed_block_iff_example = build_managed_block_iff "focal-1" spec

-- 0xff is no part of a code point
invalid_is_refused :
    build_managed_block "focal-1" (record spec { command = 0x1100ff ∷ [] })
    ≡ refused BlockError.invalid_utf8
unfolding build_managed_block validate_toml_values check_values
invalid_is_refused = refl

command_is_quoted : quote_toml (codes "C:\\bin \"x\"\t") ≡ codes "\"C:\\\\bin \\\"x\\\"\\t\""
unfolding quote_toml quote_rest quote_rune
command_is_quoted = refl

-- an empty value and a quote directly behind it would open a multi-line string
triple_opens : toml_string_state (codes "a = \"\"\"") StringState.outside ≡ StringState.multi_basic
unfolding toml_string_state scan scan_one run_length is_triple
triple_opens = refl

literal_closes : toml_string_state (codes "a = '\\' # '") StringState.outside ≡ StringState.outside
unfolding toml_string_state scan scan_one run_length is_triple
literal_closes = refl

abbrev before : List (List ℕ)
before = codes "model = 'a'\r" ∷ codes "# own" ∷ []

abbrev after : List (List ℕ)
after = codes "[other]" ∷ []

before-IsForeign : All (IsForeign "focal-1") before
unfolding trim_end same_codes
before-IsForeign = ((refl, refl, refl), ((refl, refl, refl), tt))

after-IsForeign : All (IsForeign "focal-1") after
unfolding trim_end same_codes
after-IsForeign = ((refl, refl, refl), tt)

before_is_closed : state_behind "focal-1" before StringState.outside ≡ StringState.outside
unfolding trim_end toml_string_state scan scan_one run_length is_triple
before_is_closed = refl

find_managed_bounds-block_lines_example :
    find_managed_bounds (with_newlines (before ++ (block_lines "focal-1" spec ++ after))) "focal-1"
    ≡ found
        (length (with_newlines before))
        (length (with_newlines before) + length (with_newlines (block_lines "focal-1" spec)))
find_managed_bounds-block_lines_example =
    find_managed_bounds-block_lines "focal-1" spec refl before after before-IsForeign
      after-IsForeign before_is_closed

abbrev newer : RegistrationSpec
newer = record spec { startup_timeout_sec = pos 9; args = [] }

is_lf : uses_crlf (content_of "focal-1" refl before after spec) ≡ false
unfolding uses_crlf has_crlf has_bare_lf with_newlines block_lines setting_lines quoted_list
    quote_toml quote_rest quote_rune int_text itoa digits_onto
is_lf = refl

append_managed_block-update_example :
    append_managed_block
      (content_of "focal-1" refl before after spec)
      (with_newlines (block_lines "focal-1" newer))
      (bounds_option (find_managed_bounds (content_of "focal-1" refl before after spec) "focal-1"))
    ≡ content_of "focal-1" refl before after newer
append_managed_block-update_example =
    append_managed_block-update "focal-1" refl before after spec newer before-IsForeign
      after-IsForeign before_is_closed is_lf

appended : append_managed_block (codes "a\r\nb") (codes "x\n") none ≡ codes "a\r\nb\r\nx\r\n"
unfolding append_managed_block append_block uses_crlf has_crlf has_bare_lf with_crlf ends_in_newline
appended = refl

-- a marker inside a string that spans lines is none
no_markers :
    find_managed_bounds (codes "a = \"\"\"\n# END FOCALSPAN MANAGED MCP: f\n\"\"\"\n") "f"
    ≡ ManagedBounds.absent
unfolding find_managed_bounds raw_lines find_marks bounds_of trim_end same_codes toml_string_state
    scan scan_one run_length is_triple
no_markers = refl

end_only :
    find_managed_bounds (codes "# END FOCALSPAN MANAGED MCP: f\n") "f"
    ≡ ManagedBounds.invalid_markers
unfolding find_managed_bounds raw_lines find_marks bounds_of trim_end same_codes toml_string_state
    scan scan_one run_length is_triple
end_only = refl

toml_string_state-Runs_example :
    Runs StringState.outside
      (codes "a = 'b\\' # c")
      (toml_string_state (codes "a = 'b\\' # c") StringState.outside)
toml_string_state-Runs_example = toml_string_state-Runs (codes "a = 'b\\' # c") StringState.outside
