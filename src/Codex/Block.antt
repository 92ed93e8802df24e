-- ===== src/Codex/Block.antt =====
-- `BuildManagedBlock` of internal/integration/codex/managed_block.go, line by line, with the specification of
-- model.go and the names of paths.go.
pub mod Lines
pub mod Accepts
use focal_span.Prelude.{
  ℕ, ℤ, pos, leb_ℤ, String, Bool, true, false, not, ◌&&◌, ◌||◌, List, [], ◌∷◌, ◌++◌, map, Option,
  none, some, every, length, ltb, leb, ◌==◌, str_eq, if◌then◌else◌,
}
use focal_span.Prelude.Text.{codes, has_code, same_codes}
use focal_span.Evidence.Wire.{int_text}
use focal_span.Codex.Toml.{quote_toml}

-- The texts of a specification need not be valid UTF-8: each is a list of its code points, where a byte that
-- is no part of one stands as 0x110000 and the byte.
pub record RegistrationSpec : Type 0 where
  pub command : List ℕ
  pub args : List (List ℕ)
  pub enabled : Bool
  pub startup_timeout_sec : ℤ
  pub tool_timeout_sec : ℤ
  pub enabled_tools : List (List ℕ)

-- `EnabledTools`
abbrev pub all_tools : List (List ℕ)
all_tools =
    codes "code_context"
    ∷ codes "code_expand"
    ∷ codes "code_impact"
    ∷ codes "code_restart"
    ∷ codes "code_restart_process"
    ∷ codes "code_status"
    ∷ []

-- The errors, without their texts.
pub data BlockError : Type 0 where
  invalid_name invalid_utf8 nul_in_value newline_in_value timeout_not_positive other_tools :
      BlockError

pub data Built : Type 0 where
  block : List ℕ → Built
  refused : BlockError → Built

abbrev pub is_name_code : ℕ → Bool
is_name_code c =
    (leb b'A' c && leb c b'Z')
    || (leb b'a' c && leb c b'z')
    || (leb b'0' c && leb c b'9')
    || c == b'_'
    || c == b'-'

-- `ValidateName`: the pattern [A-Za-z0-9_-]{1,64}
abbrev pub is_valid_name : String → Bool
is_valid_name name =
    every is_name_code (codes name) && leb 1 (length (codes name)) && leb (length (codes name)) 64

-- `stringSlicesEqual`
unfoldable pub same_texts : List (List ℕ) → List (List ℕ) → Bool
same_texts [] [] = true
same_texts (x ∷ xs) (y ∷ ys) = same_codes x y && same_texts xs ys
same_texts _ _ = false

-- a code point, and no byte that stands alone
abbrev pub is_code_point : ℕ → Bool
is_code_point c = ltb c 0x110000

-- the loop of `validateTOMLValues`, with `utf8.ValidString` first
unfoldable pub check_values : List (List ℕ) → Option BlockError
check_values [] = none
check_values (value ∷ rest) =
    let later = check_values rest in
    if not (every is_code_point value)
    then some BlockError.invalid_utf8
    else if has_code 0 value
    then some BlockError.nul_in_value
    else if has_code b'\r' value || has_code b'\n' value
    then some BlockError.newline_in_value
    else later

abbrev pub check_settings : RegistrationSpec → Option BlockError
check_settings spec =
    if leb_ℤ spec.startup_timeout_sec (pos 0) || leb_ℤ spec.tool_timeout_sec (pos 0)
    then some BlockError.timeout_not_positive
    else if not (same_texts spec.enabled_tools all_tools)
    then some BlockError.other_tools
    else none

abbrev or_settings : RegistrationSpec → Option BlockError → Option BlockError
or_settings spec none = check_settings spec
or_settings spec (some reason) = some reason

-- `validateTOMLValues`
unfoldable pub validate_toml_values : RegistrationSpec → Option BlockError
unfolding check_values same_texts
validate_toml_values spec =
    or_settings spec (check_values ((spec.command ∷ spec.args) ++ spec.enabled_tools))

-- quoted values with `, ` between them
unfoldable pub quoted_list : List (List ℕ) → List ℕ
quoted_list [] = []
quoted_list (value ∷ []) = quote_toml value
quoted_list (value ∷ more ∷ rest) = quote_toml value ++ (b',' ∷ b' ' ∷ quoted_list (more ∷ rest))

abbrev pub begin_marker : String → List ℕ
begin_marker name = codes "# BEGIN FOCALSPAN MANAGED MCP: " ++ codes name

abbrev pub end_marker : String → List ℕ
end_marker name = codes "# END FOCALSPAN MANAGED MCP: " ++ codes name

abbrev pub bool_text : Bool → String
bool_text true = "true"
bool_text false = "false"

-- the lines between the markers
unfoldable pub setting_lines : String → RegistrationSpec → List (List ℕ)
unfolding quoted_list
setting_lines name spec =
    (codes "[mcp_servers." ++ (codes name ++ b']' ∷ []))
    ∷ (codes "command = " ++ quote_toml spec.command)
    ∷ (codes "args = [" ++ (quoted_list spec.args ++ b']' ∷ []))
    ∷ (codes "enabled = " ++ codes (bool_text spec.enabled))
    ∷ (codes "startup_timeout_sec = " ++ codes (int_text spec.startup_timeout_sec))
    ∷ (codes "tool_timeout_sec = " ++ codes (int_text spec.tool_timeout_sec))
    ∷ (codes "enabled_tools = [" ++ (quoted_list spec.enabled_tools ++ b']' ∷ []))
    ∷ []

unfoldable pub block_lines : String → RegistrationSpec → List (List ℕ)
block_lines name spec = begin_marker name ∷ (setting_lines name spec ++ end_marker name ∷ [])

-- lines, each with its newline
unfoldable pub with_newlines : List (List ℕ) → List ℕ
with_newlines [] = []
with_newlines (line ∷ rest) = line ++ (b'\n' ∷ with_newlines rest)

abbrev block_or : String → RegistrationSpec → Option BlockError → Built
block_or name spec none = block (with_newlines (block_lines name spec))
block_or name spec (some reason) = refused reason

-- `BuildManagedBlock`
unfoldable pub build_managed_block : String → RegistrationSpec → Built
unfolding validate_toml_values
build_managed_block name spec =
    if not (is_valid_name name)
    then refused BlockError.invalid_name
    else block_or name spec (validate_toml_values spec)
