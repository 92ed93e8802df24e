-- ===== src/Codex/Toml.antt =====
-- `quoteTOML` and `tomlStringState` of internal/integration/codex/managed_block.go, on code points: every
-- mark that the scanner looks for is ASCII, and `quoteTOML` puts one behind each backslash.
pub mod Quoted
pub mod Ends
use focal_span.Prelude.{
  ℕ, zero, suc, ◌+◌, ◌-◌, ◌/◌, ◌%◌, Bool, true, false, not, ◌&&◌, ◌||◌, List, [], ◌∷◌, ◌++◌, Option,
  none, some, drop, length, ltb, leb, ◌==◌, if◌then◌else◌,
}

-- one digit of the verb `%04X`
abbrev pub hex_digit : ℕ → ℕ
hex_digit d = if ltb d 10 then b'0' + d else b'A' + (d - 10)

-- What stands for one rune between the quotes. A byte that is no part of a code point, which stands as
-- 0x110000 and the byte, is read as U+FFFD.
unfoldable pub quote_rune : ℕ → List ℕ
quote_rune r =
    if r == b'\\'
    then b'\\' ∷ b'\\' ∷ []
    else if r == b'"'
    then b'\\' ∷ b'"' ∷ []
    else if r == 8
    then b'\\' ∷ b'b' ∷ []
    else if r == b'\t'
    then b'\\' ∷ b't' ∷ []
    else if r == b'\n'
    then b'\\' ∷ b'n' ∷ []
    else if r == 12
    then b'\\' ∷ b'f' ∷ []
    else if r == b'\r'
    then b'\\' ∷ b'r' ∷ []
    else if ltb r 0x20 || r == 0x7f
    then b'\\' ∷ b'u' ∷ b'0' ∷ b'0' ∷ hex_digit (r / 16) ∷ hex_digit (r % 16) ∷ []
    else if ltb 0x10ffff r
    then 0xfffd ∷ []
    else r ∷ []

-- the loop, and the closing quote
unfoldable pub quote_rest : List ℕ → List ℕ
unfolding quote_rune
quote_rest [] = b'"' ∷ []
quote_rest (r ∷ rs) = quote_rune r ++ quote_rest rs

-- `quoteTOML`
unfoldable pub quote_toml : List ℕ → List ℕ
unfolding quote_rest
quote_toml value = b'"' ∷ quote_rest value

-- The states of the scanner: 0, the two quotes, 'b' and 'l'.
pub data StringState : Type 0 where
  outside basic literal multi_basic multi_literal : StringState

-- how many of `quote` the text begins with
unfoldable pub run_length : ℕ → List ℕ → ℕ
run_length quote [] = 0
run_length quote (c ∷ rest) = let more = run_length quote rest in if c == quote then suc more else 0

-- whether two of `quote` follow
unfoldable pub is_triple : ℕ → List ℕ → Bool
is_triple quote (a ∷ b ∷ rest) = a == quote && b == quote
is_triple quote _ = false

abbrev pub in_multi : ℕ → StringState → ℕ → List ℕ → StringState × List ℕ
in_multi quote state c rest =
    if c == quote
    then (
      (if leb 3 (suc (run_length quote rest)) then StringState.outside else state),
      drop (run_length quote rest) rest,
    )
    else (state, rest)

-- One round of the loop: the state and what is left of the line, or none at a comment.
unfoldable pub scan_one : StringState → ℕ → List ℕ → Option (StringState × List ℕ)
unfolding run_length is_triple
scan_one StringState.outside c rest =
    if c == b'#'
    then none
    else if c == b'"'
    then (if is_triple b'"' rest
        then some (StringState.multi_basic, drop 2 rest)
        else some (StringState.basic, rest))
    else if c == b'\''
    then (if is_triple b'\'' rest
        then some (StringState.multi_literal, drop 2 rest)
        else some (StringState.literal, rest))
    else some (StringState.outside, rest)
scan_one StringState.basic c rest =
    if c == b'\\'
    then some (StringState.basic, drop 1 rest)
    else if c == b'"'
    then some (StringState.outside, rest)
    else some (StringState.basic, rest)
scan_one StringState.literal c rest =
    if c == b'\'' then some (StringState.outside, rest) else some (StringState.literal, rest)
scan_one StringState.multi_basic c rest =
    if c == b'\\'
    then some (StringState.multi_basic, drop 1 rest)
    else some (in_multi b'"' StringState.multi_basic c rest)
scan_one StringState.multi_literal c rest = some (in_multi b'\'' StringState.multi_literal c rest)

-- the loop, on fuel: a round for each code point is enough
unfoldable pub scan : ℕ → StringState → List ℕ → StringState
unfolding scan_one
scan zero state line = state
scan (suc fuel) state [] = state
scan (suc fuel) state (c ∷ rest) = elim (scan_one state c rest) [
  | none ↦ state
  | some (next, left) ↦ scan fuel next left
]

-- `tomlStringState`
unfoldable pub toml_string_state : List ℕ → StringState → StringState
unfolding scan
toml_string_state line state = scan (length line) state line
