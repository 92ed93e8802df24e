-- ===== src/Codex/Append.antt =====
-- `appendManagedBlock` of internal/integration/codex/project_config.go: a block put into a configuration, in
-- place of the one that was found there or behind everything else.
pub mod Updated
use focal_span.Prelude.{
  ℕ, Bool, true, false, not, ◌&&◌, List, [], ◌∷◌, ◌++◌, Option, none, some, take, drop, ◌==◌,
  if◌then◌else◌,
}
use focal_span.Prelude.Text.{has_code}
use focal_span.Codex.Bounds.{ManagedBounds, absent, invalid_markers, found}

-- `bytes.Contains` of CR LF
unfoldable pub has_crlf : List ℕ → Bool
has_crlf [] = false
has_crlf (a ∷ []) = false
has_crlf (a ∷ b ∷ rest) =
    let later = has_crlf (b ∷ rest) in if a == b'\r' && b == b'\n' then true else later

-- whether an LF has no CR before it: one is left when each CR LF is removed; `after_cr` tells of the character
-- before
unfoldable pub has_bare_lf : Bool → List ℕ → Bool
has_bare_lf after_cr [] = false
has_bare_lf after_cr (c ∷ rest) =
    let later = has_bare_lf (c == b'\r') rest in if c == b'\n' && not after_cr then true else later

-- whether each line ends in CR LF
unfoldable pub uses_crlf : List ℕ → Bool
unfolding has_crlf has_bare_lf
uses_crlf content = has_crlf content && not (has_bare_lf false content)

unfoldable pub with_crlf : List ℕ → List ℕ
with_crlf [] = []
with_crlf (c ∷ rest) = if c == b'\n' then b'\r' ∷ b'\n' ∷ with_crlf rest else c ∷ with_crlf rest

unfoldable pub ends_in_newline : List ℕ → Bool
ends_in_newline [] = false
ends_in_newline (c ∷ []) = c == b'\n'
ends_in_newline (c ∷ d ∷ rest) = ends_in_newline (d ∷ rest)

-- the block behind a content
unfoldable pub append_block : List ℕ → List ℕ → List ℕ → List ℕ
append_block [] newline block = block
append_block (c ∷ content) newline block =
    if ends_in_newline (c ∷ content)
    then (c ∷ content) ++ block
    else (c ∷ content) ++ (newline ++ block)

-- `appendManagedBlock`; the bounds are those of the block to replace, if there is one
unfoldable pub append_managed_block : List ℕ → List ℕ → Option (ℕ × ℕ) → List ℕ
append_managed_block content block none =
    if uses_crlf content
    then append_block content (b'\r' ∷ b'\n' ∷ []) (with_crlf block)
    else append_block content (b'\n' ∷ []) block
append_managed_block content block (some (start, stop)) =
    take start content
    ++ ((if uses_crlf content then with_crlf block else block) ++ drop stop content)

-- What is replaced: the bounds of the block that is there. With invalid markers, `inspectProject` returns
-- the error and nothing is written.
abbrev pub bounds_option : ManagedBounds → Option (ℕ × ℕ)
bounds_option absent = none
bounds_option invalid_markers = none
bounds_option (found start stop) = some (start, stop)
