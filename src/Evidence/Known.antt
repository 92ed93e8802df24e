-- ===== src/Evidence/Known.antt =====
-- `NormalizeKnownHandles` of internal/evidence/known.go. A native text is valid UTF-8 always, so the test
-- for that has no branch here.
pub mod Normalized
use focal_span.Prelude.{
  ℕ, zero, suc, ◌+◌, String, Bool, true, false, not, ◌||◌, List, [], ◌∷◌, ◌++◌, any, length, ltb,
  str_eq, if◌then◌else◌,
}
use Prim.Native.Char.{code}
use focal_span.Prelude.Text.{trim_space}
use focal_span.Evidence.Validate.{blank}

pub data KnownError : Type 0 where
  too_many_handles : KnownError
  handle_too_long control_character : ℕ → KnownError

pub data KnownHandles : Type 0 where
  ok : List String → KnownHandles
  err : KnownError → KnownHandles

-- `len` of a string, in bytes
unfoldable pub byte_length : String → ℕ
byte_length String.[] = 0
byte_length (String.◌∷◌ c s) =
    let n = code c in
    (if ltb n 0x80 then 1 else if ltb n 0x800 then 2 else if ltb n 0x10000 then 3 else 4)
    + byte_length s

unfoldable pub has_control : String → Bool
has_control String.[] = false
has_control (String.◌∷◌ c s) = ltb (code c) 0x20 || has_control s

-- `result` and `seen` with one more value
unfoldable pub add_handle : List String → String → List String
add_handle result value = if any (str_eq value) result then result else result ++ value ∷ []

-- the loop, from an index on
unfoldable pub normalize_from : ℕ → List String → List String → KnownHandles
normalize_from index result [] = ok result
normalize_from index result (v ∷ vs) =
    let value = trim_space v in
    let skipped = normalize_from (suc index) result vs in
    let added = normalize_from (suc index) (add_handle result value) vs in
    if blank value
    then skipped
    else if ltb 256 (byte_length value)
    then err (handle_too_long index)
    else if has_control value
    then err (control_character index)
    else added

unfoldable pub normalize_known_handles : List String → KnownHandles
normalize_known_handles values =
    if ltb 512 (length values) then err too_many_handles else normalize_from 0 [] values
