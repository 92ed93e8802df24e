-- ===== src/Prelude/Search.antt =====
-- What the program uses of Go's `strings` package to search a text.
use Prim.Native.Char.{code}
use Prim.Native.Nat.{ℕ, zero, suc}
use Prim.Native.String.{String, count}
use mathlib.Core.Bool.{Bool, ◌||◌}
use mathlib.Core.List.{List}
use focal_span.Prelude.Tests.{◌==◌, str_eq, if◌then◌else◌}
use focal_span.Prelude.Lists.{any}
use focal_span.Prelude.Text.{codes, has_prefix}

-- `strings.HasPrefix`, `strings.HasSuffix` and `strings.Contains`; what is looked for comes first
abbrev pub starts_with : String → String → Bool
starts_with part s = has_prefix (codes part) (codes s)

unfoldable pub ends_with : String → String → Bool
ends_with part String.[] = str_eq "" part
ends_with part (String.◌∷◌ c s) = str_eq (String.◌∷◌ c s) part || ends_with part s

unfoldable pub contains : String → String → Bool
contains part String.[] = str_eq "" part
contains part (String.◌∷◌ c s) = starts_with part (String.◌∷◌ c s) || contains part s

-- `strings.TrimSuffix` of a suffix that is not empty
unfoldable pub trim_suffix : String → String → String
trim_suffix part String.[] = ""
trim_suffix part (String.◌∷◌ c s) =
    let rest = trim_suffix part s in if str_eq (String.◌∷◌ c s) part then "" else String.◌∷◌ c rest

-- what stands behind the last `/`, or all of it
unfoldable pub base_name : String → String
unfolding contains
base_name String.[] = ""
base_name (String.◌∷◌ c s) =
    let later = base_name s in
    if contains "/" s then later else if code c == b'/' then s else String.◌∷◌ c s

abbrev pub one_of : List String → String → Bool
one_of words s = any (str_eq s) words

unfoldable pub drop_text : ℕ → String → String
drop_text zero s = s
drop_text (suc n) String.[] = ""
drop_text (suc n) (String.◌∷◌ c s) = drop_text n s

-- `strings.LastIndex` of a separator that is not empty, and what stands behind it: all, if it is not there
unfoldable pub after_last : String → String → String
unfolding contains drop_text
after_last part String.[] = ""
after_last part (String.◌∷◌ c s) =
    let later = after_last part s in
    if contains part s
    then later
    else if starts_with part (String.◌∷◌ c s)
    then drop_text (count part) (String.◌∷◌ c s)
    else String.◌∷◌ c s
