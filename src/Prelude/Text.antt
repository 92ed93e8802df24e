-- ===== src/Prelude/Text.antt =====
-- What the program uses of Go's `strings`, `strconv` and `path` packages, over the code points of a
-- text. Every separator and mark that the program looks for is ASCII, so code points serve for bytes.
use Prim.Native.Nat.{ℕ, zero, suc, ◌/◌, ◌%◌}
use Prim.Native.Char.{code}
use Prim.Native.String.{String, ◌++◌ as append_text}
use mathlib.Core.Bool.{Bool, true, false, not, ◌&&◌, ◌||◌}
use mathlib.Core.List.{List, [], ◌∷◌, ◌++◌, foldl, reverse}
use focal_span.Prelude.Tests.{ltb, leb, ◌==◌, if◌then◌else◌}

abbrev pub codes : String → List ℕ
codes String.[] = []
codes (String.◌∷◌ c s) = code c ∷ codes s

-- Go's `+` on strings
abbrev pub concat : String → String → String
concat = append_text

-- `strconv.Itoa` on a number, a digit a round
abbrev pub digit : ℕ → String
digit d =
    if d == 0
    then "0"
    else if d == 1
    then "1"
    else if d == 2
    then "2"
    else if d == 3
    then "3"
    else if d == 4
    then "4"
    else if d == 5
    then "5"
    else if d == 6
    then "6"
    else if d == 7
    then "7"
    else if d == 8
    then "8"
    else "9"

unfoldable pub digits_onto : ℕ → ℕ → String → String
digits_onto zero n rest = rest
digits_onto (suc fuel) n rest =
    let more = digits_onto fuel (n / 10) (concat (digit (n % 10)) rest) in
    if ltb n 10 then concat (digit n) rest else more

unfoldable pub itoa : ℕ → String
unfolding digits_onto
itoa n = digits_onto (suc n) n ""

-- equality of byte strings
unfoldable pub same_codes : List ℕ → List ℕ → Bool
same_codes [] [] = true
same_codes (x ∷ xs) (y ∷ ys) = x == y && same_codes xs ys
same_codes _ _ = false

unfoldable pub has_code : ℕ → List ℕ → Bool
has_code c [] = false
has_code c (x ∷ xs) = x == c || has_code c xs

unfoldable pub has_prefix : List ℕ → List ℕ → Bool
has_prefix [] text = true
has_prefix (p ∷ ps) [] = false
has_prefix (p ∷ ps) (x ∷ xs) = p == x && has_prefix ps xs

-- `strings.Split` at one byte: never empty
prepend : ℕ → List (List ℕ) → List (List ℕ)
prepend x [] = (x ∷ []) ∷ []
prepend x (part ∷ parts) = (x ∷ part) ∷ parts

unfoldable pub split : ℕ → List ℕ → List (List ℕ)
unfolding prepend
split c [] = [] ∷ []
split c (x ∷ xs) = let rest = split c xs in if x == c then [] ∷ rest else prepend x rest

unfoldable pub join : ℕ → List (List ℕ) → List ℕ
join c [] = []
join c (part ∷ []) = part
join c (part ∷ more ∷ parts) = part ++ (c ∷ join c (more ∷ parts))

abbrev dot : List ℕ
dot = b'.' ∷ []

abbrev dot_dot : List ℕ
dot_dot = b'.' ∷ b'.' ∷ []

-- `..` removes the last element kept, if it is not itself `..`; `kept` is in reverse
back : Bool → List (List ℕ) → List (List ℕ)
back rooted [] = if rooted then [] else dot_dot ∷ []
back rooted (last ∷ kept) = if same_codes last dot_dot then dot_dot ∷ last ∷ kept else kept

clean_step : Bool → List (List ℕ) → List ℕ → List (List ℕ)
clean_step rooted kept [] = kept
clean_step rooted kept (x ∷ xs) =
    if same_codes (x ∷ xs) dot
    then kept
    else if same_codes (x ∷ xs) dot_dot
    then back rooted kept
    else (x ∷ xs) ∷ kept

or_dot : List ℕ → List ℕ
or_dot [] = dot
or_dot (x ∷ xs) = x ∷ xs

-- `path.Clean`
unfoldable pub clean : List ℕ → List ℕ
unfolding same_codes has_prefix split join back clean_step or_dot
clean text =
    let rooted = has_prefix (b'/' ∷ []) text in
    let kept = join b'/' (reverse (foldl (clean_step rooted) [] (split b'/' text))) in
    if rooted then b'/' ∷ kept else or_dot kept

-- `unicode.IsSpace`
unfoldable pub is_space : ℕ → Bool
is_space c =
    c == 32
    || (leb 9 c && leb c 13)
    || c == 0x85
    || c == 0xa0
    || c == 0x1680
    || (leb 0x2000 c && leb c 0x200a)
    || c == 0x2028
    || c == 0x2029
    || c == 0x202f
    || c == 0x205f
    || c == 0x3000

unfoldable pub trim_left : String → String
unfolding is_space
trim_left String.[] = String.[]
trim_left (String.◌∷◌ c s) =
    let rest = trim_left s in if is_space (code c) then rest else String.◌∷◌ c s

-- puts a character before a trimmed rest
keep_before : Bool → String → String → String
keep_before space whole String.[] = if space then String.[] else whole
keep_before space whole (String.◌∷◌ c s) = whole

unfoldable pub trim_right : String → String
unfolding is_space keep_before
trim_right String.[] = String.[]
trim_right (String.◌∷◌ c s) =
    let rest = trim_right s in keep_before (is_space (code c)) (String.◌∷◌ c rest) rest

-- `strings.TrimSpace`
unfoldable pub trim_space : String → String
unfolding trim_left trim_right
trim_space s = trim_right (trim_left s)

-- whether a `/` occurs, and `path.Ext`: from the last `.` on, if no `/` is behind it
has_slash : String → Bool
has_slash String.[] = false
has_slash (String.◌∷◌ c s) = code c == b'/' || has_slash s

or_else : String → String → String
or_else String.[] t = t
or_else (String.◌∷◌ c s) t = String.◌∷◌ c s

unfoldable pub ext : String → String
unfolding has_slash or_else
ext String.[] = ""
ext (String.◌∷◌ c s) =
    let later = ext s in
    or_else later (if code c == b'.' && not (has_slash s) then String.◌∷◌ c s else "")

-- `strings.ReplaceAll(s, "\\", "/")`
unfoldable pub to_slashes : String → String
to_slashes String.[] = ""
to_slashes (String.◌∷◌ c s) =
    let rest = to_slashes s in if code c == b'\\' then concat "/" rest else String.◌∷◌ c rest
