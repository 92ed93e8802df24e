-- ===== src/Codex/Block/Lines.antt =====
-- The lines of a managed block are lines to the scanner, which is outside of strings behind each.
use focal_span.Prelude.{
  ℕ, zero, suc, ◌/◌, ◌%◌, ◌≡◌, refl, sym, ◌∙◌, ap, subst, ℤ, pos, negsuc, String, Bool, true, false,
  not, ◌&&◌, ◌||◌, List, [], ◌∷◌, ◌++◌, append-nil, append_assoc, every, every-append, All, ltb,
  ◌==◌, if_both, Bool-cases, inl, inr, arith,
}
use Prim.Native.Char.{code}
use text.Mathlib.TextLemmas.{nil-append, cons-append}
use focal_span.Prelude.Text.{codes, concat, digit, digits_onto, itoa}
use focal_span.Evidence.Wire.{int_text}
use focal_span.Codex.Toml.{
  hex_digit, quote_rune, quote_rest, quote_toml, StringState, toml_string_state, scan, scan_one,
}
use focal_span.Codex.Toml.Quoted.{
  Leads, Leads-trans, Leads-refl, Leads-end, starts_quote, quote_toml-Leads, is_ordinary,
  ordinary-Leads,
}
use focal_span.Codex.Block.{
  RegistrationSpec, is_name_code, is_valid_name, quoted_list, setting_lines, block_lines, bool_text,
}

abbrev pub is_inline : ℕ → Bool
is_inline c = not (c == b'\n') && not (c == b'\r')

-- a line for the scanner, with no string open behind it
abbrev pub IsLine : List ℕ → Type 0
IsLine line =
    (toml_string_state line StringState.outside ≡ StringState.outside)
    × (every is_inline line ≡ true)

abbrev is_simple : ℕ → Bool
is_simple c = is_ordinary c && is_inline c

every-weaken :
    (p q : ℕ → Bool)
    → ((c : ℕ) → p c ≡ true → q c ≡ true)
    → (l : List ℕ) → every p l ≡ true
    → every q l ≡ true
every-weaken p q f [] h = refl
every-weaken p q f (c ∷ l) h =
    let here : p c ≡ true = ground (arith, h) in
    let later : every p l ≡ true = ground (arith, h) in
    ground (arith, f c here, every-weaken p q f l later)

simple-ordinary : (c : ℕ) → is_simple c ≡ true → is_ordinary c ≡ true
simple-ordinary c h = ground (arith, h)

simple-inline : (c : ℕ) → is_simple c ≡ true → is_inline c ≡ true
simple-inline c h = ground (arith, h)

name_code-simple : (c : ℕ) → is_name_code c ≡ true → is_simple c ≡ true
name_code-simple c h = ground (arith, h)

codes-concat : (s t : String) → codes (concat s t) ≡ codes s ++ codes t
codes-concat String.[] t = ap codes (nil-append t)
codes-concat (String.◌∷◌ c s) t =
    ap codes (cons-append c s t) ∙ ap (◌∷◌ (code c)) (codes-concat s t)

abbrev IsSimple : List ℕ → Type 0
IsSimple l = every is_simple l ≡ true

IsSimple-append : (k l : List ℕ) → IsSimple k → IsSimple l → IsSimple (k ++ l)
IsSimple-append k l h g = ground (arith, every-append is_simple k l, h, g)

IsSimple-concat :
    (s t : String) → IsSimple (codes s) → IsSimple (codes t) → IsSimple (codes (concat s t))
IsSimple-concat s t h g =
    subst IsSimple (sym (codes-concat s t)) (IsSimple-append (codes s) (codes t) h g)

digit-IsSimple : (d : ℕ) → IsSimple (codes (digit d))
digit-IsSimple d =
    let P : String → Type 0 = λ s. IsSimple (codes s) in
    if_both P (d == 0) _ _ refl (
      if_both P (d == 1) _ _ refl (
        if_both P (d == 2) _ _ refl (
          if_both P (d == 3) _ _ refl (
            if_both P (d == 4) _ _ refl (
              if_both P (d == 5) _ _ refl (
                if_both P (d == 6) _ _ refl
                  (if_both P (d == 7) _ _ refl (if_both P (d == 8) "8" "9" refl refl))))))))

digits_onto-IsSimple :
    (fuel n : ℕ) (rest : String)
    → IsSimple (codes rest)
    → IsSimple (codes (digits_onto fuel n rest))
unfolding digits_onto
digits_onto-IsSimple zero n rest h = h
digits_onto-IsSimple (suc fuel) n rest h =
    if_both (λ s. IsSimple (codes s)) (ltb n 10) _ _
      (IsSimple-concat (digit n) rest (digit-IsSimple n) h)
      (digits_onto-IsSimple fuel (n / 10) (concat (digit (n % 10)) rest)
        (IsSimple-concat (digit (n % 10)) rest (digit-IsSimple (n % 10)) h))

itoa-IsSimple : (n : ℕ) → IsSimple (codes (itoa n))
unfolding itoa
itoa-IsSimple n = digits_onto-IsSimple (suc n) n "" refl

int_text-IsSimple : (n : ℤ) → IsSimple (codes (int_text n))
unfolding int_text
int_text-IsSimple (pos n) = itoa-IsSimple n
int_text-IsSimple (negsuc n) = IsSimple-concat "-" (itoa (suc n)) refl (itoa-IsSimple (suc n))

simple-Leads :
    (text l : List ℕ) → IsSimple text → Leads StringState.outside (text ++ l) StringState.outside l
simple-Leads text l h =
    ordinary-Leads text l (every-weaken is_simple is_ordinary simple-ordinary text h)

inline_simple : (text : List ℕ) → IsSimple text → every is_inline text ≡ true
inline_simple = every-weaken is_simple is_inline simple-inline

pub simple-IsLine : (text : List ℕ) → IsSimple text → IsLine text
simple-IsLine text h = (
  Leads-end text (
      subst (λ k. Leads StringState.outside k StringState.outside []) (append-nil text)
        (simple-Leads text [] h)),
  inline_simple text h,
)

hex-inline : (d : ℕ) → is_inline (hex_digit d) ≡ true
hex-inline d = ground arith

rune-inline : (r : ℕ) → every is_inline (quote_rune r) ≡ true
unfolding quote_rune
rune-inline r =
    let P : List ℕ → Type 0 = λ q. every is_inline q ≡ true in
    if_both P (r == b'\\') _ _ refl (
      if_both P (r == b'"') _ _ refl (
        if_both P (r == 8) _ _ refl (
          if_both P (r == b'\t') _ _ refl (elim (Bool-cases (r == b'\n')) [
            | inl new ↦ rw new refl
            | inr inner ↦ rw inner (
                if_both P (r == 12) _ _ refl (elim (Bool-cases (r == b'\r')) [
                  | inl return ↦ rw return refl
                  | inr plain ↦ rw plain (
                      if_both P (ltb r 0x20 || r == 0x7f) _ _
                        (ground (arith, hex-inline (r / 16), hex-inline (r % 16)))
                        (if_both P (ltb 0x10ffff r) (0xfffd ∷ []) (r ∷ []) refl
                          (ground (arith, inner, plain))))
                ]))
          ]))))

rest-inline : (v : List ℕ) → every is_inline (quote_rest v) ≡ true
unfolding quote_rest
rest-inline [] = refl
rest-inline (r ∷ rs) =
    ground
      (arith, every-append is_inline (quote_rune r) (quote_rest rs), rune-inline r, rest-inline rs)

quoted-inline : (v : List ℕ) → every is_inline (quote_toml v) ≡ true
unfolding quote_toml
quoted-inline v = rest-inline v

list-inline : (values : List (List ℕ)) → every is_inline (quoted_list values) ≡ true
unfolding quoted_list
list-inline [] = refl
list-inline (v ∷ []) = quoted-inline v
list-inline (v ∷ w ∷ rest) = ground (
  arith,
  every-append is_inline (quote_toml v) (b',' ∷ b' ' ∷ quoted_list (w ∷ rest)),
  quoted-inline v,
  list-inline (w ∷ rest),
)

list-Leads :
    (values : List (List ℕ)) (l : List ℕ)
    → starts_quote l ≡ false
    → Leads StringState.outside (quoted_list values ++ l) StringState.outside l
unfolding quoted_list
list-Leads [] l h = Leads-refl StringState.outside l
list-Leads (v ∷ []) l h = quote_toml-Leads v l h
list-Leads (v ∷ w ∷ rest) l h =
    let o = StringState.outside in
    let more = quoted_list (w ∷ rest) in
    subst (λ k. Leads o k o l) (sym (append_assoc (quote_toml v) (b',' ∷ b' ' ∷ more) l))
      (Leads-trans o o o _ (b',' ∷ b' ' ∷ (more ++ l)) l
        (quote_toml-Leads v (b',' ∷ b' ' ∷ (more ++ l)) refl)
        (Leads-trans o o o _ (more ++ l) l (simple-Leads (b',' ∷ b' ' ∷ []) (more ++ l) refl)
          (list-Leads (w ∷ rest) l h)))

value-IsLine : (text : List ℕ) (value : List ℕ) → IsSimple text → IsLine (text ++ quote_toml value)
value-IsLine text value h =
    let o = StringState.outside in
    (
      Leads-end (text ++ quote_toml value) (
          Leads-trans o o o (text ++ quote_toml value) (quote_toml value) []
            (simple-Leads text (quote_toml value) h)
            (subst (λ k. Leads o k o []) (append-nil (quote_toml value))
              (quote_toml-Leads value [] refl))),
      ground (
        arith,
        every-append is_inline text (quote_toml value),
        inline_simple text h,
        quoted-inline value,
      ),
    )

list-IsLine :
    (text : List ℕ) (values : List (List ℕ))
    → IsSimple text
    → IsLine (text ++ (quoted_list values ++ b']' ∷ []))
list-IsLine text values h =
    let o = StringState.outside in
    let rest = quoted_list values ++ b']' ∷ [] in
    (
      Leads-end (text ++ rest) (
          Leads-trans o o o (text ++ rest) rest [] (simple-Leads text rest h) (
            Leads-trans o o o rest (b']' ∷ []) [] (list-Leads values (b']' ∷ []) refl)
              (simple-Leads (b']' ∷ []) [] refl))),
      ground (
        arith,
        every-append is_inline text rest,
        every-append is_inline (quoted_list values) (b']' ∷ []),
        inline_simple text h,
        list-inline values,
      ),
    )

comment_step :
    (line : List ℕ) → toml_string_state (b'#' ∷ line) StringState.outside ≡ StringState.outside
unfolding toml_string_state scan scan_one
comment_step line = refl

marker-IsLine :
    (text name : List ℕ) → IsSimple text → IsSimple name → IsLine (b'#' ∷ (text ++ name))
marker-IsLine text name h k =
    (comment_step (text ++ name), inline_simple (text ++ name) (IsSimple-append text name h k))

bool-IsSimple : (b : Bool) → IsSimple (codes (bool_text b))
bool-IsSimple true = refl
bool-IsSimple false = refl

-- For a name that is valid, each line of a managed block is one line, without an end of line in it, and the scanner
-- is outside of strings behind it, whatever texts the specification holds.
pub block_lines-IsLine :
    (name : String) (spec : RegistrationSpec)
    → is_valid_name name ≡ true
    → All IsLine (block_lines name spec)
unfolding block_lines setting_lines
block_lines-IsLine name spec valid =
    let named : every is_name_code (codes name) ≡ true = ground (arith, valid) in
    let simple = every-weaken is_name_code is_simple name_code-simple (codes name) named in
    (
      marker-IsLine (codes " BEGIN FOCALSPAN MANAGED MCP: ") (codes name) refl simple,
      (
        simple-IsLine (codes "[mcp_servers." ++ (codes name ++ b']' ∷ [])) (
            IsSimple-append (codes "[mcp_servers.") (codes name ++ b']' ∷ []) refl
              (IsSimple-append (codes name) (b']' ∷ []) simple refl)),
        (
          value-IsLine (codes "command = ") spec.command refl,
          (
            list-IsLine (codes "args = [") spec.args refl,
            (
              simple-IsLine (codes "enabled = " ++ codes (bool_text spec.enabled)) (
                  IsSimple-append (codes "enabled = ") (codes (bool_text spec.enabled)) refl
                    (bool-IsSimple spec.enabled)),
              (
                timeout "startup_timeout_sec = " spec.startup_timeout_sec refl,
                (
                  timeout "tool_timeout_sec = " spec.tool_timeout_sec refl,
                  (
                    list-IsLine (codes "enabled_tools = [") spec.enabled_tools refl,
                    (
                      marker-IsLine (codes " END FOCALSPAN MANAGED MCP: ") (codes name) refl simple,
                      tt,
                    ),
                  ),
                ),
              ),
            ),
          ),
        ),
      ),
    )
  where
    timeout :
        (key : String) (n : ℤ) → IsSimple (codes key) → IsLine (codes key ++ codes (int_text n))
    timeout key n h =
        simple-IsLine (codes key ++ codes (int_text n))
          (IsSimple-append (codes key) (codes (int_text n)) h (int_text-IsSimple n))
