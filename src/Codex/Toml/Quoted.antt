-- ===== src/Codex/Toml/Quoted.antt =====
-- The scanner passes over a quoted text and is outside of strings behind it.
use focal_span.Prelude.{
  ℕ, zero, suc, ◌/◌, ◌%◌, ◌≤◌, ◌<◌, ◌≡◌, refl, sym, ◌∙◌, subst, inl, inr, Bool, true, false, not,
  ◌&&◌, ◌||◌, List, [], ◌∷◌, ◌++◌, append_assoc, some, length, every, ltb, ◌==◌, if◌then◌else◌,
  if_both, Bool-cases, arith,
}
use focal_span.Codex.Toml.{
  hex_digit, quote_rune, quote_rest, quote_toml, StringState, is_triple, scan_one, scan,
  toml_string_state,
}

-- From one state and text the scanner comes to another, whatever the fuel above the length.
abbrev pub Leads : StringState → List ℕ → StringState → List ℕ → Type 0
Leads state line next rest =
    (fuel : ℕ)
    → length line ≤ fuel
    → (left : ℕ) × (length rest ≤ left) × (scan fuel state line ≡ scan left next rest)

Leads-by :
    (state next : StringState) (c : ℕ) (line rest : List ℕ)
    → scan_one state c line ≡ some (next, rest)
    → length rest ≤ length line
    → Leads state (c ∷ line) next rest
unfolding scan
Leads-by state next c line rest e h zero k = absurd (omega (arith, k))
Leads-by state next c line rest e h (suc fuel) k = (fuel, omega (arith, h, k), rw (e, scan) refl)

pub Leads-trans :
    (a b c : StringState) (k l m : List ℕ) → Leads a k b l → Leads b l c m → Leads a k c m
Leads-trans a b c k l m p q fuel h =
    let (left, within, same) = p fuel h in
    let (last, low, equal) = q left within in (last, low, same ∙ equal)

pub Leads-refl : (a : StringState) (k : List ℕ) → Leads a k a k
Leads-refl a k fuel h = (fuel, h, refl)

abbrev is_inner : ℕ → Bool
is_inner c = not (c == b'\\') && not (c == b'"')

basic_step :
    (c : ℕ) (l : List ℕ)
    → is_inner c ≡ true
    → scan_one StringState.basic c l ≡ some (StringState.basic, l)
unfolding scan_one
basic_step c l h = ground (arith, h)

inner :
    (c : ℕ) (l : List ℕ) → is_inner c ≡ true → Leads StringState.basic (c ∷ l) StringState.basic l
inner c l h = Leads-by StringState.basic StringState.basic c l l (basic_step c l h) (omega arith)

escaped : (c : ℕ) (l : List ℕ) → Leads StringState.basic (b'\\' ∷ c ∷ l) StringState.basic l
unfolding scan_one
escaped c l = Leads-by StringState.basic StringState.basic b'\\' (c ∷ l) l refl (omega arith)

hex-inner : (d : ℕ) → d < 16 → is_inner (hex_digit d) ≡ true
hex-inner d h = ground (arith, h)

hexed :
    (a b : ℕ) (l : List ℕ)
    → a < 16
    → b < 16
    → Leads StringState.basic
        (b'\\' ∷ b'u' ∷ b'0' ∷ b'0' ∷ hex_digit a ∷ hex_digit b ∷ l)
        StringState.basic
        l
hexed a b l h k =
    let s = StringState.basic in
    Leads-trans s s s _ _ l (escaped b'u' (b'0' ∷ b'0' ∷ hex_digit a ∷ hex_digit b ∷ l)) (
      Leads-trans s s s _ _ l (inner b'0' (b'0' ∷ hex_digit a ∷ hex_digit b ∷ l) refl) (
        Leads-trans s s s _ _ l (inner b'0' (hex_digit a ∷ hex_digit b ∷ l) refl) (
          Leads-trans s s s _ _ l (inner (hex_digit a) (hex_digit b ∷ l) (hex-inner a h))
            (inner (hex_digit b) l (hex-inner b k)))))

rune : (r : ℕ) (l : List ℕ) → Leads StringState.basic (quote_rune r ++ l) StringState.basic l
unfolding quote_rune
rune r l = elim (Bool-cases (r == b'\\')) [
  | inl back ↦ rw back (escaped b'\\' l)
  | inr a ↦ rw a (elim (Bool-cases (r == b'"')) [
    | inl mark ↦ rw mark (escaped b'"' l)
    | inr b ↦ rw b (
        if_both P (r == 8) _ _ (escaped b'b' l) (
          if_both P (r == b'\t') _ _ (escaped b't' l) (
            if_both P (r == b'\n') _ _ (escaped b'n' l) (
              if_both P (r == 12) _ _ (escaped b'f' l)
                (if_both P (r == b'\r') _ _ (escaped b'r' l) (last r a b))))))
  ])
]
  where
    P : List ℕ → Type 0
    P q = Leads StringState.basic (q ++ l) StringState.basic l

    last :
        (r : ℕ)
        → (r == b'\\') ≡ false
        → (r == b'"') ≡ false
        → P (
            if ltb r 0x20 || r == 0x7f
            then b'\\' ∷ b'u' ∷ b'0' ∷ b'0' ∷ hex_digit (r / 16) ∷ hex_digit (r % 16) ∷ []
            else if ltb 0x10ffff r
            then 0xfffd ∷ []
            else r ∷ [])
    last r a b = elim (Bool-cases (ltb r 0x20 || r == 0x7f)) [
      | inl control ↦
          let low : r < 128 = ground (arith, control) in
          rw control (hexed (r / 16) (r % 16) l (omega (arith, low)) (omega arith))
      | inr other ↦ rw other (
          if_both P (ltb 0x10ffff r) (0xfffd ∷ []) (r ∷ []) (inner 0xfffd l refl)
            (inner r l (ground (arith, a, b))))
    ]

quote_rest-Leads :
    (v l : List ℕ) → Leads StringState.basic (quote_rest v ++ l) StringState.outside l
unfolding quote_rest scan_one
quote_rest-Leads [] l = Leads-by StringState.basic StringState.outside b'"' l l refl (omega arith)
quote_rest-Leads (r ∷ rs) l =
    subst (λ k. Leads StringState.basic k StringState.outside l)
      (sym (append_assoc (quote_rune r) (quote_rest rs) l))
      (Leads-trans StringState.basic StringState.basic StringState.outside _ _ l
        (rune r (quote_rest rs ++ l)) (quote_rest-Leads rs l))

-- whether a text begins with a double quote
abbrev pub starts_quote : List ℕ → Bool
starts_quote [] = false
starts_quote (c ∷ l) = c == b'"'

rune-starts : (r : ℕ) (l : List ℕ) → starts_quote (quote_rune r ++ l) ≡ false
unfolding quote_rune
rune-starts r l = elim (Bool-cases (r == b'\\')) [
  | inl back ↦ rw back refl
  | inr a ↦ rw a (elim (Bool-cases (r == b'"')) [
    | inl mark ↦ rw mark refl
    | inr b ↦ rw b (
        if_both P (r == 8) _ _ refl (
          if_both P (r == b'\t') _ _ refl (
            if_both P (r == b'\n') _ _ refl (
              if_both P (r == 12) _ _ refl (
                if_both P (r == b'\r') _ _ refl (
                  if_both P (ltb r 0x20 || r == 0x7f) _ _ refl
                    (if_both P (ltb 0x10ffff r) (0xfffd ∷ []) (r ∷ []) refl b)))))))
  ])
]
  where
    P : List ℕ → Type 0
    P q = starts_quote (q ++ l) ≡ false

not_triple : (l : List ℕ) → starts_quote l ≡ false → is_triple b'"' l ≡ false
unfolding is_triple
not_triple [] h = refl
not_triple (a ∷ []) h = refl
not_triple (a ∷ b ∷ l) h = ground (arith, h)

not_triple_text :
    (v l : List ℕ) → starts_quote l ≡ false → is_triple b'"' (quote_rest v ++ l) ≡ false
unfolding quote_rest is_triple
not_triple_text [] [] h = refl
not_triple_text [] (a ∷ l) h = ground (arith, h)
not_triple_text (r ∷ rs) l h = not_triple ((quote_rune r ++ quote_rest rs) ++ l) (
    subst (λ k. starts_quote k ≡ false) (sym (append_assoc (quote_rune r) (quote_rest rs) l))
      (rune-starts r (quote_rest rs ++ l)))

-- The scanner passes over a quoted value, if no double quote stands directly behind it.
pub quote_toml-Leads :
    (v l : List ℕ)
    → starts_quote l ≡ false
    → Leads StringState.outside (quote_toml v ++ l) StringState.outside l
unfolding quote_toml scan_one
quote_toml-Leads v l h =
    let single = not_triple_text v l h in
    Leads-trans StringState.outside StringState.basic StringState.outside _ (quote_rest v ++ l) l
      (Leads-by StringState.outside StringState.basic b'"' (quote_rest v ++ l) (quote_rest v ++ l)
        (rw single refl) (omega arith))
      (quote_rest-Leads v l)

-- characters that the scanner passes over outside of strings
abbrev pub is_ordinary : ℕ → Bool
is_ordinary c = not (c == b'#') && not (c == b'"') && not (c == b'\'')

outside_step :
    (c : ℕ) (l : List ℕ)
    → is_ordinary c ≡ true
    → scan_one StringState.outside c l ≡ some (StringState.outside, l)
unfolding scan_one
outside_step c l h = ground (arith, h)

pub ordinary-Leads :
    (text l : List ℕ)
    → every is_ordinary text ≡ true
    → Leads StringState.outside (text ++ l) StringState.outside l
ordinary-Leads [] l h = Leads-refl StringState.outside l
ordinary-Leads (c ∷ text) l h =
    let here : is_ordinary c ≡ true = ground (arith, h) in
    let later : every is_ordinary text ≡ true = ground (arith, h) in
    Leads-trans StringState.outside StringState.outside StringState.outside _ (text ++ l) l
      (Leads-by StringState.outside StringState.outside c (text ++ l) (text ++ l)
        (outside_step c (text ++ l) here) (omega arith))
      (ordinary-Leads text l later)

scan-nil : (fuel : ℕ) (state : StringState) → scan fuel state [] ≡ state
unfolding scan
scan-nil zero state = refl
scan-nil (suc fuel) state = refl

pub Leads-end :
    (line : List ℕ)
    → Leads StringState.outside line StringState.outside []
    → toml_string_state line StringState.outside ≡ StringState.outside
unfolding toml_string_state
Leads-end line h =
    let (left, low, same) = h (length line) (omega arith) in
    same ∙ scan-nil left StringState.outside
