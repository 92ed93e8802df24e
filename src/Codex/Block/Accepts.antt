-- ===== src/Codex/Block/Accepts.antt =====
-- When `BuildManagedBlock` returns a block.
use focal_span.Prelude.{
  ℕ, ◌≡◌, refl, sym, ap₂, subst, ◌↔◌, pos, ◌≤ℤ◌, String, true, false, ◌||◌, List, [], ◌∷◌, ◌++◌,
  none, some, every, All, Bool-cases, Option-cases, inl, inr, arith,
}
use focal_span.Prelude.Text.{has_code, same_codes}
use focal_span.Codex.Bounds.Pieces.{same_codes_refl}
use focal_span.Codex.Block.{
  RegistrationSpec, is_code_point, all_tools, is_valid_name, same_texts, check_values,
  check_settings, validate_toml_values, block, refused, BlockError, with_newlines, block_lines,
  build_managed_block,
}

-- valid UTF-8 without NUL and ends of line
abbrev pub IsClean : List ℕ → Type 0
IsClean value =
    (every is_code_point value ≡ true)
    × (has_code 0 value ≡ false)
    × (has_code b'\r' value ≡ false)
    × (has_code b'\n' value ≡ false)

abbrev values_of : RegistrationSpec → List (List ℕ)
values_of spec = (spec.command ∷ spec.args) ++ spec.enabled_tools

-- a specification and a name that the configuration can hold
abbrev pub IsRegistrable : String → RegistrationSpec → Type 0
IsRegistrable name spec =
    (is_valid_name name ≡ true)
    × All IsClean (values_of spec)
    × (pos 1 ≤ℤ spec.startup_timeout_sec)
    × (pos 1 ≤ℤ spec.tool_timeout_sec)
    × (spec.enabled_tools ≡ all_tools)

not_none {ℓ} : {A : Type 0} {B : Type ℓ} {x : A} → some x ≡ none → B
not_none h = cc

check_values-IsClean : (values : List (List ℕ)) → check_values values ≡ none → All IsClean values
unfolding check_values
check_values-IsClean [] h = tt
check_values-IsClean (v ∷ rest) h = elim (Bool-cases (every is_code_point v)) [
  | inr broken ↦ not_none (rw broken at h)
  | inl utf8 ↦ elim (Bool-cases (has_code 0 v)) [
    | inl nul ↦ not_none (rw (utf8, nul) at h)
    | inr no_nul ↦ elim (Bool-cases (has_code b'\r' v || has_code b'\n' v)) [
      | inl ends ↦ not_none (rw (utf8, no_nul, ends) at h)
      | inr inline ↦ (
        (utf8, no_nul, ground (arith, inline), ground (arith, inline)),
        check_values-IsClean rest (rw (utf8, no_nul, inline) at h),
      )
    ]
  ]
]

clean-check_values : (values : List (List ℕ)) → All IsClean values → check_values values ≡ none
unfolding check_values
clean-check_values [] h = refl
clean-check_values (v ∷ rest) h =
    let (utf8, nul, cr, lf) = h.0 in rw (utf8, nul, cr, lf) (clean-check_values rest h.1)

same_codes-eq : (k l : List ℕ) → same_codes k l ≡ true → k ≡ l
unfolding same_codes
same_codes-eq [] [] h = refl
same_codes-eq [] (d ∷ l) h = cc
same_codes-eq (c ∷ k) [] h = cc
same_codes-eq (c ∷ k) (d ∷ l) h =
    let here : c ≡ d = ground (arith, h) in
    let later : same_codes k l ≡ true = ground (arith, h) in ap₂ ◌∷◌ here (same_codes-eq k l later)

same_texts-eq : (xs ys : List (List ℕ)) → same_texts xs ys ≡ true → xs ≡ ys
unfolding same_texts
same_texts-eq [] [] h = refl
same_texts-eq [] (y ∷ ys) h = cc
same_texts-eq (x ∷ xs) [] h = cc
same_texts-eq (x ∷ xs) (y ∷ ys) h =
    let here : same_codes x y ≡ true = ground (arith, h) in
    let later : same_texts xs ys ≡ true = ground (arith, h) in
    ap₂ ◌∷◌ (same_codes-eq x y here) (same_texts-eq xs ys later)

same_texts_refl : (xs : List (List ℕ)) → same_texts xs xs ≡ true
unfolding same_texts
same_texts_refl [] = refl
same_texts_refl (x ∷ xs) = rw (same_codes_refl x) (same_texts_refl xs)

settings-none :
    (spec : RegistrationSpec)
    → validate_toml_values spec ≡ none
    → All IsClean (values_of spec)
      × (pos 1 ≤ℤ spec.startup_timeout_sec)
      × (pos 1 ≤ℤ spec.tool_timeout_sec)
      × (spec.enabled_tools ≡ all_tools)
unfolding validate_toml_values
settings-none spec h = elim (Option-cases (check_values (values_of spec))) [
  | inr (reason, e) ↦ not_none (rw e at h)
  | inl clean ↦ rest clean (rw clean at h)
]
  where
    rest :
        check_values (values_of spec) ≡ none
        → check_settings spec ≡ none
        → All IsClean (values_of spec)
          × (pos 1 ≤ℤ spec.startup_timeout_sec)
          × (pos 1 ≤ℤ spec.tool_timeout_sec)
          × (spec.enabled_tools ≡ all_tools)
    rest clean h =
        let same : same_texts spec.enabled_tools all_tools ≡ true = ground (arith, h) in
        (
          check_values-IsClean (values_of spec) clean,
          ground (arith, h),
          ground (arith, h),
          same_texts-eq spec.enabled_tools all_tools same,
        )

none-settings :
    (spec : RegistrationSpec)
    → All IsClean (values_of spec)
    → pos 1 ≤ℤ spec.startup_timeout_sec
    → pos 1 ≤ℤ spec.tool_timeout_sec
    → spec.enabled_tools ≡ all_tools
    → validate_toml_values spec ≡ none
unfolding validate_toml_values
none-settings spec clean first second tools =
    let same : same_texts spec.enabled_tools all_tools ≡ true =
      subst (λ ts. same_texts ts all_tools ≡ true) (sym tools) (same_texts_refl all_tools) in
    rw (clean-check_values (values_of spec) clean) (ground (arith, first, second, same))

refused_block {ℓ} :
    {B : Type ℓ} {reason : BlockError} {text : List ℕ} → refused reason ≡ block text → B
refused_block h = cc

-- `build_managed_block` returns the lines of the block, each with its newline, exactly for a name of the
-- pattern, values of valid UTF-8 without NUL or an end of line, positive timeouts and the list of all tools.
pub build_managed_block_iff :
    (name : String) (spec : RegistrationSpec)
    → (build_managed_block name spec ≡ block (with_newlines (block_lines name spec)))
      ↔ IsRegistrable name spec
unfolding build_managed_block
build_managed_block_iff name spec = (to, from)
  where
    to :
        build_managed_block name spec ≡ block (with_newlines (block_lines name spec))
        → IsRegistrable name spec
    to h = elim (Bool-cases (is_valid_name name)) [
      | inr wrong ↦ refused_block (rw wrong at h)
      | inl right ↦ elim (Option-cases (validate_toml_values spec)) [
        | inr (reason, e) ↦ refused_block (rw (right, e) at h)
        | inl valid ↦
            let (clean, first, second, tools) = settings-none spec valid in
            (right, clean, first, second, tools)
      ]
    ]

    from :
        IsRegistrable name spec
        → build_managed_block name spec ≡ block (with_newlines (block_lines name spec))
    from (right, clean, first, second, tools) =
        rw (right, none-settings spec clean first second tools) refl
