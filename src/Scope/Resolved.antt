-- ===== src/Scope/Resolved.antt =====
-- `Resolve` of internal/phpscope/resolve.go stops at the first name that has symbols.
use focal_span.Prelude.{
  ◌≡◌, refl, ap, ◌⊎◌, inl, inr, String, true, false, List, [], ◌∷◌, ◌++◌, keep, All, Bool-cases,
}
use focal_span.Evidence.Validate.{is_nil}
use focal_span.Evidence.Runtime.{TextTables}
use focal_span.Scope.Php.{Symbol, candidates, matches, resolve_names, resolve}

no_elements : {A : Type 0} (xs : List A) → is_nil xs ≡ true → xs ≡ []
no_elements [] h = refl
no_elements (x ∷ xs) h = cc

module _ (t : TextTables) (symbols : List Symbol) where
  abbrev pub found : String → List Symbol
  found name = keep (matches t name) symbols

  -- the symbols of the first name that has some
  abbrev pub IsFirst : List String → List Symbol → Type 0
  IsFirst names result =
      ((result ≡ []) × All (λ name. found name ≡ []) names)
      ⊎ ((before : List String) × (name : String) × (after : List String) × (names
            ≡ before ++ name ∷ after)
          × All (λ other. found other ≡ []) before
          × (result ≡ found name)
          × (is_nil result ≡ false))

  IsFirst-later :
      (name : String) (names : List String) (result : List Symbol)
      → found name ≡ []
      → IsFirst names result
      → IsFirst (name ∷ names) result
  IsFirst-later name names result e (inl (nothing, others)) = inl (nothing, (e, others))
  IsFirst-later name names result e (inr (before, first, after, same, others, equal, some_found)) =
      inr (name ∷ before, first, after, ap (◌∷◌ name) same, (e, others), equal, some_found)

  resolve_names-IsFirst : (names : List String) → IsFirst names (resolve_names t symbols names)
  unfolding resolve_names
  resolve_names-IsFirst [] = inl (refl, tt)
  resolve_names-IsFirst (name ∷ rest) = elim (Bool-cases (is_nil (found name))) [
    | inl empty ↦ rw empty (
        IsFirst-later name rest (resolve_names t symbols rest) (no_elements (found name) empty)
          (resolve_names-IsFirst rest))
    | inr full ↦ rw full (inr ([], name, rest, refl, tt, refl, full))
  ]

  -- `resolve` returns all symbols that match the first of the candidate names that any symbol matches, and none
  -- if no symbol matches a candidate name.
  pub resolve-IsFirst :
      (from : Symbol) (target : String)
      → IsFirst (candidates t from target) (resolve t from target symbols)
  unfolding resolve
  resolve-IsFirst from target = resolve_names-IsFirst (candidates t from target)
