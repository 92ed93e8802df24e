-- ===== src/Evidence/Known/Normalized.antt =====
-- What `NormalizeKnownHandles` returns.
use focal_span.Prelude.{
  ℕ, suc, ◌+◌, ◌≤◌, ◌≡◌, refl, sym, ◌∙◌, subst, String, Bool, true, false, not, ◌&&◌, ◌||◌, List,
  [], ◌∷◌, ◌++◌, map, any, any-append, length, length-append, All, All-append, ltb, str_eq, arith,
  eq_iff, Bool-cases, inl, inr,
}
use focal_span.Prelude.Text.{trim_space}
use focal_span.Prelude.Sort.{Pairwise}
use focal_span.Evidence.Validate.{blank}
use focal_span.Evidence.Known.{
  KnownHandles, ok, err, byte_length, has_control, add_handle, normalize_from,
  normalize_known_handles,
}

abbrev pub IsUsable : String → Type 0
IsUsable h = (blank h ≡ false) × (byte_length h ≤ 256) × (has_control h ≡ false)

abbrev pub Differ : String → String → Type 0
Differ a b = str_eq b a ≡ false

Pairwise-snoc :
    (xs : List String) (y : String)
    → Pairwise Differ xs
    → any (str_eq y) xs ≡ false
    → Pairwise Differ (xs ++ y ∷ [])
Pairwise-snoc [] y h k = (tt, tt)
Pairwise-snoc (x ∷ xs) y h k = (
  All-append (Differ x) xs (y ∷ []) h.0 (ground arith, tt),
  Pairwise-snoc xs y h.1 (ground arith),
)

-- whether a handle stands in a result or comes from the values that follow
abbrev in_either : List String → List String → String → Bool
in_either result values h =
    any (str_eq h) result || (not (blank h) && any (str_eq h) (map trim_space values))

skipped-members :
    (result vs : List String) (v h : String)
    → blank (trim_space v) ≡ true
    → in_either result vs h ≡ in_either result (v ∷ vs) h
skipped-members result vs v h k = ground (arith, eq_iff h (trim_space v))

any-same :
    (xs : List String) (v h : String)
    → any (str_eq v) xs ≡ true
    → str_eq h v ≡ true
    → any (str_eq h) xs ≡ true
any-same xs v h k e = subst (λ s. any (str_eq s) xs ≡ true) (sym ((eq_iff h v).0 e)) k

added-members :
    (result vs : List String) (v h : String)
    → blank (trim_space v) ≡ false
    → in_either (add_handle result (trim_space v)) vs h ≡ in_either result (v ∷ vs) h
unfolding add_handle
added-members result vs v h k = elim (Bool-cases (any (str_eq (trim_space v)) result)) [
  | inl there ↦ elim (Bool-cases (str_eq h (trim_space v))) [
    | inl same ↦ rw there (rw (any-same result (trim_space v) h there same) refl)
    | inr other ↦ rw there (rw other refl)
  ]
  | inr absent ↦
      ground (arith, any-append (str_eq h) result (trim_space v ∷ []), eq_iff h (trim_space v))
]

-- what a result of the loop has
abbrev Normal : List String → List String → KnownHandles → Type 0
Normal result values (err reason) = Unit
Normal result values (ok hs) =
    All IsUsable hs
    × Pairwise Differ hs
    × (length hs ≤ length result + length values)
    × ((h : String) → any (str_eq h) hs ≡ in_either result values h)

add_handle-Normal :
    (result : List String) (value : String)
    → All IsUsable result
    → Pairwise Differ result
    → IsUsable value
    → All IsUsable (add_handle result value)
      × Pairwise Differ (add_handle result value)
      × (length (add_handle result value) ≤ suc (length result))
unfolding add_handle
add_handle-Normal result value usable differ good = elim (Bool-cases (any (str_eq value) result)) [
  | inl there ↦ rw there (usable, differ, omega arith)
  | inr absent ↦ rw absent (
    All-append IsUsable result (value ∷ []) usable (good, tt),
    Pairwise-snoc result value differ absent,
    omega (arith, length-append result (value ∷ [])),
  )
]

-- a result for the values behind the first one is a result for all of them
widen :
    (result next vs : List String) (v : String) (r : KnownHandles)
    → length next ≤ suc (length result)
    → ((h : String) → in_either next vs h ≡ in_either result (v ∷ vs) h)
    → Normal next vs r
    → Normal result (v ∷ vs) r
widen result next vs v (err reason) few members n = tt
widen result next vs v (ok hs) few members n =
    let (usable, differ, count, same) = n in
    (usable, differ, omega (arith, few, count), λ h. same h ∙ members h)

normalize_from-Normal :
    (index : ℕ) (result values : List String)
    → All IsUsable result
    → Pairwise Differ result
    → Normal result values (normalize_from index result values)
unfolding normalize_from
normalize_from-Normal index result [] usable differ =
    (usable, differ, omega arith, λ h. ground arith)
normalize_from-Normal index result (v ∷ vs) usable differ =
    elim (Bool-cases (blank (trim_space v))) [
      | inl empty ↦ rw empty (
          widen result result vs v (normalize_from (suc index) result vs) (omega arith)
            (λ h. skipped-members result vs v h empty)
            (normalize_from-Normal (suc index) result vs usable differ))
      | inr full ↦ elim (Bool-cases (ltb 256 (byte_length (trim_space v)))) [
        | inl long ↦ rw full (rw long tt)
        | inr short ↦ elim (Bool-cases (has_control (trim_space v))) [
          | inl bad ↦ rw full (rw short (rw bad tt))
          | inr good ↦
              let grown =
                add_handle-Normal result (trim_space v) usable differ (full, ground arith, good) in
              rw full (
                rw short (
                  rw good (
                    widen result (add_handle result (trim_space v)) vs v
                      (normalize_from (suc index) (add_handle result (trim_space v)) vs) grown.2
                      (λ h. added-members result vs v h full)
                      (normalize_from-Normal (suc index) (add_handle result (trim_space v)) vs
                        grown.0 grown.1))))
        ]
      ]
    ]

abbrev Bounded : List String → KnownHandles → Type 0
Bounded values (err reason) = Unit
Bounded values (ok hs) = Normal [] values (ok hs) × (length values ≤ 512)

bound :
    (values : List String) (r : KnownHandles)
    → Normal [] values r
    → length values ≤ 512
    → Bounded values r
bound values (err reason) n few = tt
bound values (ok hs) n few = (n, few)

normalize_known_handles-Bounded :
    (values : List String) → Bounded values (normalize_known_handles values)
unfolding normalize_known_handles
normalize_known_handles-Bounded values = elim (Bool-cases (ltb 512 (length values))) [
  | inl many ↦ rw many tt
  | inr few ↦ rw few (
      bound values (normalize_from 0 [] values) (normalize_from-Normal 0 [] values tt tt)
        (ground arith))
]

-- The handles that `normalize_known_handles` returns are not blank, have 256 bytes at most and no control
-- character, and differ; they are 512 at most; and they are the values, trimmed, that are not blank.
pub normalize_known_handles_lem :
    (values hs : List String)
    → normalize_known_handles values ≡ ok hs
    → All IsUsable hs
      × Pairwise Differ hs
      × (length hs ≤ 512)
      × ((h : String)
          → any (str_eq h) hs ≡ (not (blank h) && any (str_eq h) (map trim_space values)))
normalize_known_handles_lem values hs e =
    let ((usable, differ, count, same), few) =
      subst (Bounded values) e (normalize_known_handles-Bounded values) in
    (usable, differ, omega (arith, count, few), same)
