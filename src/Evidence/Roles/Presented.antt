-- ===== src/Evidence/Roles/Presented.antt =====
-- The order in which `Classify` and `SortForPresentation` give the candidates.
use mathlib.Core.List.{Perm}
use focal_span.Prelude.{
  ℕ, suc, ◌≤◌, ◌<◌, ◌≡◌, refl, ap, ◌∙◌, ◌⊎◌, inl, inr, String, Bool, true, false, List, [], ◌∷◌,
  map, keep, Option, none, some, length, All, arith, Bool-cases,
}
use focal_span.Prelude.Sort.{insert_by, sort_by, Pairwise, All-insert_by, sort_by-Perm}
use focal_span.Prelude.Text.{to_slashes}
use focal_span.Evidence.Model.{Role}
use focal_span.Evidence.Candidate.{Plan, RankedCandidate, ClassifiedCandidate, PresentationKey}
use focal_span.Evidence.Runtime.{Floats, TextTables}
use focal_span.Evidence.Compiler.Build.{key_before}
use focal_span.Evidence.Roles.{relation_role}
use focal_span.Evidence.Roles.Classify.{
  classify, classify_from, classify_role, other_role, evidence_role, exact_target_index, is_at,
  with_key, presented_before, sort_for_presentation,
}

-- Insertion orders a list by any preorder that the comparison agrees with.
module _ {ℓ} {A : Type ℓ} (Before : A → A → Type 0) (less : A → A → Bool)
    (chain : (x y z : A) → Before x y → Before y z → Before x z)
    (up : (x y : A) → less y x ≡ true → Before y x)
    (down : (x y : A) → less y x ≡ false → Before x y) where
  All-chain : (x y : A) (zs : List A) → Before x y → All (Before y) zs → All (Before x) zs
  All-chain x y [] h k = tt
  All-chain x y (z ∷ zs) h k = (chain x y z h k.0, All-chain x y zs h k.1)

  insert_by-Pairwise :
      (x : A) (ys : List A) → Pairwise Before ys → Pairwise Before (insert_by less x ys)
  unfolding insert_by
  insert_by-Pairwise x [] h = (tt, tt)
  insert_by-Pairwise x (y ∷ ys) h = elim (Bool-cases (less y x)) [
    | inl e ↦ rw e (All-insert_by (Before y) less x ys (up x y e) h.0, insert_by-Pairwise x ys h.1)
    | inr e ↦ rw e ((down x y e, All-chain x y ys (down x y e) h.0), h)
  ]

  sort_by-Pairwise : (xs : List A) → Pairwise Before (sort_by less xs)
  unfolding sort_by
  sort_by-Pairwise [] = tt
  sort_by-Pairwise (x ∷ xs) = insert_by-Pairwise x (sort_by less xs) (sort_by-Pairwise xs)

-- by the priority of the role, and then by the rank
abbrev pub KeyBefore : PresentationKey → PresentationKey → Type 0
KeyBefore a b =
    (a.role_priority < b.role_priority)
    ⊎ ((a.role_priority ≡ b.role_priority) × (a.original_rank ≤ b.original_rank))

KeyBefore-chain : (a b c : PresentationKey) → KeyBefore a b → KeyBefore b c → KeyBefore a c
KeyBefore-chain a b c (inl h) (inl k) = inl (omega arith)
KeyBefore-chain a b c (inl h) (inr k) = inl (omega (arith, k.0))
KeyBefore-chain a b c (inr h) (inl k) = inl (omega (arith, h.0))
KeyBefore-chain a b c (inr h) (inr k) = inr (h.0 ∙ k.0, omega (arith, h.1, k.1))

key_before-up : (a b : PresentationKey) → key_before b a ≡ true → KeyBefore b a
unfolding key_before
key_before-up a b h = ground arith

key_before-down : (a b : PresentationKey) → key_before b a ≡ false → KeyBefore a b
unfolding key_before
key_before-down a b h = ground arith

abbrev is_target : Role → Bool
is_target Role.target = true
is_target _ = false

module _ (t : TextTables) where
  evidence_role-other :
      (kind path symbol language : String)
      → is_target (evidence_role t kind path symbol language) ≡ false
  unfolding evidence_role
  evidence_role-other kind path symbol language = ground arith

  other_role-other : {F : Type 0} (c : RankedCandidate F) → is_target (other_role t c) ≡ false
  unfolding other_role relation_role
  other_role-other c = ground (
    arith,
    evidence_role-other (t.to_lower c.kind) (t.to_lower (to_slashes c.path)) c.symbol c.language,
  )

  classify_role-other :
      {F : Type 0} (plan : Plan) (c : RankedCandidate F)
      → is_target (classify_role t plan c false) ≡ false
  unfolding classify_role
  classify_role-other plan c = ground (arith, other_role-other c)

is_at-past : (o : Option ℕ) (i j : ℕ) → is_at o i ≡ true → i < j → is_at o j ≡ false
is_at-past none i j h k = refl
is_at-past (some target) i j h k = ground arith

module _ (fl : Floats) (t : TextTables) (plan : Plan) where
  open fl use {F}

  abbrev pub targets : List (ClassifiedCandidate F) → List (ClassifiedCandidate F)
  targets cs = keep (λ (c : ClassifiedCandidate F). is_target c.role) cs

  no_targets :
      (o : Option ℕ) (i : ℕ) (cs : List (RankedCandidate F))
      → ((j : ℕ) → i ≤ j → is_at o j ≡ false)
      → length (targets (classify_from fl t plan o i cs)) ≡ 0
  unfolding classify_from
  no_targets o i [] h = refl
  no_targets o i (c ∷ cs) h =
      rw (h i (omega arith)) (
        rw (classify_role-other t plan c) (no_targets o (suc i) cs (λ j k. h j (omega (arith, k)))))

  one_target :
      (o : Option ℕ) (i : ℕ) (cs : List (RankedCandidate F))
      → length (targets (classify_from fl t plan o i cs)) ≤ 1
  unfolding classify_from
  one_target o i [] = omega arith
  one_target o i (c ∷ cs) = elim (Bool-cases (is_at o i)) [
    | inl here ↦
        ground (arith, no_targets o (suc i) cs (λ j k. is_at-past o i j here (omega (arith, k))))
    | inr elsewhere ↦ rw elsewhere (rw (classify_role-other t plan c) (one_target o (suc i) cs))
  ]

  -- the ranks from a number on
  abbrev pub HasRanksFrom : ℕ → List (ClassifiedCandidate F) → Type 0
  HasRanksFrom i [] = Unit
  HasRanksFrom i (c ∷ cs) = (c.original_rank ≡ i) × HasRanksFrom (suc i) cs

  classify_from-ranks :
      (o : Option ℕ) (i : ℕ) (cs : List (RankedCandidate F))
      → (map (λ (c : ClassifiedCandidate F). c.candidate) (classify_from fl t plan o i cs) ≡ cs)
        × HasRanksFrom i (classify_from fl t plan o i cs)
  unfolding classify_from
  classify_from-ranks o i [] = (refl, tt)
  classify_from-ranks o i (c ∷ cs) =
      let rest = classify_from-ranks o (suc i) cs in (ap (◌∷◌ c) rest.0, (refl, rest.1))

  -- `classify` keeps the candidates and their order, gives them the ranks 0, 1, … and makes at most one
  -- of them the target.
  pub classify_lem :
      (cs : List (RankedCandidate F))
      → (map (λ (c : ClassifiedCandidate F). c.candidate) (classify fl t plan cs) ≡ cs)
        × HasRanksFrom 0 (classify fl t plan cs)
        × (length (targets (classify fl t plan cs)) ≤ 1)
  unfolding classify
  classify_lem cs =
      let o = exact_target_index t plan cs in
      let ranks = classify_from-ranks o 0 cs in (ranks.0, ranks.1, one_target o 0 cs)

-- `sort_for_presentation` only sets the keys and reorders: the result is a
-- permutation of the candidates with their keys, the priorities of the result never fall, and
-- where they are equal the ranks never fall.
pub sort_for_presentation_lem :
    (fl : Floats) (plan : Plan) (cs : List (ClassifiedCandidate fl.F))
    → Pairwise
        (λ a b. KeyBefore a.presentation_key b.presentation_key)
        (sort_for_presentation fl plan cs)
      × Perm (sort_for_presentation fl plan cs) (map (with_key fl plan) cs)
unfolding sort_for_presentation
sort_for_presentation_lem fl plan cs = (
  sort_by-Pairwise (λ a b. KeyBefore a.presentation_key b.presentation_key) (presented_before fl)
      (λ a b c. KeyBefore-chain a.presentation_key b.presentation_key c.presentation_key)
      (λ a b. key_before-up a.presentation_key b.presentation_key)
      (λ a b. key_before-down a.presentation_key b.presentation_key) (map (with_key fl plan) cs),
  sort_by-Perm (presented_before fl) (map (with_key fl plan) cs),
)
