-- ===== src/Evidence/Compiler/Select/Finished.antt =====
-- The loops of the selection end: as many rounds as they are given are enough.
use focal_span.Prelude.{
  ℕ, zero, suc, ◌+◌, ◌≤◌, ◌<◌, ◌≡◌, refl, ap, ◌⊎◌, inl, inr, ℤ, pos, ◌+ℤ◌, Bool, false, not, ◌&&◌,
  List, [], ◌∷◌, ◌++◌, none, length, length-append, ltb, arith, Bool-cases, Option-cases,
}
use focal_span.Evidence.Wire.{Encoder}
use focal_span.Evidence.Guidance.{is_anchor_role, over_limit}
use focal_span.Evidence.Runtime.{Floats}
use focal_span.Evidence.Compiler.Utility.{SelectedCandidate}
use focal_span.Evidence.Compiler.Build.{build_packet}
use focal_span.Evidence.Compiler.Select.{
  Run, selection_limit, select_anchor, best_option, select_rounds, select_all, lowest_from,
  lowest_utility_non_anchor, remove_at, shrink,
}

length-remove_at {ℓ} :
    {A : Type ℓ} (i : ℕ) (xs : List A) → i < length xs → suc (length (remove_at i xs)) ≡ length xs
unfolding remove_at
length-remove_at i [] h = omega (arith, h)
length-remove_at zero (x ∷ xs) h = refl
length-remove_at (suc i) (x ∷ xs) h = ap suc (length-remove_at i xs (omega (arith, h)))

module _ (fl : Floats) (e : Encoder) where
  open fl use {F}

  lowest_from-bound :
      (ss : List (SelectedCandidate F)) (i : ℕ) (many : Bool) (lowest : F) (index n : ℕ)
      → index < n
      → i + length ss ≤ n
      → lowest_from fl e i many lowest index ss < n
  unfolding lowest_from
  lowest_from-bound [] i many lowest index n h k = h
  lowest_from-bound (s ∷ ss) i many lowest index n h k =
      elim (Bool-cases
        (not (is_anchor_role s.prepared.classified.role && many) && fl.lt s.utility lowest)) [
          | inl lower ↦ rw lower (
              lowest_from-bound ss (suc i) many s.utility i n (omega (arith, k)) (omega (arith, k)))
          | inr higher ↦
              rw higher (lowest_from-bound ss (suc i) many lowest index n h (omega (arith, k)))
        ]

  lowest-bound :
      (s : SelectedCandidate F) (ss : List (SelectedCandidate F))
      → lowest_utility_non_anchor fl e (s ∷ ss) < length (s ∷ ss)
  unfolding lowest_utility_non_anchor
  lowest-bound s ss =
      lowest_from-bound (s ∷ ss) 0 _ _ _ (length (s ∷ ss)) (omega arith) (omega arith)

  module _ (run : Run F) where
    -- the test of the removal loop, for a selection and the count of what it leaves out
    abbrev pub too_big : List (SelectedCandidate F) → ℤ → Bool
    too_big selected omitted =
        over_limit (build_packet fl e run.req run.mode run.limit selected omitted run.skipped_known)

    shrink-ends :
        (fuel : ℕ) (omitted : ℤ) (selected : List (SelectedCandidate F))
        → length selected ≤ fuel
        → (too_big
              (shrink fl e fuel run omitted selected).0
              (shrink fl e fuel run omitted selected).1
            ≡ false)
          ⊎ ((shrink fl e fuel run omitted selected).0 ≡ [])
    unfolding shrink
    shrink-ends zero omitted [] h = inr refl
    shrink-ends zero omitted (s ∷ ss) h = ground (arith, h)
    shrink-ends (suc fuel) omitted [] h = ground arith
    shrink-ends (suc fuel) omitted (s ∷ ss) h = elim (Bool-cases (too_big (s ∷ ss) omitted)) [
      | inl over ↦ rw over (
          shrink-ends fuel (omitted +ℤ pos 1)
            (remove_at (lowest_utility_non_anchor fl e (s ∷ ss)) (s ∷ ss))
            (omega (
              arith,
              h,
              length-remove_at (lowest_utility_non_anchor fl e (s ∷ ss)) (s ∷ ss)
                  (lowest-bound s ss),
            )))
      | inr fits ↦ rw fits (inl fits)
    ]

    rounds_end :
        (fuel : ℕ) (selected : List (SelectedCandidate F))
        → selection_limit run.req.plan ≤ length selected + fuel
        → (selection_limit run.req.plan ≤ length (select_rounds fl e fuel run selected))
          ⊎ (best_option fl e run (select_rounds fl e fuel run selected) ≡ none)
    unfolding select_rounds
    rounds_end zero selected h = inl (omega (arith, h))
    rounds_end (suc fuel) selected h =
        elim (Bool-cases (ltb (length selected) (selection_limit run.req.plan))) [
          | inl room ↦ elim (Option-cases (best_option fl e run selected)) [
            | inl nothing ↦ rw room (rw nothing (inr nothing))
            | inr (best, found) ↦ rw room (
                rw found (
                  rounds_end fuel (selected ++ best.choice ∷ [])
                    (omega (arith, h, length-append selected (best.choice ∷ [])))))
          ]
          | inr full ↦ rw full (inl (ground arith))
        ]

    -- The greedy loop ends by itself: it has selected as many as the plan admits, or a round finds
    -- no option.
    pub select_all-ends :
        (selection_limit run.req.plan ≤ length (select_all fl e run))
        ⊎ (best_option fl e run (select_all fl e run) ≡ none)
    unfolding select_all
    select_all-ends =
        rounds_end (selection_limit run.req.plan) (select_anchor fl e run) (omega arith)

    -- With one round for each of the selection, the removal loop ends by itself: the packet of what is
    -- left is within its limit, or nothing is left.
    pub shrink_lem :
        (omitted : ℤ) (selected : List (SelectedCandidate F))
        → (too_big
              (shrink fl e (length selected) run omitted selected).0
              (shrink fl e (length selected) run omitted selected).1
            ≡ false)
          ⊎ ((shrink fl e (length selected) run omitted selected).0 ≡ [])
    shrink_lem omitted selected = shrink-ends (length selected) omitted selected (omega arith)
