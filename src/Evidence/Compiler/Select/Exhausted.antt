-- ===== src/Evidence/Compiler/Select/Exhausted.antt =====
-- When the greedy loop of `Compile` has nothing more to select.
use focal_span.Prelude.{
  ℕ, suc, ◌-ℤ◌, negsuc, ◌≤◌, ◌≡◌, refl, ◌⊎◌, inl, inr, Bool, true, false, not, ◌&&◌, ◌||◌, List, [],
  ◌∷◌, ◌++◌, map, Option, none, some, length, All, Bool-cases, if◌then◌else◌,
}
use focal_span.Evidence.Model.{Packet}
use focal_span.Evidence.Candidate.{ContentVariant, PreparedCandidate}
use focal_span.Evidence.Wire.{Encoder}
use focal_span.Evidence.Guidance.{has, over_limit}
use focal_span.Evidence.Runtime.{Floats}
use focal_span.Evidence.Compiler.Utility.{
  SelectedCandidate, selected_diversity, candidate_utility, variant_utility,
}
use focal_span.Evidence.Compiler.Select.{
  Run, Best, selection_limit, handle_of, packet_of, at_least_one, improves, consider, try_variants,
  consider_candidate, try_candidates, best_option, select_all,
}
use focal_span.Evidence.Compiler.Select.Finished.{select_all-ends}

if_none :
    {A : Type 0} (b : Bool) (x : A) (o : Option A)
    → (if b then some x else o) ≡ none
    → (b ≡ false) × (o ≡ none)
if_none true x o h = cc (h)
if_none false x o h = (refl, h)

some-none : {A : Type 0} (x : A) → some x ≡ none → ⊥
some-none x h = cc (h)

refused_of : (over enough : Bool) → (not over && enough) ≡ false → (over ≡ true) ⊎ (enough ≡ false)
refused_of true enough h = inl refl
refused_of false enough h = inr h

module _ (fl : Floats) (e : Encoder) (run : Run fl.F)
    (selected : List (SelectedCandidate fl.F)) where
  open fl use {F}

  -- what a round would append for a variant
  abbrev pub option_of : PreparedCandidate F → ContentVariant → SelectedCandidate F
  option_of candidate variant = record {
    prepared = candidate;
    variant = variant;
    utility =
        variant_utility fl
          (candidate_utility fl run.req.plan candidate.classified
            (some (selected_diversity fl selected)))
          variant;
  }

  -- the packet with it, and its utility for each token that it adds
  abbrev pub packet_with : PreparedCandidate F → ContentVariant → Packet
  packet_with candidate variant = packet_of fl e run (selected ++ option_of candidate variant ∷ [])

  abbrev pub ratio_of : PreparedCandidate F → ContentVariant → F
  ratio_of candidate variant = fl.div (option_of candidate variant).utility (
      fl.of_int (
        at_least_one fl e (
          (packet_with candidate variant).budget.used
          -ℤ (packet_of fl e run selected).budget.used)))

  -- a variant that does not fit, or is not worth -1 or more for each token
  abbrev pub IsRefused : PreparedCandidate F → ContentVariant → Type 0
  IsRefused candidate variant =
      (over_limit (packet_with candidate variant) ≡ true)
      ⊎ ((fl.lt (fl.of_int (negsuc 0)) (ratio_of candidate variant)
            || fl.eq (ratio_of candidate variant) (fl.of_int (negsuc 0)))
          ≡ false)

  -- a candidate that is selected, or all of whose variants are refused
  abbrev pub IsSpent : PreparedCandidate F → Type 0
  IsSpent candidate =
      (has (map (λ (s : SelectedCandidate F). handle_of s.prepared) selected) (handle_of candidate)
        ≡ true)
      ⊎ All (IsRefused candidate) candidate.variants

  abbrev base_of : PreparedCandidate F → F
  base_of candidate =
      candidate_utility fl run.req.plan candidate.classified (some (selected_diversity fl selected))

  abbrev considered :
      PreparedCandidate F → ℕ → ContentVariant → Option (Best fl e) → Option (Best fl e)
  considered candidate i variant best =
      consider fl e run selected (packet_of fl e run selected) candidate (base_of candidate) i
        variant best

  consider-none :
      (candidate : PreparedCandidate F) (i : ℕ) (variant : ContentVariant)
      (best : Option (Best fl e))
      → considered candidate i variant best ≡ none
      → (best ≡ none) × IsRefused candidate variant
  unfolding consider improves
  consider-none candidate i variant none h =
      (refl, refused_of (over_limit (packet_with candidate variant)) _ (if_none _ _ none h).0)
  consider-none candidate i variant (some best) h =
      absurd (some-none best (if_none _ _ (some best) h).1)

  try_variants-none :
      (candidate : PreparedCandidate F) (i : ℕ) (variants : List ContentVariant)
      (best : Option (Best fl e))
      → try_variants fl e run selected
          (packet_of fl e run selected)
          candidate
          (base_of candidate)
          i
          variants
          best
        ≡ none
      → (best ≡ none) × All (IsRefused candidate) variants
  unfolding try_variants
  try_variants-none candidate i [] best h = (h, tt)
  try_variants-none candidate i (variant ∷ rest) best h =
      let (first, others) =
        try_variants-none candidate (suc i) rest (considered candidate i variant best) h in
      let (before, refused) = consider-none candidate i variant best first in
      (before, (refused, others))

  consider_candidate-none :
      (candidate : PreparedCandidate F) (best : Option (Best fl e))
      → consider_candidate fl e run selected (packet_of fl e run selected) candidate best ≡ none
      → (best ≡ none) × IsSpent candidate
  unfolding consider_candidate
  consider_candidate-none candidate best h =
      elim (Bool-cases (
        has (map (λ (s : SelectedCandidate F). handle_of s.prepared) selected)
          (handle_of candidate))) [
            | inl taken ↦ (rw taken at h, inl taken)
            | inr free ↦
                let (before, refused) =
                  try_variants-none candidate 0 candidate.variants best (rw free at h) in
                (before, inr refused)
          ]

  try_candidates-none :
      (candidates : List (PreparedCandidate F)) (best : Option (Best fl e))
      → try_candidates fl e run selected (packet_of fl e run selected) candidates best ≡ none
      → (best ≡ none) × All IsSpent candidates
  unfolding try_candidates
  try_candidates-none [] best h = (h, tt)
  try_candidates-none (candidate ∷ rest) best h =
      let (first, others) =
        try_candidates-none rest
          (consider_candidate fl e run selected (packet_of fl e run selected) candidate best) h in
      let (before, spent) = consider_candidate-none candidate best first in
      (before, (spent, others))

  best_option-none : best_option fl e run selected ≡ none → All IsSpent run.prepared
  unfolding best_option
  best_option-none h = (try_candidates-none run.prepared none h).1

module _ (fl : Floats) (e : Encoder) (run : Run fl.F) where
  -- The greedy loop of `Compile` ends by itself: it has selected as many as the plan admits, or each
  -- prepared candidate is selected or has only variants that do not fit the limit or are not worth -1 or more
  -- for each token that they add.
  pub select_all-exhausted :
      (selection_limit run.req.plan ≤ length (select_all fl e run))
      ⊎ All (IsSpent fl e run (select_all fl e run)) run.prepared
  select_all-exhausted = elim (select_all-ends fl e run) [
    | inl full ↦ inl full
    | inr nothing ↦ inr (best_option-none fl e run (select_all fl e run) nothing)
  ]
