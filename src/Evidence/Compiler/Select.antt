-- ===== src/Evidence/Compiler/Select.antt =====
-- The selection of `Compile` in internal/evidence/compiler.go: the anchor, the rounds of the greedy
-- loop, and the removal of what does not fit in the end.
pub mod Finished
pub mod Exhausted
use focal_span.Prelude.{
  ℕ, zero, suc, ◌-◌, ℤ, pos, negsuc, ◌-ℤ◌, ◌+ℤ◌, ltb_ℤ, Bool, not, ◌&&◌, ◌||◌, List, [], ◌∷◌, ◌++◌,
  Option, none, some, map, length, ltb, if◌then◌else◌, String,
}
use focal_span.Evidence.Model.{Mode, Packet}
use focal_span.Evidence.Candidate.{Intent, Plan, ContentVariant, PreparedCandidate}
use focal_span.Evidence.Validate.{is_nil}
use focal_span.Evidence.Wire.{Encoder}
use focal_span.Evidence.Guidance.{has, is_anchor_role, over_limit}
use focal_span.Evidence.Runtime.{Floats}
use focal_span.Evidence.Compiler.Utility.{
  SelectedCandidate, selected_diversity, candidate_utility, variant_utility, better_option,
}
use focal_span.Evidence.Compiler.Build.{CompileRequest, build_packet}

unfoldable pub limit_for : Intent → ℕ
limit_for Intent.definition = 1
limit_for Intent.impact = 6
limit_for _ = 4

unfoldable pub selection_limit : Plan → ℕ
unfolding limit_for
selection_limit plan = limit_for plan.primary_intent

abbrev pub handle_of : {F : Type 0} → PreparedCandidate F → String
handle_of p = p.classified.candidate.handle

-- `append(selected[:i], selected[i+1:]...)`
unfoldable pub remove_at {ℓ} : {A : Type ℓ} → ℕ → List A → List A
remove_at i [] = []
remove_at zero (x ∷ xs) = xs
remove_at (suc i) (x ∷ xs) = x ∷ remove_at i xs

-- the variables that one run of `Compile` holds fixed
pub record Run (F : Type 0) : Type 0 where
  pub req : CompileRequest F
  pub mode : Mode
  pub limit : ℤ
  pub prepared : List (PreparedCandidate F)
  pub base_omitted : ℤ
  pub skipped_known : ℤ

module _ (fl : Floats) (e : Encoder) where
  open fl use {F, of_int, div, lt, eq}

  -- `buildPacket` of a selection, with the count of what it leaves out
  unfoldable pub packet_of : Run F → List (SelectedCandidate F) → Packet
  packet_of run selected =
      build_packet fl e run.req run.mode run.limit selected
        (pos (length run.prepared) -ℤ pos (length selected) +ℤ run.base_omitted) run.skipped_known

  -- the first candidate that is a target or a change
  unfoldable pub find_anchor : List (PreparedCandidate F) → Option (PreparedCandidate F)
  find_anchor [] = none
  find_anchor (p ∷ ps) =
      let later = find_anchor ps in if is_anchor_role p.classified.role then some p else later

  -- the loop over the anchor's variants: the first that fits is selected
  unfoldable pub try_anchor :
      Run F → PreparedCandidate F → List ContentVariant → List (SelectedCandidate F)
  try_anchor run anchor [] = []
  try_anchor run anchor (variant ∷ rest) =
      let trial =
        record {
          prepared = anchor;
          variant = variant;
          utility = candidate_utility fl run.req.plan anchor.classified none;
        }
        ∷ [] in
      let later = try_anchor run anchor rest in
      if not (over_limit (packet_of run trial)) then trial else later

  unfoldable pub anchor_variants : Run F → Option (PreparedCandidate F) → List (SelectedCandidate F)
  anchor_variants run none = []
  anchor_variants run (some anchor) = try_anchor run anchor anchor.variants

  unfoldable pub select_anchor : Run F → List (SelectedCandidate F)
  select_anchor run = anchor_variants run (find_anchor run.prepared)

  -- `bestIndex`, `bestVariant`, `bestRatio` and `bestUtility` once there is a best option
  pub record Best : Type 0 where
    pub choice : SelectedCandidate F
    pub variant_index : ℕ
    pub ratio : F

  -- the comparison with the best so far; without one, with -1
  unfoldable pub improves : F → PreparedCandidate F → ℕ → Option Best → Bool
  improves ratio candidate index none = lt (of_int (negsuc 0)) ratio || eq ratio (of_int (negsuc 0))
  improves ratio candidate index (some best) =
      lt best.ratio ratio
      || (eq ratio best.ratio
          && better_option fl candidate index best.choice.prepared best.variant_index)

  -- `incremental`, at least 1
  unfoldable pub at_least_one : ℤ → ℤ
  at_least_one n = if ltb_ℤ n (pos 1) then pos 1 else n

  -- the body of the loop over the variants
  unfoldable pub consider :
      Run F
      → List (SelectedCandidate F)
      → Packet
      → PreparedCandidate F
      → F
      → ℕ
      → ContentVariant
      → Option Best
      → Option Best
  unfolding improves at_least_one
  consider run selected current candidate base i variant best =
      let utility = variant_utility fl base variant in
      let choice : SelectedCandidate F = record {
        prepared = candidate;
        variant = variant;
        utility = utility;
      } in
      let packet = packet_of run (selected ++ choice ∷ []) in
      let ratio = div utility (of_int (at_least_one (packet.budget.used -ℤ current.budget.used))) in
      let better : Option Best =
        some (record { choice = choice; variant_index = i; ratio = ratio }) in
      if not (over_limit packet) && improves ratio candidate i best then better else best

  -- the loop over the variants of one candidate, from an index on
  unfoldable pub try_variants :
      Run F
      → List (SelectedCandidate F)
      → Packet
      → PreparedCandidate F
      → F
      → ℕ
      → List ContentVariant
      → Option Best
      → Option Best
  try_variants run selected current candidate base i [] best = best
  try_variants run selected current candidate base i (variant ∷ rest) best =
      try_variants run selected current candidate base (suc i) rest
        (consider run selected current candidate base i variant best)

  -- the body of the loop over the candidates, which passes over those selected
  unfoldable pub consider_candidate :
      Run F → List (SelectedCandidate F) → Packet → PreparedCandidate F → Option Best → Option Best
  consider_candidate run selected current candidate best =
      let base =
        candidate_utility fl run.req.plan candidate.classified
          (some (selected_diversity fl selected)) in
      if has (map (λ (s : SelectedCandidate F). handle_of s.prepared) selected)
        (handle_of candidate)
      then best
      else try_variants run selected current candidate base 0 candidate.variants best

  -- the loop over the candidates
  unfoldable pub try_candidates :
      Run F
      → List (SelectedCandidate F)
      → Packet
      → List (PreparedCandidate F)
      → Option Best
      → Option Best
  try_candidates run selected current [] best = best
  try_candidates run selected current (candidate ∷ rest) best =
      try_candidates run selected current rest
        (consider_candidate run selected current candidate best)

  unfoldable pub best_option : Run F → List (SelectedCandidate F) → Option Best
  best_option run selected = try_candidates run selected (packet_of run selected) run.prepared none

  -- The greedy loop. A round appends one choice or ends the loop, so as many rounds as the limit
  -- admits are enough.
  unfoldable pub select_rounds : ℕ → Run F → List (SelectedCandidate F) → List (SelectedCandidate F)
  select_rounds zero run selected = selected
  select_rounds (suc fuel) run selected =
      if ltb (length selected) (selection_limit run.req.plan)
      then elim (best_option run selected) [
        | none ↦ selected
        | some best ↦ select_rounds fuel run (selected ++ best.choice ∷ [])
      ]
      else selected

  unfoldable pub select_all : Run F → List (SelectedCandidate F)
  select_all run = select_rounds (selection_limit run.req.plan) run (select_anchor run)

  -- the loop of `lowestUtilityNonAnchor`, from an index on, with `lowest` and `index`
  unfoldable pub lowest_from : ℕ → Bool → F → ℕ → List (SelectedCandidate F) → ℕ
  lowest_from i many lowest index [] = index
  lowest_from i many lowest index (s ∷ rest) =
      let skip = is_anchor_role s.prepared.classified.role && many in
      let lower = not skip && lt s.utility lowest in
      lowest_from (suc i) many (if lower then s.utility else lowest) (if lower then i else index)
        rest

  unfoldable pub lowest_utility_non_anchor : List (SelectedCandidate F) → ℕ
  unfolding lowest_from
  lowest_utility_non_anchor selected =
      lowest_from 0 (ltb 1 (length selected)) fl.max_float (length selected - 1) selected

  -- the loop that removes a selection while the packet is over the limit, a round for each at most;
  -- `omitted` grows by one each time
  unfoldable pub shrink :
      ℕ → Run F → ℤ → List (SelectedCandidate F) → List (SelectedCandidate F) × ℤ
  shrink zero run omitted selected = (selected, omitted)
  shrink (suc fuel) run omitted selected =
      let packet =
        build_packet fl e run.req run.mode run.limit selected omitted run.skipped_known in
      let smaller =
        shrink fuel run (omitted +ℤ pos 1)
          (remove_at (lowest_utility_non_anchor selected) selected) in
      if over_limit packet && not (is_nil selected) then smaller else (selected, omitted)
