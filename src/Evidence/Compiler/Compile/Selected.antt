-- ===== src/Evidence/Compiler/Compile/Selected.antt =====
-- What the selection of `Compile` holds: only prepared candidates, and no more than the plan admits.
use focal_span.Prelude.{
  ℕ, zero, suc, ◌≤◌, ◌≡◌, ℤ, pos, true, not, ◌&&◌, List, [], ◌∷◌, ◌++◌, map, Option, none, some,
  length, length-append, All, All-append, ltb, arith, Bool-cases, Option-cases, inl, inr, ◌+ℤ◌,
}
use focal_span.Evidence.Model.{Packet}
use focal_span.Evidence.Candidate.{Intent, Plan, ContentVariant, PreparedCandidate}
use focal_span.Evidence.Validate.{is_nil}
use focal_span.Evidence.Wire.{Encoder}
use focal_span.Evidence.Guidance.{has, is_anchor_role, over_limit}
use focal_span.Evidence.Runtime.{Floats}
use focal_span.Evidence.Compiler.Utility.{SelectedCandidate, candidate_utility, selected_diversity}
use focal_span.Evidence.Compiler.Build.{build_packet}
use focal_span.Evidence.Compiler.Select.{
  Run, Best, selection_limit, limit_for, handle_of, packet_of, find_anchor, try_anchor,
  anchor_variants, select_anchor, consider, try_variants, consider_candidate, try_candidates,
  best_option, select_rounds, select_all, lowest_utility_non_anchor, remove_at, shrink,
}

limit_for-pos : (i : Intent) → 1 ≤ limit_for i
unfolding limit_for
limit_for-pos Intent.definition = omega arith
limit_for-pos _ = omega arith

selection_limit-pos : (plan : Plan) → 1 ≤ selection_limit plan
unfolding selection_limit
selection_limit-pos plan = limit_for-pos plan.primary_intent

module _ (fl : Floats) (e : Encoder) (Q : PreparedCandidate fl.F → Type 0) where
  open fl use {F}

  abbrev Chosen : List (SelectedCandidate F) → Type 0
  Chosen selected = All (λ s. Q s.prepared) selected

  abbrev FromOption : Option (PreparedCandidate F) → Type 0
  FromOption none = Unit
  FromOption (some p) = Q p

  abbrev FromBest : Option (Best fl e) → Type 0
  FromBest none = Unit
  FromBest (some b) = Q b.choice.prepared

  find_anchor-All : (ps : List (PreparedCandidate F)) → All Q ps → FromOption (find_anchor fl e ps)
  unfolding find_anchor
  find_anchor-All [] h = tt
  find_anchor-All (p ∷ ps) h = elim (Bool-cases (is_anchor_role p.classified.role)) [
    | inl yes_anchor ↦ rw yes_anchor h.0
    | inr other ↦ rw other (find_anchor-All ps h.1)
  ]

  try_anchor-All :
      (run : Run F) (p : PreparedCandidate F) (vs : List ContentVariant)
      → Q p
      → Chosen (try_anchor fl e run p vs) × (length (try_anchor fl e run p vs) ≤ 1)
  unfolding try_anchor
  try_anchor-All run p [] h = (tt, omega arith)
  try_anchor-All run p (v ∷ vs) h =
      elim (Bool-cases (
        not (
          over_limit (
            packet_of fl e run (
              record {
                prepared = p;
                variant = v;
                utility = candidate_utility fl run.req.plan p.classified none;
              }
              ∷ []))))) [
                | inl fits ↦ rw fits ((h, tt), omega arith)
                | inr big ↦ rw big (try_anchor-All run p vs h)
              ]

  anchor_variants-All :
      (run : Run F) (o : Option (PreparedCandidate F))
      → FromOption o
      → Chosen (anchor_variants fl e run o) × (length (anchor_variants fl e run o) ≤ 1)
  unfolding anchor_variants
  anchor_variants-All run none h = (tt, omega arith)
  anchor_variants-All run (some p) h = try_anchor-All run p p.variants h

  consider-All :
      (run : Run F) (selected : List (SelectedCandidate F)) (current : Packet)
      (p : PreparedCandidate F) (base : F) (i : ℕ) (v : ContentVariant) (best : Option (Best fl e))
      → Q p
      → FromBest best
      → FromBest (consider fl e run selected current p base i v best)
  unfolding consider
  consider-All run selected current p base i v best h k = ground arith

  try_variants-All :
      (run : Run F) (selected : List (SelectedCandidate F)) (current : Packet)
      (p : PreparedCandidate F) (base : F) (i : ℕ) (vs : List ContentVariant)
      (best : Option (Best fl e))
      → Q p
      → FromBest best
      → FromBest (try_variants fl e run selected current p base i vs best)
  unfolding try_variants
  try_variants-All run selected current p base i [] best h k = k
  try_variants-All run selected current p base i (v ∷ vs) best h k =
      try_variants-All run selected current p base (suc i) vs
        (consider fl e run selected current p base i v best) h
        (consider-All run selected current p base i v best h k)

  consider_candidate-All :
      (run : Run F) (selected : List (SelectedCandidate F)) (current : Packet)
      (p : PreparedCandidate F) (best : Option (Best fl e))
      → Q p
      → FromBest best
      → FromBest (consider_candidate fl e run selected current p best)
  unfolding consider_candidate
  consider_candidate-All run selected current p best h k =
      elim (Bool-cases
        (has (map (λ (s : SelectedCandidate F). handle_of s.prepared) selected) (handle_of p))) [
          | inl taken ↦ rw taken k
          | inr free ↦ rw free (
              try_variants-All run selected current p
                (candidate_utility fl run.req.plan p.classified
                  (some (selected_diversity fl selected)))
                0 p.variants best h k)
        ]

  try_candidates-All :
      (run : Run F) (selected : List (SelectedCandidate F)) (current : Packet)
      (ps : List (PreparedCandidate F)) (best : Option (Best fl e))
      → All Q ps
      → FromBest best
      → FromBest (try_candidates fl e run selected current ps best)
  unfolding try_candidates
  try_candidates-All run selected current [] best h k = k
  try_candidates-All run selected current (p ∷ ps) best h k =
      try_candidates-All run selected current ps
        (consider_candidate fl e run selected current p best) h.1
        (consider_candidate-All run selected current p best h.0 k)

  best_option-All :
      (run : Run F) (selected : List (SelectedCandidate F))
      → All Q run.prepared
      → FromBest (best_option fl e run selected)
  unfolding best_option
  best_option-All run selected h =
      try_candidates-All run selected (packet_of fl e run selected) run.prepared none h tt

  abbrev Fits : Run F → List (SelectedCandidate F) → Type 0
  Fits run selected = Chosen selected × (length selected ≤ selection_limit run.req.plan)

  append_choice :
      (run : Run F) (selected : List (SelectedCandidate F)) (c : SelectedCandidate F)
      → Fits run selected
      → ltb (length selected) (selection_limit run.req.plan) ≡ true
      → Q c.prepared
      → Fits run (selected ++ c ∷ [])
  append_choice run selected c f l h = (
    All-append (λ s. Q s.prepared) selected (c ∷ []) f.0 (h, tt),
    ground (arith, length-append selected (c ∷ [])),
  )

  select_rounds-Fits :
      (fuel : ℕ) (run : Run F) (selected : List (SelectedCandidate F))
      → All Q run.prepared
      → Fits run selected
      → Fits run (select_rounds fl e fuel run selected)
  unfolding select_rounds
  select_rounds-Fits zero run selected p f = f
  select_rounds-Fits (suc fuel) run selected p f =
      elim (Bool-cases (ltb (length selected) (selection_limit run.req.plan))) [
        | inl room ↦ elim (Option-cases (best_option fl e run selected)) [
          | inl nothing ↦ rw room (rw (nothing) f)
          | inr (best, found) ↦ rw room (
              rw (found) (
                select_rounds-Fits fuel run (selected ++ best.choice ∷ []) p (
                  append_choice run selected best.choice f room
                    (rw found at (best_option-All run selected p)))))
        ]
        | inr full ↦ rw full f
      ]

  -- the anchor's selection has one element at most, which the limit always admits
  pub select_all-Fits : (run : Run F) → All Q run.prepared → Fits run (select_all fl e run)
  unfolding select_all select_anchor
  select_all-Fits run h =
      let first =
        anchor_variants-All run (find_anchor fl e run.prepared) (find_anchor-All run.prepared h) in
      select_rounds-Fits (selection_limit run.req.plan) run
        (anchor_variants fl e run (find_anchor fl e run.prepared)) h
        (first.0, omega (arith, first.1, selection_limit-pos run.req.plan))

  remove_at-All :
      (i : ℕ) (selected : List (SelectedCandidate F))
      → Chosen selected
      → Chosen (remove_at i selected) × (length (remove_at i selected) ≤ length selected)
  unfolding remove_at
  remove_at-All i [] h = (tt, omega arith)
  remove_at-All zero (s ∷ ss) h = (h.1, omega arith)
  remove_at-All (suc i) (s ∷ ss) h =
      let rest = remove_at-All i ss h.1 in ((h.0, rest.0), omega (arith, rest.1))

  pub shrink-Fits :
      (fuel : ℕ) (run : Run F) (omitted : ℤ) (selected : List (SelectedCandidate F))
      → Fits run selected
      → Fits run (shrink fl e fuel run omitted selected).0
  unfolding shrink
  shrink-Fits zero run omitted selected f = f
  shrink-Fits (suc fuel) run omitted selected f =
      elim (Bool-cases (
        over_limit (build_packet fl e run.req run.mode run.limit selected omitted run.skipped_known)
        && not (is_nil selected))) [
          | inl over ↦
              let removed = remove_at-All (lowest_utility_non_anchor fl e selected) selected f.0 in
              rw over (
                shrink-Fits fuel run (omitted +ℤ pos 1)
                  (remove_at (lowest_utility_non_anchor fl e selected) selected)
                  (removed.0, omega (arith, removed.1, f.1)))
          | inr fits ↦ rw fits f
        ]
