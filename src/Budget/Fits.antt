-- ===== src/Budget/Fits.antt =====
-- The bundle that `Pack` returns is within its budget, and of the tests it shows two at most.
use focal_span.Prelude.{
  ℕ, zero, suc, ◌≤◌, ◌≡◌, refl, ◌⊎◌, inl, inr, ℤ, pos, negsuc, leb_ℤ, none, true, false, not, ◌&&◌,
  List, [], ◌∷◌, length, length-append, leb, if_both, Bool-cases, arith, any,
}
use focal_span.Evidence.Candidate.{RankedCandidate}
use focal_span.Evidence.Guidance.{drop_last}
use focal_span.Evidence.Validate.{is_nil}
use focal_span.Evidence.Runtime.{Floats, TextTables}
use focal_span.Evidence.Wire.{min_budget, max_budget}
use focal_span.Budget.{PackRequest, ContextItem, ContextBundle, Pricing}
use focal_span.Budget.Words.{is_test_candidate, has_test_intent}
use focal_span.Budget.Pack.{
  PackPlan, PackState, omit, estimate_bundle, pack_budget, pack_plan, first_state,
  is_unwanted_documentation, is_unstructured, place, pack_one, pack_all, packed, trim_items, settle,
  pack,
}
use focal_span.Budget.Counted.{Outcome, place-Placed}
use focal_span.Budget.Order.{drop_last-short}

no_items : {A : Type 0} (xs : List A) → is_nil xs ≡ true → xs ≡ []
no_items [] h = refl
no_items (x ∷ xs) h = cc

pack_budget-range : (n : ℤ) → (min_budget ≤ pack_budget n) × (pack_budget n ≤ max_budget)
unfolding pack_budget
pack_budget-range (pos n) = ground arith
pack_budget-range (negsuc n) = ground arith

module _ (fl : Floats) (e : Pricing fl.F) where
  open fl use {F}

  -- within the budget, or empty
  abbrev pub Within : ℕ → ContextBundle F → Type 0
  Within budget b = (leb_ℤ (estimate_bundle fl e b none) (pos budget) ≡ true) ⊎ (b.items ≡ [])

  abbrev shorter : ContextBundle F → ContextBundle F
  shorter b = record b {
    items = drop_last b.items;
    omitted_count = suc b.omitted_count;
    truncated = true;
  }

  trim_items-Within :
      (fuel budget : ℕ) (b : ContextBundle F)
      → length b.items ≤ fuel
      → Within budget (trim_items fl e fuel budget b)
  unfolding trim_items
  trim_items-Within zero budget b h = inr (none_left b.items h)
    where
      none_left : (xs : List (ContextItem F)) → length xs ≤ 0 → xs ≡ []
      none_left [] h = refl
      none_left (x ∷ xs) h = absurd (omega (arith, h))
  trim_items-Within (suc fuel) budget b h =
      elim (Bool-cases (leb_ℤ (estimate_bundle fl e b none) (pos budget))) [
        | inl within ↦ rw within (inl within)
        | inr above ↦ rw above (elim (Bool-cases (is_nil b.items)) [
          | inl empty ↦ rw empty (inr (no_items b.items empty))
          | inr more ↦ rw more (
              trim_items-Within fuel budget (shorter b)
                (omega (arith, h, drop_last-short b.items more)))
        ])
      ]

  -- `pack` returns a bundle whose estimate is within the request's budget, clamped to the range from 256 to
  -- 64000, or a bundle without items.
  pub pack-Within :
      (t : TextTables) (req : PackRequest F)
      → Within (pack_budget req.token_budget) (pack fl e t req)
        × (256 ≤ pack_budget req.token_budget)
        × (pack_budget req.token_budget ≤ 64000)
  unfolding pack estimate_bundle
  pack-Within t req =
      let whole = settle fl e (packed fl e t req req.candidates) in
      let (low, high) = pack_budget-range req.token_budget in
      (
        trim_items-Within (length whole.items) (pack_budget req.token_budget) whole (omega arith),
        low,
        high,
      )

  -- the loop's count of tests, where only tests are wanted
  record Few (s : PackState F) : Type 0 where
    shown : length s.bundle.items ≤ s.test_items
    few : s.test_items ≤ 2

  omit-Few : (s : PackState F) → Few s → Few (omit fl s)
  omit-Few s h = record { shown = h.shown; few = h.few }

  one_more :
      (c : RankedCandidate F) (b after : ContextBundle F)
      → Outcome fl e c b after
      → length after.items ≤ suc (length b.items)
  one_more c b after (inl omitted) = rw omitted (omega arith)
  one_more c b after (inr (item, shown, added)) =
      rw added (omega (arith, length-append b.items (item ∷ [])))

  place-Few :
      (p : PackPlan F) (index : ℕ) (c : RankedCandidate F) (s : PackState F)
      → Few s
      → leb 2 s.test_items ≡ false
      → Few (place fl e p index c (record s { test_items = suc s.test_items }))
  place-Few p index c s h room =
      let next = record s { test_items = suc s.test_items } in
      let after = place fl e p index c next in
      let (same, outcome) = place-Placed fl e p c index next in
      let below : suc s.test_items ≤ 2 = ground (arith, room) in
      record {
        shown = omega (arith, same, h.shown, one_more c s.bundle after.bundle outcome);
        few = omega (arith, same, below);
      }

  module _ (t : TextTables) where
    pack_one-Few :
        (p : PackPlan F) (index : ℕ) (c : RankedCandidate F) (s : PackState F)
        → (p.test_intent && p.has_test) ≡ true
        → Few s
        → Few (pack_one fl e t p index c s)
    unfolding pack_one
    pack_one-Few p index c s asked h =
        let left_out = omit-Few s h in
        if_both Few (is_unwanted_documentation fl e t p c) _ _ left_out (
          if_both Few (is_unstructured fl e t p index c) _ _ left_out (
            rw asked (
              if_both Few (not (is_test_candidate t c)) _ _ left_out
                (elim (Bool-cases (leb 2 s.test_items)) [
                  | inl full ↦ rw full left_out
                  | inr room ↦ rw room (place-Few p index c s h room)
                ]))))

    pack_all-Few :
        (p : PackPlan F) (index : ℕ) (cs : List (RankedCandidate F)) (s : PackState F)
        → (p.test_intent && p.has_test) ≡ true
        → Few s
        → Few (pack_all fl e t p index cs s)
    unfolding pack_all
    pack_all-Few p index [] s asked h = h
    pack_all-Few p index (c ∷ rest) s asked h =
        pack_all-Few p (suc index) rest (pack_one fl e t p index c s) asked
          (pack_one-Few p index c s asked h)

  trim_items-length :
      (fuel budget : ℕ) (b : ContextBundle F)
      → length (trim_items fl e fuel budget b).items ≤ length b.items
  unfolding trim_items
  trim_items-length zero budget b = omega arith
  trim_items-length (suc fuel) budget b =
      elim (Bool-cases (leb_ℤ (estimate_bundle fl e b none) (pos budget))) [
        | inl within ↦ rw within (omega arith)
        | inr above ↦ rw above (elim (Bool-cases (is_nil b.items)) [
          | inl empty ↦ rw empty (omega arith)
          | inr more ↦ rw more (
              omega
                (arith, trim_items-length fuel budget (shorter b), drop_last-short b.items more))
        ])
      ]

  -- For a request that asks for tests, with a test among its candidates, `pack` shows two items at most.
  pub pack-few_tests :
      (t : TextTables) (req : PackRequest F)
      → has_test_intent t req.query req.intent_hints ≡ true
      → any (is_test_candidate t) req.candidates ≡ true
      → length (pack fl e t req).items ≤ 2
  unfolding pack settle packed pack_plan
  pack-few_tests t req asked there = omega (
    arith,
    trim_items-length (length (settle fl e (packed fl e t req req.candidates)).items)
        (pack_budget req.token_budget) (settle fl e (packed fl e t req req.candidates)),
    few req.candidates,
  )
    where
      few : (cs : List (RankedCandidate F)) → length (packed fl e t req cs).items ≤ 2
      few [] = omega arith
      few (top ∷ rest) =
          let both : (has_test_intent t req.query req.intent_hints
                && any (is_test_candidate t) req.candidates)
              ≡ true =
            ground (arith, asked, there) in
          let h =
            pack_all-Few t (pack_plan fl t req top) 0 (top ∷ rest) (first_state fl e t req) both
              (record { shown = omega arith; few = omega arith }) in
          omega (arith, h.shown, h.few)
