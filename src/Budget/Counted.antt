-- ===== src/Budget/Counted.antt =====
-- Each candidate that `Pack` reads is put into the bundle or counted as omitted.
use focal_span.Prelude.{
  ℕ, suc, ◌≡◌, refl, ◌⊎◌, inl, inr, String, true, not, ◌&&◌, List, [], ◌∷◌, ◌++◌, leb, if_both,
}
use focal_span.Evidence.Candidate.{RankedCandidate}
use focal_span.Evidence.Runtime.{Floats, TextTables}
use focal_span.Budget.{ContextItem, ContextBundle, Pricing}
use focal_span.Budget.Words.{is_test_candidate}
use focal_span.Budget.Pack.{
  PackPlan, PackState, candidate_item, repeated_item, omit, shorten_large, shorten_again,
  empty_content, shorten, append_item, related_item, place, is_unwanted_documentation,
  is_unstructured, is_unasked_test, pack_one,
}

module _ (fl : Floats) (e : Pricing fl.F) where
  open fl use {F}

  -- an item that shows a candidate
  abbrev pub Shows : RankedCandidate F → ContextItem F → Type 0
  Shows c item =
      (item.handle ≡ c.handle)
      × (item.path ≡ c.path)
      × (item.symbol ≡ c.symbol)
      × (item.start_line ≡ c.start_line)
      × (item.end_line ≡ c.end_line)

  -- a bundle with one candidate more: omitted, or put behind the others
  abbrev pub Outcome : RankedCandidate F → ContextBundle F → ContextBundle F → Type 0
  Outcome c before after =
      (after ≡ record before { omitted_count = suc before.omitted_count; truncated = true })
      ⊎ ((item : ContextItem F) × Shows c item
          × (after ≡ record before { items = before.items ++ item ∷ [] }))

  pub record Advances (c : RankedCandidate F) (s after : PackState F) : Type 0 where
    pub outcome : Outcome c s.bundle after.bundle

  module _ (p : PackPlan F) (c : RankedCandidate F) where
    related_item-Shows : (relations : List String) → Shows c (related_item fl e p c relations)
    unfolding related_item candidate_item repeated_item
    related_item-Shows relations =
        if_both (Shows c) _ (repeated_item fl (candidate_item fl c p.source))
          (candidate_item fl c p.source) (refl, refl, refl, refl, refl)
          (refl, refl, refl, refl, refl)

    shorten-Shows :
        (bundle : ContextBundle F) (index : ℕ) (item : ContextItem F)
        → Shows c item
        → Shows c (shorten fl e p bundle index c item)
    unfolding shorten shorten_large shorten_again empty_content
    shorten-Shows bundle index item h =
        let large = if_both (Shows c) _ _ item h h in
        let again = if_both (Shows c) _ _ (shorten_large fl e p bundle index c item) large large in
        if_both (Shows c) _ _
          (shorten_again fl e p bundle c (shorten_large fl e p bundle index c item)) again again

    -- the states after `place`
    abbrev Placed : PackState F → PackState F → Type 0
    Placed s after = (after.test_items ≡ s.test_items) × Outcome c s.bundle after.bundle

    append_item-Placed :
        (item : ContextItem F) (s : PackState F)
        → Shows c item
        → Placed s (append_item fl e p item s)
    unfolding append_item
    append_item-Placed item s h =
        if_both (Placed s) _ _ _ (refl, inl refl)
          (refl, inr (record item { estimated_tokens = e.estimate item.content }, h, refl))

    pub place-Placed : (index : ℕ) (s : PackState F) → Placed s (place fl e p index c s)
    unfolding place
    place-Placed index s =
        if_both (Placed s) _ _ _ (refl, inl refl)
          (append_item-Placed _ _ (shorten-Shows s.bundle index _ (related_item-Shows s.relations)))

    pub pack_one-Advances :
        (t : TextTables) (index : ℕ) (s : PackState F) → Advances c s (pack_one fl e t p index c s)
    unfolding pack_one
    pack_one-Advances t index s =
        let left_out : Advances c s (omit fl s) = record { outcome = inl refl } in
        let tested = record s { test_items = suc s.test_items } in
        let kept : Advances c s (place fl e p index c tested) = record {
          outcome = (place-Placed index tested).1;
        } in
        if_both (Advances c s) (is_unwanted_documentation fl e t p c) _ _ left_out (
          if_both (Advances c s) (is_unstructured fl e t p index c) _ _ left_out (
            if_both (Advances c s) (p.test_intent && p.has_test) _ _
              (if_both (Advances c s) (not (is_test_candidate t c)) _ _ left_out
                (if_both (Advances c s) (leb 2 s.test_items) _ _ left_out kept))
              (if_both (Advances c s) (is_unasked_test fl e t p c) _ (place fl e p index c s)
                left_out (record { outcome = (place-Placed index s).1 }))))
