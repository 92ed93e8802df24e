-- ===== src/Budget/Order.antt =====
-- The items of a bundle are candidates in their order, and the rest is counted.
use focal_span.Prelude.{
  ℕ, zero, suc, ◌+◌, ◌≡◌, refl, sym, subst, inl, inr, pos, leb_ℤ, none, true, false, List, [], ◌∷◌,
  ◌++◌, append-nil, append_assoc, length, length-append, ltb, Bool-cases, arith,
}
use focal_span.Evidence.Candidate.{RankedCandidate}
use focal_span.Evidence.Guidance.{drop_last}
use focal_span.Evidence.Guidance.Applied.{length-drop_last}
use focal_span.Evidence.Validate.{is_nil}
use focal_span.Evidence.Runtime.{Floats, TextTables}
use focal_span.Budget.{PackRequest, ContextItem, ContextBundle, Pricing}
use focal_span.Budget.Pack.{
  PackPlan, PackState, estimate_bundle, pack_budget, pack_plan, first_state, pack_one, pack_all,
  packed, trim_items, settle, pack,
}
use focal_span.Budget.Counted.{Shows, Outcome, pack_one-Advances}

-- The items show some of the candidates, in their order.
pub data Picks {F : Type 0} (Shown : RankedCandidate F → ContextItem F → Type 0)
    : List (ContextItem F) → List (RankedCandidate F) → Type 0 where
  done : Picks Shown [] []
  skip :
      (c : RankedCandidate F) {items : List (ContextItem F)} {cs : List (RankedCandidate F)}
      → Picks Shown items cs
      → Picks Shown items (c ∷ cs)
  pick :
      (c : RankedCandidate F) (item : ContextItem F) {items : List (ContextItem F)}
      {cs : List (RankedCandidate F)}
      → Shown c item
      → Picks Shown items cs
      → Picks Shown (item ∷ items) (c ∷ cs)

module _ {F : Type 0} (Shown : RankedCandidate F → ContextItem F → Type 0) where
  Picks-skip_last :
      (c : RankedCandidate F) (items : List (ContextItem F)) (cs : List (RankedCandidate F))
      → Picks Shown items cs
      → Picks Shown items (cs ++ c ∷ [])
  Picks-skip_last c [] [] Picks.done = Picks.skip c Picks.done
  Picks-skip_last c (item ∷ items) [] h = elim h [ ]
  Picks-skip_last c items (d ∷ cs) (Picks.skip _ h) = Picks.skip d (Picks-skip_last c items cs h)
  Picks-skip_last c (item ∷ items) (d ∷ cs) (Picks.pick _ _ s h) =
      Picks.pick d item s (Picks-skip_last c items cs h)

  Picks-pick_last :
      (c : RankedCandidate F) (last : ContextItem F) (items : List (ContextItem F))
      (cs : List (RankedCandidate F))
      → Shown c last
      → Picks Shown items cs
      → Picks Shown (items ++ last ∷ []) (cs ++ c ∷ [])
  Picks-pick_last c last [] [] k Picks.done = Picks.pick c last k Picks.done
  Picks-pick_last c last (item ∷ items) [] k h = elim h [ ]
  Picks-pick_last c last items (d ∷ cs) k (Picks.skip _ h) =
      Picks.skip d (Picks-pick_last c last items cs k h)
  Picks-pick_last c last (item ∷ items) (d ∷ cs) k (Picks.pick _ _ s h) =
      Picks.pick d item s (Picks-pick_last c last items cs k h)

  Picks-drop_last :
      (items : List (ContextItem F)) (cs : List (RankedCandidate F))
      → Picks Shown items cs
      → Picks Shown (drop_last items) cs
  unfolding drop_last
  Picks-drop_last [] [] Picks.done = Picks.done
  Picks-drop_last (item ∷ items) [] h = elim h [ ]
  Picks-drop_last items (d ∷ cs) (Picks.skip _ h) = Picks.skip d (Picks-drop_last items cs h)
  Picks-drop_last (item ∷ []) (d ∷ cs) (Picks.pick _ _ s h) = Picks.skip d h
  Picks-drop_last (item ∷ next ∷ items) (d ∷ cs) (Picks.pick _ _ s h) =
      Picks.pick d item s (Picks-drop_last (next ∷ items) cs h)

pub drop_last-short :
    {A : Type 0} (xs : List A) → is_nil xs ≡ false → suc (length (drop_last xs)) ≡ length xs
drop_last-short [] h = cc
drop_last-short (x ∷ xs) h = length-drop_last x xs

module _ (fl : Floats) (e : Pricing fl.F) where
  open fl use {F}

  -- a bundle of the candidates: those that it does not show are counted, and it says so
  abbrev pub Holds : List (RankedCandidate F) → ContextBundle F → Type 0
  Holds cs bundle =
      Picks (Shows fl e) bundle.items cs
      × (length bundle.items + bundle.omitted_count ≡ length cs)
      × (bundle.truncated ≡ ltb 0 bundle.omitted_count)

  Holds-next :
      (before : List (RankedCandidate F)) (c : RankedCandidate F) (b after : ContextBundle F)
      → Outcome fl e c b after
      → Holds before b
      → Holds (before ++ c ∷ []) after
  Holds-next before c b after (inl omitted) (picks, tally, told) = rw omitted (
    Picks-skip_last (Shows fl e) c b.items before picks,
    omega (arith, tally, length-append before (c ∷ [])),
    ground arith,
  )
  Holds-next before c b after (inr (item, shown, added)) (picks, tally, told) = rw added (
    Picks-pick_last (Shows fl e) c item b.items before shown picks,
    omega (arith, tally, length-append before (c ∷ []), length-append b.items (item ∷ [])),
    told,
  )

  module _ (t : TextTables) where
    pack_all-Holds :
        (p : PackPlan F) (index : ℕ) (before cs : List (RankedCandidate F)) (s : PackState F)
        → Holds before s.bundle
        → Holds (before ++ cs) (pack_all fl e t p index cs s).bundle
    unfolding pack_all
    pack_all-Holds p index before [] s h = subst (λ l. Holds l s.bundle) (sym (append-nil before)) h
    pack_all-Holds p index before (c ∷ rest) s h =
        let next = pack_one fl e t p index c s in
        let now =
          Holds-next before c s.bundle next.bundle (pack_one-Advances fl e p c t index s).outcome
            h in
        subst (λ l. Holds l (pack_all fl e t p (suc index) rest next).bundle)
          (append_assoc before (c ∷ []) rest)
          (pack_all-Holds p (suc index) (before ++ c ∷ []) rest next now)

    packed-Holds :
        (req : PackRequest F) (cs : List (RankedCandidate F)) → Holds cs (packed fl e t req cs)
    unfolding packed
    packed-Holds req [] = (Picks.done, refl, refl)
    packed-Holds req (top ∷ rest) =
        pack_all-Holds (pack_plan fl t req top) 0 [] (top ∷ rest) (first_state fl e t req)
          (Picks.done, refl, refl)

  trim_items-Holds :
      (cs : List (RankedCandidate F)) (fuel budget : ℕ) (b : ContextBundle F)
      → Holds cs b
      → Holds cs (trim_items fl e fuel budget b)
  unfolding trim_items
  trim_items-Holds cs zero budget b h = h
  trim_items-Holds cs (suc fuel) budget b (picks, tally, told) =
      elim (Bool-cases (leb_ℤ (estimate_bundle fl e b none) (pos budget))) [
        | inl within ↦ rw within (picks, tally, told)
        | inr above ↦ rw above (elim (Bool-cases (is_nil b.items)) [
          | inl empty ↦ rw empty (picks, tally, told)
          | inr more ↦ rw more (
              trim_items-Holds cs fuel budget (shorter b) (
                Picks-drop_last (Shows fl e) b.items cs picks,
                omega (arith, tally, drop_last-short b.items more),
                ground arith,
              ))
        ])
      ]
    where
      shorter : ContextBundle F → ContextBundle F
      shorter b = record b {
        items = drop_last b.items;
        omitted_count = suc b.omitted_count;
        truncated = true;
      }

  -- `pack` shows some of the candidates, in their order, and counts each of the others as omitted; the bundle
  -- is marked as truncated exactly if there are such.
  pub pack-Holds : (t : TextTables) (req : PackRequest F) → Holds req.candidates (pack fl e t req)
  unfolding pack settle
  pack-Holds t req =
      let (picks, tally, told) = packed-Holds t req req.candidates in
      trim_items-Holds req.candidates _ (pack_budget req.token_budget) _
        (picks, tally, ground (arith, told))
