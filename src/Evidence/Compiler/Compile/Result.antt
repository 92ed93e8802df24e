-- ===== src/Evidence/Compiler/Compile/Result.antt =====
-- What `Compile` returns.
use focal_span.Prelude.{
  ℕ, suc, ◌≡◌, refl, ap, ap₂, ◌∙◌, ℤ, String, List, [], ◌∷◌, map, length, arith,
}
use focal_span.Evidence.Model.{NextAction, Item, Packet, LocalIds, assign_from, assign_local_ids}
use focal_span.Evidence.Wire.{Encoder, settled}
use focal_span.Evidence.Wire.Settle.{settled-frame}
use focal_span.Evidence.Guidance.{
  build_guidance, apply_guidance_within_budget, prune_known_delta_guidance,
}
use focal_span.Evidence.Guidance.Applied.{Shortens, apply_guidance_within_budget_lem}
use focal_span.Evidence.Runtime.{Floats, TextTables}
use focal_span.Evidence.Compiler.Utility.{SelectedCandidate}
use focal_span.Evidence.Compiler.Build.{item_of, ordered_selection, build_packet}
use focal_span.Evidence.Compiler.Select.{Run, handle_of}
use focal_span.Evidence.Compiler.Metadata.{
  anchor_languages, prune_item, prune_items, prune_packet_metadata,
}
use focal_span.Evidence.Compiler.Compile.{guidance_input, finish_packet}

-- The handles of a packet's evidence, in order.
abbrev pub handles_of : List Item → List String
handles_of items = map (λ (i : Item). i.handle) items

pub length-handles_of : (items : List Item) → length (handles_of items) ≡ length items
length-handles_of [] = refl
length-handles_of (i ∷ is) = ap suc (length-handles_of is)

handles_of-assign_from :
    (i : ℕ) (ids : LocalIds) (items : List Item)
    → handles_of (assign_from i ids items).0 ≡ handles_of items
unfolding assign_from
handles_of-assign_from i ids [] = refl
handles_of-assign_from i ids (item ∷ rest) =
    ap (◌∷◌ item.handle) (handles_of-assign_from (suc i) _ rest)

module _ (fl : Floats) where
  open fl use {F}

  abbrev chosen_handle : SelectedCandidate F → String
  chosen_handle s = handle_of s.prepared

  handles_of-item_of :
      (ss : List (SelectedCandidate F)) → handles_of (map (item_of fl) ss) ≡ map chosen_handle ss
  unfolding item_of
  handles_of-item_of [] = refl
  handles_of-item_of (s ∷ ss) = ap (◌∷◌ (chosen_handle s)) (handles_of-item_of ss)

  module _ (e : Encoder) (t : TextTables) where
    handles_of-settled : (p : Packet) → handles_of (settled e p).evidence ≡ handles_of p.evidence
    handles_of-settled p = ap (λ (q : Packet). handles_of q.evidence) (settled-frame e p)

    limit-settled : (p : Packet) → (settled e p).budget.limit ≡ p.budget.limit
    limit-settled p = ap (λ (q : Packet). q.budget.limit) (settled-frame e p)

    handle-prune_item :
        (languages : List String) (item : Item)
        → (prune_item t languages item).0.handle ≡ item.handle
    unfolding prune_item
    handle-prune_item languages item = ground arith

    handles_of-prune_items :
        (languages : List String) (items : List Item)
        → handles_of (prune_items t languages items) ≡ handles_of items
    unfolding prune_items
    handles_of-prune_items languages [] = refl
    handles_of-prune_items languages (item ∷ rest) =
        ap₂ ◌∷◌ (handle-prune_item languages item)
          (handles_of-prune_items (prune_item t languages item).1 rest)

    module _ (run : Run F) where
      pub handles_of-build_packet :
          (selected : List (SelectedCandidate F)) (omitted : ℤ)
          → handles_of
              (build_packet fl e run.req run.mode run.limit selected omitted
                run.skipped_known).evidence
            ≡ map chosen_handle (ordered_selection fl selected)
      unfolding build_packet assign_local_ids
      handles_of-build_packet selected omitted =
          handles_of-settled _
          ∙ handles_of-assign_from 0 [] (map (item_of fl) (ordered_selection fl selected))
          ∙ handles_of-item_of (ordered_selection fl selected)

      pub limit-build_packet :
          (selected : List (SelectedCandidate F)) (omitted : ℤ)
          → (build_packet fl e run.req run.mode run.limit selected omitted
              run.skipped_known).budget.limit
            ≡ run.limit
      unfolding build_packet
      limit-build_packet selected omitted = limit-settled _

      guided-frame :
          (p : Packet) (ls : List String) (ns : List NextAction)
          → Shortens
              (record p { limitations = ls; next = ns })
              (apply_guidance_within_budget e p ls ns)
      guided-frame p ls ns = (apply_guidance_within_budget_lem e p ls ns).0

      pub finish_packet-frame :
          (selected : List (SelectedCandidate F)) (omitted : ℤ) (p : Packet)
          → (handles_of (finish_packet fl e t run selected omitted p).evidence
              ≡ handles_of p.evidence)
            × ((finish_packet fl e t run selected omitted p).budget.limit ≡ p.budget.limit)
      unfolding finish_packet prune_packet_metadata
      finish_packet-frame selected omitted p =
          let built = build_guidance (guidance_input fl e t run selected omitted) in
          let pruned = prune_known_delta_guidance p run.req.known_handles built.0 built.1 in
          let guided = apply_guidance_within_budget e p pruned.0 pruned.1 in
          let frame = guided-frame p pruned.0 pruned.1 in
          (
            handles_of-settled _
                ∙ handles_of-prune_items (anchor_languages t guided.evidence) guided.evidence
                ∙ ap handles_of frame.evidence,
            limit-settled _ ∙ frame.limit,
          )
