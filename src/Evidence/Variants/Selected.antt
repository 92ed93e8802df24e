-- ===== src/Evidence/Variants/Selected.antt =====
-- The windows that `focusedSegments` selects are never none, so an excerpt with segments shows some source.
use focal_span.Prelude.{
  ℕ, ◌≡◌, refl, ℤ, String, Bool, true, false, ◌&&◌, List, [], ◌∷◌, any, length, Bool-cases, inl,
  inr, if_both, ltb, ◌==◌,
}
use focal_span.Evidence.Model.{Segment}
use focal_span.Evidence.Candidate.{Plan, ClassifiedCandidate}
use focal_span.Evidence.Validate.{is_nil, is_source}
use focal_span.Evidence.Runtime.{TextTables}
use focal_span.Evidence.Segments.{
  add_hits, prefix_window, ordered_hits, selected_windows, segments_from, focused_segments,
}
use focal_span.Evidence.Segments.Lines.{index_lines, focused_terms}
use focal_span.Prelude.Sort.{insert_by, sort_by}
use focal_span.Evidence.Segments.Windows.{
  is_near, extend_window, add_or_merge_window, SourceWindow, merge_behind, merge_ordered,
  merge_windows,
}

pub merge_behind-some :
    (last : SourceWindow) (ws : List SourceWindow) → is_nil (merge_behind last ws) ≡ false
unfolding merge_behind
merge_behind-some last [] = refl
merge_behind-some last (w ∷ ws) =
    if_both (λ (r : List SourceWindow). is_nil r ≡ false) (is_near last w) _ _
      (merge_behind-some (extend_window last w) ws) refl

pub merge_ordered-some :
    (ws : List SourceWindow) → is_nil ws ≡ false → is_nil (merge_ordered ws) ≡ false
unfolding merge_ordered
merge_ordered-some [] h = cc
merge_ordered-some (w ∷ ws) h = merge_behind-some w ws

pub insert_by-some {ℓ} :
    {A : Type ℓ} (less : A → A → Bool) (x : A) (ys : List A) → is_nil (insert_by less x ys) ≡ false
unfolding insert_by
insert_by-some less x [] = refl
insert_by-some {A} less x (y ∷ ys) =
    if_both (λ (r : List A). is_nil r ≡ false) (less y x) _ _ refl refl

pub sort_by-some {ℓ} :
    {A : Type ℓ} (less : A → A → Bool) (xs : List A)
    → is_nil xs ≡ false
    → is_nil (sort_by less xs) ≡ false
unfolding sort_by
sort_by-some less [] h = cc
sort_by-some less (x ∷ xs) h = insert_by-some less x (sort_by less xs)

pub add_or_merge_window-some :
    (ws : List SourceWindow) (hit : SourceWindow) → is_nil (add_or_merge_window ws hit) ≡ false
unfolding add_or_merge_window
add_or_merge_window-some [] hit = refl
add_or_merge_window-some (w ∷ ws) hit =
    if_both (λ (r : List SourceWindow). is_nil r ≡ false) (is_near w hit && is_near hit w) _ _ refl
      refl

pub add_hits-some :
    (selected hits : List SourceWindow)
    → is_nil selected ≡ false
    → is_nil (add_hits selected hits) ≡ false
unfolding add_hits
add_hits-some selected [] h = h
add_hits-some selected (hit ∷ rest) h =
    let next = add_or_merge_window-some selected hit in
    if_both (λ (r : List SourceWindow). is_nil r ≡ false)
      (length (add_or_merge_window selected hit) == 3) _ _ next
      (add_hits-some (add_or_merge_window selected hit) rest next)

pub selected_windows-some :
    (t : TextTables) (terms lines : List String) → is_nil (selected_windows t terms lines) ≡ false
unfolding selected_windows merge_windows
selected_windows-some t terms lines = merge_ordered-some _ (
    sort_by-some _ _ (
      sort_by-some _ _
        (add_hits-some (prefix_window t terms lines ∷ []) (ordered_hits t terms lines) refl)))

pub segments_from-source :
    (first : ℤ) (lines : List String) (cursor : ℕ) (ws : List SourceWindow)
    → is_nil ws ≡ false
    → any is_source (segments_from first lines cursor ws) ≡ true
unfolding segments_from
segments_from-source first lines cursor [] h = cc
segments_from-source first lines cursor (w ∷ ws) h =
    if_both (λ (r : List Segment). any is_source r ≡ true) (ltb cursor w.start) _ _ refl refl

pub absurd_nil {ℓ} : {A : Type ℓ} → true ≡ false → A
absurd_nil h = cc

pub focused_segments-source :
    {F : Type 0} (t : TextTables) (c : ClassifiedCandidate F) (plan : Plan)
    → is_nil (focused_segments t c plan) ≡ false
    → any is_source (focused_segments t c plan) ≡ true
unfolding focused_segments
focused_segments-source t c plan h = elim (Bool-cases (is_nil (index_lines c.candidate.content))) [
  | inl empty ↦ absurd_nil (rw empty at h)
  | inr full ↦ rw full (
      segments_from-source c.candidate.start_line (index_lines c.candidate.content) 0
        (selected_windows t (focused_terms plan) (index_lines c.candidate.content))
        (selected_windows-some t (focused_terms plan) (index_lines c.candidate.content)))
]
