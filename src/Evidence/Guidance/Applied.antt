-- ===== src/Evidence/Guidance/Applied.antt =====
-- `applyGuidanceWithinBudget` only shortens the guidance, and stops when it fits or can shorten no more.
use mathlib.Core.List.{append_assoc, append-nil}
use focal_span.Prelude.{
  ℕ, zero, suc, ◌≤◌, ◌≡◌, refl, sym, ap, ◌∙◌, ℤ, String, Bool, true, false, not, ◌&&◌, ◌||◌, List,
  [], ◌∷◌, ◌++◌, length, arith, Bool-cases, inl, inr,
}
use focal_span.Evidence.Model.{NextAction, Packet}
use focal_span.Evidence.Validate.{is_nil}
use focal_span.Evidence.Wire.{Encoder, settled, set_used}
use focal_span.Evidence.Wire.Settle.{settled-frame}
use focal_span.Evidence.Guidance.{
  drop_last, last_is, over_limit, trim_next, trim_limitations, apply_guidance_within_budget,
}

-- The first list begins the second.
abbrev pub Begins {ℓ} : {A : Type ℓ} → List A → List A → Type ℓ
Begins {A = A} xs ys = (zs : List A) × (xs ++ zs ≡ ys)

module _ {ℓ} {A : Type ℓ} where
  Begins-refl : (xs : List A) → Begins xs xs
  Begins-refl xs = ([], append-nil xs)

  Begins-trans : (xs ys zs : List A) → Begins xs ys → Begins ys zs → Begins xs zs
  Begins-trans xs ys zs (us, p) (vs, q) =
      (us ++ vs, sym (append_assoc xs us vs) ∙ ap (λ l. l ++ vs) p ∙ q)

  drop_last-Begins : (xs : List A) → Begins (drop_last xs) xs
  unfolding drop_last
  drop_last-Begins [] = ([], refl)
  drop_last-Begins (x ∷ []) = (x ∷ [], refl)
  drop_last-Begins (x ∷ y ∷ ys) = let (zs, p) = drop_last-Begins (y ∷ ys) in (zs, ap (◌∷◌ x) p)

  pub length-drop_last : (x : A) (xs : List A) → suc (length (drop_last (x ∷ xs))) ≡ length (x ∷ xs)
  unfolding drop_last
  length-drop_last x [] = refl
  length-drop_last x (y ∷ ys) = ap suc (length-drop_last y ys)

-- What `q` may differ in from `p`: its usage, and how much of the guidance is left.
pub record Shortens (p q : Packet) : Type 0 where
  pub schema : q.schema ≡ p.schema
  pub revision : q.revision ≡ p.revision
  pub intent : q.intent ≡ p.intent
  pub mode : q.mode ≡ p.mode
  pub limit : q.budget.limit ≡ p.budget.limit
  pub truncated : q.budget.truncated ≡ p.budget.truncated
  pub omitted : q.budget.omitted ≡ p.budget.omitted
  pub evidence : q.evidence ≡ p.evidence
  pub relations : q.relations ≡ p.relations
  pub skipped_known : q.skipped_known ≡ p.skipped_known
  pub limitations : Begins q.limitations p.limitations
  pub next : Begins q.next p.next

-- fewer limitations and fewer actions, in any packet with the same rest
shortened :
    (p : Packet) (u : ℤ) (ls : List String) (ns : List NextAction)
    → Begins ls p.limitations
    → Begins ns p.next
    → Shortens p (set_used (record p { limitations = ls; next = ns }) u)
shortened p u ls ns bl bn = record {
  schema = refl;
  revision = refl;
  intent = refl;
  mode = refl;
  limit = refl;
  truncated = refl;
  omitted = refl;
  evidence = refl;
  relations = refl;
  skipped_known = refl;
  limitations = bl;
  next = bn;
}

Shortens-refl : (p : Packet) → Shortens p p
Shortens-refl p =
    shortened p p.budget.used p.limitations p.next (Begins-refl p.limitations) (Begins-refl p.next)

Shortens-trans : {p q r : Packet} → Shortens p q → Shortens q r → Shortens p r
Shortens-trans {p} {q} {r} a b = record {
  schema = b.schema ∙ a.schema;
  revision = b.revision ∙ a.revision;
  intent = b.intent ∙ a.intent;
  mode = b.mode ∙ a.mode;
  limit = b.limit ∙ a.limit;
  truncated = b.truncated ∙ a.truncated;
  omitted = b.omitted ∙ a.omitted;
  evidence = b.evidence ∙ a.evidence;
  relations = b.relations ∙ a.relations;
  skipped_known = b.skipped_known ∙ a.skipped_known;
  limitations = Begins-trans r.limitations q.limitations p.limitations b.limitations a.limitations;
  next = Begins-trans r.next q.next p.next b.next a.next;
}

module _ (e : Encoder) where
  settled-Shortens : (p : Packet) → Shortens p (settled e p)
  settled-Shortens p = rw (settled-frame e p) (
      shortened p (settled e p).budget.used p.limitations p.next (Begins-refl p.limitations)
        (Begins-refl p.next))

  settled-next : (p : Packet) → (settled e p).next ≡ p.next
  settled-next p = ap (λ (q : Packet). q.next) (settled-frame e p)

  settled-limitations : (p : Packet) → (settled e p).limitations ≡ p.limitations
  settled-limitations p = ap (λ (q : Packet). q.limitations) (settled-frame e p)

  -- one round of each loop
  abbrev shorter_next : Packet → Packet
  shorter_next p = settled e (record p { next = drop_last p.next })

  abbrev shorter_limitations : Packet → Packet
  shorter_limitations p = settled e (record p { limitations = drop_last p.limitations })

  shorter_next-Shortens : (p : Packet) → Shortens p (shorter_next p)
  shorter_next-Shortens p =
      Shortens-trans
        (shortened p p.budget.used p.limitations (drop_last p.next) (Begins-refl p.limitations)
          (drop_last-Begins p.next))
        (settled-Shortens (record p { next = drop_last p.next }))

  shorter_limitations-Shortens : (p : Packet) → Shortens p (shorter_limitations p)
  shorter_limitations-Shortens p =
      Shortens-trans
        (shortened p p.budget.used (drop_last p.limitations) p.next (drop_last-Begins p.limitations)
          (Begins-refl p.next))
        (settled-Shortens (record p { limitations = drop_last p.limitations }))

  abbrev next_goes_on : Packet → Bool
  next_goes_on p = over_limit p && not (is_nil p.next)

  abbrev limitations_go_on : Packet → Bool
  limitations_go_on p =
      over_limit p && not (is_nil p.limitations) && not (last_is "budget_limited" p.limitations)

  trim_next-stop : (f : ℕ) (p : Packet) → next_goes_on p ≡ false → trim_next e (suc f) p ≡ p
  unfolding trim_next
  trim_next-stop f p h = rw h refl

  trim_next-step :
      (f : ℕ) (p : Packet)
      → next_goes_on p ≡ true
      → trim_next e (suc f) p ≡ trim_next e f (shorter_next p)
  unfolding trim_next
  trim_next-step f p h = rw h refl

  trim_limitations-stop :
      (f : ℕ) (p : Packet) → limitations_go_on p ≡ false → trim_limitations e (suc f) p ≡ p
  unfolding trim_limitations
  trim_limitations-stop f p h = rw h refl

  trim_limitations-step :
      (f : ℕ) (p : Packet)
      → limitations_go_on p ≡ true
      → trim_limitations e (suc f) p ≡ trim_limitations e f (shorter_limitations p)
  unfolding trim_limitations
  trim_limitations-step f p h = rw h refl

  trim_next-Shortens : (f : ℕ) (p : Packet) → Shortens p (trim_next e f p)
  trim_next-Shortens zero p = unfold trim_next in Shortens-refl p
  trim_next-Shortens (suc f) p = elim (Bool-cases (next_goes_on p)) [
    | inl on ↦
        rw (trim_next-step f p on)
          (Shortens-trans (shorter_next-Shortens p) (trim_next-Shortens f (shorter_next p)))
    | inr off ↦ rw (trim_next-stop f p off) (Shortens-refl p)
  ]

  trim_limitations-Shortens : (f : ℕ) (p : Packet) → Shortens p (trim_limitations e f p)
  trim_limitations-Shortens zero p = unfold trim_limitations in Shortens-refl p
  trim_limitations-Shortens (suc f) p = elim (Bool-cases (limitations_go_on p)) [
    | inl on ↦ rw (trim_limitations-step f p on) (
        Shortens-trans (shorter_limitations-Shortens p)
          (trim_limitations-Shortens f (shorter_limitations p)))
    | inr off ↦ rw (trim_limitations-stop f p off) (Shortens-refl p)
  ]

  trim_limitations-next : (f : ℕ) (p : Packet) → (trim_limitations e f p).next ≡ p.next
  trim_limitations-next zero p = unfold trim_limitations in refl
  trim_limitations-next (suc f) p = elim (Bool-cases (limitations_go_on p)) [
    | inl on ↦ rw (trim_limitations-step f p on) (
        trim_limitations-next f (shorter_limitations p)
        ∙ settled-next (record p { limitations = drop_last p.limitations }))
    | inr off ↦ rw (trim_limitations-stop f p off) refl
  ]

  nil_of_length : {A : Type 0} (xs : List A) → length xs ≤ 0 → is_nil xs ≡ true
  nil_of_length [] h = refl
  nil_of_length (x ∷ xs) h = absurd (omega arith)

  -- fewer elements are left after a round, where there were any
  drop_last-lt :
      {A : Type 0} (xs : List A) (f : ℕ)
      → not (is_nil xs) ≡ true
      → length xs ≤ suc f
      → length (drop_last xs) ≤ f
  drop_last-lt [] f h k = cc
  drop_last-lt (x ∷ xs) f h k = omega (arith, length-drop_last x xs)

  trim_next-done : (f : ℕ) (p : Packet) → length p.next ≤ f → next_goes_on (trim_next e f p) ≡ false
  trim_next-done zero p h = unfold trim_next in ground (arith, nil_of_length p.next h)
  trim_next-done (suc f) p h = elim (Bool-cases (next_goes_on p)) [
    | inl on ↦ rw (trim_next-step f p on) (
        trim_next-done f (shorter_next p) (
          rw (settled-next (record p { next = drop_last p.next }))
            (drop_last-lt p.next f (ground arith) h)))
    | inr off ↦ rw (trim_next-stop f p off) off
  ]

  trim_limitations-done :
      (f : ℕ) (p : Packet)
      → length p.limitations ≤ f
      → limitations_go_on (trim_limitations e f p) ≡ false
  trim_limitations-done zero p h =
      unfold trim_limitations in ground (arith, nil_of_length p.limitations h)
  trim_limitations-done (suc f) p h = elim (Bool-cases (limitations_go_on p)) [
    | inl on ↦ rw (trim_limitations-step f p on) (
        trim_limitations-done f (shorter_limitations p) (
          rw (settled-limitations (record p { limitations = drop_last p.limitations }))
            (drop_last-lt p.limitations f (ground arith) h)))
    | inr off ↦ rw (trim_limitations-stop f p off) off
  ]

  trim_limitations-over :
      (f : ℕ) (p : Packet) → over_limit (trim_limitations e f p) ≡ true → over_limit p ≡ true
  trim_limitations-over zero p h = unfold trim_limitations in h
  trim_limitations-over (suc f) p h = elim (Bool-cases (limitations_go_on p)) [
    | inl on ↦ ground arith
    | inr off ↦ rw (trim_limitations-stop f p off) at h
  ]

  -- the packet between the two loops
  abbrev with_next : Packet → Packet
  with_next p = trim_next e (length p.next) p

  trimmed-stops :
      (p : Packet)
      → let q = trim_limitations e (length (with_next p).limitations) (with_next p) in
        over_limit q ≡ true
        → (is_nil q.next ≡ true)
          × ((is_nil q.limitations || last_is "budget_limited" q.limitations) ≡ true)
  trimmed-stops p h =
      let f = length (with_next p).limitations in
      let stop = trim_limitations-done f (with_next p) (omega arith) in
      let over = trim_limitations-over f (with_next p) h in
      let none_left = trim_next-done (length p.next) p (omega arith) in
      let q = trim_limitations e f (with_next p) in
      (
        rw (trim_limitations-next f (with_next p))
            (second (over_limit (with_next p)) (is_nil (with_next p).next) over none_left),
        third (over_limit q) (is_nil q.limitations) (last_is "budget_limited" q.limitations) h stop,
      )
    where
      second : (a b : Bool) → a ≡ true → (a && not b) ≡ false → b ≡ true
      second a b h k = ground arith

      third : (a b c : Bool) → a ≡ true → (a && not b && not c) ≡ false → (b || c) ≡ true
      third a b c h k = ground arith

  -- `applyGuidanceWithinBudget` gives the packet the first of the limitations and the first of the
  -- actions, in order, and changes nothing else but the usage. If the result is still over its limit,
  -- no action is left, and the limitations are gone too or end in "budget_limited".
  pub apply_guidance_within_budget_lem :
      (p : Packet) (limitations : List String) (next : List NextAction)
      → let q = apply_guidance_within_budget e p limitations next in
        Shortens (record p { limitations = limitations; next = next }) q
        × (over_limit q ≡ true
            → (is_nil q.next ≡ true)
              × ((is_nil q.limitations || last_is "budget_limited" q.limitations) ≡ true))
  unfolding apply_guidance_within_budget
  apply_guidance_within_budget_lem p limitations next =
      let filled = settled e (record p { limitations = limitations; next = next }) in
      (
        Shortens-trans (settled-Shortens (record p { limitations = limitations; next = next })) (
            Shortens-trans (trim_next-Shortens (length filled.next) filled) (
              trim_limitations-Shortens (length (with_next filled).limitations)
                (with_next filled))),
        trimmed-stops filled,
      )
