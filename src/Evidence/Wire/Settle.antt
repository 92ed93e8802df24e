-- ===== src/Evidence/Wire/Settle.antt =====
-- Settling writes the usage and nothing else, and returns the measure of what it leaves.
use focal_span.Prelude.{ℕ, zero, suc, ◌≡◌, refl, ℤ, eqb_ℤ, true, arith, Bool-cases, inl, inr}
use focal_span.Evidence.Model.{Packet}
use focal_span.Evidence.Wire.{
  Encoder, set_used, measure_model_visible, settle_rounds, settle_wire_usage, settled,
}

module _ (e : Encoder) where
  settle_rounds-frame :
      (n : ℕ) (p : Packet)
      → (settle_rounds e n p).0 ≡ set_used p (settle_rounds e n p).0.budget.used
  unfolding settle_rounds
  settle_rounds-frame zero p = refl
  settle_rounds-frame (suc n) p =
      elim (Bool-cases (eqb_ℤ (measure_model_visible e p) p.budget.used)) [
        | inl same ↦ rw same refl
        | inr other ↦ rw other (settle_rounds-frame n (set_used p (measure_model_visible e p)))
      ]

  settle_rounds-measure :
      (n : ℕ) (p : Packet)
      → (settle_rounds e n p).1 ≡ measure_model_visible e (settle_rounds e n p).0
  unfolding settle_rounds
  settle_rounds-measure zero p = refl
  settle_rounds-measure (suc n) p =
      elim (Bool-cases (eqb_ℤ (measure_model_visible e p) p.budget.used)) [
        | inl same ↦ rw same refl
        | inr other ↦ rw other (settle_rounds-measure n (set_used p (measure_model_visible e p)))
      ]

  pub settled-frame : (p : Packet) → settled e p ≡ set_used p (settled e p).budget.used
  unfolding settle_wire_usage
  settled-frame p = settle_rounds-frame 4 p

  -- `settleWireUsage` changes nothing but the usage, and the number it returns is the measure of the
  -- packet that it leaves. A packet whose usage is its measure is left as it is.
  pub settle_wire_usage_lem :
      (p : Packet)
      → ((settle_wire_usage e p).0 ≡ set_used p (settle_wire_usage e p).0.budget.used)
        × ((settle_wire_usage e p).1 ≡ measure_model_visible e (settle_wire_usage e p).0)
        × (measure_model_visible e p ≡ p.budget.used → (settle_wire_usage e p).0 ≡ p)
  settle_wire_usage_lem p =
      (settled-frame p, unfold settle_wire_usage in settle_rounds-measure 4 p, λ h. stays h)
    where
      stays : measure_model_visible e p ≡ p.budget.used → (settle_wire_usage e p).0 ≡ p
      stays h = unfold settle_wire_usage settle_rounds in rw h (rw (same_int p.budget.used) refl)
        where
          same_int : (a : ℤ) → eqb_ℤ a a ≡ true
          same_int a = ground arith
