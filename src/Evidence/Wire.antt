-- ===== src/Evidence/Wire.antt =====
-- `Summary`, `MeasureModelVisible` and `settleWireUsage` of internal/evidence/wire.go. What encodes
-- and estimates a text is the argument of the model: `json.Marshal`, which may fail, and the
-- `TokenEstimator` that the compiler is built with.
pub mod Settle
use focal_span.Prelude.{
  ℕ, zero, suc, ◌+◌, ℤ, pos, negsuc, pos_part, neg_part, eqb_ℤ, String, List, length, Option, none,
  some, if◌then◌else◌,
}
use focal_span.Prelude.Text.{concat, itoa}
use focal_span.Evidence.Model.{Budget, Packet}

pub record Encoder : Type 0 where
  pub marshal : Packet → Option String
  pub estimate : String → ℤ

abbrev pub max_budget : ℕ
max_budget = 64000

abbrev pub min_budget : ℕ
min_budget = 256

-- the verb `%d`
unfoldable pub int_text : ℤ → String
int_text (pos n) = itoa n
int_text (negsuc n) = concat "-" (itoa (suc n))

unfoldable pub summary : Packet → String
unfolding int_text itoa
summary packet = concat "items=" (
    concat (itoa (length packet.evidence)) (
      concat " tokens=" (
        concat (int_text packet.budget.used) (
          concat "/" (
            concat (int_text packet.budget.limit)
              (concat " omitted=" (int_text packet.budget.omitted)))))))

abbrev pub set_used : Packet → ℤ → Packet
set_used packet used = record packet { budget = record packet.budget { used = used } }

module _ (e : Encoder) where
  unfoldable pub measure_model_visible : Packet → ℤ
  measure_model_visible packet = elim (e.marshal packet) [
    | none ↦ pos (max_budget + 1)
    | some payload ↦ e.estimate (concat payload (concat "\n" (summary packet)))
  ]

  -- `rounds` more iterations of the loop, then the code behind it; the packet that the pointer is
  -- left at, and the result
  unfoldable pub settle_rounds : ℕ → Packet → Packet × ℤ
  settle_rounds zero packet =
      let settled = set_used packet (measure_model_visible packet) in
      (settled, measure_model_visible settled)
  settle_rounds (suc rounds) packet =
      let measured = measure_model_visible packet in
      let more = settle_rounds rounds (set_used packet measured) in
      if eqb_ℤ measured packet.budget.used then (packet, measured) else more

  unfoldable pub settle_wire_usage : Packet → Packet × ℤ
  unfolding settle_rounds
  settle_wire_usage packet = settle_rounds 4 packet

  abbrev pub settled : Packet → Packet
  settled packet = (settle_wire_usage packet).0
