-- ===== src/Evidence/Compiler/Compile/Delivered.antt =====
-- What `Compile` returns: the packet of a compile that gives no error.
use focal_span.Prelude.{
  ℕ, ◌≤◌, ◌≡◌, refl, sym, ap, subst, ◌∙◌, ℤ, pos, ◌-ℤ◌, ◌+ℤ◌, String, false, not, List, [], ◌∷◌,
  map, Option, none, some, length, All, arith, Bool-cases, inl, inr,
}
use focal_span.Prelude.Sort.{All-sort_by, length-sort_by}
use focal_span.Evidence.Model.{Packet}
use focal_span.Evidence.Candidate.{PreparedCandidate}
use focal_span.Evidence.Validate.{Violation, valid_mode, validate}
use focal_span.Evidence.Validate.WellFormed.{IsWellFormed, validate_iff}
use focal_span.Evidence.Wire.{Encoder}
use focal_span.Evidence.Guidance.{has, over_limit}
use focal_span.Evidence.Runtime.{Floats, TextTables}
use focal_span.Evidence.Compiler.Utility.{SelectedCandidate}
use focal_span.Evidence.Compiler.Build.{
  CompileRequest, selected_before, ordered_selection, build_packet,
}
use focal_span.Evidence.Compiler.Statistics.{CompileResult}
use focal_span.Evidence.Compiler.Select.{Run, selection_limit, handle_of, select_all, shrink}
use focal_span.Evidence.Compiler.Preprocess.{known_set, preprocess}
use focal_span.Evidence.Compiler.Compile.{
  statistics, Compiled, ok, err, clamp_budget, mode_or_focused, checked, finish_packet, finish,
  run_of, compile,
}
use focal_span.Evidence.Compiler.Compile.Unseen.{preprocess-Unknown}
use focal_span.Evidence.Compiler.Compile.Selected.{select_all-Fits, shrink-Fits}
use focal_span.Evidence.Compiler.Compile.Result.{
  handles_of, length-handles_of, handles_of-build_packet, limit-build_packet, finish_packet-frame,
}

module _ (fl : Floats) (e : Encoder) (t : TextTables) where
  open fl use {F}

  abbrev pub UnknownHandle : CompileRequest F → String → Type 0
  UnknownHandle req h = has (known_set fl req) h ≡ false

  abbrev UnknownCandidate : CompileRequest F → PreparedCandidate F → Type 0
  UnknownCandidate req p = UnknownHandle req (handle_of p)

  -- what holds of a packet before the last validation
  abbrev Within : Run F → Packet → Type 0
  Within run p =
      (p.budget.limit ≡ run.limit)
      × (length p.evidence ≤ selection_limit run.req.plan)
      × All (UnknownHandle run.req) (handles_of p.evidence)

  abbrev Delivered : Run F → Compiled → Type 0
  Delivered run (err reason) = Unit
  Delivered run (ok r) = IsWellFormed r.packet × Within run r.packet

  unknown_handles :
      (req : CompileRequest F) (ss : List (SelectedCandidate F))
      → All (λ s. UnknownCandidate req s.prepared) ss
      → All (UnknownHandle req) (map (λ s. handle_of s.prepared) ss)
        × (length (map (λ s. handle_of s.prepared) ss) ≡ length ss)
  unknown_handles req [] h = (tt, refl)
  unknown_handles req (s ∷ ss) h =
      let rest = unknown_handles req ss h.1 in ((h.0, rest.0), ap ℕ.suc rest.1)

  checked-Delivered :
      (run : Run F) (r : CompileResult) (o : Option Violation)
      → validate r.packet ≡ o
      → Within run r.packet
      → Delivered run (checked r o)
  unfolding checked
  checked-Delivered run r none v w = ((validate_iff r.packet).0 v, w)
  checked-Delivered run r (some reason) v w = tt

  -- the packet that a selection ends in
  module _ (run : Run F) (selected : List (SelectedCandidate F)) (omitted : ℤ) where
    abbrev built : Packet
    built = build_packet fl e run.req run.mode run.limit selected omitted run.skipped_known

    abbrev final : Packet
    final = finish_packet fl e t run selected omitted built

    handles_of-final :
        handles_of final.evidence ≡ map (λ s. handle_of s.prepared) (ordered_selection fl selected)
    handles_of-final =
        (finish_packet-frame fl e t run selected omitted built).0
        ∙ handles_of-build_packet fl e t run selected omitted

    final-Within :
        All (λ s. UnknownCandidate run.req s.prepared) selected
        → length selected ≤ selection_limit run.req.plan
        → Within run final
    unfolding ordered_selection
    final-Within unknown few =
        let handles = unknown_handles run.req (ordered_selection fl selected) (
          All-sort_by (λ s. UnknownCandidate run.req s.prepared) (selected_before fl) selected
            unknown) in
        (
          (finish_packet-frame fl e t run selected omitted built).1
              ∙ limit-build_packet fl e t run selected omitted,
          omega (
            arith,
            few,
            handles.1,
            length-handles_of final.evidence,
            ap length handles_of-final,
            length-sort_by (selected_before fl) selected,
          ),
          subst (All (UnknownHandle run.req)) (sym handles_of-final) handles.0,
        )

  finish-Delivered :
      (run : Run F) (chosen : List (SelectedCandidate F))
      → All (λ s. UnknownCandidate run.req s.prepared) chosen
        × (length chosen ≤ selection_limit run.req.plan)
      → Delivered run (finish fl e t run chosen)
  unfolding finish
  finish-Delivered run chosen fits =
      let start = pos (length run.prepared) -ℤ pos (length chosen) +ℤ run.base_omitted in
      let left = shrink fl e (length chosen) run start chosen in
      let kept =
        shrink-Fits fl e (UnknownCandidate run.req) (length chosen) run start chosen fits in
      elim (Bool-cases (over_limit (built run left.0 left.1))) [
        | inl over ↦ rw over tt
        | inr small ↦ rw small (
            checked-Delivered run
              (record {
                packet = final run left.0 left.1;
                stats = statistics fl e t run left.0 left.1 (final run left.0 left.1);
              })
              (validate (final run left.0 left.1)) refl
              (final-Within run left.0 left.1 kept.0 kept.1))
      ]

  compile-Delivered :
      (req : CompileRequest F)
      → Delivered
          (run_of fl e t req
            (mode_or_focused req.mode)
            (preprocess fl e t req (mode_or_focused req.mode)))
          (compile fl e t req)
  unfolding compile run_of
  compile-Delivered req =
      let mode = mode_or_focused req.mode in
      let run = run_of fl e t req mode (preprocess fl e t req mode) in
      elim (Bool-cases (not (valid_mode mode))) [
        | inl unsupported ↦ rw unsupported tt
        | inr supported ↦ rw supported (
            finish-Delivered run (select_all fl e run) (
              select_all-Fits fl e (UnknownCandidate req) run (preprocess-Unknown fl e t req mode)))
      ]

  -- A packet that `compile` returns is well formed, its limit is the request's budget clamped to the
  -- range from 256 to 64000, it has no more evidence than the plan's intent admits, and no handle of
  -- its evidence is one that the client knows.
  pub compile_lem :
      (req : CompileRequest F) (r : CompileResult)
      → compile fl e t req ≡ ok r
      → IsWellFormed r.packet
        × (r.packet.budget.limit ≡ clamp_budget req.token_budget)
        × (length r.packet.evidence ≤ selection_limit req.plan)
        × All (UnknownHandle req) (handles_of r.packet.evidence)
  unfolding run_of
  compile_lem req r h =
      let (well_formed, (limit, few, unknown)) =
        subst
          (Delivered (
            run_of fl e t req (mode_or_focused req.mode)
              (preprocess fl e t req (mode_or_focused req.mode))))
          h (compile-Delivered req) in
      (well_formed, limit, few, unknown)
