-- ===== src/Codex/Toml/Ends.antt =====
-- The loop of `tomlStringState` ends.
use focal_span.Prelude.{
  ℕ, zero, suc, ◌≤◌, ◌≡◌, subst, List, [], ◌∷◌, Option, none, some, Option-cases, inl, inr, drop,
  length, ◌==◌, if_both, arith,
}
use focal_span.Codex.Toml.{StringState, run_length, is_triple, scan_one, scan, toml_string_state}

-- The loop runs from a state and a line to its end, without a bound on its rounds: at the end of the line, at
-- a comment, or by one more round and what follows it.
pub data Runs : StringState → List ℕ → StringState → Type 0 where
  at_end : (state : StringState) → Runs state [] state
  at_comment :
      (state : StringState) (c : ℕ) (rest : List ℕ)
      → scan_one state c rest ≡ none
      → Runs state (c ∷ rest) state
  round :
      (state next last : StringState) (c : ℕ) (rest left : List ℕ)
      → scan_one state c rest ≡ some (next, left)
      → Runs next left last
      → Runs state (c ∷ rest) last

length-drop-le : (n : ℕ) (l : List ℕ) → length (drop n l) ≤ length l
length-drop-le zero l = omega arith
length-drop-le (suc n) [] = omega arith
length-drop-le (suc n) (c ∷ l) = omega (arith, length-drop-le n l)

-- what a round leaves of the text behind its character
abbrev IsShorter : List ℕ → Option (StringState × List ℕ) → Type 0
IsShorter rest none = Unit
IsShorter rest (some (next, left)) = length left ≤ length rest

scan_one-IsShorter :
    (state : StringState) (c : ℕ) (rest : List ℕ) → IsShorter rest (scan_one state c rest)
unfolding scan_one
scan_one-IsShorter StringState.outside c rest =
    let P = IsShorter rest in
    if_both P (c == b'#') _ _ tt (
      if_both P (c == b'"') _ _
        (if_both P (is_triple b'"' rest) _ _ (length-drop-le 2 rest) (omega arith))
        (if_both P (c == b'\'') _ _
          (if_both P (is_triple b'\'' rest) _ _ (length-drop-le 2 rest) (omega arith))
          (omega arith)))
scan_one-IsShorter StringState.basic c rest =
    let P = IsShorter rest in
    if_both P (c == b'\\') _ _ (length-drop-le 1 rest)
      (if_both P (c == b'"') _ _ (omega arith) (omega arith))
scan_one-IsShorter StringState.literal c rest =
    if_both (IsShorter rest) (c == b'\'') _ _ (omega arith) (omega arith)
scan_one-IsShorter StringState.multi_basic c rest =
    if_both (IsShorter rest) (c == b'\\') _ _ (length-drop-le 1 rest) (
      if_both (λ (r : StringState × List ℕ). length r.1 ≤ length rest) (c == b'"') _
        (StringState.multi_basic, rest) (length-drop-le (run_length b'"' rest) rest) (omega arith))
scan_one-IsShorter StringState.multi_literal c rest =
    if_both (λ (r : StringState × List ℕ). length r.1 ≤ length rest) (c == b'\'') _
      (StringState.multi_literal, rest) (length-drop-le (run_length b'\'' rest) rest) (omega arith)

scan-Runs :
    (fuel : ℕ) (state : StringState) (line : List ℕ)
    → length line ≤ fuel
    → Runs state line (scan fuel state line)
unfolding scan
scan-Runs zero state [] h = Runs.at_end state
scan-Runs zero state (c ∷ rest) h = absurd (omega (arith, h))
scan-Runs (suc fuel) state [] h = Runs.at_end state
scan-Runs (suc fuel) state (c ∷ rest) h = elim (Option-cases (scan_one state c rest)) [
  | inl ended ↦ rw (ended, scan) (Runs.at_comment state c rest ended)
  | inr ((next, left), e) ↦
      let shorter = subst (IsShorter rest) e (scan_one-IsShorter state c rest) in
      rw (e, scan)
        (Runs.round state next (scan fuel next left) c rest left e
          (scan-Runs fuel next left (omega (arith, h, shorter))))
]

-- From every state and on every line, the loop of `tomlStringState` runs to its end, and `toml_string_state`
-- is the state that it ends in.
pub toml_string_state-Runs :
    (line : List ℕ) (state : StringState) → Runs state line (toml_string_state line state)
unfolding toml_string_state
toml_string_state-Runs line state = scan-Runs (length line) state line (omega arith)
