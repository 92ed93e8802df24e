-- ===== src/Sourceutil/Chunks/Windows.antt =====
-- The windows cover every line, none is too long, and neighbours share no more than the overlap.
use focal_span.Prelude.{
  ℕ, zero, suc, ◌+◌, ◌-◌, ◌/◌, ◌≤◌, ◌<◌, ◌≡◌, refl, ℤ, pos, Bool, true, false, ◌&&◌, List, [], ◌∷◌,
  any, map, leb, ltb, leb_ℤ, arith, Bool-cases, inl, inr, if◌then◌else◌, int_end, add_int_pos,
  sub_int_pos,
}
use focal_span.Sourceutil.Chunks.{
  Outcome, with_window, window_lines, window_overlap, window_capacity, can_make, window_end,
  windows_from, bounded_line_windows,
}

abbrev pub holds_line : ℕ → ℕ × ℕ → Bool
holds_line l w = leb w.0 l && leb l w.1

-- The windows of `count` lines from line `start` on: each begins `step` lines after the one before,
-- has at most `lines` lines and ends inside; the last ends at the last line.
abbrev pub IsTiling : ℕ → ℕ → ℕ → ℕ → List (ℕ × ℕ) → Type 0
IsTiling count lines step start [] = ⊥
IsTiling count lines step start (w ∷ []) =
    (w.0 ≡ start) × (w.1 ≡ count) × (start ≤ count) × (count < start + lines)
IsTiling count lines step start (w ∷ v ∷ ws) =
    (w.0 ≡ start)
    × (w.1 + 1 ≡ start + lines)
    × (w.1 < count)
    × IsTiling count lines step (start + step) (v ∷ ws)

IsTiling-cons :
    (count lines step start : ℕ) (w : ℕ × ℕ) (ws : List (ℕ × ℕ))
    → w.0 ≡ start
    → w.1 + 1 ≡ start + lines
    → w.1 < count
    → IsTiling count lines step (start + step) ws
    → IsTiling count lines step start (w ∷ ws)
IsTiling-cons count lines step start w [] a b c t = absurd t
IsTiling-cons count lines step start w (v ∷ ws) a b c t = (a, b, c, t)

window_end_pos :
    (count lines start : ℕ)
    → count + lines < int_end
    → start ≤ count
    → 0 < lines
    → window_end (pos count) lines (pos start)
      ≡ pos (if ltb count (start + lines - 1) then count else start + lines - 1)
unfolding window_end
window_end_pos count lines start h s q =
    rw
      (
        add_int_pos start lines (omega (arith, h)),
        sub_int_pos (start + lines) 1 (omega arith) (omega (arith, h)),
      )
      (ground arith)

-- a window of the source's integers
abbrev pub as_ints : ℕ × ℕ → ℤ × ℤ
as_ints w = (pos w.0, pos w.1)

stops :
    (fuel count lines step start : ℕ)
    → count + lines < int_end
    → start ≤ count
    → 0 < step
    → step ≤ lines
    → leb count (start + lines - 1) ≡ true
    → windows_from (suc fuel) (pos count) lines step (pos start)
      ≡ Outcome.returned ((pos start, pos count) ∷ [])
unfolding windows_from
stops fuel count lines step start n s p q e =
    rw (window_end_pos count lines start n s (omega arith)) (ground (arith, e))

goes_on :
    (fuel count lines step start : ℕ)
    → count + lines < int_end
    → start ≤ count
    → 0 < step
    → step ≤ lines
    → leb count (start + lines - 1) ≡ false
    → (ws : List (ℕ × ℕ))
    → windows_from fuel (pos count) lines step (pos (start + step))
      ≡ Outcome.returned (map as_ints ws)
    → windows_from (suc fuel) (pos count) lines step (pos start)
      ≡ Outcome.returned ((pos start, pos (start + lines - 1)) ∷ map as_ints ws)
unfolding windows_from with_window
goes_on fuel count lines step start n s p q e ws h =
    rw
      (
        window_end_pos count lines start n s (omega arith),
        add_int_pos start step (omega (arith, n)),
        h,
      )
      (ground (arith, e))

-- Fuel for each line that is left is enough.
windows_from-IsTiling :
    (fuel count lines step start : ℕ)
    → count + lines < int_end
    → count < start + fuel
    → start ≤ count
    → 0 < step
    → step ≤ lines
    → (ws : List (ℕ × ℕ)) × (windows_from fuel (pos count) lines step (pos start)
        ≡ Outcome.returned (map as_ints ws))
      × IsTiling count lines step start ws
windows_from-IsTiling zero count lines step start n f s p q = absurd (omega arith)
windows_from-IsTiling (suc fuel) count lines step start n f s p q =
    elim (Bool-cases (leb count (start + lines - 1))) [
      | inl last ↦ (
        (start, count) ∷ [],
        stops fuel count lines step start n s p q last,
        (refl, refl, s, ground arith),
      )
      | inr more ↦
          let (ws, same, tiles) =
            windows_from-IsTiling fuel count lines step (start + step) n (omega arith)
              (ground arith) p q in
          (
            (start, start + lines - 1) ∷ ws,
            goes_on fuel count lines step start n s p q more ws same,
            IsTiling-cons count lines step start _ ws refl (ground arith) (ground arith) tiles,
          )
    ]

can_make_pos :
    (most count step : ℕ)
    → count + step < int_end
    → 0 < step
    → (count + step - 1) / step ≤ most
    → can_make most (window_capacity (pos count) step) ≡ true
unfolding window_capacity
can_make_pos most count step h p k =
    rw (add_int_pos count step h, sub_int_pos (count + step) 1 (omega arith) h) (ground (arith, k))

-- For any number of lines above 0, any limit and any overlap, provided that the lines and the limit
-- together are less than 2^63 and there is memory for the capacity: the call returns windows that tile
-- the lines 1 to `line_count`. Each begins a step after the one before, has at most the limit of lines,
-- and the last one ends at the last line. The step is the limit less the overlap, both after the
-- defaults.
pub bounded_line_windows-IsTiling :
    (most count : ℕ) (max_lines overlap : ℤ)
    → 0 < count
    → count + window_lines max_lines < int_end
    → let step = window_lines max_lines - window_overlap max_lines overlap in
      (count + step - 1) / step ≤ most
      → (ws : List (ℕ × ℕ)) × (bounded_line_windows most (pos count) max_lines overlap
          ≡ Outcome.returned (map as_ints ws))
        × IsTiling count (window_lines max_lines) step 1 ws
unfolding bounded_line_windows
bounded_line_windows-IsTiling most count max_lines overlap h n k =
    let step = window_lines max_lines - window_overlap max_lines overlap in
    let positive : 0 < step = ground arith in
    let short : step ≤ window_lines max_lines = ground arith in
    let made = can_make_pos most count step (omega arith) positive k in
    let some_lines : leb_ℤ (pos count) (pos 0) ≡ false = ground arith in
    rw (some_lines, made)
      (windows_from-IsTiling count count (window_lines max_lines) step 1 n (omega arith)
        (omega arith) positive short)

-- A tiling holds every line of its range, provided that the step leaves no gap.
tiling_holds :
    (count lines step start l : ℕ) (ws : List (ℕ × ℕ))
    → IsTiling count lines step start ws
    → step ≤ lines
    → start ≤ l
    → l ≤ count
    → any (holds_line l) ws ≡ true
tiling_holds count lines step start l [] t q a b = absurd t
tiling_holds count lines step start l (w ∷ []) t q a b = ground arith
tiling_holds count lines step start l (w ∷ v ∷ ws) t q a b =
    ground (arith, tiling_holds count lines step (start + step) l (v ∷ ws) t.3)

-- Every line from 1 to `line_count` is in some window that the call returns, provided that the lines and
-- the limit together are less than 2^63 and there is memory for the capacity.
pub bounded_line_windows-covers :
    (most count l : ℕ) (max_lines overlap : ℤ)
    → count + window_lines max_lines < int_end
    → let step = window_lines max_lines - window_overlap max_lines overlap in
      (count + step - 1) / step ≤ most
      → 1 ≤ l
      → l ≤ count
      → (ws : List (ℕ × ℕ)) × (bounded_line_windows most (pos count) max_lines overlap
          ≡ Outcome.returned (map as_ints ws))
        × (any (holds_line l) ws ≡ true)
bounded_line_windows-covers most count l max_lines overlap n k a b =
    let (ws, same, tiles) =
      bounded_line_windows-IsTiling most count max_lines overlap (omega arith) n k in
    (
      ws,
      same,
      tiling_holds count (window_lines max_lines)
          (window_lines max_lines - window_overlap max_lines overlap) 1 l ws tiles (omega arith) a
          b,
    )
