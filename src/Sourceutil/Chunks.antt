-- ===== src/Sourceutil/Chunks.antt =====
-- `BoundedLineWindows` of internal/extract/sourceutil/chunks.go, with the `int` arithmetic of 64 bits
-- that wraps around.
pub mod Windows
use focal_span.Prelude.{
  ℕ, zero, suc, ◌-◌, ℤ, pos, pos_part, leb_ℤ, ltb_ℤ, eqb_ℤ, add_int, sub_int, quotient, List, [],
  ◌∷◌, if◌then◌else◌, not, ◌||◌, ◌&&◌, Bool,
}

-- What a call does: it panics, it still runs when the fuel is spent, or it returns the windows.
pub data Outcome : Type 0 where
  panicked unfinished : Outcome
  returned : List (ℤ × ℤ) → Outcome

-- `append` in front of what the later rounds append
unfoldable pub with_window : ℤ × ℤ → Outcome → Outcome
with_window w Outcome.panicked = Outcome.panicked
with_window w Outcome.unfinished = Outcome.unfinished
with_window w (Outcome.returned ws) = Outcome.returned (w ∷ ws)

-- the two parameters after the guards of the source
abbrev pub window_lines : ℤ → ℕ
window_lines max_lines = if leb_ℤ max_lines (pos 0) then 80 else pos_part max_lines

abbrev pub window_overlap : ℤ → ℤ → ℕ
window_overlap max_lines overlap =
    if ltb_ℤ overlap (pos 0)
    then 0
    else if leb_ℤ (pos (window_lines max_lines)) overlap
    then window_lines max_lines - 1
    else pos_part overlap

-- the capacity that `make` is called with
unfoldable pub window_capacity : ℤ → ℕ → ℤ
window_capacity line_count step = quotient (sub_int (add_int line_count (pos step)) (pos 1)) step

-- whether `make` returns: the capacity is not negative and at most the greatest that there is memory for
abbrev pub can_make : ℕ → ℤ → Bool
can_make most capacity = not (ltb_ℤ capacity (pos 0)) && leb_ℤ capacity (pos most)

unfoldable pub window_end : ℤ → ℕ → ℤ → ℤ
window_end line_count lines start =
    let end = sub_int (add_int start (pos lines)) (pos 1) in
    if ltb_ℤ line_count end then line_count else end

-- The loop, with fuel for its rounds: as many as there are lines are enough where no sum wraps around.
unfoldable pub windows_from : ℕ → ℤ → ℕ → ℕ → ℤ → Outcome
unfolding with_window
windows_from zero line_count lines step start = Outcome.unfinished
windows_from (suc fuel) line_count lines step start =
    let later = windows_from fuel line_count lines step (add_int start (pos step)) in
    let end = window_end line_count lines start in
    if leb_ℤ start line_count
    then (if eqb_ℤ end line_count
        then Outcome.returned ((start, end) ∷ [])
        else with_window (start, end) later)
    else Outcome.returned []

-- `most` is the greatest capacity that there is memory for; the fuel is a round for each line.
unfoldable pub bounded_line_windows : ℕ → ℤ → ℤ → ℤ → Outcome
unfolding window_capacity
bounded_line_windows most line_count max_lines overlap =
    let lines = window_lines max_lines in
    let step = lines - window_overlap max_lines overlap in
    if leb_ℤ line_count (pos 0)
    then Outcome.returned []
    else if can_make most (window_capacity line_count step)
    then windows_from (pos_part line_count) line_count lines step (pos 1)
    else Outcome.panicked
