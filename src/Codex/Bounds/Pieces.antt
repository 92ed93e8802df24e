-- ===== src/Codex/Bounds/Pieces.antt =====
-- Lines, their ends and their sizes, for the proofs about `findManagedBounds`.
use focal_span.Prelude.{
  ℕ, suc, ◌+◌, ◌≤◌, ◌≡◌, refl, sym, ◌∙◌, ap, Bool, true, false, not, List, [], ◌∷◌, ◌++◌,
  append_assoc, drop, length, length-append, every, All, ltb, ◌==◌, arith,
}
use focal_span.Prelude.Text.{same_codes}
use focal_span.Codex.Block.{with_newlines}
use focal_span.Codex.Block.Lines.{is_inline}
use focal_span.Codex.Bounds.{raw_lines, trim_end, line_of, line_end, found, bounds_of}

abbrev pub no_newline : ℕ → Bool
no_newline c = not (c == b'\n')

abbrev pub newline_behind : List ℕ → List ℕ
newline_behind line = line ++ b'\n' ∷ []

pub raw_lines-line :
    (line l : List ℕ)
    → every no_newline line ≡ true
    → raw_lines (line ++ b'\n' ∷ l) ≡ newline_behind line ∷ raw_lines l
unfolding raw_lines
raw_lines-line [] l h = refl
raw_lines-line (c ∷ line) l h =
    let here : (c == b'\n') ≡ false = ground (arith, h) in
    let later : every no_newline line ≡ true = ground (arith, h) in
    rw here (rw (raw_lines-line line l later) refl)

pub trim_end-behind : (c : ℕ) (line : List ℕ) → trim_end c (line ++ c ∷ []) ≡ line
unfolding trim_end
trim_end-behind c [] = ground arith
trim_end-behind c (a ∷ []) = ground arith
trim_end-behind c (a ∷ b ∷ line) = ap (◌∷◌ a) (trim_end-behind c (b ∷ line))

pub trim_end-none : (line : List ℕ) → every is_inline line ≡ true → trim_end b'\r' line ≡ line
unfolding trim_end
trim_end-none [] h = refl
trim_end-none (a ∷ []) h = ground (arith, h)
trim_end-none (a ∷ b ∷ line) h =
    let later : every is_inline (b ∷ line) ≡ true = ground (arith, h) in
    ap (◌∷◌ a) (trim_end-none (b ∷ line) later)

pub line_of-behind : (line : List ℕ) → line_of (newline_behind line) ≡ trim_end b'\r' line
line_of-behind line = ap (trim_end b'\r') (trim_end-behind b'\n' line)

pub line_end-line :
    (line l : List ℕ)
    → every no_newline line ≡ true
    → line_end (line ++ b'\n' ∷ l) ≡ suc (length line)
unfolding line_end
line_end-line [] l h = refl
line_end-line (c ∷ line) l h =
    let here : (c == b'\n') ≡ false = ground (arith, h) in
    let later : every no_newline line ≡ true = ground (arith, h) in
    rw here (ap suc (line_end-line line l later))

pub drop-append : (k l : List ℕ) → drop (length k) (k ++ l) ≡ l
drop-append [] l = refl
drop-append (c ∷ k) l = drop-append k l

pub with_newlines-append :
    (k l : List (List ℕ)) → with_newlines (k ++ l) ≡ with_newlines k ++ with_newlines l
unfolding with_newlines
with_newlines-append [] l = refl
with_newlines-append (line ∷ k) l =
    ap (λ (r : List ℕ). line ++ (b'\n' ∷ r)) (with_newlines-append k l)
    ∙ sym (append_assoc line (b'\n' ∷ with_newlines k) (with_newlines l))

pub same_codes_refl : (l : List ℕ) → same_codes l l ≡ true
unfolding same_codes
same_codes_refl [] = refl
same_codes_refl (c ∷ l) = ground (arith, same_codes_refl l)

pub with_newlines-cons :
    (line : List ℕ) (rest : List (List ℕ))
    → with_newlines (line ∷ rest) ≡ line ++ (b'\n' ∷ with_newlines rest)
unfolding with_newlines
with_newlines-cons line rest = refl

pub zero_plus : (n : ℕ) → 0 + n ≡ n
zero_plus n = omega arith

pub sizes :
    (k line l : List ℕ)
    → length (k ++ (line ++ (b'\n' ∷ l))) ≡ length k + length (newline_behind line) + length l
sizes k line l = omega (
  arith,
  length-append k (line ++ (b'\n' ∷ l)),
  length-append line (b'\n' ∷ l),
  length-append line (b'\n' ∷ []),
)

pub block-size :
    (b s e : List ℕ)
    → length (b ++ (b'\n' ∷ (s ++ (e ++ (b'\n' ∷ with_newlines [])))))
      ≡ length (newline_behind b) + length s + suc (length e)
unfolding with_newlines
block-size b s e = omega (
  arith,
  length-append b (b'\n' ∷ (s ++ (e ++ (b'\n' ∷ [])))),
  length-append s (e ++ (b'\n' ∷ [])),
  length-append e (b'\n' ∷ []),
  length-append b (b'\n' ∷ []),
)

pub two_marks :
    (content : List ℕ) (start end : ℕ)
    → start ≤ end
    → bounds_of content (start ∷ []) (end ∷ []) ≡ found start (end + line_end (drop end content))
unfolding bounds_of
two_marks content start end h = let e : ltb end start ≡ false = ground arith in rw e refl

pub All-split : (P : List ℕ → Type 0) (k l : List (List ℕ)) → All P (k ++ l) → All P k × All P l
All-split P [] l h = (tt, h)
All-split P (x ∷ k) l h = let (first, rest) = All-split P k l h.1 in ((h.0, first), rest)

pub All-map :
    (P Q : List ℕ → Type 0)
    → ((line : List ℕ) → P line → Q line)
    → (l : List (List ℕ)) → All P l
    → All Q l
All-map P Q f [] h = tt
All-map P Q f (x ∷ l) h = (f x h.0, All-map P Q f l h.1)
