-- ===== src/Sourceutil/SourceMap/LineAt.antt =====
-- The line of an offset is one more than the newlines before it.
use focal_span.Prelude.{
  ℕ, zero, suc, ◌+◌, ◌-◌, ◌≤◌, ◌<◌, ◌≡◌, refl, ap, pos, ◌≤ℤ◌, List, [], ◌∷◌, some, length, take,
  drop, ltb, leb, ◌==◌, arith, if◌then◌else◌, Bool-cases, inl, inr,
}
use focal_span.Sourceutil.SourceMap.{
  Span, starts_from, new_source_map, search_past, line_at, line_end, span, slice,
}

-- the number of newline bytes
abbrev pub newlines : List ℕ → ℕ
newlines [] = 0
newlines (c ∷ cs) = (if c == b'\n' then 1 else 0) + newlines cs

search-past_all :
    (total n i : ℕ) (cs : List ℕ) → n ≤ i → search_past (pos n) (starts_from total i cs) ≡ 0
unfolding search_past starts_from
search-past_all total n i [] h = refl
search-past_all total n i (c ∷ cs) h = ground (arith, search-past_all total n (i + 1) cs)

search-starts_from :
    (total n i : ℕ) (cs : List ℕ)
    → i + length cs ≡ total
    → i ≤ n
    → search_past (pos n) (starts_from total i cs) ≡ newlines (take (n - i) cs)
search-starts_from total n i [] t h = unfold search_past starts_from in take-empty (n - i)
  where
    take-empty : (k : ℕ) → 0 ≡ newlines (take k [])
    take-empty zero = refl
    take-empty (suc k) = refl
search-starts_from total n i (c ∷ cs) t h = elim (Bool-cases (leb n i)) [
  | inl done ↦
      let e : n - i ≡ 0 = ground arith in rw e (search-past_all total n i (c ∷ cs) (ground arith))
  | inr more ↦
      let e : n - i ≡ suc (n - (i + 1)) = ground arith in
      rw e (
        step total n i c cs t (ground arith)
          (search-starts_from total n (i + 1) cs (omega arith) (ground arith)))
]
  where
    step :
        (total n i c : ℕ) (cs : List ℕ)
        → i + suc (length cs) ≡ total
        → i < n
        → search_past (pos n) (starts_from total (i + 1) cs) ≡ newlines (take (n - (i + 1)) cs)
        → search_past (pos n) (starts_from total i (c ∷ cs))
          ≡ (if c == b'\n' then 1 else 0) + newlines (take (n - (i + 1)) cs)
    step total n i c cs t h ih = unfold search_past starts_from in ground arith

take_all : (n : ℕ) (cs : List ℕ) → length cs ≤ n → take n cs ≡ cs
take_all zero [] h = refl
take_all zero (c ∷ cs) h = absurd (omega arith)
take_all (suc n) [] h = refl
take_all (suc n) (c ∷ cs) h = ap (◌∷◌ c) (take_all n cs (omega arith))

length-starts_from :
    (total i : ℕ) (cs : List ℕ)
    → i + length cs ≡ total
    → length (starts_from total i cs) ≡ newlines cs
unfolding starts_from
length-starts_from total i [] t = refl
length-starts_from total i (c ∷ cs) t = ground (arith, length-starts_from total (i + 1) cs)

-- For the map of any content and every offset from 0 on, `LineAt` is one more than the number of
-- newlines before the offset; past the end, the number of newlines in the content.
pub line_at-new_source_map :
    (content : List ℕ) (n : ℕ)
    → line_at (new_source_map content) (pos n) ≡ suc (newlines (take n content))
unfolding line_at new_source_map
line_at-new_source_map content zero = ground arith
line_at-new_source_map content (suc n) = ground (
  arith,
  take_all (suc n) content,
  length-starts_from (length content) 0 content,
  search-starts_from (length content) (suc n) 0 content,
)

newlines-take_mono : (s n : ℕ) (cs : List ℕ) → s ≤ n → newlines (take s cs) ≤ newlines (take n cs)
newlines-take_mono zero n cs h = omega arith
newlines-take_mono (suc s) zero cs h = absurd (omega arith)
newlines-take_mono (suc s) (suc n) [] h = omega arith
newlines-take_mono (suc s) (suc n) (c ∷ cs) h =
    omega (arith, newlines-take_mono s n cs (omega arith))

-- the last byte of a range, as a number
abbrev pub last_byte : ℕ → ℕ → ℕ
last_byte s e = if ltb s e then e - 1 else s

line_end-last_byte : (s e : ℕ) → line_end (pos s) (pos e) ≡ pos (last_byte s e)
line_end-last_byte s e = ground arith

abbrev expected : List ℕ → ℕ → ℕ → Span
expected content s e = record {
  start_byte = pos s;
  end_byte = pos e;
  start_line = pos (suc (newlines (take s content)));
  end_line = pos (suc (newlines (take (last_byte s e) content)));
}

span-expected :
    (content : List ℕ) (s e : ℕ)
    → s ≤ e
    → e ≤ length content
    → span (new_source_map content) (pos s) (pos e) ≡ some (expected content s e)
span-expected content s e h k =
    rw (← line_at-new_source_map content s, ← line_at-new_source_map content (last_byte s e))
      (rw (← line_end-last_byte s e) (unfold span new_source_map in ground arith))

-- For a range inside the content, `Span` succeeds: the first line counts the newlines before the
-- range, the last line is not before it, and `Slice` of the span returns the bytes of the range.
pub span-slice :
    (content : List ℕ) (s e : ℕ)
    → s ≤ e
    → e ≤ length content
    → (sp : Span) × (span (new_source_map content) (pos s) (pos e) ≡ some sp)
      × (sp.start_line ≡ pos (suc (newlines (take s content))))
      × (sp.start_line ≤ℤ sp.end_line)
      × (slice (new_source_map content) sp ≡ some (take (e - s) (drop s content)))
span-slice content s e h k = (
  expected content s e,
  span-expected content s e h k,
  refl,
  omega (arith, newlines-take_mono s (last_byte s e) content (ground arith)),
  unfold slice new_source_map in ground arith,
)
