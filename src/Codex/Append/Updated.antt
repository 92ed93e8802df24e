-- ===== src/Codex/Append/Updated.antt =====
-- An update of the managed block changes nothing else.
use focal_span.Prelude.{
  ℕ, ◌+◌, ◌≡◌, refl, sym, ◌∙◌, ap, ap₂, subst, String, true, false, List, [], ◌∷◌, ◌++◌,
  append_assoc, some, take, drop, length, length-append, All,
}
use focal_span.Codex.Toml.{StringState}
use focal_span.Codex.Block.{RegistrationSpec, is_valid_name, block_lines, with_newlines}
use focal_span.Codex.Bounds.{ManagedBounds, find_managed_bounds}
use focal_span.Codex.Bounds.Pieces.{drop-append, with_newlines-append}
use focal_span.Codex.Bounds.Found.{IsForeign, state_behind, find_managed_bounds-block_lines}
use focal_span.Codex.Append.{uses_crlf, append_managed_block, bounds_option}

take-append : (k l : List ℕ) → take (length k) (k ++ l) ≡ k
take-append [] l = refl
take-append (c ∷ k) l = ap (◌∷◌ c) (take-append k l)

drop_both : (k old l : List ℕ) → drop (length k + length old) (k ++ (old ++ l)) ≡ l
drop_both k old l =
    ap₂ (λ (n : ℕ) (m : List ℕ). drop n m) (sym (length-append k old)) (sym (append_assoc k old l))
    ∙ drop-append (k ++ old) l

replaced :
    (k old l block : List ℕ)
    → uses_crlf (k ++ (old ++ l)) ≡ false
    → append_managed_block (k ++ (old ++ l)) block (some (length k, length k + length old))
      ≡ k ++ (block ++ l)
unfolding append_managed_block
replaced k old l block h =
    rw h (ap₂ (λ (a b : List ℕ). a ++ (block ++ b)) (take-append k (old ++ l)) (drop_both k old l))

module _ (name : String) (valid : is_valid_name name ≡ true) (before after : List (List ℕ)) where
  -- a configuration with the block of a specification between other lines
  abbrev pub content_of : RegistrationSpec → List ℕ
  content_of spec = with_newlines (before ++ (block_lines name spec ++ after))

  parts :
      (spec : RegistrationSpec)
      → content_of spec
        ≡ with_newlines before ++ (with_newlines (block_lines name spec) ++ with_newlines after)
  parts spec =
      with_newlines-append before (block_lines name spec ++ after)
      ∙ ap (λ (l : List ℕ). with_newlines before ++ l)
          (with_newlines-append (block_lines name spec) after)

  -- For a valid name, and a configuration whose lines do not all end in CR LF, with the block of a specification
  -- between lines that are no markers and behind which the scanner is outside of strings: the bounds that
  -- `find_managed_bounds` gives let `append_managed_block` put a new block in the place of the old one, and
  -- nothing else of the content changes.
  pub append_managed_block-update :
      (old new : RegistrationSpec)
      → All (IsForeign name) before
      → All (IsForeign name) after
      → state_behind name before StringState.outside ≡ StringState.outside
      → uses_crlf (content_of old) ≡ false
      → append_managed_block
          (content_of old)
          (with_newlines (block_lines name new))
          (bounds_option (find_managed_bounds (content_of old) name))
        ≡ content_of new
  append_managed_block-update old new h k outside lf =
      let b = with_newlines before in
      let o = with_newlines (block_lines name old) in
      let n = with_newlines (block_lines name new) in
      let a = with_newlines after in
      let bounds = find_managed_bounds-block_lines name old valid before after h k outside in
      ap (λ (m : ManagedBounds). append_managed_block (content_of old) n (bounds_option m)) bounds
      ∙ ap
          (λ (content : List ℕ).
            append_managed_block content n (some (length b, length b + length o)))
          (parts old)
      ∙ replaced b o a n (subst (λ (content : List ℕ). uses_crlf content ≡ false) (parts old) lf)
      ∙ sym (parts new)
