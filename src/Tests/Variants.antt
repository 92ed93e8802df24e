-- ===== src/Tests/Variants.antt =====
-- The variants of internal/evidence/fidelity.go and the segments of segments.go at a concrete candidate.
use focal_span.Prelude.{ℕ, ◌≡◌, refl, pos, ◌≤ℤ◌, String, [], ◌∷◌, All, length, ◌+ℤ◌, arith}
use focal_span.Evidence.Model.{Mode, Role, SegmentKind, Certainty}
use focal_span.Evidence.Candidate.{Plan, Intent, ClassifiedCandidate}
use focal_span.Evidence.Segments.{
  focused_segments, add_hits, hits_from, segments_from, prefix_window, ordered_hits,
  selected_windows,
}
use focal_span.Evidence.Segments.Lines.{
  index_lines, concat_all, focused_terms, distinct_matches, declaration_prefix_end, join_lines,
  terminal_name, add_terms, is_useful_focused_term,
}
use focal_span.Evidence.Segments.Windows.{
  extend_window, merge_behind, merge_ordered, merge_windows, absorb, add_or_merge_window,
}
use focal_span.Prelude.Sort.{sort_by}
use focal_span.Prelude.Text.{trim_space, has_prefix, has_code}
use focal_span.Prelude.Search.{contains}
use focal_span.Evidence.Segments.Tiles.{Tiles, focused_segments_lem}
use focal_span.Evidence.Variants.{build_variants}
use focal_span.Evidence.Variants.Shapes.{IsShown, build_variants-IsShown}
use focal_span.Tests.Fixtures.{hundredths, tables, encoder, candidate, no_terms}

-- sixteen lines, the term in the last but one
abbrev long_content : String
long_content = "f() {\na\nb\nc\nd\ne\ng\nh\ni\nj\nk\nl\nm\nn\nbudget\n}\n"

abbrev plan : Plan
plan = record {
  raw_query = "budget";
  terms = record no_terms { words = "budget" ∷ [] };
  primary_intent = Intent.callers;
  anchors = [];
  profile = "";
}

abbrev long : ClassifiedCandidate ℕ
long = record {
  candidate = record (candidate "h1" "f" (pos 3) (pos 18)) { content = long_content };
  original_rank = 0;
  role = Role.unknown "";
  certainty = Certainty.exact;
  why = [];
  presentation_key = record {
    role_priority = 0;
    original_rank = 0;
    path = "";
    start_line = pos 3;
    handle = "h1";
  };
}

long_is_cut :
    focused_segments tables long plan
    ≡ record { kind = SegmentKind.source; lines = (pos 3, pos 3); text = "f() {\n" }
      ∷ record { kind = SegmentKind.omitted; lines = (pos 4, pos 14); text = "" }
      ∷ record { kind = SegmentKind.source; lines = (pos 15, pos 18); text = "m\nn\nbudget\n}\n" }
      ∷ []
unfolding focused_segments index_lines concat_all extend_window merge_behind merge_ordered
    merge_windows absorb add_or_merge_window prefix_window ordered_hits selected_windows
    segments_from focused_terms distinct_matches declaration_prefix_end join_lines terminal_name
    add_terms is_useful_focused_term sort_by add_hits hits_from ◌+ℤ◌ trim_space contains has_prefix
    has_code
long_is_cut = refl

focused_segments_lem_example :
    Tiles (pos 3) (index_lines long_content) 0 (focused_segments tables long plan)
    × (concat_all (index_lines long_content) ≡ long_content)
focused_segments_lem_example = focused_segments_lem tables long plan

long_fits : pos 3 +ℤ pos (length (index_lines long_content)) ≤ℤ pos 18 +ℤ pos 1
unfolding index_lines ◌+ℤ◌
long_fits = omega arith

build_variants-IsShown_example :
    All
      (IsShown hundredths encoder tables long plan)
      (build_variants encoder tables long plan Mode.focused)
build_variants-IsShown_example =
    build_variants-IsShown hundredths encoder tables long plan (omega arith) long_fits Mode.focused
