-- ===== src/Tests/Known.antt =====
-- internal/evidence/known.go at concrete handles.
use focal_span.Prelude.{
  ◌≤◌, ◌≡◌, refl, String, not, ◌&&◌, List, [], ◌∷◌, map, any, length, All, str_eq,
}
use focal_span.Prelude.Sort.{Pairwise}
use focal_span.Prelude.Text.{is_space, trim_left, trim_right, trim_space}
use focal_span.Evidence.Validate.{blank}
use focal_span.Evidence.Known.{
  ok, err, control_character, byte_length, has_control, add_handle, normalize_from,
  normalize_known_handles,
}
use focal_span.Evidence.Known.Normalized.{IsUsable, Differ, normalize_known_handles_lem}

abbrev values : List String
values = " h1 " ∷ "" ∷ "h2" ∷ "h1" ∷ []

abbrev handles : List String
handles = "h1" ∷ "h2" ∷ []

values_are_normalized : normalize_known_handles values ≡ ok handles
unfolding normalize_known_handles normalize_from add_handle byte_length has_control trim_space
    trim_left trim_right is_space
values_are_normalized = refl

tab_is_refused : normalize_known_handles ("h1" ∷ "h\t2" ∷ []) ≡ err (control_character 1)
unfolding normalize_known_handles normalize_from add_handle byte_length has_control trim_space
    trim_left trim_right is_space
tab_is_refused = refl

normalize_known_handles_lem_example :
    All IsUsable handles
    × Pairwise Differ handles
    × (length handles ≤ 512)
    × ((h : String)
        → any (str_eq h) handles ≡ (not (blank h) && any (str_eq h) (map trim_space values)))
normalize_known_handles_lem_example =
    normalize_known_handles_lem values handles values_are_normalized
