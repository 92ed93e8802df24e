-- ===== src/Evidence/Roles/Kinds.antt =====
-- The tests on a candidate's kind, path and language in internal/evidence/roles.go.
use focal_span.Prelude.{String, Bool, ◌&&◌, ◌||◌, [], ◌∷◌}
use focal_span.Prelude.Text.{has_prefix}
use focal_span.Prelude.Search.{starts_with, ends_with, contains, trim_suffix, base_name, one_of}
use focal_span.Evidence.Runtime.{TextTables}

unfoldable pub is_header_declaration : String → String → String → Bool
unfolding ends_with
is_header_declaration path kind language =
    one_of ("c" ∷ "cpp" ∷ []) language
    && (ends_with ".h" path
        || ends_with ".hh" path
        || ends_with ".hpp" path
        || ends_with ".hxx" path)
    && one_of ("function" ∷ "method" ∷ "prototype" ∷ []) kind

unfoldable pub is_config_evidence : String → String → Bool
unfolding has_prefix ends_with contains base_name
is_config_evidence path kind =
    let base = base_name path in
    one_of ("config" ∷ "manifest" ∷ "project" ∷ []) kind
    || one_of ("go.mod" ∷ "cargo.toml" ∷ "package.json" ∷ "pyproject.toml" ∷ "gemfile" ∷ []) base
    || ends_with ".csproj" base
    || ends_with ".vbproj" base
    || ends_with ".json" base
    || ends_with ".yaml" base
    || ends_with ".yml" base
    || ends_with ".toml" base
    || starts_with "config/" path
    || contains "/config/" path

unfoldable pub is_declaration_evidence : String → Bool
unfolding contains
is_declaration_evidence kind =
    one_of ("prototype" ∷ "declaration" ∷ "ambient" ∷ []) kind || contains "declaration" kind

unfoldable pub is_type_evidence : String → Bool
unfolding trim_suffix
is_type_evidence kind =
    one_of
      ("class" ∷ "interface" ∷ "struct" ∷ "record" ∷ "trait" ∷ "type" ∷ "enum" ∷ "protocol"
        ∷ "union" ∷ [])
      (trim_suffix "-outline" kind)

unfoldable pub is_implementation_evidence : String → Bool
is_implementation_evidence kind =
    one_of
      ("function" ∷ "method" ∷ "constructor" ∷ "destructor" ∷ "operator" ∷ "implementation" ∷ "impl"
        ∷ "sub" ∷ "event-handler" ∷ "arrow_function" ∷ "macro" ∷ [])
      kind

module _ (t : TextTables) where
  unfoldable pub is_test_evidence : String → String → String → Bool
  unfolding has_prefix contains
  is_test_evidence kind path symbol =
      one_of ("test" ∷ "test-suite" ∷ []) kind
      || starts_with "test" (t.to_lower symbol)
      || contains "/test" path
      || starts_with "test" path
      || contains "_test." path
      || contains ".test." path
      || contains ".spec." path

  unfoldable pub is_template_evidence : String → String → Bool
  unfolding has_prefix
  is_template_evidence kind language =
      starts_with "template" kind
      || one_of ("block" ∷ "template-function" ∷ []) kind
      || one_of ("smarty" ∷ "template" ∷ []) (t.to_lower language)

  unfoldable pub is_documentation_evidence : String → String → String → Bool
  unfolding ends_with
  is_documentation_evidence path kind language =
      one_of ("heading" ∷ "documentation" ∷ []) kind
      || one_of ("markdown" ∷ "text" ∷ []) (t.to_lower language)
      || ends_with ".md" path
