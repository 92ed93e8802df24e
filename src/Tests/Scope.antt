-- ===== src/Tests/Scope.antt =====
-- internal/phpscope/resolve.go at concrete symbols.
use focal_span.Prelude.{◌≡◌, refl, String, List, [], ◌∷◌}
use focal_span.Prelude.Text.{has_prefix, has_code}
use focal_span.Prelude.Search.{contains}
use focal_span.Scope.Php.{Symbol, namespace_of, candidates, resolve}
use focal_span.Scope.Resolved.{IsFirst, resolve-IsFirst}
use focal_span.Tests.Fixtures.{tables}

abbrev function_named : String → Symbol
function_named name = record { language = "php"; kind = "function"; qualified_name = name }

abbrev caller : Symbol
caller = record { language = "php"; kind = "method"; qualified_name = "App\\Web\\Page::show" }

abbrev symbols : List Symbol
symbols = function_named "render" ∷ function_named "App\\Web\\render" ∷ function_named "log" ∷ []

local_first : resolve tables caller "render" symbols ≡ function_named "App\\Web\\render" ∷ []
unfolding resolve contains has_prefix has_code namespace_of
local_first = refl

global_next : resolve tables caller "log" symbols ≡ function_named "log" ∷ []
unfolding resolve contains has_prefix has_code namespace_of
global_next = refl

resolve-IsFirst_example :
    IsFirst tables symbols
      (candidates tables caller "render")
      (resolve tables caller "render" symbols)
resolve-IsFirst_example = resolve-IsFirst tables symbols caller "render"
