-- ===== src/Evidence/Handles.antt =====
-- `StableHandle` of internal/model/handles.go, over a digest that is an argument.
use focal_span.Prelude.{ℕ, zero, suc, String, List, [], ◌∷◌, ltb, if◌then◌else◌}
use focal_span.Prelude.Text.{concat}
use focal_span.Evidence.Runtime.{TextTables}

-- the first characters of a text, all of it where there are not so many
unfoldable pub take_text : ℕ → String → String
take_text zero s = ""
take_text (suc n) String.[] = ""
take_text (suc n) (String.◌∷◌ c s) = String.◌∷◌ c (take_text n s)

-- what is written to the hash
unfoldable pub hashed_text : List String → String
hashed_text [] = ""
hashed_text (field ∷ rest) = concat "\0" (concat field (hashed_text rest))

unfoldable pub handle_of_length : TextTables → String → ℕ → List String → String
unfolding take_text hashed_text
handle_of_length t prefix length fields =
    concat prefix
      (concat "_" (take_text (if ltb length 8 then 8 else length) (t.digest (hashed_text fields))))

unfoldable pub stable_handle : TextTables → String → List String → String
stable_handle t prefix fields = handle_of_length t prefix 16 fields
