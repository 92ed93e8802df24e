-- ===== src/Tests/Fixtures.antt =====
-- Values that the runs of the evidence compiler share.
use focal_span.Prelude.{
  ℕ, ◌+◌, ◌-◌, ◌*◌, ◌/◌, ℤ, pos, negsuc, false, String, [], ◌∷◌, none, some, ltb, leb, ◌==◌, str_eq,
}
use Prim.Native.String.{count}
use focal_span.Evidence.Model.{Mode}
use focal_span.Evidence.Candidate.{Terms, Intent, RankedCandidate}
use focal_span.Evidence.Wire.{Encoder}
use focal_span.Evidence.Runtime.{Floats, TextTables}
use focal_span.Evidence.Compiler.Build.{CompileRequest}

abbrev pub no_terms : Terms
no_terms = record {
  words = [];
  identifiers = [];
  phrases = [];
  paths = [];
  symbols = [];
  unicode_runs = [];
}

abbrev pub scaled : ℤ → ℕ
scaled (pos n) = 100 * n
scaled (negsuc n) = 0

-- hundredths, from 0 on
abbrev pub hundredths : Floats
hundredths = record {
  F = ℕ;
  of_int = scaled;
  decimal = λ n d. 100 * n / d;
  max_float = 100000000;
  add = λ a b. a + b;
  sub = λ a b. a - b;
  mul = λ a b. a * b / 100;
  div = λ a b. 100 * a / b;
  lt = ltb;
  le = leb;
  eq = λ a b. a == b;
}

abbrev pub tables : TextTables
tables = record { to_lower = λ s. s; equal_fold = str_eq; digest = λ s. s }

-- one token for each character of the summary
abbrev pub encoder : Encoder
encoder = record { marshal = λ p. some p.revision; estimate = λ s. pos (count s) }

abbrev pub candidate : String → String → ℤ → ℤ → RankedCandidate ℕ
candidate handle symbol first last = record {
  handle = handle;
  path = "internal/a.go";
  language = "go";
  kind = "function";
  symbol = symbol;
  signature = "";
  start_line = first;
  end_line = last;
  start_byte = pos 20;
  end_byte = pos 90;
  content = "func A() {}";
  content_hash = "";
  score = 0;
  retrieval_score = 0;
  confidence = 0;
  reasons = [];
  estimated_tokens = pos 4;
  changed = false;
  relation = "";
  relation_context = none;
}

-- The third candidate is a line range met before, and the client knows the fourth.
abbrev pub request : CompileRequest ℕ
request = record {
  plan = record {
    raw_query = "A";
    terms = no_terms;
    primary_intent = Intent.callers;
    anchors = " A" ∷ [];
    profile = "";
  };
  revision = "r1";
  token_budget = pos 90;
  mode = Mode.unknown "";
  candidates =
      candidate "h1" "A" (pos 3) (pos 9)
      ∷ candidate "h2" "B" (pos 11) (pos 14)
      ∷ candidate "h3" "C" (pos 3) (pos 9)
      ∷ candidate "h4" "D" (pos 20) (pos 24)
      ∷ [];
  known_handles = " h4 " ∷ [];
  expansion_anchors = " A" ∷ [];
}
