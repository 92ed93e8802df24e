-- ===== src/Evidence/Runtime.antt =====
-- What the evidence compiler takes from outside the repository: float64 arithmetic, Unicode case
-- tables, and the digest behind a stable handle (SHA-256 in base64 for URLs, without padding).
use focal_span.Prelude.{ℕ, ℤ, String, Bool}

-- float64: the integers and the decimal literals that the source writes (`decimal n d` is n / d), the
-- operations, and the comparisons.
pub record Floats : Type 1 where
  pub F : Type 0
  pub of_int : ℤ → F
  pub decimal : ℕ → ℕ → F
  pub max_float : F
  pub add : F → F → F
  pub sub : F → F → F
  pub mul : F → F → F
  pub div : F → F → F
  pub lt : F → F → Bool
  pub le : F → F → Bool
  pub eq : F → F → Bool

pub record TextTables : Type 0 where
  pub to_lower : String → String
  pub equal_fold : String → String → Bool
  pub digest : String → String
