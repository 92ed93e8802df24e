-- ===== src/Budget.antt =====
-- internal/budget/budget.go: `Packer.Pack` puts ranked candidates into a bundle that fits a token budget.
-- The bundle and its items are those of internal/model/model.go.
pub mod Words
pub mod Elide
pub mod Pack
pub mod Fits
pub mod Counted
pub mod Order
use focal_span.Prelude.{ℕ, ℤ, String, Bool, List, Option}
use focal_span.Evidence.Candidate.{RankedCandidate, ScoreReason}

pub record PackRequest (F : Type 0) : Type 0 where
  pub query : String
  pub index_revision : String
  pub token_budget : ℤ
  pub mode : String
  pub candidates : List (RankedCandidate F)
  pub intent_hints : List String

pub record TokenSavings (F : Type 0) : Type 0 where
  pub baseline_tokens : ℤ
  pub saved_tokens : ℤ
  pub savings_ratio : F

pub record ContextItem (F : Type 0) : Type 0 where
  pub handle : String
  pub path : String
  pub language : String
  pub kind : String
  pub symbol : String
  pub signature : String
  pub start_line : ℤ
  pub end_line : ℤ
  pub score : F
  pub reasons : List (ScoreReason F)
  pub relation : String
  pub estimated_tokens : ℤ
  pub content : String
  pub elided : Bool

pub record ContextBundle (F : Type 0) : Type 0 where
  pub query : String
  pub index_revision : String
  pub budget_tokens : ℕ
  pub estimated_tokens : ℤ
  pub savings : Option (TokenSavings F)
  pub truncated : Bool
  pub items : List (ContextItem F)
  pub omitted_count : ℕ
  pub diagnostics : List String

-- `json.Marshal` of a bundle, which may fail, and the `TokenEstimator` of the packer
pub record Pricing (F : Type 0) : Type 0 where
  pub marshal : ContextBundle F → Option String
  pub estimate : String → ℤ
