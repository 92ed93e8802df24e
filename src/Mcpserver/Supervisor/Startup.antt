-- ===== src/Mcpserver/Supervisor/Startup.antt =====
-- `startSupervisedWorker` of internal/mcpserver/supervisor.go. What the process and the SDK answer is a
-- record of outcomes.
pub mod Sessions
use focal_span.Prelude.{
  ℕ, String, Bool, true, false, not, ◌||◌, List, [], ◌∷◌, Option, none, some, length, ◌==◌, str_eq,
  str_lt, if◌then◌else◌,
}
use focal_span.Prelude.Text.{concat}
use focal_span.Prelude.Sort.{sort_by}

pub record Worker : Type 0 where
  pub id : ℕ
  pub pid : ℕ
  pub contract : String

-- which sessions are open, by their number
abbrev pub Sessions : Type 0
Sessions = ℕ → Bool

unfoldable pub open_session : ℕ → Sessions → Sessions
open_session id sessions i = if i == id then true else sessions i

unfoldable pub close_session : ℕ → Sessions → Sessions
close_session id sessions i = if i == id then false else sessions i

-- `code_status`: whether it is an error, and the root if its content can be read
pub record Health : Type 0 where
  pub is_error : Bool
  pub root : Option String

pub record Trial : Type 0 where
  pub context_done : Bool
  pub has_command : Bool
  pub connects : Bool
  pub tools : Option (List String × Bool)
  pub signature : Option String
  pub pings : Bool
  pub status : Option Health
  pub timed_out : Bool
  pub pid : ℕ

pub data StartError : Type 0 where
  cancelled no_command not_connected tools_not_listed wrong_catalog wrong_names : StartError
  not_encoded not_reached no_health unhealthy health_not_read no_root timed_out : StartError

pub data Started : Type 0 where
  started : Worker → Started
  failed : StartError → Started

abbrev pub expected_tools : List String
expected_tools =
    "code_context" ∷ "code_expand" ∷ "code_impact" ∷ "code_restart" ∷ "code_status" ∷ []

-- the comparison name by name, of lists of the same length
unfoldable pub same_names : List String → List String → Bool
same_names [] [] = true
same_names (x ∷ xs) (y ∷ ys) = if str_eq x y then same_names xs ys else false
same_names _ _ = false

-- the health check and what follows it
check_health : ℕ → Trial → String → Option Health → Started
check_health id trial signature none = failed no_health
check_health id trial signature (some health) =
    let with_root = λ (root : String).
      if str_eq root ""
      then failed no_root
      else if trial.timed_out
      then failed StartError.timed_out
      else started
          (record { id = id; pid = trial.pid; contract = concat signature (concat "\n" root) }) in
    if health.is_error
    then failed unhealthy
    else elim health.root [ none ↦ failed health_not_read | some root ↦ with_root root ]

check_signature : ℕ → Trial → Option String → Started
unfolding check_health
check_signature id trial none = failed not_encoded
check_signature id trial (some signature) =
    if not trial.pings then failed not_reached else check_health id trial signature trial.status

-- from `ListTools` on
unfoldable pub check_tools : ℕ → Trial → Option (List String × Bool) → Started
unfolding check_signature
check_tools id trial none = failed tools_not_listed
check_tools id trial (some (names, more)) =
    if not (length names == length expected_tools) || more
    then failed wrong_catalog
    else if not (same_names (sort_by str_lt names) expected_tools)
    then failed wrong_names
    else check_signature id trial trial.signature

-- `fail` closes the session
unfoldable pub close_failed : ℕ → Sessions → Started → Sessions × Started
close_failed id sessions (failed reason) = (close_session id sessions, failed reason)
close_failed id sessions (started w) = (sessions, started w)

unfoldable pub start_worker : Sessions → ℕ → Trial → Sessions × Started
start_worker sessions id trial =
    if trial.context_done
    then (sessions, failed cancelled)
    else if not trial.has_command
    then (sessions, failed no_command)
    else if not trial.connects
    then (sessions, failed not_connected)
    else close_failed id (open_session id sessions) (check_tools id trial trial.tools)
