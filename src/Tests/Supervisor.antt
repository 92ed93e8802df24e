-- ===== src/Tests/Supervisor.antt =====
-- internal/mcpserver/supervisor.go at a concrete worker.
use focal_span.Prelude.{ℕ, ◌≡◌, refl, subst, ◌⊎◌, ◌||◌, true, false, [], ◌∷◌, none, some, All}
use focal_span.Prelude.Sort.{sort_by}
use focal_span.Mcpserver.Supervisor.Startup.{
  Worker, Sessions, Trial, started, open_session, start_worker, check_tools, close_failed,
  same_names,
}
use focal_span.Mcpserver.Supervisor.{
  Phase, State, Step, Reach, new_supervisor, clear_worker, start, after_start, after_check,
  compare_contract, commit, replace_worker, retire,
}
use focal_span.Mcpserver.Supervisor.Invariant.{holds, is_current, HasContract, On, is_panicked}
use focal_span.Mcpserver.Supervisor.Safe.{no_sessions, supervisor-IsSafe}
use focal_span.Mcpserver.Supervisor.Live.{Rests, supervisor_rests, closed_for_good}
use focal_span.Mcpserver.Supervisor.Changes.{Cause, worker_changes}

abbrev trial : ℕ → Trial
trial pid = record {
  context_done = false;
  has_command = true;
  connects = true;
  tools =
      some (
        "code_status" ∷ "code_context" ∷ "code_expand" ∷ "code_restart" ∷ "code_impact" ∷ [],
        false,
      );
  signature = some "v1";
  pings = true;
  status = some (record { is_error = false; root = some "/repo" });
  timed_out = false;
  pid = pid;
}

abbrev worker : ℕ → ℕ → Worker
worker id pid = record { id = id; pid = pid; contract = "v1\n/repo" }

abbrev first : Sessions
first = open_session 0 no_sessions

starts : start_worker no_sessions 0 (trial 41) ≡ (first, started (worker 0 41))
unfolding start_worker check_tools close_failed same_names sort_by
starts = refl

abbrev begun : State
begun = new_supervisor (worker 0 41) first 1

-- one call in progress
abbrev busy : State
busy = record begun { calls = worker 0 41 ∷ [] }

begun-busy : Reach begun busy
unfolding new_supervisor
begun-busy = Reach.next Reach.here (Step.forward begun (worker 0 41) refl refl)

supervisor-IsSafe_example :
    HasContract "v1\n/repo" busy.worker
    × (is_panicked busy.phase ≡ false)
    × All (On busy.worker) busy.calls
    × ((i : ℕ) → busy.sessions i ≡ (is_current busy.worker i || holds busy.phase i))
supervisor-IsSafe_example = supervisor-IsSafe (worker 0 41) first (trial 41) busy starts begun-busy

supervisor_rests_example : Rests busy
supervisor_rests_example = supervisor_rests (worker 0 41) first (trial 41) busy starts begun-busy

-- a supervisor whose `Close` has cleared the worker
abbrev cleared : State
cleared = clear_worker (record begun { phase = Phase.close_exclusive })

begun-cleared : Reach begun cleared
unfolding new_supervisor
begun-cleared =
    Reach.next
      (Reach.next (Reach.next Reach.here (Step.close begun refl))
        (Step.close_lock (record begun { phase = Phase.close_admitted }) refl refl))
      (Step.clear (record begun { phase = Phase.close_exclusive }) refl)

cleared-none : cleared.worker ≡ none
unfolding clear_worker
cleared-none = refl

closed_for_good_example : (cleared.worker ≡ none) × (cleared.calls ≡ [])
closed_for_good_example =
    closed_for_good (worker 0 41) first (trial 41) cleared cleared starts begun-cleared cleared-none
      Reach.here

abbrev second : Sessions
second = open_session 1 first

-- the states of a `Restart` up to the point where it holds both locks
abbrev compared : State
compared = record {
  contract = "v1\n/repo";
  worker = some (worker 0 41);
  phase = Phase.candidate (worker 1 42);
  calls = [];
  sessions = second;
  next_id = 2;
}

started_again : start (trial 42) (record begun { phase = Phase.starting }) ≡ compared
unfolding start after_start start_worker check_tools close_failed same_names sort_by new_supervisor
started_again = refl

begun-compared : Reach begun compared
unfolding new_supervisor after_check
begun-compared =
    Reach.next
      (Reach.next
        (Reach.next (Reach.next Reach.here (Step.restart begun refl))
          (Step.check (record begun { phase = Phase.admitted }) refl))
        (Step.checked (record begun { phase = Phase.checking }) refl))
      (subst (Step (record begun { phase = Phase.starting })) started_again
        (Step.try_start (record begun { phase = Phase.starting }) (trial 42) refl))

abbrev exclusive : State
exclusive = record compared { phase = Phase.exclusive (worker 1 42) }

begun-exclusive : Reach begun exclusive
unfolding compare_contract
begun-exclusive =
    Reach.next (Reach.next begun-compared (Step.compare compared (worker 1 42) refl))
      (Step.lock (record compared { phase = Phase.accepted (worker 1 42) }) (worker 1 42) refl refl)

abbrev replaced : State
replaced = commit (worker 1 42) exclusive

replaced_worker : replaced.worker ≡ some (worker 1 42)
unfolding commit replace_worker
replaced_worker = refl

replaced_phase : replaced.phase ≡ Phase.retiring (worker 0 41)
unfolding commit replace_worker
replaced_phase = refl

abbrev retired : State
retired = retire (worker 0 41) replaced

worker_changes_example :
    (replaced.worker ≡ exclusive.worker)
    ⊎ (Cause "v1\n/repo" exclusive replaced
        × (replaced.calls ≡ [])
        × (retired.worker ≡ replaced.worker)
        × (retired.phase ≡ Phase.idle)
        × ((i : ℕ) → retired.sessions i ≡ is_current replaced.worker i))
worker_changes_example =
    worker_changes (worker 0 41) first (trial 41) exclusive replaced retired starts begun-exclusive
      (Step.replace exclusive (worker 1 42) refl)
      (Step.retired replaced (worker 0 41) replaced_phase)
