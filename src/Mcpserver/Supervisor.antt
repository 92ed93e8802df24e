-- ===== src/Mcpserver/Supervisor.antt =====
-- internal/mcpserver/supervisor.go: the session that the host sees stays, the worker behind it is
-- replaced. The goroutines of `forward`, `Restart` and `Close` are steps that may interleave at every
-- point where one of the two locks is taken or released.
pub mod Startup
pub mod Invariant
pub mod Safe
pub mod Live
pub mod Changes
use focal_span.Prelude.{
  ℕ, suc, ◌+◌, ◌≡◌, String, Bool, true, false, List, [], ◌∷◌, ◌++◌, Option, none, some, ◌==◌,
  str_eq, if◌then◌else◌,
}
use Startup.{Worker, Sessions, Trial, Started, started, failed, close_session, start_worker}

-- Who holds `restartMu`, and how far that goroutine is. `panicked` is the nil worker that `Restart`
-- would read.
pub data Phase : Type 0 where
  idle admitted checking starting : Phase
  candidate accepted exclusive retiring : Worker → Phase
  close_admitted close_exclusive : Phase
  closing : Option Worker → Phase
  panicked : Phase

-- A supervisor and the sessions of its processes. `calls` are the workers of the calls in progress: each
-- holds `mu` for reading.
pub record State : Type 0 where
  pub contract : String
  pub worker : Option Worker
  pub phase : Phase
  pub calls : List Worker
  pub sessions : Sessions
  pub next_id : ℕ

-- whether `mu` is held for writing
abbrev pub writes : Phase → Bool
writes (Phase.exclusive w) = true
writes (Phase.retiring w) = true
writes Phase.close_exclusive = true
writes (Phase.closing w) = true
writes Phase.panicked = true
writes _ = false

abbrev pub close_option : Option Worker → Sessions → Sessions
close_option none sessions = sessions
close_option (some w) sessions = close_session w.id sessions

-- `NewSupervisor`, from a worker that started
unfoldable pub new_supervisor : Worker → Sessions → ℕ → State
new_supervisor w sessions next_id = record {
  contract = w.contract;
  worker = some w;
  phase = Phase.idle;
  calls = [];
  sessions = sessions;
  next_id = next_id;
}

-- the test for a supervisor that is closed
unfoldable pub after_check : Option Worker → Phase
after_check none = Phase.idle
after_check (some w) = Phase.starting

-- `startSupervisedWorker` for a session that is new
unfoldable pub after_start : State → Sessions × Started → State
after_start s (sessions, failed reason) = record s {
  phase = Phase.idle;
  sessions = sessions;
  next_id = suc s.next_id;
}
after_start s (sessions, started w) = record s {
  phase = Phase.candidate w;
  sessions = sessions;
  next_id = suc s.next_id;
}

unfoldable pub start : Trial → State → State
unfolding after_start
start trial s = after_start s (start_worker s.sessions s.next_id trial)

-- what every error after the start does
unfoldable pub give_up : Worker → State → State
give_up w s = record s { phase = Phase.idle; sessions = close_session w.id s.sessions }

unfoldable pub compare_contract : Worker → State → State
unfolding give_up
compare_contract w s =
    if str_eq w.contract s.contract then record s { phase = Phase.accepted w } else give_up w s

-- the replacement of the worker; the old one is read first
unfoldable pub replace_worker : Worker → Option Worker → State → State
replace_worker w none s = record s { phase = Phase.panicked }
replace_worker w (some previous) s = record s { worker = some w; phase = Phase.retiring previous }

unfoldable pub commit : Worker → State → State
unfolding replace_worker
commit w s = replace_worker w s.worker s

-- what follows the replacement; both locks are released
unfoldable pub retire : Worker → State → State
retire previous s = record s { phase = Phase.idle; sessions = close_session previous.id s.sessions }

unfoldable pub clear_worker : State → State
clear_worker s = record s { worker = none; phase = Phase.closing s.worker }

unfoldable pub finish_close : Option Worker → State → State
finish_close w s = record s { phase = Phase.idle; sessions = close_option w s.sessions }

-- One step of one goroutine.
pub data Step : State → State → Type 0 where
  forward :
      (s : State) (w : Worker)
      → writes s.phase ≡ false
      → s.worker ≡ some w
      → Step s (record s { calls = w ∷ s.calls })
  reply :
      (s : State) (w : Worker) (before after : List Worker)
      → s.calls ≡ before ++ w ∷ after
      → Step s (record s { calls = before ++ after })
  restart : (s : State) → s.phase ≡ Phase.idle → Step s (record s { phase = Phase.admitted })
  restart_waits : (s : State) → s.phase ≡ Phase.admitted → Step s (record s { phase = Phase.idle })
  check : (s : State) → s.phase ≡ Phase.admitted → Step s (record s { phase = Phase.checking })
  checked :
      (s : State) → s.phase ≡ Phase.checking → Step s (record s { phase = after_check s.worker })
  try_start : (s : State) (trial : Trial) → s.phase ≡ Phase.starting → Step s (start trial s)
  compare : (s : State) (w : Worker) → s.phase ≡ Phase.candidate w → Step s (compare_contract w s)
  give_up_waiting : (s : State) (w : Worker) → s.phase ≡ Phase.accepted w → Step s (give_up w s)
  lock :
      (s : State) (w : Worker)
      → s.phase ≡ Phase.accepted w
      → s.calls ≡ []
      → Step s (record s { phase = Phase.exclusive w })
  cancelled : (s : State) (w : Worker) → s.phase ≡ Phase.exclusive w → Step s (give_up w s)
  replace : (s : State) (w : Worker) → s.phase ≡ Phase.exclusive w → Step s (commit w s)
  retired : (s : State) (w : Worker) → s.phase ≡ Phase.retiring w → Step s (retire w s)
  close : (s : State) → s.phase ≡ Phase.idle → Step s (record s { phase = Phase.close_admitted })
  close_lock :
      (s : State)
      → s.phase ≡ Phase.close_admitted
      → s.calls ≡ []
      → Step s (record s { phase = Phase.close_exclusive })
  clear : (s : State) → s.phase ≡ Phase.close_exclusive → Step s (clear_worker s)
  closed : (s : State) (w : Option Worker) → s.phase ≡ Phase.closing w → Step s (finish_close w s)

pub data Reach (s : State) : State → Type 0 where
  here : Reach s s
  next : {t u : State} → Reach s t → Step t u → Reach s u
