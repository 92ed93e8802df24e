-- ===== src/Mcpserver/Supervisor/Safe.antt =====
-- What holds in every state that a supervisor can reach.
use focal_span.Prelude.{ℕ, ◌≡◌, refl, subst, ◌∙◌, false, ◌||◌, Option, none, some, All, arith}
use focal_span.Mcpserver.Supervisor.Startup.{
  Worker, Sessions, Trial, Started, started, failed, start_worker,
}
use focal_span.Mcpserver.Supervisor.Startup.Sessions.{Leaves, start_worker-Leaves}
use focal_span.Mcpserver.Supervisor.{
  Phase, State, Step, Reach, new_supervisor, after_start, start, give_up, compare_contract,
  replace_worker, commit, retire, clear_worker, finish_close,
}
use focal_span.Mcpserver.Supervisor.Invariant.{
  IsSafe, holds, is_current, HasContract, On, is_panicked, move-IsSafe, drop-IsSafe,
  after_check-IsSafe, next-free, after_start-IsSafe, compare-IsSafe, commit-IsSafe, retire-IsSafe,
  clear-IsSafe, finish_close-IsSafe, forward-IsSafe, reply-IsSafe,
}

pub Step-IsSafe : {s t : State} → Step s t → IsSafe s → IsSafe t
unfolding start
Step-IsSafe (Step.forward s w free e) v = forward-IsSafe s w v free e
Step-IsSafe (Step.reply s w before after e) v = reply-IsSafe s w before after v e
Step-IsSafe (Step.restart s e) v =
    move-IsSafe s Phase.admitted v tt (λ h. cc) (λ h. cc) refl (λ i. rw e refl)
Step-IsSafe (Step.restart_waits s e) v =
    move-IsSafe s Phase.idle v tt (λ h. cc) (λ h. cc) refl (λ i. rw e refl)
Step-IsSafe (Step.check s e) v =
    move-IsSafe s Phase.checking v tt (λ h. cc) (λ h. cc) refl (λ i. rw e refl)
Step-IsSafe (Step.checked s e) v = after_check-IsSafe s v e
Step-IsSafe (Step.try_start s trial e) v =
    after_start-IsSafe s (start_worker s.sessions s.next_id trial) v e
      (start_worker-Leaves s.sessions s.next_id trial (next-free s v))
Step-IsSafe (Step.compare s w e) v = compare-IsSafe s w v e
Step-IsSafe (Step.give_up_waiting s w e) v = drop-IsSafe s w v (λ i. rw e refl)
Step-IsSafe (Step.lock s w e gone) v =
    move-IsSafe s (Phase.exclusive w) v (rw e at v.accepted) (λ h. gone)
      (λ h. v.present (rw e refl)) refl (λ i. rw e refl)
Step-IsSafe (Step.cancelled s w e) v = drop-IsSafe s w v (λ i. rw e refl)
Step-IsSafe (Step.replace s w e) v = commit-IsSafe s w v e
Step-IsSafe (Step.retired s w e) v = retire-IsSafe s w v e
Step-IsSafe (Step.close s e) v =
    move-IsSafe s Phase.close_admitted v tt (λ h. cc) (λ h. cc) refl (λ i. rw e refl)
Step-IsSafe (Step.close_lock s e gone) v =
    move-IsSafe s Phase.close_exclusive v tt (λ h. gone) (λ h. cc) refl (λ i. rw e refl)
Step-IsSafe (Step.clear s e) v = clear-IsSafe s v e
Step-IsSafe (Step.closed s w e) v = finish_close-IsSafe s w v e

-- the sessions before the first worker: none is open
abbrev pub no_sessions : Sessions
no_sessions i = false

-- `NewSupervisor` after a start that succeeded: the worker's session is the only one.
new_supervisor-IsSafe :
    (w : Worker) (sessions : Sessions)
    → Leaves 0 no_sessions (sessions, started w)
    → IsSafe (new_supervisor w sessions 1)
unfolding new_supervisor
new_supervisor-IsSafe w sessions (own, same) = record {
  contract = refl;
  accepted = tt;
  waited = λ h. cc;
  calls = tt;
  present = λ h. cc;
  standing = refl;
  owned = λ i. ground (arith, same i);
  apart = λ i. ground arith;
  below = λ i h. ground arith;
}

pub Reach-IsSafe : {s t : State} → IsSafe s → Reach s t → IsSafe t
Reach-IsSafe v Reach.here = v
Reach-IsSafe v (Reach.next r step) = Step-IsSafe step (Reach-IsSafe v r)

kept_start : (s : State) (r : Sessions × Started) → (after_start s r).contract ≡ s.contract
unfolding after_start
kept_start s (sessions, failed reason) = refl
kept_start s (sessions, started w) = refl

kept_replace :
    (w : Worker) (o : Option Worker) (s : State) → (replace_worker w o s).contract ≡ s.contract
unfolding replace_worker
kept_replace w none s = refl
kept_replace w (some previous) s = refl

kept_compare : (w : Worker) (s : State) → (compare_contract w s).contract ≡ s.contract
unfolding compare_contract
kept_compare w s = ground arith

Step-contract : {s t : State} → Step s t → t.contract ≡ s.contract
unfolding start give_up commit retire clear_worker finish_close
Step-contract (Step.try_start s trial e) = kept_start s (start_worker s.sessions s.next_id trial)
Step-contract (Step.compare s w e) = kept_compare w s
Step-contract (Step.replace s w e) = kept_replace w s.worker s
Step-contract _ = refl

pub Reach-contract : {s t : State} → Reach s t → t.contract ≡ s.contract
Reach-contract Reach.here = refl
Reach-contract (Reach.next r step) = Step-contract step ∙ Reach-contract r

pub started-IsSafe :
    (w : Worker) (sessions : Sessions) (trial : Trial)
    → start_worker no_sessions 0 trial ≡ (sessions, started w)
    → IsSafe (new_supervisor w sessions 1)
started-IsSafe w sessions trial e =
    new_supervisor-IsSafe w sessions
      (subst (Leaves 0 no_sessions) e (start_worker-Leaves no_sessions 0 trial refl))

-- In every state that a supervisor reaches from the start of its first worker: the current worker has the
-- contract that it started with, no goroutine reads a nil worker, a call in progress is on the current
-- worker, and a session is open exactly if it is that of the current worker or of the one that `Restart`
-- or `Close` holds at that point.
pub supervisor-IsSafe :
    (w : Worker) (sessions : Sessions) (trial : Trial) (s : State)
    → start_worker no_sessions 0 trial ≡ (sessions, started w)
    → Reach (new_supervisor w sessions 1) s
    → HasContract w.contract s.worker
      × (is_panicked s.phase ≡ false)
      × All (On s.worker) s.calls
      × ((i : ℕ) → s.sessions i ≡ (is_current s.worker i || holds s.phase i))
unfolding new_supervisor
supervisor-IsSafe w sessions trial s e r =
    let v = Reach-IsSafe (started-IsSafe w sessions trial e) r in
    (
      subst (λ c. HasContract c s.worker) (Reach-contract r) v.contract,
      v.standing,
      v.calls,
      v.owned,
    )
