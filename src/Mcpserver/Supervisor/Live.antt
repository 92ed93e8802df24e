-- ===== src/Mcpserver/Supervisor/Live.antt =====
-- What a supervisor can still do, and what it can do no more.
use focal_span.Prelude.{
  ◌≡◌, refl, ap, subst, ◌∙◌, true, false, List, [], ◌∷◌, Option, none, some, arith, ◌≢◌, All,
  str_eq, Bool-cases, inl, inr,
}
use focal_span.Mcpserver.Supervisor.Startup.{
  Worker, Sessions, Trial, Started, started, failed, start_worker,
}
use focal_span.Mcpserver.Supervisor.{
  Phase, State, Step, Reach, new_supervisor, after_check, after_start, start, give_up,
  compare_contract, retire, clear_worker, finish_close,
}
use focal_span.Mcpserver.Supervisor.Invariant.{IsSafe, On, has_worker}
use focal_span.Mcpserver.Supervisor.Safe.{no_sessions, Reach-IsSafe, started-IsSafe}

Reach-then : {s t u : State} → Step s t → Reach t u → Reach s u
Reach-then step Reach.here = Reach.next Reach.here step
Reach-then step (Reach.next r last) = Reach.next (Reach-then step r) last

Reach-trans : {s t u : State} → Reach s t → Reach t u → Reach s u
Reach-trans r Reach.here = r
Reach-trans r (Reach.next q last) = Reach.next (Reach-trans r q) last

-- every call in progress may end
drain : (ws : List Worker) (s : State) → s.calls ≡ ws → Reach s (record s { calls = [] })
drain [] s e = subst (λ ws. Reach s (record s { calls = ws })) e Reach.here
drain (w ∷ ws) s e = Reach-then (Step.reply s w [] ws e) (drain ws (record s { calls = ws }) refl)

-- a state with both locks free and no call in progress can be reached
abbrev pub Rests : State → Type 0
Rests s = (t : State) × Reach s t × (t.phase ≡ Phase.idle) × (t.calls ≡ [])

after : {s t : State} → Step s t → Rests t → Rests s
after step (t, r, idle, calls) = (t, Reach-then step r, idle, calls)

here_rests : (s : State) → s.phase ≡ Phase.idle → s.calls ≡ [] → Rests s
here_rests s e c = (s, Reach.here, e, c)

-- a start whose context is done
abbrev no_trial : Trial
no_trial = record {
  context_done = true;
  has_command = false;
  connects = false;
  tools = none;
  signature = none;
  pings = false;
  status = none;
  timed_out = false;
  pid = 0;
}

starting_rests : (s : State) → s.phase ≡ Phase.starting → s.calls ≡ [] → Rests s
unfolding start after_start start_worker
starting_rests s e c = after (Step.try_start s no_trial e) (here_rests (start no_trial s) refl c)

checking_rests : (s : State) → s.phase ≡ Phase.checking → s.calls ≡ [] → Rests s
unfolding after_check
checking_rests s e c = after (Step.checked s e) (go s.worker)
  where
    go : (o : Option Worker) → Rests (record s { phase = after_check o })
    go none = here_rests (record s { phase = Phase.idle }) refl c
    go (some w) = starting_rests (record s { phase = Phase.starting }) refl c

dropped_rests : (s : State) (w : Worker) → s.calls ≡ [] → Rests (give_up w s)
unfolding give_up
dropped_rests s w c = here_rests (give_up w s) refl c

candidate_rests : (s : State) (w : Worker) → s.phase ≡ Phase.candidate w → s.calls ≡ [] → Rests s
unfolding compare_contract
candidate_rests s w e c =
    after (Step.compare s w e) (elim (Bool-cases (str_eq w.contract s.contract)) [
      | inl same ↦ rw same (
          after (Step.give_up_waiting (record s { phase = Phase.accepted w }) w refl)
            (dropped_rests (record s { phase = Phase.accepted w }) w c))
      | inr other ↦ rw other (dropped_rests s w c)
    ])

closing_rests : (s : State) (w : Option Worker) → s.phase ≡ Phase.closing w → s.calls ≡ [] → Rests s
unfolding finish_close
closing_rests s w e c = after (Step.closed s w e) (here_rests (finish_close w s) refl c)

close_rests : (s : State) → s.phase ≡ Phase.close_exclusive → s.calls ≡ [] → Rests s
unfolding clear_worker
close_rests s e c = after (Step.clear s e) (closing_rests (clear_worker s) s.worker refl c)

phase_rests : (p : Phase) (s : State) → IsSafe s → s.phase ≡ p → s.calls ≡ [] → Rests s
unfolding retire
phase_rests Phase.idle s v e c = here_rests s e c
phase_rests Phase.admitted s v e c =
    after (Step.restart_waits s e) (here_rests (record s { phase = Phase.idle }) refl c)
phase_rests Phase.checking s v e c = checking_rests s e c
phase_rests Phase.starting s v e c = starting_rests s e c
phase_rests (Phase.candidate w) s v e c = candidate_rests s w e c
phase_rests (Phase.accepted w) s v e c = after (Step.give_up_waiting s w e) (dropped_rests s w c)
phase_rests (Phase.exclusive w) s v e c = after (Step.cancelled s w e) (dropped_rests s w c)
phase_rests (Phase.retiring w) s v e c = after (Step.retired s w e) (here_rests (retire w s) refl c)
phase_rests Phase.close_admitted s v e c =
    after (Step.close_lock s e c) (close_rests (record s { phase = Phase.close_exclusive }) refl c)
phase_rests Phase.close_exclusive s v e c = close_rests s e c
phase_rests (Phase.closing w) s v e c = closing_rests s w e c
phase_rests Phase.panicked s v e c = absurd (panics s e v)
  where
    panics : (s : State) → s.phase ≡ Phase.panicked → IsSafe s → ⊥
    panics s e v = cc (rw e at v.standing)

-- From every state that a supervisor reaches, some steps lead to one in which no call is in progress and
-- both locks are free.
pub supervisor_rests :
    (w : Worker) (sessions : Sessions) (trial : Trial) (s : State)
    → start_worker no_sessions 0 trial ≡ (sessions, started w)
    → Reach (new_supervisor w sessions 1) s
    → Rests s
supervisor_rests w sessions trial s e r =
    let safe = Reach-IsSafe (started-IsSafe w sessions trial e) r in
    let drained = drain s.calls s refl in
    let (t, q, idle, calls) =
      phase_rests s.phase (record s { calls = [] }) (Reach-IsSafe safe drained) refl refl in
    (t, Reach-trans drained q, idle, calls)

-- A supervisor without a worker gets none by a step.
pub replaced-none :
    (s : State) (w : Worker) → IsSafe s → s.phase ≡ Phase.exclusive w → s.worker ≢ none
replaced-none s w v e h = cc (v.present (rw e refl), ap has_worker h)

pub start-worker : (s : State) (r : Sessions × Started) → (after_start s r).worker ≡ s.worker
unfolding after_start
start-worker s (sessions, failed reason) = refl
start-worker s (sessions, started w) = refl

pub compare-worker : (w : Worker) (s : State) → (compare_contract w s).worker ≡ s.worker
unfolding compare_contract give_up
compare-worker w s = ground arith

Step-none : {s t : State} → Step s t → IsSafe s → s.worker ≡ none → t.worker ≡ none
unfolding start give_up retire clear_worker finish_close
Step-none (Step.try_start s trial e) v h =
    start-worker s (start_worker s.sessions s.next_id trial) ∙ h
Step-none (Step.compare s w e) v h = compare-worker w s ∙ h
Step-none (Step.replace s w e) v h = absurd (replaced-none s w v e h)
Step-none (Step.clear s e) v h = refl
Step-none (Step.forward s w e k) v h = h
Step-none (Step.reply s w before after e) v h = h
Step-none (Step.restart s e) v h = h
Step-none (Step.restart_waits s e) v h = h
Step-none (Step.check s e) v h = h
Step-none (Step.checked s e) v h = h
Step-none (Step.give_up_waiting s w e) v h = h
Step-none (Step.lock s w e k) v h = h
Step-none (Step.cancelled s w e) v h = h
Step-none (Step.retired s w e) v h = h
Step-none (Step.close s e) v h = h
Step-none (Step.close_lock s e k) v h = h
Step-none (Step.closed s w e) v h = h

Reach-none : {s t : State} → Reach s t → IsSafe s → s.worker ≡ none → t.worker ≡ none
Reach-none Reach.here v h = h
Reach-none (Reach.next r step) v h = Step-none step (Reach-IsSafe v r) (Reach-none r v h)

no_calls-On-none : (ws : List Worker) → All (On none) ws → ws ≡ []
no_calls-On-none [] h = refl
no_calls-On-none (w ∷ ws) h = cc (h.0)

-- Once a supervisor that was started has no worker, it never has one again and no call begins.
pub closed_for_good :
    (w : Worker) (sessions : Sessions) (trial : Trial) (s t : State)
    → start_worker no_sessions 0 trial ≡ (sessions, started w)
    → Reach (new_supervisor w sessions 1) s
    → s.worker ≡ none
    → Reach s t
    → (t.worker ≡ none) × (t.calls ≡ [])
closed_for_good w sessions trial s t e r h q =
    let safe = Reach-IsSafe (started-IsSafe w sessions trial e) r in
    let gone = Reach-none q safe h in
    (
      gone,
      no_calls-On-none t.calls (subst (λ o. All (On o) t.calls) gone (Reach-IsSafe safe q).calls),
    )
