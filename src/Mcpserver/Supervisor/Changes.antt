-- ===== src/Mcpserver/Supervisor/Changes.antt =====
-- How the worker of a supervisor changes, in any interleaving.
use focal_span.Prelude.{
  ℕ, ◌≡◌, refl, sym, ◌∙◌, String, Bool, true, false, ◌||◌, List, [], ◌∷◌, ◌++◌, Option, none, some,
  Option-cases, ◌⊎◌, inl, inr,
}
use focal_span.Mcpserver.Supervisor.Startup.{Worker, Sessions, Trial, started, start_worker}
use focal_span.Mcpserver.Supervisor.{
  Phase, State, writes, Step, Reach, new_supervisor, start, give_up, replace_worker, commit, retire,
  clear_worker, finish_close,
}
use focal_span.Mcpserver.Supervisor.Invariant.{IsSafe, is_current}
use focal_span.Mcpserver.Supervisor.Safe.{
  no_sessions, Step-IsSafe, Reach-IsSafe, Reach-contract, started-IsSafe,
}
use focal_span.Mcpserver.Supervisor.Live.{replaced-none, start-worker, compare-worker}

-- where the goroutine that changed the worker still has a process to end
abbrev settles : Phase → Bool
settles (Phase.retiring w) = true
settles (Phase.closing w) = true
settles _ = false

settles-writes : (p : Phase) → settles p ≡ true → writes p ≡ true
settles-writes (Phase.retiring w) h = refl
settles-writes (Phase.closing w) h = refl
settles-writes Phase.idle h = cc
settles-writes Phase.admitted h = cc
settles-writes Phase.checking h = cc
settles-writes Phase.starting h = cc
settles-writes (Phase.candidate w) h = cc
settles-writes (Phase.accepted w) h = cc
settles-writes (Phase.exclusive w) h = cc
settles-writes Phase.close_admitted h = cc
settles-writes Phase.close_exclusive h = cc
settles-writes Phase.panicked h = cc

-- what the step after the change does
abbrev Settled : State → State → Type 0
Settled t u = (u.phase ≡ Phase.idle) × (u.worker ≡ t.worker)

no_call : (w : Worker) (before after : List Worker) → [] ≡ before ++ w ∷ after → ⊥
no_call w [] after h = cc (h)
no_call w (v ∷ before) after h = cc (h)

elsewhere : (s : State) (p : Phase) → s.phase ≡ p → settles p ≡ false → settles s.phase ≡ true → ⊥
elsewhere s p e f h = cc (e, f, h)

Step-Settled : {t u : State} → Step t u → settles t.phase ≡ true → t.calls ≡ [] → Settled t u
unfolding retire finish_close
Step-Settled (Step.forward s w free e) h c = absurd (cc (settles-writes s.phase h, free))
Step-Settled (Step.reply s w before after e) h c = absurd (no_call w before after (sym c ∙ e))
Step-Settled (Step.restart s e) h c = absurd (elsewhere s _ e refl h)
Step-Settled (Step.restart_waits s e) h c = absurd (elsewhere s _ e refl h)
Step-Settled (Step.check s e) h c = absurd (elsewhere s _ e refl h)
Step-Settled (Step.checked s e) h c = absurd (elsewhere s _ e refl h)
Step-Settled (Step.try_start s trial e) h c = absurd (elsewhere s _ e refl h)
Step-Settled (Step.compare s w e) h c = absurd (elsewhere s _ e refl h)
Step-Settled (Step.give_up_waiting s w e) h c = absurd (elsewhere s _ e refl h)
Step-Settled (Step.lock s w e k) h c = absurd (elsewhere s _ e refl h)
Step-Settled (Step.cancelled s w e) h c = absurd (elsewhere s _ e refl h)
Step-Settled (Step.replace s w e) h c = absurd (elsewhere s _ e refl h)
Step-Settled (Step.retired s w e) h c = (refl, refl)
Step-Settled (Step.close s e) h c = absurd (elsewhere s _ e refl h)
Step-Settled (Step.close_lock s e k) h c = absurd (elsewhere s _ e refl h)
Step-Settled (Step.clear s e) h c = absurd (elsewhere s _ e refl h)
Step-Settled (Step.closed s w e) h c = (refl, refl)

-- Why a step changed the worker: `Close` clears it, or `Restart` puts the process there that it has
-- started, which has the contract.
abbrev pub Cause : String → State → State → Type 0
Cause contract s t =
    ((s.phase ≡ Phase.close_exclusive) × (t.worker ≡ none))
    ⊎ ((w : Worker) × (s.phase ≡ Phase.exclusive w) × (t.worker ≡ some w) × (w.contract ≡ contract))

abbrev Change : State → State → Type 0
Change s t =
    (t.worker ≡ s.worker) ⊎ (Cause s.contract s t × (settles t.phase ≡ true) × (t.calls ≡ []))

replace-Change :
    (s : State) (w : Worker) → IsSafe s → s.phase ≡ Phase.exclusive w → Change s (commit w s)
unfolding commit replace_worker
replace-Change s w v e = elim (Option-cases s.worker) [
  | inl gone ↦ absurd (replaced-none s w v e gone)
  | inr (previous, there) ↦
      rw there (inr (inr (w, e, refl, rw e at v.accepted), refl, v.waited (rw e refl)))
]

Step-Change : {s t : State} → Step s t → IsSafe s → Change s t
unfolding start give_up retire clear_worker finish_close
Step-Change (Step.replace s w e) v = replace-Change s w v e
Step-Change (Step.clear s e) v = inr (inl (e, refl), refl, v.waited (rw e refl))
Step-Change (Step.try_start s trial e) v =
    inl (start-worker s (start_worker s.sessions s.next_id trial))
Step-Change (Step.compare s w e) v = inl (compare-worker w s)
Step-Change _ v = inl refl

no_other : (b : Bool) → (b || false) ≡ b
no_other true = refl
no_other false = refl

only_session :
    (u : State) (o : Option Worker)
    → IsSafe u
    → u.phase ≡ Phase.idle
    → u.worker ≡ o
    → (i : ℕ) → u.sessions i ≡ is_current o i
only_session u o v idle same i = v.owned i ∙ rw (idle, same) (no_other (is_current o i))

-- In every run, a step that changes the worker is one of `Close`, which clears it, or one of `Restart`, which
-- puts the process there that it has started, with the contract of the first worker. No call is in
-- progress then, and whatever step comes next keeps the worker, releases both locks and leaves
-- no session open but that of the worker, if there is one.
pub worker_changes :
    (first : Worker) (sessions : Sessions) (trial : Trial) (s t u : State)
    → start_worker no_sessions 0 trial ≡ (sessions, started first)
    → Reach (new_supervisor first sessions 1) s
    → Step s t
    → Step t u
    → (t.worker ≡ s.worker)
      ⊎ (Cause first.contract s t
          × (t.calls ≡ [])
          × (u.worker ≡ t.worker)
          × (u.phase ≡ Phase.idle)
          × ((i : ℕ) → u.sessions i ≡ is_current t.worker i))
unfolding new_supervisor
worker_changes first sessions trial s t u e r one two =
    let safe = Reach-IsSafe (started-IsSafe first sessions trial e) r in
    elim (Step-Change one safe) [
      | inl same ↦ inl same
      | inr (cause, ending, quiet) ↦
          let (idle, same) = Step-Settled two ending quiet in
          inr (
            rw (Reach-contract r) at cause,
            quiet,
            same,
            idle,
            only_session u t.worker (Step-IsSafe two (Step-IsSafe one safe)) idle same,
          )
    ]
