-- ===== src/Mcpserver/Supervisor/Startup/Sessions.antt =====
-- The sessions that `startSupervisedWorker` leaves.
use focal_span.Prelude.{
  ℕ, ◌≡◌, refl, String, Bool, false, not, ◌||◌, List, Option, none, some, arith, ◌==◌, Bool-cases,
  inl, inr, if_both,
}
use focal_span.Mcpserver.Supervisor.Startup.{
  Sessions, Health, Trial, Started, started, failed, open_session, close_session, check_health,
  check_signature, check_tools, close_failed, start_worker,
}

abbrev HasId : ℕ → Started → Type 0
HasId id (failed reason) = Unit
HasId id (started w) = w.id ≡ id

check_health-HasId :
    (id : ℕ) (trial : Trial) (signature : String) (o : Option Health)
    → HasId id (check_health id trial signature o)
unfolding check_health
check_health-HasId id trial signature none = tt
check_health-HasId id trial signature (some health) = ground arith

check_signature-HasId :
    (id : ℕ) (trial : Trial) (o : Option String) → HasId id (check_signature id trial o)
unfolding check_signature
check_signature-HasId id trial none = tt
check_signature-HasId id trial (some signature) = elim (Bool-cases (not (trial.pings))) [
  | inl lost ↦ rw lost tt
  | inr reached ↦ rw reached (check_health-HasId id trial signature trial.status)
]

check_tools-HasId :
    (id : ℕ) (trial : Trial) (o : Option (List String × Bool)) → HasId id (check_tools id trial o)
unfolding check_tools
check_tools-HasId id trial none = tt
check_tools-HasId id trial (some (names, more)) =
    ground (arith, check_signature-HasId id trial trial.signature)

-- A start that fails leaves the sessions as they were; one that succeeds adds its own.
abbrev pub Leaves : ℕ → Sessions → Sessions × Started → Type 0
Leaves id sessions (after, failed reason) = (i : ℕ) → after i ≡ sessions i
Leaves id sessions (after, started w) = (w.id ≡ id) × ((i : ℕ) → after i ≡ (sessions i || i == id))

close_failed-Leaves :
    (id : ℕ) (sessions : Sessions) (r : Started)
    → sessions id ≡ false
    → HasId id r
    → Leaves id sessions (close_failed id (open_session id sessions) r)
unfolding close_failed open_session close_session
close_failed-Leaves id sessions (failed reason) h k = λ i. ground (arith, h)
close_failed-Leaves id sessions (started w) h k = (k, λ i. ground arith)

pub start_worker-Leaves :
    (sessions : Sessions) (id : ℕ) (trial : Trial)
    → sessions id ≡ false
    → Leaves id sessions (start_worker sessions id trial)
unfolding start_worker
start_worker-Leaves sessions id trial h =
    if_both (Leaves id sessions) trial.context_done _ _ (λ i. refl)
      (if_both (Leaves id sessions) (not trial.has_command) _ _ (λ i. refl)
        (if_both (Leaves id sessions) (not trial.connects) _ _ (λ i. refl)
          (close_failed-Leaves id sessions (check_tools id trial trial.tools) h
            (check_tools-HasId id trial trial.tools))))
