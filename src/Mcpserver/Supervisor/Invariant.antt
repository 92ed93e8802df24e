-- ===== src/Mcpserver/Supervisor/Invariant.antt =====
-- The invariant of a supervisor, and that each step keeps it.
use focal_span.Prelude.{
  ℕ, ◌<◌, ◌≡◌, refl, sym, ap, subst, ◌∙◌, String, Bool, true, false, ◌||◌, ◌&&◌, List, [], ◌∷◌,
  ◌++◌, Option, none, some, All, arith, ◌==◌, str_eq, Bool-cases, inl, inr, eq_iff,
}
use focal_span.Mcpserver.Supervisor.Startup.{
  Worker, Sessions, Started, started, failed, close_session,
}
use focal_span.Mcpserver.Supervisor.Startup.Sessions.{Leaves}
use focal_span.Mcpserver.Supervisor.{
  Phase, State, writes, after_check, after_start, give_up, compare_contract, replace_worker, commit,
  retire, clear_worker, finish_close,
}

-- The workers that a phase holds beside the current one.
abbrev pub holds : Phase → ℕ → Bool
holds (Phase.candidate w) i = i == w.id
holds (Phase.accepted w) i = i == w.id
holds (Phase.exclusive w) i = i == w.id
holds (Phase.retiring w) i = i == w.id
holds (Phase.closing (some w)) i = i == w.id
holds _ i = false

abbrev pub is_current : Option Worker → ℕ → Bool
is_current none i = false
is_current (some w) i = i == w.id

abbrev pub HasContract : String → Option Worker → Type 0
HasContract contract none = Unit
HasContract contract (some w) = w.contract ≡ contract

-- a worker that is to be the current one has the contract
abbrev pub Accepted : String → Phase → Type 0
Accepted contract (Phase.accepted w) = w.contract ≡ contract
Accepted contract (Phase.exclusive w) = w.contract ≡ contract
Accepted contract _ = Unit

-- where `Restart` relies on a current worker
abbrev pub restarts : Phase → Bool
restarts Phase.starting = true
restarts (Phase.candidate w) = true
restarts (Phase.accepted w) = true
restarts (Phase.exclusive w) = true
restarts (Phase.retiring w) = true
restarts _ = false

abbrev pub is_panicked : Phase → Bool
is_panicked Phase.panicked = true
is_panicked _ = false

abbrev pub has_worker : Option Worker → Bool
has_worker none = false
has_worker (some w) = true

abbrev pub On : Option Worker → Worker → Type 0
On o w = o ≡ some w

pub record IsSafe (s : State) : Type 0 where
  pub contract : HasContract s.contract s.worker
  pub accepted : Accepted s.contract s.phase
  pub waited : writes s.phase ≡ true → s.calls ≡ []
  pub calls : All (On s.worker) s.calls
  pub present : restarts s.phase ≡ true → has_worker s.worker ≡ true
  pub standing : is_panicked s.phase ≡ false
  pub owned : (i : ℕ) → s.sessions i ≡ (is_current s.worker i || holds s.phase i)
  pub apart : (i : ℕ) → (is_current s.worker i && holds s.phase i) ≡ false
  pub below : (i : ℕ) → (is_current s.worker i || holds s.phase i) ≡ true → i < s.next_id

-- a step that only moves on
pub move-IsSafe :
    (s : State) (p : Phase)
    → IsSafe s
    → Accepted s.contract p
    → (writes p ≡ true → s.calls ≡ [])
    → (restarts p ≡ true → has_worker s.worker ≡ true)
    → is_panicked p ≡ false
    → ((i : ℕ) → holds s.phase i ≡ holds p i)
    → IsSafe (record s { phase = p })
move-IsSafe s p v accepted waited present standing same = record {
  contract = v.contract;
  accepted = accepted;
  waited = waited;
  calls = v.calls;
  present = present;
  standing = standing;
  owned = λ i. rw (← same i) (v.owned i);
  apart = λ i. rw (← same i) (v.apart i);
  below = λ i h. v.below i (rw (same i) h);
}

-- the worker that a phase holds is closed, and both locks are released
pub drop-IsSafe :
    (s : State) (w : Worker)
    → IsSafe s
    → ((i : ℕ) → holds s.phase i ≡ (i == w.id))
    → IsSafe (give_up w s)
unfolding give_up close_session
drop-IsSafe s w v same = record {
  contract = v.contract;
  accepted = tt;
  waited = λ h. cc;
  calls = v.calls;
  present = λ h. cc;
  standing = refl;
  owned = λ i. ground (arith, v.owned i, v.apart i, same i);
  apart = λ i. ground arith;
  below = λ i h. ground (arith, v.below i);
}

pub after_check-IsSafe :
    (s : State)
    → IsSafe s
    → s.phase ≡ Phase.checking
    → IsSafe (record s { phase = after_check s.worker })
unfolding after_check
after_check-IsSafe s v e =
    elim (s.worker) as (λ o. s.worker ≡ o → IsSafe (record s { phase = after_check o })) [
      | none ↦ λ h. move-IsSafe s Phase.idle v tt (λ h. cc) (λ h. cc) refl (λ i. rw e refl)
      | some w ↦
          λ h. move-IsSafe s Phase.starting v tt (λ h. cc) (λ k. rw h refl) refl (λ i. rw e refl)
    ]
      refl

-- the number of the next session is not in use
pub next-free : (s : State) → IsSafe s → s.sessions s.next_id ≡ false
next-free s v = elim (Bool-cases (s.sessions s.next_id)) [
  | inl used ↦ absurd (omega (arith, v.below s.next_id (ground (arith, v.owned s.next_id))))
  | inr free ↦ free
]

pub after_start-IsSafe :
    (s : State) (r : Sessions × Started)
    → IsSafe s
    → s.phase ≡ Phase.starting
    → Leaves s.next_id s.sessions r
    → IsSafe (after_start s r)
unfolding after_start
after_start-IsSafe s (sessions, failed reason) v e same = record {
  contract = v.contract;
  accepted = tt;
  waited = λ h. cc;
  calls = v.calls;
  present = λ h. cc;
  standing = refl;
  owned = λ i. ground (arith, same i, v.owned i);
  apart = λ i. ground arith;
  below = λ i h. ground (arith, v.below i);
}
after_start-IsSafe s (sessions, started w) v e (own, same) = record {
  contract = v.contract;
  accepted = tt;
  waited = λ h. cc;
  calls = v.calls;
  present = λ h. v.present (rw e refl);
  standing = refl;
  owned = λ i. ground (arith, same i, v.owned i);
  apart = λ i. ground (arith, v.below i);
  below = λ i h. ground (arith, v.below i);
}

pub compare-IsSafe :
    (s : State) (w : Worker)
    → IsSafe s
    → s.phase ≡ Phase.candidate w
    → IsSafe (compare_contract w s)
unfolding compare_contract
compare-IsSafe s w v e = elim (Bool-cases (str_eq w.contract s.contract)) [
  | inl same ↦ rw same (
      move-IsSafe s (Phase.accepted w) v ((eq_iff w.contract s.contract).0 same) (λ h. cc)
        (λ h. v.present (rw e refl)) refl (λ i. rw e refl))
  | inr other ↦ rw other (drop-IsSafe s w v (λ i. rw e refl))
]

no_calls : (o o' : Option Worker) (ws : List Worker) → ws ≡ [] → All (On o) ws → All (On o') ws
no_calls o o' ws h k = rw h tt

pub commit-IsSafe :
    (s : State) (w : Worker) → IsSafe s → s.phase ≡ Phase.exclusive w → IsSafe (commit w s)
unfolding commit replace_worker
commit-IsSafe s w v e =
    elim (s.worker) as (λ o. s.worker ≡ o → IsSafe (replace_worker w o s)) [
      | none ↦ λ h. absurd (missing h)
      | some previous ↦ λ h. record {
        contract = rw e at v.accepted;
        accepted = tt;
        waited = λ k. v.waited (rw e refl);
        calls = no_calls s.worker (some w) s.calls (v.waited (rw e refl)) v.calls;
        present = λ k. refl;
        standing = refl;
        owned = λ i. ground (arith, v.owned i, ap (λ p. holds p i) e);
        apart = λ i. ground (arith, v.apart i, ap (λ p. holds p i) e);
        below = λ i k. ground (arith, v.below i, ap (λ p. holds p i) e);
      }
    ]
      refl
  where
    missing : s.worker ≡ none → ⊥
    missing h = cc (v.present (rw e refl))

pub retire-IsSafe :
    (s : State) (w : Worker) → IsSafe s → s.phase ≡ Phase.retiring w → IsSafe (retire w s)
unfolding retire close_session
retire-IsSafe s w v e = record {
  contract = v.contract;
  accepted = tt;
  waited = λ h. cc;
  calls = v.calls;
  present = λ h. cc;
  standing = refl;
  owned = λ i. ground (arith, v.owned i, v.apart i);
  apart = λ i. ground arith;
  below = λ i h. ground (arith, v.below i);
}

closing-holds : (o : Option Worker) (i : ℕ) → holds (Phase.closing o) i ≡ is_current o i
closing-holds none i = refl
closing-holds (some w) i = refl

pub clear-IsSafe :
    (s : State) → IsSafe s → s.phase ≡ Phase.close_exclusive → IsSafe (clear_worker s)
unfolding clear_worker
clear-IsSafe s v e = record {
  contract = tt;
  accepted = tt;
  waited = λ h. v.waited (rw e refl);
  calls = no_calls s.worker none s.calls (v.waited (rw e refl)) v.calls;
  present = λ h. cc;
  standing = refl;
  owned = λ i. ground (arith, v.owned i, closing-holds s.worker i, ap (λ p. holds p i) e);
  apart = λ i. refl;
  below = λ i h. ground (arith, v.below i, closing-holds s.worker i);
}

pub finish_close-IsSafe :
    (s : State) (w : Option Worker)
    → IsSafe s
    → s.phase ≡ Phase.closing w
    → IsSafe (finish_close w s)
unfolding finish_close close_session
finish_close-IsSafe s w v e = record {
  contract = v.contract;
  accepted = tt;
  waited = λ h. cc;
  calls = v.calls;
  present = λ h. cc;
  standing = refl;
  owned = λ i. ground (arith, v.owned i, v.apart i);
  apart = λ i. ground arith;
  below = λ i h. ground (arith, v.below i);
}

pub forward-IsSafe :
    (s : State) (w : Worker)
    → IsSafe s
    → writes s.phase ≡ false
    → s.worker ≡ some w
    → IsSafe (record s { calls = w ∷ s.calls })
forward-IsSafe s w v free e = record {
  contract = v.contract;
  accepted = v.accepted;
  waited = λ h. cc;
  calls = (e, v.calls);
  present = v.present;
  standing = v.standing;
  owned = v.owned;
  apart = v.apart;
  below = v.below;
}

All-without {ℓ κ} :
    {A : Type ℓ} (P : A → Type κ) (xs : List A) (y : A) (zs : List A)
    → All P (xs ++ y ∷ zs)
    → All P (xs ++ zs)
All-without P [] y zs h = h.1
All-without P (x ∷ xs) y zs h = (h.0, All-without P xs y zs h.1)

not-all-gone {ℓ} :
    {A : Type ℓ} (xs : List A) (y : A) (zs : List A) → xs ++ y ∷ zs ≡ [] → xs ++ zs ≡ []
not-all-gone [] y zs h = cc
not-all-gone (x ∷ xs) y zs h = cc

pub reply-IsSafe :
    (s : State) (w : Worker) (before after : List Worker)
    → IsSafe s
    → s.calls ≡ before ++ w ∷ after
    → IsSafe (record s { calls = before ++ after })
reply-IsSafe s w before after v e = record {
  contract = v.contract;
  accepted = v.accepted;
  waited = λ h. not-all-gone before w after (sym e ∙ v.waited h);
  calls = All-without (On s.worker) before w after (subst (All (On s.worker)) e v.calls);
  present = v.present;
  standing = v.standing;
  owned = v.owned;
  apart = v.apart;
  below = v.below;
}
