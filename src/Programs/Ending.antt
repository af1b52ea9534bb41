-- ===== src/Programs/Ending.antt =====
-- cmd/matcher/main.go and cmd/outbox-publisher/main.go: how the programs begin and end.
use order_book_vibranium.Base.{
  ℕ, ◌≡◌, refl, ◌⊎◌, inl, inr, Bool, true, false, Option, none, some, List, if◌then◌else◌, arith,
}
use order_book_vibranium.Base.Run.{Result, ok, err}
use order_book_vibranium.Book.{Book}
use order_book_vibranium.Store.{
  Session, Faults, Action, Failure, panicked, no_fuel, pure, attempt, ◌>>=◌, counted,
}
use order_book_vibranium.Config.{Config, ConfigError}
use order_book_vibranium.Matcher.{Message}
use order_book_vibranium.Matcher.Recovery.{recover_book}
use order_book_vibranium.Matcher.Loop
use order_book_vibranium.Publisher
use order_book_vibranium.Programs
use order_book_vibranium.Programs.{
  Stage, Exit, stopped, exited, configuration, recovery, consumer_group, worker, GroupReply,
  created, busy_group, refused, new_consumer, new_loop, opening, first_failing, after_worker,
  started, after_group, after_recovery, recover_and_run, publish_and_run,
}

abbrev pub Ending : Type 0
Ending = Result Failure Exit × Session

-- A run of the worker ends the program: a panic ends it too, an error is fatal unless the context is
-- cancelled.
abbrev pub WorkerEnds : (ℕ → Bool) → Result Failure (Unit {0}) × Session → Ending → Type 0
WorkerEnds stops (ok u, t) p = p ≡ (ok stopped, t)
WorkerEnds stops (err panicked, t) p = p ≡ (err panicked, t)
WorkerEnds stops (err no_fuel, t) p = p ≡ (err no_fuel, t)
WorkerEnds stops (err e, t) p = p ≡ (ok (if stops t.calls then stopped else exited worker), t)

-- A group that Redis refuses is fatal; with any other the worker runs.
abbrev pub GroupEnds :
    (ℕ → Bool)
    → GroupReply
    → (Session → Result Failure (Unit {0}) × Session)
    → Session
    → Ending
    → Type 0
GroupEnds stops refused run s p = p ≡ (ok (exited consumer_group), s)
GroupEnds stops _ run s p = WorkerEnds stops (run s) p

-- An error of the recovery is fatal; the worker starts only from a book that has been recovered.
abbrev pub RecoveryEnds :
    (ℕ → Bool)
    → GroupReply
    → (Session → Result Failure (Unit {0}) × Session)
    → Result Failure Book × Session
    → Ending
    → Type 0
RecoveryEnds stops reply run (ok b, t) p =
    GroupEnds stops reply run (counted (record t { book = b; book_dirty = false })) p
RecoveryEnds stops reply run (err panicked, t) p = p ≡ (err panicked, t)
RecoveryEnds stops reply run (err no_fuel, t) p = p ≡ (err no_fuel, t)
RecoveryEnds stops reply run (err e, t) p = p ≡ (ok (exited recovery), t)

-- A configuration that is refused, and a connection that does not open, end the program before it has
-- done anything.
abbrev pub Begins :
    {Float : Type 0}
    → (Stage → Bool)
    → (Config Float → Ending → Type 0)
    → Session
    → Result ConfigError (Config Float)
    → Ending
    → Type 0
Begins opens Ends s (err e) p = p ≡ (ok (exited configuration), s)
Begins opens Ends s (ok cfg) p =
    ((st : Stage) × (opens st ≡ false) × (p ≡ (ok (exited st), s)))
    ⊎ (opens Programs.logger ≡ true)
      × (opens Programs.tracing ≡ true)
      × (opens Programs.postgres ≡ true)
      × (opens Programs.redis ≡ true)
      × Ends cfg p

-- The first stage that fails, if any does.
FirstFailing : (Stage → Bool) → Option Stage → Type 0
FirstFailing opens (some st) = opens st ≡ false
FirstFailing opens none =
    (opens Programs.logger ≡ true)
    × (opens Programs.tracing ≡ true)
    × (opens Programs.postgres ≡ true)
    × (opens Programs.redis ≡ true)

first_failing-FirstFailing :
    (opens : Stage → Bool) → FirstFailing opens (first_failing opens opening)
unfolding FirstFailing first_failing opening
first_failing-FirstFailing opens = ground arith

pub started-Begins :
    {Float : Type 0} (opens : Stage → Bool) (stops : ℕ → Bool) (work : Config Float → Action Exit)
    (Ends : Config Float → Ending → Type 0) (faults : Faults) (s : Session)
    → ((cfg : Config Float) → Ends cfg (work cfg faults s))
    → (r : Result ConfigError (Config Float))
    → Begins opens Ends s r (started opens stops work r faults s)
unfolding started FirstFailing
started-Begins opens stops work Ends faults s ends (err e) = refl
started-Begins opens stops work Ends faults s ends (ok cfg) =
    opened (first_failing opens opening) (first_failing-FirstFailing opens)
  where
    opened :
        (o : Option Stage)
        → FirstFailing opens o
        → Begins opens Ends s (ok cfg) (
            (elim o as (λ _. Action Exit) [ some st ↦ pure (exited st) | none ↦ work cfg ]) faults
              s)
    opened (some st) failing = inl (st, failing, refl)
    opened none (a, b, c, d) = inr (a, b, c, d, ends cfg)

worker-WorkerEnds :
    (stops : ℕ → Bool) (q : Result Failure (Unit {0}) × Session) (faults : Faults) (s : Session)
    → WorkerEnds stops q ((attempt (λ _ _. q) >>= after_worker stops) faults s)
unfolding after_worker
worker-WorkerEnds stops (ok u, t) faults s = refl
worker-WorkerEnds stops (err e, t) faults s =
    elim e
      as (λ k.
        WorkerEnds stops (err k, t)
          ((attempt (λ _ _. (err k, t)) >>= after_worker stops) faults s)) [
            | panicked ↦ refl
            | no_fuel ↦ refl
            | _ ↦ refl
          ]

pub publish_and_run-WorkerEnds :
    {Float : Type 0} (opens : Stage → Bool) (stops : ℕ → Bool) (ticks : ℕ) (cfg : Config Float)
    (faults : Faults) (s : Session)
    → WorkerEnds stops
        (Publisher.run stops cfg.outbox_batch_size cfg.outbox_poll_interval ticks faults s)
        (publish_and_run opens stops ticks cfg faults s)
unfolding publish_and_run
publish_and_run-WorkerEnds opens stops ticks cfg faults s =
    worker-WorkerEnds stops
      (Publisher.run stops cfg.outbox_batch_size cfg.outbox_poll_interval ticks faults s) faults s

module _ (opens : Stage → Bool) (stops : ℕ → Bool) (reply : GroupReply) (replies : ℕ → List Message)
    (pulls rounds : ℕ) (faults : Faults) where
  abbrev pub looped : Session → Result Failure (Unit {0}) × Session
  looped = Loop.run replies stops pulls rounds faults

  after_recovery-GroupEnds :
      (b : Book) (t : Session)
      → GroupEnds stops reply looped
          (counted (record t { book = b; book_dirty = false }))
          (after_recovery opens stops reply replies pulls rounds (ok b) faults t)
  unfolding after_recovery new_loop new_consumer after_group
  after_recovery-GroupEnds b t =
      let u = counted (record t { book = b; book_dirty = false }) in
      elim reply
        as (λ g.
          GroupEnds stops g looped u
            (after_recovery opens stops g replies pulls rounds (ok b) faults t)) [
              | created ↦ worker-WorkerEnds stops (looped u) faults u
              | busy_group ↦ worker-WorkerEnds stops (looped u) faults u
              | refused ↦ refl
            ]

  recovered-RecoveryEnds :
      (q : Result Failure Book × Session) (s : Session)
      → RecoveryEnds stops reply looped q
          ((attempt (λ _ _. q) >>= after_recovery opens stops reply replies pulls rounds) faults s)
  unfolding after_recovery
  recovered-RecoveryEnds (ok b, t) s = after_recovery-GroupEnds b t
  recovered-RecoveryEnds (err e, t) s =
      elim e
        as (λ k.
          RecoveryEnds stops reply looped (err k, t)
            ((attempt (λ _ _. (err k, t)) >>= after_recovery opens stops reply replies pulls rounds)
              faults s)) [ panicked ↦ refl | no_fuel ↦ refl | _ ↦ refl ]

  pub recover_and_run-RecoveryEnds :
      (s : Session)
      → RecoveryEnds stops reply looped
          (recover_book faults s)
          (recover_and_run opens stops reply replies pulls rounds faults s)
  unfolding recover_and_run
  recover_and_run-RecoveryEnds s = recovered-RecoveryEnds (recover_book faults s) s
