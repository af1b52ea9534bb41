-- ===== src/Programs/Matching.antt =====
-- cmd/matcher/main.go: what the matcher leaves behind, however it ends.
use mathlib.Core.Path.{subst}
use order_book_vibranium.Base.{sym, ap, ◌∙◌, ℕ, refl, Bool, false, Option, none, some, List}
use order_book_vibranium.Base.Bytes.{Bytes}
use order_book_vibranium.Base.Run.{Result, ok, err}
use order_book_vibranium.Book.{Book}
use order_book_vibranium.Wallet.Supply.{Asset}
use order_book_vibranium.Store.{
  Database, OutboxEvent, Session, Faults, Action, Failure, pure, attempt, ◌>>=◌, counted,
}
use order_book_vibranium.Config.{Environment, Config, ConfigError, load}
use order_book_vibranium.Matcher.{Message}
use order_book_vibranium.Matcher.Recovery.{recover_book}
use order_book_vibranium.Matcher.Loop
use order_book_vibranium.Matcher.Rounds.{recover_book-Keeps}
use order_book_vibranium.Matcher.Safe.{IsDurable, Safe, >>=-Safe, attempt-Safe, Keeps-Safe}
use order_book_vibranium.Matcher.Running.{Committed, Committed-IsDurable, run-Commits}
use order_book_vibranium.Matcher.Supply.{Distinct}
use order_book_vibranium.Matcher.Supply.Conserved.{SameSupply, run-Conserves}
use order_book_vibranium.Programs.Ending.{
  Begins, RecoveryEnds, started-Begins, recover_and_run-RecoveryEnds,
}
use order_book_vibranium.Programs.{
  Stage, Exit, exited, GroupReply, created, busy_group, refused, new_consumer, new_loop, opening,
  first_failing, after_worker, started, after_group, after_recovery, recover_and_run, matcher_main,
}

new_consumer-Safe :
    (P : Session → Type 0) → IsDurable P → (g : GroupReply) → Safe P (new_consumer g)
unfolding new_consumer
new_consumer-Safe P kept created faults s c = kept s (counted s) refl c
new_consumer-Safe P kept busy_group faults s c = kept s (counted s) refl c
new_consumer-Safe P kept refused faults s c = kept s (counted s) refl c

new_loop-Safe : (P : Session → Type 0) → IsDurable P → (b : Book) → Safe P (new_loop b)
unfolding new_loop
new_loop-Safe P kept b faults s c = kept s (record s { book = b; book_dirty = false }) refl c

pub after_worker-Safe :
    (P : Session → Type 0) (stops : ℕ → Bool) (r : Result Failure (Unit {0}))
    → Safe P (after_worker stops r)
unfolding after_worker
after_worker-Safe P stops (ok u) faults s c = c
after_worker-Safe P stops (err e) faults s c = c

pub started-Safe :
    (P : Session → Type 0) (opens : Stage → Bool) (stops : ℕ → Bool) {Float : Type 0}
    (work : Config Float → Action Exit) (r : Result ConfigError (Config Float))
    → ((cfg : Config Float) → Safe P (work cfg))
    → Safe P (started opens stops work r)
unfolding started
started-Safe P opens stops work (err e) safe faults s c = c
started-Safe P opens stops work (ok cfg) safe faults s c =
    elim (first_failing opens opening)
      as (λ (o : Option Stage).
        P
          ((elim o as (λ _. Action Exit) [ some st ↦ pure (exited st) | none ↦ work cfg ]) faults
            s).1) [ some st ↦ c | none ↦ safe cfg faults s c ]

module _ (P : Session → Type 0) (kept : IsDurable P) (opens : Stage → Bool) (stops : ℕ → Bool)
    (reply : GroupReply) (replies : ℕ → List Message) (pulls rounds : ℕ)
    (run_safe : Safe P (Loop.run replies stops pulls rounds)) where
  after_group-Safe :
      (r : Result Failure (Unit {0}))
      → Safe P (after_group opens stops reply replies pulls rounds r)
  unfolding after_group
  after_group-Safe (err e) = λ faults s c. c
  after_group-Safe (ok u) =
      >>=-Safe P (attempt (Loop.run replies stops pulls rounds)) (after_worker stops)
        (attempt-Safe P (Loop.run replies stops pulls rounds) run_safe) (after_worker-Safe P stops)

  after_recovery-Safe :
      (r : Result Failure Book) → Safe P (after_recovery opens stops reply replies pulls rounds r)
  unfolding after_recovery
  after_recovery-Safe (err e) = λ faults s c. c
  after_recovery-Safe (ok b) =
      let next =
        λ (g : Result Failure (Unit {0})). after_group opens stops reply replies pulls rounds g in
      >>=-Safe P (new_loop b) (λ _. attempt (new_consumer reply) >>= next) (new_loop-Safe P kept b)
        (λ _.
          >>=-Safe P (attempt (new_consumer reply)) next
            (attempt-Safe P (new_consumer reply) (new_consumer-Safe P kept reply)) after_group-Safe)

  recover_and_run-Safe : Safe P (recover_and_run opens stops reply replies pulls rounds)
  unfolding recover_and_run
  recover_and_run-Safe =
      >>=-Safe P (attempt recover_book) (after_recovery opens stops reply replies pulls rounds)
        (attempt-Safe P recover_book (Keeps-Safe P recover_book kept recover_book-Keeps))
        after_recovery-Safe

  matcher_main-Safe :
      {Float : Type 0} (parse_float : Bytes → Option Float) (one : Float) (env : Environment)
      → Safe P (matcher_main opens stops reply replies pulls rounds parse_float one env)
  unfolding matcher_main
  matcher_main-Safe parse_float one env =
      started-Safe P opens stops (λ cfg. recover_and_run opens stops reply replies pulls rounds)
        (load parse_float one env) (λ cfg. recover_and_run-Safe)

SameSupply-IsDurable : (a : Asset) (db : Database) → IsDurable (λ t. SameSupply a db t.db)
SameSupply-IsDurable a db s t e same =
    subst (SameSupply a db) (sym (ap (λ (p : Database × List ℕ × List OutboxEvent). p.0) e)) same

SameSupply-run :
    (a : Asset) (db : Database) (replies : ℕ → List Message) (stops : ℕ → Bool) (k n : ℕ)
    → Safe (λ t. SameSupply a db t.db) (Loop.run replies stops k n)
SameSupply-run a db replies stops k n faults t same =
    let (distinct, still) = run-Conserves a replies stops k n faults t same.0 in
    (distinct, still ∙ same.1)

-- main of cmd/matcher, for every environment, whichever connections open, whatever Redis replies and
-- delivers, whenever a signal comes and whatever calls of Postgres and Redis fail, after any number
-- of rounds: if every acknowledged entry was marked as processed and each user had one wallet, this
-- is so at the end, and all users together hold of BRL and of Vibranium what they held. A
-- configuration that is refused or a connection that does not open ends it before anything is done;
-- an error of RecoverBook, or a group that Redis refuses, ends it before the loop; the loop starts
-- only with the book that RecoverBook has returned, and its error is fatal unless the context is
-- cancelled.
pub matcher_main-Keeps :
    (a : Asset) (opens : Stage → Bool) (stops : ℕ → Bool) (reply : GroupReply)
    (replies : ℕ → List Message) (pulls rounds : ℕ) {Float : Type 0}
    (parse_float : Bytes → Option Float) (one : Float) (env : Environment) (faults : Faults)
    (s : Session)
    → Committed s
    → Distinct s.db.wallets
    → let p = matcher_main opens stops reply replies pulls rounds parse_float one env faults s in
      Committed p.1
      × SameSupply a s.db p.1.db
      × Begins opens
          (λ cfg.
            RecoveryEnds stops reply
              (Loop.run replies stops pulls rounds faults)
              (recover_book faults s))
          s
          (load parse_float one env)
          p
unfolding matcher_main
matcher_main-Keeps a opens stops reply replies pulls rounds parse_float one env faults s c d = (
  matcher_main-Safe Committed Committed-IsDurable opens stops reply replies pulls rounds
      (run-Commits replies stops pulls rounds) parse_float one env faults s c,
  matcher_main-Safe (λ t. SameSupply a s.db t.db) (SameSupply-IsDurable a s.db) opens stops reply
      replies pulls rounds (SameSupply-run a s.db replies stops pulls rounds) parse_float one env
      faults s (d, refl),
  started-Begins opens stops (λ cfg. recover_and_run opens stops reply replies pulls rounds)
      (λ cfg.
        RecoveryEnds stops reply (Loop.run replies stops pulls rounds faults)
          (recover_book faults s))
      faults s (λ cfg. recover_and_run-RecoveryEnds opens stops reply replies pulls rounds faults s)
      (load parse_float one env),
)
