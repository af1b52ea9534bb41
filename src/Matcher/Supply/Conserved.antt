-- ===== src/Matcher/Supply/Conserved.antt =====
-- internal/application/matcherapp/consumer_loop.go: the supply of an asset across a batch.
use order_book_vibranium.Base.{ℕ, Bool, ◌≡◌, refl, sym, ap, ◌∙◌, inl, inr, List, [], arith}
use mathlib.Core.Path.{subst}
use order_book_vibranium.Base.Run.{Result, ok, err}
use order_book_vibranium.Wallet.{Wallet}
use order_book_vibranium.Wallet.Supply.{Asset, supply, supply-eq_of_total}
use order_book_vibranium.Store.{
  Database, OutboxEvent, Session, Faults, Failure, for_each, ◌>>◌, counted,
}
use order_book_vibranium.Store.Transactions.{Succeeds, >>=-Succeeds, Atomic, transaction-Atomic}
use order_book_vibranium.Matcher.{Message, apply_message, apply_batch, empty_cache, flush_wallets}
use order_book_vibranium.Matcher.Loop.{run}
use order_book_vibranium.Matcher.Rounds.{run_plain-Safe}
use order_book_vibranium.Matcher.Supply.{Distinct, pending}
use order_book_vibranium.Matcher.Supply.Moves.{empty-IsSound, IsSound, view}
use order_book_vibranium.Matcher.Supply.Trades.{for_each-Shifts}
use order_book_vibranium.Matcher.Supply.Events.{apply_message-Shifts}
use order_book_vibranium.Matcher.Supply.Flushing.{pending_nothing, flush_wallets_lem}

-- Each user has one wallet, and together they hold of the asset what they held.
abbrev pub SameSupply : Asset → Database → Database → Type 0
SameSupply a db db' = Distinct db'.wallets × (supply a db'.wallets ≡ supply a db.wallets)

body_lem :
    (a : Asset) (msgs : List Message) (faults : Faults) (s : Session) (x : Unit {0}) (t : Session)
    → Distinct s.db.wallets
    → Succeeds (empty_cache >> (for_each msgs apply_message >> flush_wallets)) faults s x t
    → SameSupply a s.db t.db
unfolding empty_cache
body_lem a msgs faults s x t d h =
    let (_, s₁, emptied, rest) =
      >>=-Succeeds empty_cache (λ _. for_each msgs apply_message >> flush_wallets) faults s h in
    let (y, u, applied, flushed) =
      >>=-Succeeds (for_each msgs apply_message) (λ _. flush_wallets) faults s₁ rest in
    let view_s : view s₁ ≡ ([], s.db.wallets) = ground (arith, emptied) in
    let sound : IsSound (view s₁) = rw view_s (empty-IsSound s.db.wallets d) in
    let (sound_u, moved) =
      for_each-Shifts a msgs apply_message (apply_message-Shifts a) faults s₁ y u sound applied in
    let (distinct, after) = flush_wallets_lem a faults u x t sound_u flushed in
    let before = ap (λ (v : List _ × List Wallet). pending a v.0 v.1) view_s in
    (
      distinct,
      supply-eq_of_total a t.db.wallets s.db.wallets
          (omega (arith, after, moved, before, pending_nothing a s.db.wallets)),
    )

-- The first batch on the tables starts with no wallet loaded.
pub apply_batch-SameSupply :
    (a : Asset) (msgs : List Message) (faults : Faults) (s : Session)
    → Distinct s.db.wallets
    → SameSupply a s.db (apply_batch msgs faults s).1.db
unfolding apply_batch
apply_batch-SameSupply a msgs faults s d = whole (apply_batch msgs faults s) (
    transaction-Atomic (λ (u : Unit {0}) db. SameSupply a s.db db)
      (empty_cache >> (for_each msgs apply_message >> flush_wallets)) faults s
      (λ x t h. body_lem a msgs faults (counted s) x t d h))
  where
    whole :
        (p : Result Failure (Unit {0}) × Session)
        → Atomic (λ (u : Unit {0}) db. SameSupply a s.db db) s.db p
        → SameSupply a s.db p.1.db
    whole (ok u, t) same = same
    whole (err e, t) (inl same) = rw same (d, refl)
    whole (err e, t) (inr (u, same)) = same

-- Whatever the stream delivers, whenever the context is cancelled, and whatever calls of Postgres
-- and Redis fail: if each user has one wallet, then after any number of rounds of Run each user has
-- one wallet, and all of them together hold of BRL and of Vibranium what they held, as sums of
-- int64 values.
pub run-Conserves :
    (a : Asset) (replies : ℕ → List Message) (stops : ℕ → Bool) (k n : ℕ) (faults : Faults)
    (s : Session)
    → Distinct s.db.wallets
    → SameSupply a s.db (run replies stops k n faults s).1.db
run-Conserves a replies stops k n faults s d =
    run_plain-Safe (λ t. SameSupply a s.db t.db)
      (λ t u e same.
        subst (λ db. SameSupply a s.db db) (sym (ap (λ (p : Database × List OutboxEvent). p.0) e))
          same)
      (λ msgs faults t same.
        let (distinct, still) = apply_batch-SameSupply a msgs faults t same.0 in
        (distinct, still ∙ same.1))
      replies stops k n faults s (d, refl)
