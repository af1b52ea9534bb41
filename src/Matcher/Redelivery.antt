-- ===== src/Matcher/Redelivery.antt =====
-- internal/application/matcherapp/consumer_loop.go: entries that are delivered once more.
use order_book_vibranium.Base.{◌≡◌, refl, ◌∙◌, true, List, [], ◌∷◌, arith}
use order_book_vibranium.Base.Run.{Result, ok, err}
use order_book_vibranium.Store.{
  Database, Session, Faults, Action, Failure, counted, for_each, ◌>>◌, commit, transaction,
  exec_rows,
}
use order_book_vibranium.Store.Repositories.{try_mark, update_wallet}
use order_book_vibranium.Matcher.{Message, apply_message, apply_batch, empty_cache, flush_wallets}
use order_book_vibranium.Matcher.Batches.{is_marked}

-- All messages are marked.
abbrev pub AreMarked : List Message → Database → Type 0
AreMarked [] db = Unit
AreMarked (m ∷ ms) db = (is_marked m.id db ≡ true) × AreMarked ms db

-- Tables, book and loaded wallets are the same.
record IsSame (s t : Session) : Type 0 where
  db : t.db ≡ s.db
  book : t.book ≡ s.book
  cache : t.cache ≡ s.cache

IsSame-trans : {s t u : Session} → IsSame s t → IsSame t u → IsSame s u
IsSame-trans a b = record { db = b.db ∙ a.db; book = b.book ∙ a.book; cache = b.cache ∙ a.cache }

apply_message_again :
    (m : Message) (faults : Faults) (s : Session)
    → is_marked m.id s.db ≡ true
    → IsSame s (apply_message m faults s).1
unfolding apply_message try_mark exec_rows
apply_message_again m faults s h = record {
  db = ground arith;
  book = ground arith;
  cache = ground arith;
}

rest_again :
    (f : Unit {0} → Action (Unit {0})) (faults : Faults) (s : Session)
    (p : Result Failure (Unit {0}) × Session)
    → IsSame s p.1
    → ((t : Session) → IsSame s t → IsSame s (f tt faults t).1)
    → IsSame s
        (elim p.0 as (λ _. Result Failure (Unit {0}) × Session) [
          | ok a ↦ f a faults p.1
          | err e ↦ (err e, p.1)
        ]).1
rest_again f faults s (ok a, t) same rest = rest t same
rest_again f faults s (err e, t) same rest = same

messages_again :
    (msgs : List Message) (faults : Faults) (s : Session)
    → AreMarked msgs s.db
    → IsSame s (for_each msgs apply_message faults s).1
unfolding for_each
messages_again [] faults s all = record { db = refl; book = refl; cache = refl }
messages_again (m ∷ ms) faults s (one, all) =
    rest_again (λ _. for_each ms apply_message) faults s (apply_message m faults s)
      (apply_message_again m faults s one)
      (λ t same. IsSame-trans same (messages_again ms faults t (rw same.db all)))

each_of_none :
    {A : Type 0} (xs : List A) (f : A → Action (Unit {0})) (faults : Faults) (t : Session)
    → xs ≡ []
    → for_each xs f faults t ≡ (ok tt, t)
unfolding for_each
each_of_none [] f faults t e = refl
each_of_none (x ∷ xs) f faults t e = absurd (ground arith)

body_again :
    (msgs : List Message) (faults : Faults) (s : Session)
    → AreMarked msgs s.db
    → IsSame
        (record s { cache = [] })
        ((empty_cache >> (for_each msgs apply_message >> flush_wallets)) faults s).1
unfolding empty_cache flush_wallets for_each
body_again msgs faults s all =
    let clean : Session = record s { cache = [] } in
    rest_again (λ _. flush_wallets) faults clean (for_each msgs apply_message faults clean)
      (messages_again msgs faults clean all)
      (λ t same. rw (each_of_none t.cache (λ e. update_wallet e.1) faults t same.cache) same)

commit_again :
    (db : Database) (faults : Faults) (p : Result Failure (Unit {0}) × Session)
    → p.1.db ≡ db
    → ((commit db p faults).1.db ≡ db) × ((commit db p faults).1.book ≡ p.1.book)
unfolding commit
commit_again db faults (ok a, t) e = (ground (arith, e), ground arith)
commit_again db faults (err e, t) h = (refl, refl)

-- A batch whose messages are all marked as processed changes neither the tables nor the book,
-- whatever calls of the database fail, so a redelivery after a crash between COMMIT and XACK has no
-- effect.
pub apply_batch_again :
    (msgs : List Message) (faults : Faults) (s : Session)
    → AreMarked msgs s.db
    → ((apply_batch msgs faults s).1.db ≡ s.db) × ((apply_batch msgs faults s).1.book ≡ s.book)
unfolding apply_batch transaction
apply_batch_again msgs faults s all =
    let body = empty_cache >> (for_each msgs apply_message >> flush_wallets) in
    let same = body_again msgs faults (counted s) all in
    let (tables, book) = commit_again s.db faults (body faults (counted s)) same.db in
    (ground (arith, tables), ground (arith, book, same.book))
