-- ===== src/Ranking/History.antt =====
-- internal/domain/matching/book.go and engine.go: after any calls, the book answers as the sorted
-- lists do.
use order_book_vibranium.Base.{
  ◌≡◌, refl, sym, ap, ◌∙◌, inr, Option, none, some, List, [], ◌∷◌, arith,
}
use order_book_vibranium.Base.Run.{Run, done, panic, out_of_fuel}
use order_book_vibranium.Base.Assoc.{lookup}
use order_book_vibranium.Order.{Order, Uuid}
use order_book_vibranium.Book.{Book, new_book}
use order_book_vibranium.Book.Invariant.{IsValid}
use order_book_vibranium.Book.Start.{new_book-IsValid}
use order_book_vibranium.Ranking.{Ranks}
use order_book_vibranium.Ranking.Resting.{IsRanked}
use order_book_vibranium.Ranking.Commands.{
  Command, submit, withdrawal, restore, Answer, run_command, rank_command, run_commands,
  rank_commands, brings, IsOther, IsLast, AreCalls,
}
use order_book_vibranium.Ranking.Answers.{IsFresh, Answers, command-Answers}

-- No call brings an id that the book knows.
abbrev AreNew : Book → List Command → Type 0
AreNew b [] = Unit
AreNew b (c ∷ cs) = IsFresh b (brings c) × AreNew b cs

abbrev AreApart : Option Order → Option Order → Type 0
AreApart c none = Unit
AreApart c (some o) = IsOther o.id c

first_apart :
    (c : Option Order) (d : Command) (cs : List Command) → IsLast c (d ∷ cs) → AreApart c (brings d)
first_apart none (submit clock o funds) cs h = tt
first_apart none (withdrawal id) cs h = tt
first_apart none (restore o) cs h = tt
first_apart (some x) (submit clock o funds) cs (ne, h) = λ z. ne (sym z)
first_apart (some x) (withdrawal id) cs h = tt
first_apart (some x) (restore o) cs (ne, h) = λ z. ne (sym z)

later_apart : (c : Option Order) (d : Command) (cs : List Command) → IsLast c (d ∷ cs) → IsLast c cs
later_apart none d cs h = tt
later_apart (some x) d cs h = h.1

IsFresh-after :
    (c : Option Order) (b b' : Book) (d : Option Order)
    → ((j : Uuid) → IsOther j c → lookup j b.locations ≡ none → lookup j b'.locations ≡ none)
    → AreApart c d
    → IsFresh b d
    → IsFresh b' d
IsFresh-after c b b' none keep ne h = tt
IsFresh-after c b b' (some o) keep ne h = keep o.id ne h

-- The book that a call returns knows no id that a later call brings.
AreNew-after :
    (c : Command) (b b' : Book) (cs : List Command)
    → ((j : Uuid)
        → IsOther j (brings c)
        → lookup j b.locations ≡ none
        → lookup j b'.locations ≡ none)
    → IsLast (brings c) cs
    → AreNew b cs
    → AreNew b' cs
AreNew-after c b b' [] keep other new = tt
AreNew-after c b b' (d ∷ cs) keep other new = (
  IsFresh-after (brings c) b b' (brings d) keep (first_apart (brings c) d cs other) new.0,
  AreNew-after c b b' cs keep (later_apart (brings c) d cs other) new.1,
)

-- The books and the answers of both sides agree.
abbrev pub RefinesAll : Run (Book × List Answer) → Option (Ranks × List Answer) → Type 0
RefinesAll (done (b, ys)) (some (rk, ys')) = IsValid b × IsRanked b rk × (ys ≡ ys')
RefinesAll _ _ = ⊥

then_all :
    (a a' : Answer) (x : Run (Book × List Answer)) (y : Option (Ranks × List Answer))
    → a ≡ a'
    → RefinesAll x y
    → RefinesAll
        (elim x [ panic ↦ panic | out_of_fuel ↦ out_of_fuel | done (b, more) ↦ done (b, a ∷ more) ])
        (elim y [ none ↦ none | some (rk, more) ↦ some (rk, a' ∷ more) ])
then_all a a' (done (b, ys)) (some (rk, ys')) e (v, r, same) =
    (v, r, ap (λ z. z ∷ ys) e ∙ ap (λ (zs : List Answer). a' ∷ zs) same)
then_all a a' (done z) none e h = h
then_all a a' panic y e h = h
then_all a a' out_of_fuel y e h = h

continued :
    (c : Command) (cs : List Command) (b : Book) (x : Run (Book × Answer))
    (y : Option (Ranks × Answer))
    → Answers c b x y
    → IsLast (brings c) cs
    → AreNew b cs
    → ((b' : Book) (rk' : Ranks)
        → IsValid b'
        → IsRanked b' rk'
        → AreNew b' cs
        → RefinesAll (run_commands cs b') (rank_commands cs rk'))
    → RefinesAll
        (elim x [
          | panic ↦ panic
          | out_of_fuel ↦ out_of_fuel
          | done (b', a) ↦ elim (run_commands cs b') [
            | panic ↦ panic
            | out_of_fuel ↦ out_of_fuel
            | done (b'', more) ↦ done (b'', a ∷ more)
          ]
        ])
        (elim y [
          | none ↦ none
          | some (rk', a) ↦ elim (rank_commands cs rk') [
            | none ↦ none
            | some (rk'', more) ↦ some (rk'', a ∷ more)
          ]
        ])
continued c cs b (done (b', a)) (some (rk', a')) (v, r, e, keep) last new rest =
    then_all a a' (run_commands cs b') (rank_commands cs rk') e
      (rest b' rk' v r (AreNew-after c b b' cs keep last new))
continued c cs b (done z) none h last new rest = elim h [ ]
continued c cs b panic y h last new rest = elim h [ ]
continued c cs b out_of_fuel y h last new rest = elim h [ ]

-- From a consistent book whose sides are the lists.
commands-Refine :
    (cs : List Command) (b : Book) (rk : Ranks)
    → AreCalls cs
    → IsValid b
    → IsRanked b rk
    → AreNew b cs
    → RefinesAll (run_commands cs b) (rank_commands cs rk)
unfolding run_commands rank_commands
commands-Refine [] b rk calls v r new = (v, r, refl)
commands-Refine (c ∷ cs) b rk (call, last, calls) v r (fresh, new) =
    continued c cs b (run_command c b) (rank_command c rk) (command-Answers c b rk call v r fresh)
      last new (λ b' rk' v' r' new'. commands-Refine cs b' rk' calls v' r' new')

no_entry : (id : Uuid) → lookup id new_book.locations ≡ none
unfolding new_book lookup
no_entry id = refl

pub new_book-IsRanked : IsRanked new_book (record { bids = []; asks = [] })
unfolding new_book
new_book-IsRanked = record {
  bids = record {
    sorted = tt;
    shows = λ p. inr (λ es (i, lt, k, o). absurd (omega (arith, lt)), refl);
  };
  asks = record {
    sorted = tt;
    shows = λ p. inr (λ es (i, lt, k, o). absurd (omega (arith, lt)), refl);
  };
}

new_book-AreNew : (cs : List Command) → AreNew new_book cs
new_book-AreNew [] = tt
new_book-AreNew (submit clock o funds ∷ cs) = (no_entry o.id, new_book-AreNew cs)
new_book-AreNew (withdrawal id ∷ cs) = (tt, new_book-AreNew cs)
new_book-AreNew (restore o ∷ cs) = (no_entry o.id, new_book-AreNew cs)

-- After any calls of AddResting, Match and Cancel on the book of NewBook, with valid arguments and
-- no id brought twice, in any order: every call returns, within its fuel and without a panic, what
-- it returns on two sorted lists of orders, and at the end the book is consistent and its sides are
-- these lists, each queue with its orders as they stand in the list.
pub run_commands-Refines :
    (cs : List Command)
    → AreCalls cs
    → RefinesAll (run_commands cs new_book) (rank_commands cs (record { bids = []; asks = [] }))
run_commands-Refines cs calls =
    commands-Refine cs new_book (record { bids = []; asks = [] }) calls new_book-IsValid
      new_book-IsRanked (new_book-AreNew cs)
