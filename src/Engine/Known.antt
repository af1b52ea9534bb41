-- ===== src/Engine/Known.antt =====
-- internal/domain/matching/engine.go: Match adds no id to the book but that of its order.
use order_book_vibranium.Base.{
  ℕ, ◌≡◌, ◌≢◌, refl, sym, ◌∙◌, inl, inr, Option, none, some, arith, ==_iff,
}
use order_book_vibranium.Base.Int64.{Int64}
use order_book_vibranium.Base.Run.{Run, done, panic, out_of_fuel}
use order_book_vibranium.Base.Assoc.{lookup}
use order_book_vibranium.Order.{Order, Time, Uuid}
use order_book_vibranium.Book.{Book, add_resting}
use order_book_vibranium.Book.Resting.{locations-add_resting}
use order_book_vibranium.Engine.{Matching, MatchResult, match}
use order_book_vibranium.Engine.Ready.{IsReady}
use order_book_vibranium.Engine.Loop.{Trading, none_more, one_more}
use order_book_vibranium.Engine.Outcome.{MatchIs, start, match-MatchIs}

-- Trades keep the id of the order, and ids that the book does not know.
Trading-unknown :
    (j : Uuid) {s s' : Matching}
    → Trading s s'
    → lookup j s.book.locations ≡ none
    → (lookup j s'.book.locations ≡ none) × (s'.incoming.id ≡ s.incoming.id)
Trading-unknown j none_more h = (h, refl)
Trading-unknown j (one_more v x more) h =
    let (k, same) = Trading-unknown j more (elim (x.gone j) [ inl e ↦ e | inr e ↦ e ∙ h ]) in
    (k, same ∙ x.taker.id)

-- The book that is returned does not know the id.
abbrev pub IsUnknown : Uuid → Run (Book × MatchResult) → Type 0
IsUnknown j (done (b, r)) = lookup j b.locations ≡ none
IsUnknown j panic = Unit
IsUnknown j out_of_fuel = Unit

pub add_resting_unknown :
    (j : Uuid) (o : Order) (p : Int64) (b b' : Book)
    → o.price_cents ≡ some p
    → add_resting o b ≡ done b'
    → o.id ≢ j
    → lookup j b.locations ≡ none
    → lookup j b'.locations ≡ none
add_resting_unknown j o p b b' priced added ne h =
    ground (arith, locations-add_resting o p b b' j priced added, ==_iff o.id j, ne, h)

IsUnknown-after :
    (j : Uuid) (b : Book) (o : Order) (funds : Option Int64) (r : Run (Book × MatchResult))
    → o.id ≢ j
    → lookup j b.locations ≡ none
    → MatchIs (start b o funds) r
    → IsUnknown j r
IsUnknown-after j b o funds panic ne h m = tt
IsUnknown-after j b o funds out_of_fuel ne h m = tt
IsUnknown-after j b o funds (done (b', r)) ne h
      (s, v, stopped, more, (valid, trades, makers, how)) =
    let (k, same) = Trading-unknown j more h in
    elim how [
      | inl x ↦ rw x.book k
      | inr y ↦ elim y [
        | inl x ↦
            add_resting_unknown j s.incoming x.price s.book b' x.priced x.book
              (λ e. ne (sym same ∙ e)) k
        | inr x ↦ rw x.book k
      ]
    ]

pub match-IsUnknown :
    (j : Uuid) (clock : ℕ → Time) (b : Book) (o : Order) (funds : Option Int64)
    → IsReady (start b o funds)
    → o.id ≢ j
    → lookup j b.locations ≡ none
    → IsUnknown j (match clock b o funds)
match-IsUnknown j clock b o funds v ne h =
    IsUnknown-after j b o funds (match clock b o funds) ne h (match-MatchIs clock b o funds v)
