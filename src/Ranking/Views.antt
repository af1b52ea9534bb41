-- ===== src/Ranking/Views.antt =====
-- internal/domain/matching/book.go: what a write to a level and a removal show.
use order_book_vibranium.Base.{◌≡◌, ◌≢◌, refl, ◌∙◌, inl, inr, List, arith, Bool-cases}
use order_book_vibranium.Base.Int64
use order_book_vibranium.Base.Int64.{Int64, eq_iff}
use order_book_vibranium.Order.{Order, Side}
use order_book_vibranium.Level.{Element, Level}
use order_book_vibranium.LevelHeap.{update_level}
use order_book_vibranium.LevelHeap.Content.{Holds}
use order_book_vibranium.LevelHeap.Update.{Holds-update_level, update_level-Holds}
use order_book_vibranium.Book.Leaving.{eq-false}
use order_book_vibranium.Ranking.Shown.{orders, Shows, Shows-moved, Represents}
use order_book_vibranium.Ranking.Sorted.{IsSorted, at_price}

module _ (h : List Level) (p : Int64) (F : List Element → List Element) where
  pub Shows-update_level :
      (es : List Element) → Holds h p es → Shows (update_level p F h) p (orders (F es))
  Shows-update_level es held =
      inl (F es, rw ((eq_iff p p).1 refl) at (Holds-update_level p F h p es held), refl)

  -- Another price shows what it showed.
  pub Shows-update_level_other :
      (q : Int64) (xs : List Order) → q ≢ p → Shows h q xs → Shows (update_level p F h) q xs
  Shows-update_level_other q xs ne =
      Shows-moved h (update_level p F h) q xs
        (λ es x. rw (eq-false q p ne) at (Holds-update_level p F h q es x))
        (λ es x.
          let (fs, there, same) = update_level-Holds p F h q es x in
          let same' : es ≡ fs = same ∙ rw (eq-false q p ne) in rw same' there)

-- From the levels `h` to `h'`, the queue of price `p` becomes `ys`, and no other queue changes.
pub record Changes (h h' : List Level) (p : Int64) (ys : List Order) : Type 0 where
  pub here : Shows h' p ys
  pub there : (q : Int64) (xs : List Order) → q ≢ p → Shows h q xs → Shows h' q xs

pub update_level-Changes :
    (h : List Level) (p : Int64) (F : List Element → List Element) (es : List Element)
    → Holds h p es
    → Changes h (update_level p F h) p (orders (F es))
update_level-Changes h p F es held = record {
  here = Shows-update_level h p F es held;
  there = Shows-update_level_other h p F;
}

-- A list that changes where the levels do represents the new levels.
pub Represents-Changes :
    (s : Side) (h h' : List Level) (p : Int64) (ys os os' : List Order)
    → Represents s h os
    → Changes h h' p ys
    → IsSorted s os'
    → at_price p os' ≡ ys
    → ((q : Int64) → q ≢ p → at_price q os' ≡ at_price q os)
    → Represents s h' os'
Represents-Changes s h h' p ys os os' r c sorted here there = record {
  sorted = sorted;
  shows = λ q. elim (Bool-cases (Int64.eq q p)) [
    | inl e ↦ let same = (eq_iff q p).0 e in rw (same, here) c.here
    | inr e ↦
        let ne : q ≢ p = λ z. ground (arith, eq_iff q p, z) in
        rw (there q ne) (c.there q (at_price q os) ne (r.shows q))
  ];
}
