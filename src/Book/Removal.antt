-- ===== src/Book/Removal.antt =====
-- internal/domain/matching/book.go: the book after an element has left one of its sides.
use order_book_vibranium.Base.{
  ℕ, ◌≡◌, ◌≢◌, refl, sym, ap, ◌∙◌, inl, inr, none, some, List, [], ◌∷◌, arith, ◌==◌, Bool-cases,
}
use order_book_vibranium.Base.Int64.{Int64}
use order_book_vibranium.Base.Assoc.{lookup, erase, lookup-erase}
use order_book_vibranium.Order.{Side, Uuid}
use order_book_vibranium.Level.{Element}
use order_book_vibranium.LevelHeap.{LevelHeap, update_level}
use order_book_vibranium.Book.{Book, Location, LevelRef}
use order_book_vibranium.Book.Invariant.{IsSide, FoundIn, IsFound, IsValid, levels, location}
use order_book_vibranium.Book.Queues.{IsQueue-erase, location-injective}

-- The book once the element is out of its queue and its entry out of the locations.
abbrev pub without : Side → Int64 → (List Element → List Element) → Uuid → Book → Book
without Side.buy p F id b = record b {
  bids = record b.bids { levels = update_level p F b.bids.levels };
  locations = erase id b.locations;
}
without _ p F id b = record b {
  asks = record b.asks { levels = update_level p F b.asks.levels };
  locations = erase id b.locations;
}

pub locations-without :
    (s : Side) (p : Int64) (F : List Element → List Element) (id : Uuid) (b : Book)
    → (without s p F id b).locations ≡ erase id b.locations
locations-without Side.buy p F id b = refl
locations-without Side.sell p F id b = refl
locations-without Side.other p F id b = refl

abbrev pub ref_of : Side → Int64 → LevelRef
ref_of s p = record { side = s; price_cents = p }

-- A side that the element is not on.
pub beside :
    (locs : List (Uuid × Location)) (next : ℕ) (s t : Side) (p : Int64) (a : ℕ) (id : Uuid)
    (h : LevelHeap) (idx : List Int64)
    → s ≢ t
    → lookup id locs ≡ some (location s p a)
    → IsSide locs next t h idx
    → IsSide (erase id locs) next t h idx
beside locs next s t p a id h idx ne here w = record {
  order = w.order;
  heap = w.heap;
  indexed = w.indexed;
  queues = λ q es x.
      let (queue, there) = w.queues q es x in
      (
        IsQueue-erase locs next t q id (location s p a) here
            (λ c e. ne (sym (location-injective e).0)) queue,
        there,
      );
  listed = w.listed;
}

-- Where the other orders are, in a book whose locations have lost the entry of `id`.
pub look :
    (b b' : Book) (id : Uuid)
    → IsValid b
    → b'.locations ≡ erase id b.locations
    → ((j : Uuid) (loc : Location) (t : Side)
        → id ≢ j
        → FoundIn (levels b t) j loc
        → FoundIn (levels b' t) j loc)
    → (j : Uuid) (loc : Location) → lookup j b'.locations ≡ some loc
    → IsFound b' j loc
look b b' id v gone keep j loc e = elim (Bool-cases (id == j)) [
  | inl same ↦
      (let z : some loc ≡ none =
          sym e ∙ ap (lookup j) gone ∙ lookup-erase id j b.locations ∙ rw same in
        cc z)
  | inr other ↦
      let old =
        v.located j loc
          (sym (lookup-erase id j b.locations ∙ rw other) ∙ ap (lookup j) (sym gone) ∙ e) in
      record {
        traded = old.traded;
        same_side = old.same_side;
        there = keep j loc loc.side (λ z. ground (arith, other, z)) old.there;
      }
]

pub ne_nil : (y : Element) (r : List Element) → y ∷ r ≢ []
ne_nil y r e = cc
