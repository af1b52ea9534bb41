-- ===== src/Engine/Settling.antt =====
-- internal/domain/matching/engine.go: what a trade does to the book.
use order_book_vibranium.Base.{
  ◌≡◌, refl, ap, ◌∙◌, ◌⊎◌, inl, inr, none, some, List, ◌∷◌, arith, Bool-cases,
}
use order_book_vibranium.Base.Int64
use order_book_vibranium.Base.Int64.{Int64, pos, eq_iff}
use order_book_vibranium.Base.Assoc.{lookup, lookup-erase}
use order_book_vibranium.Order.{Order, Side, Uuid, remaining}
use order_book_vibranium.Level.{Element, set_front, remove_element}
use order_book_vibranium.LevelHeap.Content.{Holds}
use order_book_vibranium.LevelHeap.Update.{update_level-update_level}
use order_book_vibranium.Book.{
  Book, heap_and_index, set_heap_and_index, write_level, prune_at, remove_front,
}
use order_book_vibranium.Book.Invariant.{
  front, Rests, IsValid, IsTraded, levels, location, queue_of,
}
use order_book_vibranium.Book.Removal.{ref_of, without, locations-without}
use order_book_vibranium.Book.Pruning.{prune_at-IsValid}
use order_book_vibranium.Book.Cancelling.{remove_front-eq-prune_at, locations-prune_at}
use order_book_vibranium.Book.Filling.{write_level-IsValid}
use order_book_vibranium.Engine.{level_side, opposite_side, settle_maker}

pub level_side-IsTraded : (s : Side) → IsTraded s → IsTraded (level_side s)
unfolding level_side
level_side-IsTraded Side.buy t = tt
level_side-IsTraded Side.sell t = tt
level_side-IsTraded Side.other t = tt

pub opposite_side-eq-level_side : (s : Side) → IsTraded s → opposite_side s ≡ level_side s
unfolding level_side opposite_side
opposite_side-eq-level_side Side.buy t = refl
opposite_side-eq-level_side Side.sell t = refl
opposite_side-eq-level_side Side.other t = elim t [ ]

locations-write_level :
    (s : Side) (p : Int64) (G : List Element → List Element) (b : Book)
    → (write_level (ref_of s p) G b).locations ≡ b.locations
unfolding write_level set_heap_and_index
locations-write_level Side.buy p G b = refl
locations-write_level Side.sell p G b = refl
locations-write_level Side.other p G b = refl

-- A write and then the removal are one change of the queue.
without-write_level :
    (s : Side) (p : Int64) (F G : List Element → List Element) (id : Uuid) (b : Book)
    → without s p F id (write_level (ref_of s p) G b) ≡ without s p (λ es. F (G es)) id b
unfolding write_level heap_and_index set_heap_and_index
without-write_level Side.buy p F G id b = rw update_level-update_level
without-write_level Side.sell p F G id b = rw update_level-update_level
without-write_level Side.other p F G id b = rw update_level-update_level

pub remove-set_front :
    (o : Order) (d : Element) (es : List Element)
    → remove_element d.addr (set_front o (d ∷ es)) ≡ remove_element d.addr (d ∷ es)
unfolding remove_element set_front
remove-set_front o d es = ground arith

module _ (b : Book) (v : IsValid b) (s : Side) (t : IsTraded s) (p : Int64) (d : Element)
    (es : List Element) (held : Holds (levels b (level_side s)) p (d ∷ es)) (o : Order)
    (same_id : o.id ≡ d.order.id) where
  abbrev level : Side
  level = level_side s

  abbrev level_traded : IsTraded level
  level_traded = level_side-IsTraded s t

  abbrev written : Book
  written = write_level (ref_of level p) (set_front o) b

  maker_located : lookup o.id b.locations ≡ some (location level p d.addr)
  maker_located =
      ap (λ i. lookup i b.locations) same_id
      ∙ ((queue_of b v level p (d ∷ es) level_traded held).placed d front).located

  abbrev F : List Element → List Element
  F fs = remove_element d.addr (set_front o fs)

  pub removed-eq :
      remove_front o (opposite_side s) (ref_of level p) written
      ≡ prune_at level (ref_of level p) (without level p F d.order.id b)
  removed-eq = rw (opposite_side-eq-level_side s t) (
      remove_front-eq-prune_at written level p d.addr o level_traded
        (rw locations-write_level maker_located)
      ∙ rw (without-write_level, same_id))

  -- The maker is filled completely, and leaves.
  removed-IsValid : IsValid (remove_front o (opposite_side s) (ref_of level p) written)
  removed-IsValid =
      rw removed-eq (
        prune_at-IsValid b level level_traded v p (d ∷ es) held d front F (remove-set_front o d es))

  -- The book stays consistent, whether the maker leaves or stays with a part.
  pub settle_maker-IsValid :
      (remaining o ≡ pos 0) ⊎ Rests level p o → IsValid (settle_maker s p o b)
  unfolding settle_maker
  settle_maker-IsValid (inl gone) = rw (gone, settle_maker) removed-IsValid
  settle_maker-IsValid (inr rests) = elim (Bool-cases (Int64.eq (remaining o) (pos 0))) [
    | inl e ↦ rw e removed-IsValid
    | inr e ↦ rw e (write_level-IsValid b level level_traded v p d es o held same_id rests)
  ]

  -- No order enters the book by a trade.
  pub settle_maker_unknown :
      (j : Uuid) → lookup j b.locations ≡ none → lookup j (settle_maker s p o b).locations ≡ none
  unfolding settle_maker
  settle_maker_unknown j fresh = elim (Bool-cases (Int64.eq (remaining o) (pos 0))) [
    | inl e ↦ rw e (
        rw removed-eq (
          rw (locations-prune_at, locations-without)
            (ground (arith, lookup-erase d.order.id j b.locations, fresh))))
    | inr e ↦ rw e (rw locations-write_level fresh)
  ]

  -- A trade takes the maker's id out of the locations, or changes none.
  pub settle_maker_located :
      (j : Uuid)
      → (lookup j (settle_maker s p o b).locations ≡ none)
        ⊎ (lookup j (settle_maker s p o b).locations ≡ lookup j b.locations)
  unfolding settle_maker
  settle_maker_located j = elim (Bool-cases (Int64.eq (remaining o) (pos 0))) [
    | inl e ↦ rw e (
        rw removed-eq (
          rw (locations-prune_at, locations-without)
            (ground (arith, lookup-erase d.order.id j b.locations))))
    | inr e ↦ rw e (inr (ap (lookup j) (locations-write_level level p (set_front o) b)))
  ]
