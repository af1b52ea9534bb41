-- ===== src/Level.antt =====
-- internal/domain/matching/book.go: a price level, the queue of the orders that rest at one price.
--
-- `orders` is the `list.List` of the level, front first. An element of it is a pointer, which
-- `addr` stands for: PushBack makes an element at a new address. The order that an element points
-- to is kept in the element, since no other part of the book points to it.
use order_book_vibranium.Base.{ℕ, Option, none, some, List, [], ◌∷◌, ◌==◌, if◌then◌else◌}
use order_book_vibranium.Base.Int64.{Int64, pos}
use order_book_vibranium.Order.{Order}

pub record Element : Type 0 where
  pub addr : ℕ
  pub order : Order

pub record Level : Type 0 where
  pub price_cents : Int64
  pub orders : List Element
  pub index : ℕ

-- What a read out of range is in the model; Go panics.
abbrev pub no_level : Level
no_level = record { price_cents = pos 0; orders = []; index = 0 }

-- FrontOrder; its receiver is never nil where it is called.
unfoldable pub front_order : List Element → Option Order
front_order [] = none
front_order (e ∷ es) = some e.order

-- `orders.Remove(elem)`: nothing happens if the element is not in this list.
unfoldable pub remove_element : ℕ → List Element → List Element
remove_element a [] = []
remove_element a (e ∷ es) = if e.addr == a then remove_element a es else e ∷ remove_element a es

-- A write through the pointer to the order at the front of the level.
unfoldable pub set_front : Order → List Element → List Element
set_front o [] = []
set_front o (e ∷ es) = record e { order = o } ∷ es
