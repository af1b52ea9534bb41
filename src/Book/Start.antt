-- ===== src/Book/Start.antt =====
-- internal/domain/matching/book.go: the empty book.
use order_book_vibranium.Base.{◌≡◌, refl, [], arith}
use order_book_vibranium.LevelHeap.{Less}
use order_book_vibranium.Order.{Side}
use order_book_vibranium.Book.{new_book, less_of, contains}
use order_book_vibranium.Base.Assoc.{lookup}
use order_book_vibranium.Book.Invariant.{IsSide, IsValid}

empty-IsSide :
    (s : Side) (less : Less)
    → less ≡ less_of s
    → IsSide [] 0 s (record { levels = []; less = less }) []
unfolding contains
empty-IsSide s less e = record {
  order = e;
  heap = λ c p q. absurd (omega arith);
  indexed = record {
    index = λ i p. absurd (omega arith);
    unique = λ i j p q k. absurd (omega arith);
  };
  queues = λ p es (i, lt, k, o). absurd (omega arith);
  listed = λ p e. absurd (ground arith);
}

-- The book that NewBook makes is consistent.
pub new_book-IsValid : IsValid new_book
unfolding new_book lookup
new_book-IsValid = record {
  bids = empty-IsSide Side.buy (less_of Side.buy) refl;
  asks = empty-IsSide Side.sell (less_of Side.sell) refl;
  located = λ id loc e. absurd (ground arith);
}
