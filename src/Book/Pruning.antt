-- ===== src/Book/Pruning.antt =====
-- internal/domain/matching/book.go: an element leaves a side, and its level if that is then empty.
use order_book_vibranium.Base.{◌≡◌, refl, List}
use order_book_vibranium.Base.Int64.{Int64}
use order_book_vibranium.Order.{Side}
use order_book_vibranium.Level.{Element, remove_element}
use order_book_vibranium.LevelHeap.Content.{Holds}
use order_book_vibranium.Book.{Book, prune_at}
use order_book_vibranium.Book.Invariant.{In, IsValid, IsTraded, levels}
use order_book_vibranium.Book.Removal.{without, ref_of}
use order_book_vibranium.Book.LeavingBids.{bid_pruned}
use order_book_vibranium.Book.LeavingAsks.{ask_pruned}

-- An element that leaves a side, with its level if that is then empty, leaves a consistent book.
pub prune_at-IsValid :
    (b : Book) (s : Side)
    → IsTraded s
    → IsValid b
    → (p : Int64) (es : List Element) → Holds (levels b s) p es
    → (x : Element) → In x es
    → (F : List Element → List Element) → F es ≡ remove_element x.addr es
    → IsValid (prune_at s (ref_of s p) (without s p F x.order.id b))
prune_at-IsValid b Side.buy t v p es held x inside F same =
    bid_pruned b v p es held x inside x.addr refl F same
prune_at-IsValid b Side.sell t v p es held x inside F same =
    ask_pruned b v p es held x inside x.addr refl F same
prune_at-IsValid b Side.other t v p es held x inside F same = elim t [ ]
