-- ===== src/LevelHeap.antt =====
-- internal/domain/matching/book.go: the heap of price levels, and the functions of Go's
-- `container/heap` that the book calls on it.
--
-- The array holds the levels themselves. A `*level` elsewhere is the price of the level, since a
-- side of the book has one level at a price. An index out of range panics in Go; here a read gives
-- `no_level` and a write does nothing, and the invariant of the book keeps indices in range.
-- The loops take fuel: `up` from `j` needs at most `j` rounds, and `down` to `n` at most `n`.
pub mod Ordered
pub mod Up
pub mod Down
pub mod Content
pub mod Mutate
pub mod Update
use order_book_vibranium.Base.{
  ℕ, zero, suc, ◌+◌, ◌-◌, ◌*◌, ◌/◌, Bool, true, false, not, ◌&&◌, ◌||◌, Option, none, some, List,
  [], ◌∷◌, ◌++◌, ltb, leb, ◌==◌, if◌then◌else◌, length, get_or, set, take,
}
use order_book_vibranium.Base.Int64
use order_book_vibranium.Base.Int64.{Int64}
use order_book_vibranium.Level.{Level, no_level, Element}

abbrev pub Less : Type 0
Less = Int64 → Int64 → Bool

-- `h.levels[i]`
abbrev pub at : List Level → ℕ → Level
at h i = get_or h i no_level

abbrev pub key : List Level → ℕ → Int64
key h i = (at h i).price_cents

-- Swap: each of the two levels is told its new index.
unfoldable pub swap : List Level → ℕ → ℕ → List Level
swap h i j = set (set h i (record (at h j) { index = i })) j (record (at h i) { index = j })

abbrev pub parent : ℕ → ℕ
parent c = (c - 1) / 2

-- Less of the heap at two indices.
unfoldable pub less_at : Less → List Level → ℕ → ℕ → Bool
less_at less h i j = less (key h i) (key h j)

unfoldable pub up_loop : Less → ℕ → List Level → ℕ → List Level
up_loop less zero h j = h
up_loop less (suc k) h j =
    let i = parent j in
    let rest = up_loop less k (swap h i j) i in
    if i == j || not (less_at less h j i) then h else rest

unfoldable pub up : Less → List Level → ℕ → List Level
unfolding up_loop less_at swap
up less h j = up_loop less (suc j) h j

-- The child that `down` compares with: the right one if it exists and is less than the left one.
unfoldable pub smaller_child : Less → List Level → ℕ → ℕ → ℕ
unfolding less_at
smaller_child less h n i =
    let j1 = 2 * i + 1 in let j2 = j1 + 1 in if ltb j2 n && less_at less h j2 j1 then j2 else j1

-- The array and the index where the loop ends.
unfoldable pub down_loop : Less → ℕ → List Level → ℕ → ℕ → List Level × ℕ
down_loop less zero h i n = (h, i)
down_loop less (suc k) h i n =
    let j = smaller_child less h n i in
    let rest = down_loop less k (swap h i j) j n in
    if leb n (2 * i + 1) || not (less_at less h j i) then (h, i) else rest

-- `heap.Remove` asks whether anything moved.
unfoldable pub down : Less → List Level → ℕ → ℕ → List Level × Bool
unfolding down_loop smaller_child less_at swap
down less h i0 n = let (h', i) = down_loop less n h i0 n in (h', ltb i0 i)

-- Push of the heap, then `up`.
unfoldable pub push : Less → List Level → Level → List Level
push less h lvl = let h' = h ++ record lvl { index = length h } ∷ [] in up less h' (length h' - 1)

-- The part of Remove before Pop: the level at `i` is swapped to the end and the rest is repaired.
unfoldable pub sink_out : Less → List Level → ℕ → ℕ → List Level
sink_out less h i n =
    if n == i
    then h
    else let (h', moved) = down less (swap h i n) i n in if moved then h' else up less h' i

-- `heap.Remove`, whose result the book does not use.
unfoldable pub remove : Less → List Level → ℕ → List Level
remove less h i = let n = length h - 1 in take n (sink_out less h i n)

unfoldable pub peek : List Level → Option Level
peek [] = none
peek (l ∷ h) = some l

-- A heap with its order, as NewBook makes it.
pub record LevelHeap : Type 0 where
  pub levels : List Level
  pub less : Less

-- A write to the orders of the level at a price, through a `*level`.
unfoldable pub update_level : Int64 → (List Element → List Element) → List Level → List Level
update_level p f [] = []
update_level p f (l ∷ h) =
    (if Int64.eq l.price_cents p then record l { orders = f l.orders } else l) ∷ update_level p f h

-- A read through a `*level`; `none` if no level of the heap has the price.
unfoldable pub find_level : Int64 → List Level → Option Level
find_level p [] = none
find_level p (l ∷ h) = if Int64.eq l.price_cents p then some l else find_level p h
