-- ===== src/LevelHeap/Ordered.antt =====
-- internal/domain/matching/book.go: the heap order of the levels, for any order of prices.
--
-- An order of prices is given by two numbers of each price: `p` stands before `q` if
-- hi p + lo q < hi q + lo p. With the parts of an int64 for `hi` and `lo` this is the order of
-- int64, and with the parts exchanged the reverse order, so one proof serves asks and bids.
use order_book_vibranium.Base.{
  ℕ, zero, suc, ◌+◌, ◌≤◌, ◌<◌, ◌≡◌, ◌≢◌, ◌∙◌, List, arith, ltb, ◌==◌, if◌then◌else◌, length, set,
  length-set, get_or-set,
}
use order_book_vibranium.Base.Int64.{Int64}
use order_book_vibranium.Level.{Level, no_level}
use order_book_vibranium.LevelHeap.{Less, at, key, swap, parent}

pub length-swap : (h : List Level) (i j : ℕ) → length (swap h i j) ≡ length h
unfolding swap
length-swap h i j =
    length-set (set h i (record (at h j) { index = i })) j (record (at h i) { index = j })
    ∙ length-set h i (record (at h j) { index = i })

pub at-swap :
    (h : List Level) (i j c : ℕ)
    → i < length h
    → j < length h
    → at (swap h i j) c ≡ (
        if j == c
        then record (at h i) { index = j }
        else if i == c
        then record (at h j) { index = i }
        else at h c)
unfolding swap
at-swap h i j c hi hj = ground (
  arith,
  length-set h i (record (at h j) { index = i }),
  get_or-set (set h i (record (at h j) { index = i })) j c (record (at h i) { index = j }) no_level,
  get_or-set h i c (record (at h j) { index = i }) no_level,
)

pub key-swap :
    (h : List Level) (i j c : ℕ)
    → i < length h
    → j < length h
    → key (swap h i j) c ≡ (if j == c then key h i else if i == c then key h j else key h c)
key-swap h i j c hi hj = ground (arith, at-swap h i j c)

-- `less` is the order that `hi` and `lo` give.
abbrev pub RanksBy : Less → (Int64 → ℕ) → (Int64 → ℕ) → Type 0
RanksBy less hi lo = (p q : Int64) → less p q ≡ ltb (hi p + lo q) (hi q + lo p)

module _ (hi lo : Int64 → ℕ) where
  -- `q` does not stand before `p`.
  abbrev pub NotAfter : Int64 → Int64 → Type 0
  NotAfter p q = hi p + lo q ≤ hi q + lo p

  -- Among the first `n` levels no child stands before its parent.
  abbrev pub IsHeap : ℕ → List Level → Type 0
  IsHeap n h = (c : ℕ) → 0 < c → c < n → NotAfter (key h (parent c)) (key h c)

  -- The children of `i` do not stand before the parent of `i`.
  abbrev pub IsBridged : ℕ → List Level → ℕ → Type 0
  IsBridged n h i =
      (c : ℕ) → 0 < c → c < n → parent c ≡ i → 0 < i → NotAfter (key h (parent i)) (key h c)

  -- A heap but for the edge above `i`.
  pub record IsHeapBelow (n : ℕ) (h : List Level) (i : ℕ) : Type 0 where
    pub edges : (c : ℕ) → 0 < c → c < n → c ≢ i → NotAfter (key h (parent c)) (key h c)
    pub bridged : IsBridged n h i

  -- A heap but for the edges under `i`.
  pub record IsHeapAbove (n : ℕ) (h : List Level) (i : ℕ) : Type 0 where
    pub edges : (c : ℕ) → 0 < c → c < n → parent c ≢ i → NotAfter (key h (parent c)) (key h c)
    pub bridged : IsBridged n h i

  -- A heap but for the edges at `i`.
  pub record IsHeapAround (n : ℕ) (h : List Level) (i : ℕ) : Type 0 where
    pub edges :
        (c : ℕ) → 0 < c → c < n → c ≢ i → parent c ≢ i → NotAfter (key h (parent c)) (key h c)
    pub bridged : IsBridged n h i

  root_below :
      (k n : ℕ) (h : List Level) (i : ℕ) → IsHeap n h → i < k → i < n → NotAfter (key h 0) (key h i)
  root_below zero n h i v f p = absurd (omega arith)
  root_below (suc k) n h i v f p = ground (arith, v i, root_below k n h (parent i) v)

  -- No level of a heap stands before the root.
  pub root_first :
      (n : ℕ) (h : List Level) (i : ℕ) → IsHeap n h → i < n → NotAfter (key h 0) (key h i)
  root_first n h i v p = root_below (suc i) n h i v (omega arith) p
