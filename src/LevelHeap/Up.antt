-- ===== src/LevelHeap/Up.antt =====
-- internal/domain/matching/book.go: `up` of container/heap restores the heap order.
use order_book_vibranium.Base.{
  ℕ, zero, suc, ◌≤◌, ◌<◌, List, arith, not, ◌||◌, ◌==◌, length, Bool-cases, inl, inr,
}
use order_book_vibranium.Base.Int64.{Int64}
use order_book_vibranium.Level.{Level}
use order_book_vibranium.LevelHeap.{Less, key, swap, parent, less_at, up_loop, up}
use order_book_vibranium.LevelHeap.Ordered.{
  RanksBy, NotAfter, IsHeap, IsHeapBelow, length-swap, key-swap,
}

module _ (less : Less) (hi lo : Int64 → ℕ) (ranks : RanksBy less hi lo) where
  -- One round of `up`: the parent is swapped down.
  up_step :
      (n : ℕ) (h : List Level) (j : ℕ)
      → n ≤ length h
      → j < n
      → 0 < j
      → IsHeapBelow hi lo n h j
      → NotAfter hi lo (key h j) (key h (parent j))
      → IsHeapBelow hi lo n (swap h (parent j) j) (parent j)
  up_step n h j len jn pj v below = record {
    edges = λ c p q r. ground (
      arith,
      v.edges c p q,
      v.bridged c p q,
      key-swap h (parent j) j c,
      key-swap h (parent j) j (parent c),
    );
    bridged = λ c p q r s. ground (
      arith,
      v.edges c p q,
      v.edges (parent j),
      key-swap h (parent j) j c,
      key-swap h (parent j) j (parent (parent j)),
    );
  }

  up_loop-IsHeap :
      (k n : ℕ) (h : List Level) (j : ℕ)
      → j < k
      → n ≤ length h
      → j < n
      → IsHeapBelow hi lo n h j
      → IsHeap hi lo n (up_loop less k h j)
  unfolding up_loop less_at
  up_loop-IsHeap zero n h j f len jn v = absurd (omega arith)
  up_loop-IsHeap (suc k) n h j f len jn v =
      elim (Bool-cases (parent j == j || not (less_at less h j (parent j)))) [
        | inl stop ↦
            rw stop (λ c p q. ground (arith, v.edges c p q, ranks (key h j) (key h (parent j))))
        | inr more ↦ rw more (
            up_loop-IsHeap k n (swap h (parent j) j) (parent j) (ground arith) (rw length-swap len)
              (omega arith)
              (up_step n h j len jn (ground arith) v
                (ground (arith, ranks (key h j) (key h (parent j))))))
      ]

  -- From a heap but for the edge above `j`, `up` makes a heap.
  pub up-IsHeap :
      (n : ℕ) (h : List Level) (j : ℕ)
      → n ≤ length h
      → j < n
      → IsHeapBelow hi lo n h j
      → IsHeap hi lo n (up less h j)
  unfolding up
  up-IsHeap n h j len jn v = up_loop-IsHeap (suc j) n h j (omega arith) len jn v
