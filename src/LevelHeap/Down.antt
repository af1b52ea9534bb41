-- ===== src/LevelHeap/Down.antt =====
-- internal/domain/matching/book.go: `down` of container/heap restores the heap order, or moves
-- nothing.
use order_book_vibranium.Base.{
  ℕ, zero, suc, ◌+◌, ◌*◌, ◌≤◌, ◌<◌, ◌≡◌, ◌⊎◌, inl, inr, true, false, List, arith, not, ◌||◌, leb,
  length, Bool-cases,
}
use order_book_vibranium.Base.Int64.{Int64}
use order_book_vibranium.Level.{Level}
use order_book_vibranium.LevelHeap.{
  Less, key, swap, parent, less_at, smaller_child, down_loop, down,
}
use order_book_vibranium.LevelHeap.Ordered.{
  RanksBy, NotAfter, IsHeap, IsHeapBelow, IsHeapAbove, IsHeapAround, length-swap, key-swap,
}

module _ (less : Less) (hi lo : Int64 → ℕ) (ranks : RanksBy less hi lo) where
  -- The child that is compared is a child in range, and no child stands before it.
  smaller_child_lem :
      (h : List Level) (n i c : ℕ)
      → 2 * i + 1 < n
      → 0 < c
      → c < n
      → parent c ≡ i
      → (smaller_child less h n i < n)
        × (parent (smaller_child less h n i) ≡ i)
        × (i < smaller_child less h n i)
        × NotAfter hi lo (key h (smaller_child less h n i)) (key h c)
  unfolding smaller_child less_at
  smaller_child_lem h n i c r pc cn e =
      let two : (c ≡ 2 * i + 1) ⊎ (c ≡ 2 * i + 1 + 1) = omega arith in
      ground (arith, ranks (key h (2 * i + 1 + 1)) (key h (2 * i + 1)))

  -- One round of `down`: the smaller child is swapped up.
  down_step :
      (n : ℕ) (h : List Level) (i : ℕ)
      → n ≤ length h
      → 2 * i + 1 < n
      → IsHeapAround hi lo n h i
      → NotAfter hi lo (key h (smaller_child less h n i)) (key h i)
      → IsHeapAbove hi lo n (swap h i (smaller_child less h n i)) (smaller_child less h n i)
  down_step n h i len r v below =
      let j = smaller_child less h n i in
      let at_j = smaller_child_lem h n i (2 * i + 1) r (omega arith) r (omega arith) in
      record {
        edges = λ c p q s. ground (
          arith,
          v.edges c p q,
          v.bridged j,
          smaller_child_lem h n i c r p q,
          key-swap h i j c,
          key-swap h i j (parent c),
        );
        bridged =
            λ c p q s t. ground (arith, v.edges c p q, key-swap h i j c, key-swap h i j (parent j));
      }

  -- Where the loop stops, no child of `i` stands before it.
  stop_edges :
      (n : ℕ) (h : List Level) (i c : ℕ)
      → (leb n (2 * i + 1) || not (less_at less h (smaller_child less h n i) i)) ≡ true
      → 0 < c
      → c < n
      → parent c ≡ i
      → NotAfter hi lo (key h i) (key h c)
  unfolding less_at
  stop_edges n h i c stop p q e =
      ground (arith, smaller_child_lem h n i c, ranks (key h (smaller_child less h n i)) (key h i))

  -- Where the loop goes on, the smaller child stands before `i`.
  go_on :
      (n : ℕ) (h : List Level) (i : ℕ)
      → (leb n (2 * i + 1) || not (less_at less h (smaller_child less h n i) i)) ≡ false
      → (2 * i + 1 < n)
        × NotAfter hi lo (key h (smaller_child less h n i)) (key h i)
        × (smaller_child less h n i < n)
        × (i < smaller_child less h n i)
  unfolding less_at
  go_on n h i more = ground (
    arith,
    smaller_child_lem h n i (2 * i + 1),
    ranks (key h (smaller_child less h n i)) (key h i),
  )

  around_above :
      {n : ℕ} {h : List Level} {i : ℕ} → IsHeapAbove hi lo n h i → IsHeapAround hi lo n h i
  around_above v = record { edges = λ c p q r s. v.edges c p q s; bridged = v.bridged }

  down_loop-IsHeap :
      (k n : ℕ) (h : List Level) (i : ℕ)
      → n ≤ k + i
      → n ≤ length h
      → IsHeapAbove hi lo n h i
      → IsHeap hi lo n (down_loop less k h i n).0
  unfolding down_loop
  down_loop-IsHeap zero n h i f len v = λ c p q. v.edges c p q (omega arith)
  down_loop-IsHeap (suc k) n h i f len v =
      let j = smaller_child less h n i in
      elim (Bool-cases (leb n (2 * i + 1) || not (less_at less h j i))) [
        | inl stop ↦ rw stop (λ c p q. ground (arith, v.edges c p q, stop_edges n h i c stop p q))
        | inr more ↦
            let (room, below, jn, ij) = go_on n h i more in
            rw more (
              down_loop-IsHeap k n (swap h i j) j (omega arith) (rw length-swap len)
                (down_step n h i len room (around_above v) below))
      ]

  smaller_child-lt : (h : List Level) (n i : ℕ) → i < smaller_child less h n i
  unfolding smaller_child
  smaller_child-lt h n i = ground arith

  index_down_loop : (k n : ℕ) (h : List Level) (i : ℕ) → i ≤ (down_loop less k h i n).1
  unfolding down_loop
  index_down_loop zero n h i = omega arith
  index_down_loop (suc k) n h i =
      let j = smaller_child less h n i in
      ground (arith, smaller_child-lt h n i, index_down_loop k n (swap h i j) j)

  -- From a heap but for the edges at `i`, `down` makes a heap, or it reports that nothing moved
  -- and only the edge above `i` may be wrong.
  pub down_lem :
      (n : ℕ) (h : List Level) (i : ℕ)
      → 0 < n
      → n ≤ length h
      → IsHeapAround hi lo n h i
      → ((down less h i n).1 ≡ true) × IsHeap hi lo n (down less h i n).0
        ⊎ ((down less h i n).1 ≡ false) × ((down less h i n).0 ≡ h) × IsHeapBelow hi lo n h i
  unfolding down
  down_lem zero h i z len v = absurd (omega arith)
  down_lem (suc n) h i z len v =
      let j = smaller_child less h (suc n) i in
      elim (Bool-cases (leb (suc n) (2 * i + 1) || not (less_at less h j i))) [
        | inl stop ↦ inr (
          rw stop (ground arith),
          rw stop,
          record {
            edges = λ c p q r. ground (arith, v.edges c p q, stop_edges (suc n) h i c stop p q);
            bridged = v.bridged;
          },
        )
        | inr more ↦
            let (room, below, jn, ij) = go_on (suc n) h i more in
            let above = down_step (suc n) h i len room v below in
            inl (
              rw more (ground (arith, index_down_loop n (suc n) (swap h i j) j)),
              rw more (
                  down_loop-IsHeap n (suc n) (swap h i j) j (omega arith) (rw length-swap len)
                    above),
            )
      ]
