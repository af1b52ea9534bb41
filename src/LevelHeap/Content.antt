-- ===== src/LevelHeap/Content.antt =====
-- internal/domain/matching/book.go: the heap operations move levels and lose none; each level is
-- told where it is.
use order_book_vibranium.Base.{
  ℕ, zero, suc, ◌+◌, ◌*◌, ◌≤◌, ◌<◌, ◌≡◌, refl, false, List, arith, not, ◌||◌, leb, ◌==◌,
  if◌then◌else◌, length, Bool-cases, inl, inr,
}
use order_book_vibranium.Base.Int64.{Int64}
use order_book_vibranium.Level.{Level, Element}
use order_book_vibranium.LevelHeap.{
  Less, at, key, swap, parent, less_at, up_loop, up, smaller_child, down_loop, down,
}
use order_book_vibranium.LevelHeap.Ordered.{length-swap, at-swap}

-- A level with this price and these orders is in the heap.
abbrev pub Holds : List Level → Int64 → List Element → Type 0
Holds h p es = (i : ℕ) × (i < length h) × (key h i ≡ p) × ((at h i).orders ≡ es)

-- Every level knows where it is, and no two have one price.
pub record IsIndexed (h : List Level) : Type 0 where
  pub index : (i : ℕ) → i < length h → (at h i).index ≡ i
  pub unique : (i j : ℕ) → i < length h → j < length h → key h i ≡ key h j → i ≡ j

-- `h'` has the levels of `h`, in another order; from `n` on nothing has moved.
pub record IsShuffle (n : ℕ) (h h' : List Level) : Type 0 where
  pub same_length : length h' ≡ length h
  pub indexed : IsIndexed h'
  pub kept : (p : Int64) (es : List Element) → Holds h p es → Holds h' p es
  pub only : (p : Int64) (es : List Element) → Holds h' p es → Holds h p es
  pub outside : (i : ℕ) → n ≤ i → at h' i ≡ at h i

pub IsShuffle-refl : (n : ℕ) (h : List Level) → IsIndexed h → IsShuffle n h h
IsShuffle-refl n h v = record {
  same_length = refl;
  indexed = v;
  kept = λ p es x. x;
  only = λ p es x. x;
  outside = λ i le. refl;
}

swap-IsIndexed :
    (h : List Level) (i j : ℕ) → i < length h → j < length h → IsIndexed h → IsIndexed (swap h i j)
swap-IsIndexed h i j hi hj v = record {
  index = λ c lt. ground (arith, at-swap h i j c, length-swap h i j, v.index c);
  unique = λ c d hc hd e. ground (
    arith,
    length-swap h i j,
    at-swap h i j c,
    at-swap h i j d,
    v.unique c d,
    v.unique i d,
    v.unique j d,
    v.unique c i,
    v.unique c j,
    v.unique i j,
  );
}

-- Where a level goes in a swap.
abbrev moved : ℕ → ℕ → ℕ → ℕ
moved i j c = if i == c then j else if j == c then i else c

Holds-swap :
    (h : List Level) (i j : ℕ) (p : Int64) (es : List Element)
    → i < length h
    → j < length h
    → Holds h p es
    → Holds (swap h i j) p es
Holds-swap h i j p es hi hj (c, hc, k, o) = (
  moved i j c,
  ground (arith, length-swap h i j),
  ground (arith, at-swap h i j (moved i j c)),
  ground (arith, at-swap h i j (moved i j c)),
)

swap-Holds :
    (h : List Level) (i j : ℕ) (p : Int64) (es : List Element)
    → i < length h
    → j < length h
    → Holds (swap h i j) p es
    → Holds h p es
swap-Holds h i j p es hi hj (c, hc, k, o) = (
  moved i j c,
  ground (arith, length-swap h i j),
  ground (arith, at-swap h i j c),
  ground (arith, at-swap h i j c),
)

pub IsShuffle-swap :
    (n : ℕ) (h : List Level) {h' : List Level} (i j : ℕ)
    → i < n
    → j < n
    → n ≤ length h
    → IsShuffle n h h'
    → IsShuffle n h (swap h' i j)
IsShuffle-swap n h {h'} i j hi hj len v =
    let hi' : i < length h' = omega (arith, v.same_length) in
    let hj' : j < length h' = omega (arith, v.same_length) in
    record {
      same_length = ground (arith, length-swap h' i j, v.same_length);
      indexed = swap-IsIndexed h' i j hi' hj' v.indexed;
      kept = λ p es x. Holds-swap h' i j p es hi' hj' (v.kept p es x);
      only = λ p es x. v.only p es (swap-Holds h' i j p es hi' hj' x);
      outside = λ c le. ground (arith, at-swap h' i j c, v.outside c);
    }

smaller_child-in_range :
    (less : Less) (h : List Level) (n i : ℕ)
    → leb n (2 * i + 1) ≡ false
    → smaller_child less h n i < n
unfolding smaller_child
smaller_child-in_range less h n i r = ground arith

up_loop-IsShuffle :
    (less : Less) (k n : ℕ) (h h' : List Level) (j : ℕ)
    → j < n
    → n ≤ length h
    → IsShuffle n h h'
    → IsShuffle n h (up_loop less k h' j)
unfolding up_loop
up_loop-IsShuffle less zero n h h' j jn len v = v
up_loop-IsShuffle less (suc k) n h h' j jn len v =
    elim (Bool-cases (parent j == j || not (less_at less h' j (parent j)))) [
      | inl stop ↦ rw stop v
      | inr more ↦ rw more (
          up_loop-IsShuffle less k n h (swap h' (parent j) j) (parent j) (omega arith) len
            (IsShuffle-swap n h (parent j) j (omega arith) jn len v))
    ]

-- `up` within the first `n` levels only moves levels.
pub up-IsShuffle :
    (less : Less) (n : ℕ) (h h' : List Level) (j : ℕ)
    → j < n
    → n ≤ length h
    → IsShuffle n h h'
    → IsShuffle n h (up less h' j)
unfolding up
up-IsShuffle less n h h' j jn len v = up_loop-IsShuffle less (suc j) n h h' j jn len v

down_loop-IsShuffle :
    (less : Less) (k n : ℕ) (h h' : List Level) (i : ℕ)
    → i < n
    → n ≤ length h
    → IsShuffle n h h'
    → IsShuffle n h (down_loop less k h' i n).0
unfolding down_loop
down_loop-IsShuffle less zero n h h' i jn len v = v
down_loop-IsShuffle less (suc k) n h h' i jn len v =
    let j = smaller_child less h' n i in
    elim (Bool-cases (leb n (2 * i + 1) || not (less_at less h' j i))) [
      | inl stop ↦ rw stop v
      | inr more ↦
          let j_in = smaller_child-in_range less h' n i (ground arith) in
          rw more (
            down_loop-IsShuffle less k n h (swap h' i j) j j_in len
              (IsShuffle-swap n h i j jn j_in len v))
    ]

-- `down` within the first `n` levels only moves levels.
pub down-IsShuffle :
    (less : Less) (n : ℕ) (h h' : List Level) (i : ℕ)
    → i < n
    → n ≤ length h
    → IsShuffle n h h'
    → IsShuffle n h (down less h' i n).0
unfolding down
down-IsShuffle less n h h' i jn len v = down_loop-IsShuffle less n n h h' i jn len v
