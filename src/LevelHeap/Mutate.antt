-- ===== src/LevelHeap/Mutate.antt =====
-- internal/domain/matching/book.go: Push and Remove of container/heap on the price levels.
use order_book_vibranium.Base.{
  ℕ, suc, ◌-◌, ◌≤◌, ◌<◌, ◌≡◌, ◌≢◌, ◌⊎◌, inl, inr, false, List, [], ◌∷◌, ◌++◌, arith, if◌then◌else◌,
  ◌==◌, length, Bool-cases, ==_iff, ap, sym, ◌∙◌, take, length-append, length-take, get_or-take,
  get_or-append_left, get_or-append_last,
}
use order_book_vibranium.Base.Int64.{Int64}
use order_book_vibranium.Level.{Level, no_level, Element}
use order_book_vibranium.LevelHeap.{Less, at, key, swap, parent, up, sink_out, push, remove}
use order_book_vibranium.LevelHeap.Ordered.{
  RanksBy, IsHeap, IsHeapBelow, IsHeapAround, length-swap, key-swap,
}
use order_book_vibranium.LevelHeap.Up.{up-IsHeap}
use order_book_vibranium.LevelHeap.Down.{down_lem}
use order_book_vibranium.LevelHeap.Content.{
  Holds, IsIndexed, IsShuffle, IsShuffle-refl, IsShuffle-swap, up-IsShuffle, down-IsShuffle,
}

-- What a push leaves.
pub record Pushed (hi lo : Int64 → ℕ) (h : List Level) (l : Level) (h' : List Level) : Type 0 where
  pub heap : IsHeap hi lo (length h') h'
  pub indexed : IsIndexed h'
  pub longer : length h' ≡ suc (length h)
  pub new : Holds h' l.price_cents l.orders
  pub kept : (p : Int64) (es : List Element) → Holds h p es → Holds h' p es
  pub only :
      (p : Int64) (es : List Element)
      → Holds h' p es
      → Holds h p es ⊎ (p ≡ l.price_cents) × (es ≡ l.orders)

-- What a removal leaves.
pub record Removed (hi lo : Int64 → ℕ) (h : List Level) (i : ℕ) (h' : List Level) : Type 0 where
  pub heap : IsHeap hi lo (length h') h'
  pub indexed : IsIndexed h'
  pub shorter : suc (length h') ≡ length h
  pub kept : (p : Int64) (es : List Element) → p ≢ key h i → Holds h p es → Holds h' p es
  pub only : (p : Int64) (es : List Element) → Holds h' p es → Holds h p es × (p ≢ key h i)

module _ (less : Less) (hi lo : Int64 → ℕ) (ranks : RanksBy less hi lo) (h : List Level)
    (heap : IsHeap hi lo (length h) h) (indexed : IsIndexed h) where
  module _ (l : Level) (fresh : (i : ℕ) → i < length h → key h i ≢ l.price_cents) where
    abbrev last : Level
    last = record l { index = length h }

    abbrev grown : List Level
    grown = h ++ last ∷ []

    length-grown : length grown ≡ suc (length h)
    length-grown = omega (arith, length-append h (last ∷ []))

    at-grown : (i : ℕ) → i < length h → at grown i ≡ at h i
    at-grown i lt = get_or-append_left h (last ∷ []) i no_level lt

    at-grown-last : at grown (length h) ≡ last
    at-grown-last = get_or-append_last h last no_level

    grown-IsIndexed : IsIndexed grown
    grown-IsIndexed = record {
      index = λ i lt. ground (arith, length-grown, at-grown i, at-grown-last, indexed.index i);
      unique = λ i j li lj e. ground (
        arith,
        length-grown,
        at-grown i,
        at-grown j,
        at-grown-last,
        indexed.unique i j,
        fresh i,
        fresh j,
      );
    }

    grown-IsHeapBelow : IsHeapBelow hi lo (length grown) grown (length h)
    grown-IsHeapBelow = record {
      edges = λ c p q r. ground (arith, length-grown, heap c, at-grown c, at-grown (parent c));
      bridged = λ c p q r s. absurd (omega (arith, length-grown));
    }

    Holds-grown : (p : Int64) (es : List Element) → Holds h p es → Holds grown p es
    Holds-grown p es (i, lt, k, o) =
        (i, ground (arith, length-grown), ground (arith, at-grown i), ground (arith, at-grown i))

    grown-Holds :
        (p : Int64) (es : List Element)
        → Holds grown p es
        → Holds h p es ⊎ (p ≡ l.price_cents) × (es ≡ l.orders)
    grown-Holds p es (i, lt, k, o) = elim (Bool-cases (i == length h)) [
      | inl at_end ↦ inr (
        ground (arith, at-grown-last, (==_iff i (length h)).0 at_end),
        ground (arith, at-grown-last, (==_iff i (length h)).0 at_end),
      )
      | inr before ↦
          let old : i < length h = ground (arith, length-grown) in
          inl (i, old, ground (arith, at-grown i), ground (arith, at-grown i))
    ]

    shuffled : IsShuffle (length grown) grown (up less grown (length h))
    shuffled =
        up-IsShuffle less (length grown) grown grown (length h) (omega (arith, length-grown))
          (omega arith) (IsShuffle-refl (length grown) grown grown-IsIndexed)

    push-eq-up : push less h l ≡ up less grown (length h)
    unfolding push
    push-eq-up = let e : length grown - 1 ≡ length h = omega (arith, length-grown) in rw e

    -- Push keeps the heap and adds exactly the level.
    pub push-Pushed : Pushed hi lo h l (push less h l)
    push-Pushed = rw push-eq-up (record {
      heap = rw shuffled.same_length (
          up-IsHeap less hi lo ranks (length grown) grown (length h) (omega arith)
            (omega (arith, length-grown)) grown-IsHeapBelow);
      indexed = shuffled.indexed;
      longer = shuffled.same_length ∙ length-grown;
      new = shuffled.kept l.price_cents l.orders (
        length h,
        omega (arith, length-grown),
        ap (λ (x : Level). x.price_cents) at-grown-last,
        ap (λ (x : Level). x.orders) at-grown-last,
      );
      kept = λ p es x. shuffled.kept p es (Holds-grown p es x);
      only = λ p es x. grown-Holds p es (shuffled.only p es x);
    })

  module _ (i : ℕ) (in_range : i < length h) where
    abbrev n : ℕ
    n = length h - 1

    around : i ≢ n → IsHeapAround hi lo n (swap h i n) i
    around ne = record {
      edges = λ c p q r s. ground (arith, heap c, key-swap h i n c, key-swap h i n (parent c));
      bridged =
          λ c p q r s. ground (arith, heap c, heap i, key-swap h i n c, key-swap h i n (parent i));
    }

    -- What `down` and `up` start from.
    abbrev start : List Level
    start = if n == i then h else swap h i n

    start-IsShuffle : IsShuffle (length h) h start
    start-IsShuffle = elim (Bool-cases (n == i)) [
      | inl e ↦ rw e (IsShuffle-refl (length h) h indexed)
      | inr e ↦ rw e (
          IsShuffle-swap (length h) h i n in_range (omega arith) (omega arith)
            (IsShuffle-refl (length h) h indexed))
    ]

    key-start_last : key start n ≡ key h i
    key-start_last = ground (arith, key-swap h i n n)

    -- The array that Remove cuts the last slot off.
    abbrev sunk : List Level
    sunk = sink_out less h i n

    repaired : (n == i) ≡ false → IsHeap hi lo n sunk × IsShuffle n (swap h i n) sunk
    unfolding sink_out
    repaired e =
        let ne : i ≢ n = ground arith in
        let len : n ≤ length (swap h i n) = omega (arith, length-swap h i n) in
        let shuffled : IsIndexed (swap h i n) = rw e at start-IsShuffle.indexed in
        let down_only =
          down-IsShuffle less n (swap h i n) (swap h i n) i (ground arith) len
            (IsShuffle-refl n (swap h i n) shuffled) in
        elim (down_lem less hi lo ranks n (swap h i n) i (ground arith) len (around ne)) [
          | inl (moved, ordered) ↦ rw (e, moved) (ordered, down_only)
          | inr (still, same, below) ↦
              rw (e, still, same)
                (
                  up-IsHeap less hi lo ranks n (swap h i n) i len (ground arith) below,
                  up-IsShuffle less n (swap h i n) (swap h i n) i (ground arith) len
                      (IsShuffle-refl n (swap h i n) shuffled),
                )
        ]

    sunk-IsHeap : IsHeap hi lo n sunk
    unfolding sink_out
    sunk-IsHeap = elim (Bool-cases (n == i)) [
      | inl e ↦ rw e (λ c p q. heap c p (omega arith))
      | inr e ↦ (repaired e).0
    ]

    sunk-IsShuffle : IsShuffle n start sunk
    sunk-IsShuffle = elim (Bool-cases (n == i)) [
      | inl e ↦ rw e (unfold sink_out in rw e (IsShuffle-refl n h indexed))
      | inr e ↦ rw e (repaired e).1
    ]

    length-sunk : length sunk ≡ length h
    length-sunk = sunk-IsShuffle.same_length ∙ start-IsShuffle.same_length

    key-sunk_last : key sunk n ≡ key h i
    key-sunk_last = ground (arith, sunk-IsShuffle.outside n, key-start_last)

    length-cut : length (take n sunk) ≡ n
    length-cut = length-take n sunk (omega (arith, length-sunk))

    at-cut : (c : ℕ) → c < n → at (take n sunk) c ≡ at sunk c
    at-cut c lt = get_or-take n sunk c no_level lt

    not_last : (c : ℕ) → c < length sunk → key sunk c ≢ key h i → c < n
    not_last c lt ne = elim (Bool-cases (c == n)) [
      | inl e ↦ absurd (ne (ap (key sunk) ((==_iff c n).0 e) ∙ key-sunk_last))
      | inr e ↦ ground (arith, length-sunk)
    ]

    -- Remove keeps the heap and takes out exactly the level at the index.
    pub remove-Removed : Removed hi lo h i (remove less h i)
    unfolding remove
    remove-Removed = record {
      heap = λ c p q. ground (arith, length-cut, sunk-IsHeap c, at-cut c, at-cut (parent c));
      indexed = record {
        index = λ c lt.
            ground (arith, length-cut, length-sunk, at-cut c, sunk-IsShuffle.indexed.index c);
        unique = λ c d lc ld e.
            ground (
              arith,
              length-cut,
              length-sunk,
              at-cut c,
              at-cut d,
              sunk-IsShuffle.indexed.unique c d,
            );
      };
      shorter = omega (arith, length-cut);
      kept = λ p es ne x.
          let (c, lt, k, o) = sunk-IsShuffle.kept p es (start-IsShuffle.kept p es x) in
          let inside : c < n = not_last c lt (λ e. ne (sym k ∙ e)) in
          (c, omega (arith, length-cut), ground (arith, at-cut c), ground (arith, at-cut c));
      only = λ p es (c, lt, k, o).
          let inside : c < n = omega (arith, length-cut) in
          let below : c < length sunk = omega (arith, length-sunk) in
          let x : Holds sunk p es =
            (c, below, ground (arith, at-cut c), ground (arith, at-cut c)) in
          (
            start-IsShuffle.only p es (sunk-IsShuffle.only p es x),
            λ e. absurd (
                ground
                  (arith, sunk-IsShuffle.indexed.unique c n, key-sunk_last, at-cut c, length-sunk)),
          );
    }
