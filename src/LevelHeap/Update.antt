-- ===== src/LevelHeap/Update.antt =====
-- internal/domain/matching/book.go: reads and writes through a `*level`.
use order_book_vibranium.Base.{
  ℕ, zero, suc, ◌<◌, ◌≡◌, refl, sym, ap, ◌∙◌, inl, inr, some, List, [], ◌∷◌, arith, length,
  if◌then◌else◌, Bool-cases,
}
use order_book_vibranium.Base.Int64
use order_book_vibranium.Base.Int64.{Int64, pos_part, neg_part, eq_iff}
use order_book_vibranium.Level.{Level, Element}
use order_book_vibranium.LevelHeap.{at, key, parent, update_level, find_level}
use order_book_vibranium.LevelHeap.Ordered.{IsHeap}
use order_book_vibranium.LevelHeap.Content.{Holds, IsIndexed}

abbrev pub changed : Int64 → (List Element → List Element) → Int64 → List Element → List Element
changed p f q es = if Int64.eq q p then f es else es

module _ (p : Int64) (f : List Element → List Element) where
  pub length-update_level : (h : List Level) → length (update_level p f h) ≡ length h
  unfolding update_level
  length-update_level [] = refl
  length-update_level (l ∷ h) = ap suc (length-update_level h)

  at-update_level :
      (h : List Level) (i : ℕ)
      → i < length h
      → at (update_level p f h) i
        ≡ record (at h i) { orders = changed p f (key h i) (at h i).orders }
  unfolding update_level
  at-update_level [] i lt = absurd (omega arith)
  at-update_level (l ∷ h) zero lt = ground arith
  at-update_level (l ∷ h) (suc i) lt = at-update_level h i (omega arith)

  pub update_level-IsHeap :
      (up down : Int64 → ℕ) (h : List Level)
      → IsHeap up down (length h) h
      → IsHeap up down (length (update_level p f h)) (update_level p f h)
  update_level-IsHeap up down h v = λ c pc lt.
      ground (arith, length-update_level h, v c, at-update_level h c, at-update_level h (parent c))

  pub update_level-IsIndexed : (h : List Level) → IsIndexed h → IsIndexed (update_level p f h)
  update_level-IsIndexed h v = record {
    index = λ i lt. ground (arith, length-update_level h, at-update_level h i, v.index i);
    unique = λ i j li lj e.
        ground
          (arith, length-update_level h, at-update_level h i, at-update_level h j, v.unique i j);
  }

  pub Holds-update_level :
      (h : List Level) (q : Int64) (es : List Element)
      → Holds h q es
      → Holds (update_level p f h) q (changed p f q es)
  Holds-update_level h q es (i, lt, k, o) = (
    i,
    omega (arith, length-update_level h),
    ap (λ (l : Level). l.price_cents) (at-update_level h i lt) ∙ k,
    ap (λ (l : Level). l.orders) (at-update_level h i lt) ∙ rw (k, o),
  )

  pub update_level-Holds :
      (h : List Level) (q : Int64) (fs : List Element)
      → Holds (update_level p f h) q fs
      → (es : List Element) × Holds h q es × (fs ≡ changed p f q es)
  update_level-Holds h q fs (i, lt, k, o) =
      let inside : i < length h = omega (arith, length-update_level h) in
      let same = at-update_level h i inside in
      let k' : key h i ≡ q = sym (ap (λ (l : Level). l.price_cents) same) ∙ k in
      ((at h i).orders, (i, inside, k', refl), sym o ∙ ap (λ (l : Level). l.orders) same ∙ rw k')

-- Two writes through one reference are one.
pub update_level-update_level :
    (p : Int64) (f g : List Element → List Element) (h : List Level)
    → update_level p f (update_level p g h) ≡ update_level p (λ es. f (g es)) h
unfolding update_level
update_level-update_level p f g [] = refl
update_level-update_level p f g (l ∷ h) = ground (arith, update_level-update_level p f g h)

-- In an indexed heap a price has one queue.
pub Holds-unique :
    {h : List Level} {p : Int64} {es fs : List Element}
    → IsIndexed h
    → Holds h p es
    → Holds h p fs
    → es ≡ fs
Holds-unique {h} v (i, li, k, o) (j, lj, k', o') =
    let same : i ≡ j = v.unique i j li lj (k ∙ sym k') in
    sym o ∙ ap (λ n. (at h n).orders) same ∙ o'

find_level-at :
    (p : Int64) (h : List Level) (i : ℕ)
    → i < length h
    → key h i ≡ p
    → (j : ℕ) × (j < length h) × (key h j ≡ p) × (find_level p h ≡ some (at h j))
unfolding find_level
find_level-at p [] i lt k = absurd (omega arith)
find_level-at p (l ∷ h) zero lt k = (0, omega arith, k, rw ((eq_iff l.price_cents p).1 k))
find_level-at p (l ∷ h) (suc i) lt k = elim (Bool-cases (Int64.eq l.price_cents p)) [
  | inl e ↦ (0, omega arith, (eq_iff l.price_cents p).0 e, rw e)
  | inr e ↦
      let (j, lj, k', found) = find_level-at p h i (omega arith) k in
      (suc j, omega arith, k', rw e found)
]

-- What a read through a reference finds.
pub record Finds (h : List Level) (p : Int64) (es : List Element) (l : Level) : Type 0 where
  pub found : find_level p h ≡ some l
  pub price : l.price_cents ≡ p
  pub queue : l.orders ≡ es
  pub in_range : l.index < length h
  pub place : key h l.index ≡ p

pub find_level-Finds :
    (h : List Level) (p : Int64) (es : List Element)
    → IsIndexed h
    → Holds h p es
    → (l : Level) × Finds h p es l
find_level-Finds h p es v (i, lt, k, o) =
    let (j, lj, k', found) = find_level-at p h i lt k in
    let place = v.index j lj in
    (
      at h j,
      record {
        found = found;
        price = k';
        queue = Holds-unique v (j, lj, k', refl) (i, lt, k, o);
        in_range = rw place lj;
        place = rw place k';
      },
    )
