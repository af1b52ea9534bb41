-- ===== src/Ranking/Heads.antt =====
-- internal/domain/matching/book.go: the order that BestOpposite and FrontOrder lead to is the first
-- of the sorted list.
use order_book_vibranium.Base.{
  ◌≡◌, ◌≢◌, refl, sym, ap, ◌∙◌, inl, inr, List, [], ◌∷◌, arith, All, All-map, Bool-cases,
  List-cases, length,
}
use order_book_vibranium.Base.Int64
use order_book_vibranium.Base.Int64.{Int64, eq_iff, IsNat, pos_part, neg_part}
use order_book_vibranium.Order.{Order, Side}
use order_book_vibranium.Level.{Element, Level}
use order_book_vibranium.LevelHeap.{key}
use order_book_vibranium.LevelHeap.Ordered.{NotAfter, root_first}
use order_book_vibranium.LevelHeap.Content.{Holds}
use order_book_vibranium.Book.{Book}
use order_book_vibranium.Book.Invariant.{
  hi, lo, IsValid, IsTraded, levels, queue_of, IsIndexed-levels, IsHeap-levels,
}
use order_book_vibranium.Ranking.{price_of}
use order_book_vibranium.Ranking.Sorted.{at_price}
use order_book_vibranium.Ranking.Shown.{orders, Shows, shown_queue, Represents}

no_first : (y : Order) (ys : List Order) → y ∷ ys ≢ []
no_first y ys e = cc

first_of : {x y : Order} {xs ys : List Order} → x ∷ xs ≡ y ∷ ys → x ≡ y
first_of e = cc

at_first :
    (o : Order) (rest : List Order) (p : Int64)
    → price_of o ≡ p
    → at_price p (o ∷ rest) ≡ o ∷ at_price p rest
at_first o rest p e = rw ((eq_iff (price_of o) p).1 e)

-- A price that shows an order has a level.
shown_level :
    (h : List Level) (p : Int64) (xs : List Order) (y : Order) (ys : List Order)
    → Shows h p xs
    → xs ≡ y ∷ ys
    → (es : List Element) × Holds h p es
shown_level h p xs y ys (inl (es, x, e)) k = (es, x)
shown_level h p xs y ys (inr (nowhere, e)) k = absurd (no_first y ys (sym k ∙ e))

-- Where there is an order of a price, that price is no better than one that none is better than.
bounded_price :
    (s : Side) (p q : Int64) (y : Order) (ys os : List Order)
    → All (λ x. NotAfter (hi s) (lo s) p (price_of x)) os
    → at_price q os ≡ y ∷ ys
    → NotAfter (hi s) (lo s) p q
bounded_price s p q y ys [] h e = absurd (no_first y ys (sym e))
bounded_price s p q y ys (x ∷ os) h e = elim (Bool-cases (Int64.eq (price_of x) q)) [
  | inl k ↦ let same = (eq_iff (price_of x) q).0 k in rw same at h.0
  | inr k ↦ bounded_price s p q y ys os h.1 (rw k at e)
]

one_price :
    (s : Side) (p q : Int64)
    → IsNat p
    → IsNat q
    → NotAfter (hi s) (lo s) p q
    → NotAfter (hi s) (lo s) q p
    → p ≡ q
one_price Side.buy p q hp hq h k = (eq_iff p q).0 (ground arith)
one_price Side.sell p q hp hq h k = (eq_iff p q).0 (ground arith)
one_price Side.other p q hp hq h k = (eq_iff p q).0 (ground arith)

module _ (b : Book) (v : IsValid b) (s : Side) (t : IsTraded s) (os : List Order)
    (r : Represents s (levels b s) os) where
  -- A side without levels has no orders.
  pub Represents-empty : levels b s ≡ [] → os ≡ []
  Represents-empty empty = elim (List-cases os) [
    | inl e ↦ e
    | inr (o, rest, e) ↦
        let (es, (i, lt, k, q)) =
          shown_level (levels b s) (price_of o) (at_price (price_of o) os) o
            (at_price (price_of o) rest) (r.shows (price_of o))
            (rw e (at_first o rest (price_of o) refl)) in
        absurd (omega (arith, ap length empty, lt))
  ]

  -- The first level, the front of its queue, and the front of the list.
  pub record Fronts (l : Level) : Type 0 where
    pub element : Element
    pub behind : List Element
    pub rest : List Order
    pub queue : l.orders ≡ element ∷ behind
    pub list : os ≡ element.order ∷ rest
    pub price : price_of element.order ≡ l.price_cents
    pub held : Holds (levels b s) l.price_cents (element ∷ behind)
    pub shown : at_price l.price_cents os ≡ orders (element ∷ behind)

  module _ (l : Level) (h : List Level) (first : levels b s ≡ l ∷ h) where
    root : Holds (levels b s) l.price_cents l.orders
    root = rw first (0, omega arith, refl, refl)

    root_shown : at_price l.price_cents os ≡ orders l.orders
    root_shown =
        shown_queue (levels b s) l.price_cents (at_price l.price_cents os) l.orders
          (IsIndexed-levels b v s t) root (r.shows l.price_cents)

    root_before :
        (q : Int64) (es : List Element)
        → Holds (levels b s) q es
        → NotAfter (hi s) (lo s) l.price_cents q
    root_before q es (i, lt, k, o) =
        let root_key : key (levels b s) 0 ≡ l.price_cents = rw first refl in
        rw (sym root_key, sym k)
          (root_first (hi s) (lo s) (length (levels b s)) (levels b s) i (IsHeap-levels b v s t) lt)

    module _ (d : Element) (es : List Element) (queue : l.orders ≡ d ∷ es) where
      shown_first : at_price l.price_cents os ≡ d.order ∷ orders es
      shown_first = root_shown ∙ ap orders queue

      module _ (o : Order) (rest : List Order) (list : os ≡ o ∷ rest) where
        held_price : (fs : List Element) × Holds (levels b s) (price_of o) fs
        held_price =
            shown_level (levels b s) (price_of o) (at_price (price_of o) os) o
              (at_price (price_of o) rest) (r.shows (price_of o))
              (rw list (at_first o rest (price_of o) refl))

        first_before : NotAfter (hi s) (lo s) (price_of o) l.price_cents
        first_before =
            bounded_price s (price_of o) l.price_cents d.order (orders es) (o ∷ rest)
              (omega arith, All-map rest (λ x m. m.0) (rw list at r.sorted).0)
              (sym (ap (at_price l.price_cents) list) ∙ shown_first)

        same_price : price_of o ≡ l.price_cents
        same_price =
            let (fs, held) = held_price in
            one_price s (price_of o) l.price_cents (queue_of b v s (price_of o) fs t held).price.0
              (queue_of b v s l.price_cents l.orders t root).price.0 first_before
              (root_before (price_of o) fs held)

        same_order : o ≡ d.order
        same_order = first_of (
            sym (at_first o rest l.price_cents same_price)
            ∙ sym (ap (at_price l.price_cents) list)
            ∙ shown_first)

        first-Fronts : Fronts l
        first-Fronts = record {
          element = d;
          behind = es;
          rest = rest;
          queue = queue;
          list = rw (sym same_order) list;
          price = rw (sym same_order) same_price;
          held = rw queue at root;
          shown = shown_first;
        }

      fronts : Fronts l
      fronts = elim (List-cases os) [
        | inl e ↦ absurd (no_first d.order (orders es) (sym (rw e at shown_first)))
        | inr (o, rest, e) ↦ first-Fronts o rest e
      ]

    pub root-Fronts : Fronts l
    root-Fronts = elim (List-cases l.orders) [
      | inl e ↦ absurd ((queue_of b v s l.price_cents l.orders t root).filled e)
      | inr (d, es, e) ↦ fronts d es e
    ]
