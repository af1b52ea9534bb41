-- ===== src/Ranking/Trading.antt =====
-- internal/domain/matching/engine.go: what a trade does to the sides as sorted lists.
use order_book_vibranium.Base.{
  ◌≡◌, ◌≢◌, refl, sym, ap, ◌∙◌, inl, inr, List, ◌∷◌, Bool-cases, All-map, if◌then◌else◌, ==_iff,
}
use order_book_vibranium.Base.Int64
use order_book_vibranium.Base.Int64.{Int64, pos, eq_iff}
use order_book_vibranium.Order.{Order, Side, remaining}
use order_book_vibranium.Level.{Element, Level, set_front, remove_element}
use order_book_vibranium.LevelHeap.{update_level}
use order_book_vibranium.Book.{
  Book, heap_and_index, set_heap_and_index, write_level, prune_at, remove_front,
}
use order_book_vibranium.Book.Invariant.{front, IsValid, IsTraded, levels}
use order_book_vibranium.Book.Leaving.{eq-false}
use order_book_vibranium.Book.Removal.{ref_of, without}
use order_book_vibranium.Engine.{level_side, opposite_side, settle_maker}
use order_book_vibranium.Engine.Settling.{level_side-IsTraded, removed-eq, remove-set_front}
use order_book_vibranium.Ranking.{price_of, other_side, withdraw}
use order_book_vibranium.Ranking.Sorted.{IsSorted, at_price, withdraw-none}
use order_book_vibranium.Ranking.Shown.{orders, Represents}
use order_book_vibranium.Ranking.Views.{update_level-Changes, Represents-Changes}
use order_book_vibranium.Ranking.Leaving.{prune_at-Represents, levels-prune_at_other}
use order_book_vibranium.Ranking.Heads.{Fronts}

levels-write_level :
    (s : Side) (p : Int64) (G : List Element → List Element) (b : Book)
    → levels (write_level (ref_of s p) G b) s ≡ update_level p G (levels b s)
unfolding write_level heap_and_index set_heap_and_index
levels-write_level Side.buy p G b = refl
levels-write_level Side.sell p G b = refl
levels-write_level Side.other p G b = refl

levels-write_level_other :
    (s : Side) (p : Int64) (G : List Element → List Element) (b : Book)
    → IsTraded s
    → levels (write_level (ref_of s p) G b) (other_side s) ≡ levels b (other_side s)
unfolding write_level set_heap_and_index
levels-write_level_other Side.buy p G b t = refl
levels-write_level_other Side.sell p G b t = refl
levels-write_level_other Side.other p G b t = elim t [ ]

-- The first order of a sorted list leaves.
withdraw_first :
    (s : Side) (o : Order) (rest : List Order)
    → IsSorted s (o ∷ rest)
    → withdraw o.id (o ∷ rest) ≡ rest
unfolding withdraw
withdraw_first s o rest v =
    rw ((==_iff o.id o.id).1 refl)
      (withdraw-none o.id rest (All-map rest (λ x m k. m.1 (sym k)) v.0))

-- The first order of a sorted list changes, but neither its price nor its id.
replace_first :
    (s : Side) (o o' : Order) (rest : List Order)
    → o'.id ≡ o.id
    → price_of o' ≡ price_of o
    → IsSorted s (o ∷ rest)
    → IsSorted s (o' ∷ rest)
replace_first s o o' rest same_id same_price v =
    (All-map rest (λ x m. (rw same_price m.0, λ k. m.1 (sym same_id ∙ k))) v.0, v.1)

tail_of : {x y : Order} {xs ys : List Order} → x ∷ xs ≡ y ∷ ys → xs ≡ ys
tail_of e = cc

at_first :
    (o : Order) (rest : List Order) (p : Int64)
    → price_of o ≡ p
    → at_price p (o ∷ rest) ≡ o ∷ at_price p rest
at_first o rest p e = rw ((eq_iff (price_of o) p).1 e)

at_other :
    (o : Order) (rest : List Order) (q : Int64)
    → price_of o ≢ q
    → at_price q (o ∷ rest) ≡ at_price q rest
at_other o rest q ne = rw (eq-false (price_of o) q ne)

module _ (b : Book) (v : IsValid b) (s : Side) (t : IsTraded s) (os : List Order) (l : Level)
    (r : Represents (level_side s) (levels b (level_side s)) os) where
  abbrev side : Side
  side = level_side s

  abbrev traded : IsTraded side
  traded = level_side-IsTraded s t

  module _ (f : Fronts b v side traded os r l) (o : Order) (same_id : o.id ≡ f.element.order.id)
      (same_price : price_of o ≡ price_of f.element.order) where
    abbrev price : Int64
    price = l.price_cents

    abbrev F : List Element → List Element
    F fs = remove_element f.element.addr (set_front o fs)

    gone_eq :
        remove_front o
          (opposite_side s)
          (ref_of side price)
          (write_level (ref_of side price) (set_front o) b)
        ≡ prune_at side (ref_of side price) (without side price F f.element.order.id b)
    gone_eq = removed-eq b v s t price f.element f.behind f.held o same_id

    -- The maker is filled, and leaves.
    gone-Represents :
        Represents side
          (levels
            (remove_front o
              (opposite_side s)
              (ref_of side price)
              (write_level (ref_of side price) (set_front o) b))
            side)
          f.rest
    gone-Represents =
        let sorted : IsSorted side (f.element.order ∷ f.rest) = rw f.list at r.sorted in
        let left : withdraw f.element.order.id os ≡ f.rest =
          ap (withdraw f.element.order.id) f.list
          ∙ withdraw_first side f.element.order f.rest sorted in
        rw (gone_eq, sym left)
          (prune_at-Represents b v side traded price (f.element ∷ f.behind) f.held f.element front F
            os (remove-set_front o f.element f.behind) r)

    behind_shown : at_price price f.rest ≡ orders f.behind
    behind_shown = tail_of (
        sym (at_first f.element.order f.rest price f.price)
        ∙ sym (ap (at_price price) f.list)
        ∙ f.shown)

    -- The maker stays in front with a part.
    part-Represents :
        Represents side (levels (write_level (ref_of side price) (set_front o) b) side) (o ∷ f.rest)
    unfolding set_front
    part-Represents =
        let sorted : IsSorted side (f.element.order ∷ f.rest) = rw f.list at r.sorted in
        let changes =
          update_level-Changes (levels b side) price (set_front o) (f.element ∷ f.behind) f.held in
        rw levels-write_level (
          Represents-Changes side (levels b side) (update_level price (set_front o) (levels b side))
            price (o ∷ orders f.behind) os (o ∷ f.rest) r changes
            (replace_first side f.element.order o f.rest same_id same_price sorted)
            (at_first o f.rest price (same_price ∙ f.price) ∙ ap (λ xs. o ∷ xs) behind_shown)
            (λ q ne.
              at_other o f.rest q (λ z. ne (sym z ∙ same_price ∙ f.price))
              ∙ sym (at_other f.element.order f.rest q (λ z. ne (sym z ∙ f.price)))
              ∙ sym (ap (at_price q) f.list)))

    -- A trade with the first order of the list: it leaves, or it stays in front.
    pub settle_maker-Represents :
        Represents side
          (levels (settle_maker s price o b) side)
          (if Int64.eq (remaining o) (pos 0) then f.rest else o ∷ f.rest)
    unfolding settle_maker
    settle_maker-Represents = elim (Bool-cases (Int64.eq (remaining o) (pos 0))) [
      | inl e ↦ rw e gone-Represents
      | inr e ↦ rw e part-Represents
    ]

    -- The order's own side stays as it is.
    pub levels-settle_maker_other :
        levels (settle_maker s price o b) (other_side side) ≡ levels b (other_side side)
    unfolding settle_maker
    levels-settle_maker_other = elim (Bool-cases (Int64.eq (remaining o) (pos 0))) [
      | inl e ↦ rw e (
          ap (λ c. levels c (other_side side)) gone_eq
          ∙ levels-prune_at_other b side price F f.element.order.id traded)
      | inr e ↦ rw e (levels-write_level_other side price (set_front o) b traded)
    ]
