-- ===== src/Ranking/Withdrawn.antt =====
-- internal/domain/matching/book.go: Cancel does to the book what a withdrawal does to sorted lists.
use order_book_vibranium.Base.{
  ℕ, ◌≡◌, ◌≢◌, refl, sym, ap, ◌∙◌, inl, inr, Option, none, some, List, arith, All, Option-cases,
  some_eq_some,
}
use order_book_vibranium.Base.Int64.{Int64}
use order_book_vibranium.Base.Assoc.{lookup}
use order_book_vibranium.Order.{Order, Side, Uuid}
use order_book_vibranium.Level.{remove_element}
use order_book_vibranium.Book.{Book, cancel, remove_front, prune_at}
use order_book_vibranium.Book.Invariant.{
  IsValid, IsTraded, levels, location, queue_of, IsIndexed-levels,
}
use order_book_vibranium.Book.Queues.{location-injective}
use order_book_vibranium.Book.Removal.{ref_of, without}
use order_book_vibranium.Book.Cancelling.{Pointed, pointed, remove_front-eq-prune_at}
use order_book_vibranium.Ranking.{Ranks, other_side, find_order, withdraw, rank_cancel}
use order_book_vibranium.Ranking.Sorted.{at_price, withdraw-none}
use order_book_vibranium.Ranking.Shown.{shown_queue, Represents, Represents-All, All-orders}
use order_book_vibranium.Ranking.Joining.{All-known}
use order_book_vibranium.Ranking.Leaving.{prune_at-Represents, levels-prune_at_other}
use order_book_vibranium.Ranking.Resting.{IsRanked}
use order_book_vibranium.Ranking.Found.{
  Among-orders, Among-at_price, find_order-Among, find_order-none,
}

-- Where the withdrawn order is found.
found_bid :
    (id : Uuid) (rk : Ranks) (o : Order)
    → find_order id rk.bids ≡ some o
    → (rank_cancel id rk).0 ≡ some o
unfolding rank_cancel
found_bid id rk o e = rw (e, rank_cancel) refl

found_ask :
    (id : Uuid) (rk : Ranks)
    → find_order id rk.bids ≡ none
    → (rank_cancel id rk).0 ≡ find_order id rk.asks
unfolding rank_cancel
found_ask id rk e = rw (e, rank_cancel) refl

-- The answer of Cancel and its book are those of the sorted lists.
abbrev pub RefinesCancel : Option Order × Book → Option Order × Ranks → Type 0
RefinesCancel (o, b) (o', rk) = (o ≡ o') × IsRanked b rk

module _ (b : Book) (v : IsValid b) (rk : Ranks) (r : IsRanked b rk) (id : Uuid) where
  -- Nothing is withdrawn.
  unknown-RefinesCancel : lookup id b.locations ≡ none → RefinesCancel (none, b) (rank_cancel id rk)
  unfolding rank_cancel
  unknown-RefinesCancel fresh =
      let bids = All-known b Side.buy id rk.bids v tt fresh r.bids in
      let asks = All-known b Side.sell id rk.asks v tt fresh r.asks in
      (
        sym (found_ask id rk (find_order-none id rk.bids bids) ∙ find_order-none id rk.asks asks),
        record {
          bids = rw (withdraw-none id rk.bids bids) r.bids;
          asks = rw (withdraw-none id rk.asks asks) r.asks;
        },
      )

  module _ (s : Side) (t : IsTraded s) (p : Int64) (a : ℕ)
      (here : lookup id b.locations ≡ some (location s p a)) (f : Pointed b s p a id) where
    -- On the other side there is no order of the id.
    none_beside :
        (d : Side) (os : List Order)
        → IsTraded d
        → d ≢ s
        → Represents d (levels b d) os
        → All (λ x. x.id ≢ id) os
    none_beside d os td ne q =
        Represents-All (λ x. x.id ≢ id) d (levels b d) os q
          (λ c es held.
            All-orders (λ x. x.id ≢ id) es
              (λ e x k.
                ne
                  (location-injective (
                    some_eq_some (
                      sym ((queue_of b v d c es td held).placed e x).located
                      ∙ ap (λ i. lookup i b.locations) k
                      ∙ here))).0))

    found_here :
        (os : List Order) → Represents s (levels b s) os → find_order id os ≡ some f.element.order
    found_here os q =
        let shown =
          shown_queue (levels b s) p (at_price p os) f.queue (IsIndexed-levels b v s t) f.held
            (q.shows p) in
        ap (λ i. find_order i os) (sym f.has_id)
        ∙ find_order-Among s os q.sorted
            (Among-at_price p os (rw shown (Among-orders f.queue f.inside)))

    abbrev after : Book
    after = remove_front f.element.order s (ref_of s p) b

    after-eq : after ≡ prune_at s (ref_of s p) (without s p (remove_element a) f.element.order.id b)
    after-eq = remove_front-eq-prune_at b s p a f.element.order t (rw f.has_id here)

    after-Represents :
        (os : List Order)
        → Represents s (levels b s) os
        → Represents s (levels after s) (withdraw id os)
    after-Represents os q =
        rw (after-eq, sym f.has_id)
          (prune_at-Represents b v s t p f.queue f.held f.element f.inside (remove_element a) os
            (ap (λ c. remove_element c f.queue) (sym f.at_addr)) q)

    beside-Represents :
        (os : List Order)
        → IsTraded (other_side s)
        → other_side s ≢ s
        → Represents (other_side s) (levels b (other_side s)) os
        → Represents (other_side s) (levels after (other_side s)) (withdraw id os)
    beside-Represents os td ne q =
        rw (after-eq, levels-prune_at_other b s p (remove_element a) f.element.order.id t)
          (rw (withdraw-none id os (none_beside (other_side s) os td ne q)) q)

  bid-RefinesCancel :
      (p : Int64) (a : ℕ) (here : lookup id b.locations ≡ some (location Side.buy p a))
      (f : Pointed b Side.buy p a id)
      → RefinesCancel
          (some f.element.order, remove_front f.element.order Side.buy (ref_of Side.buy p) b)
          (rank_cancel id rk)
  unfolding rank_cancel
  bid-RefinesCancel p a here f = (
    sym (found_bid id rk f.element.order (found_here Side.buy tt p a here f rk.bids r.bids)),
    record {
      bids = after-Represents Side.buy tt p a here f rk.bids r.bids;
      asks = beside-Represents Side.buy tt p a here f rk.asks tt (λ e. cc e) r.asks;
    },
  )

  ask-RefinesCancel :
      (p : Int64) (a : ℕ) (here : lookup id b.locations ≡ some (location Side.sell p a))
      (f : Pointed b Side.sell p a id)
      → RefinesCancel
          (some f.element.order, remove_front f.element.order Side.sell (ref_of Side.sell p) b)
          (rank_cancel id rk)
  unfolding rank_cancel
  ask-RefinesCancel p a here f = (
    sym (
        found_ask id rk (
          find_order-none id rk.bids
            (none_beside Side.sell tt p a here f Side.buy rk.bids tt (λ e. cc e) r.bids))
        ∙ found_here Side.sell tt p a here f rk.asks r.asks),
    record {
      bids = beside-Represents Side.sell tt p a here f rk.bids tt (λ e. cc e) r.bids;
      asks = after-Represents Side.sell tt p a here f rk.asks r.asks;
    },
  )

  located-RefinesCancel :
      (s : Side) (t : IsTraded s) (p : Int64) (a : ℕ)
      (here : lookup id b.locations ≡ some (location s p a)) (f : Pointed b s p a id)
      → RefinesCancel (cancel id b) (rank_cancel id rk)
  unfolding cancel
  located-RefinesCancel Side.buy t p a here f =
      rw (here, cancel) (rw (f.read, cancel) (bid-RefinesCancel p a here f))
  located-RefinesCancel Side.sell t p a here f =
      rw (here, cancel) (rw (f.read, cancel) (ask-RefinesCancel p a here f))
  located-RefinesCancel Side.other t p a here f = elim t [ ]

  -- On a consistent book whose sides are the sorted lists `rk`, Cancel of any id returns the order
  -- that the lists have under it, if any, and the sides of the new book are the lists without it.
  pub cancel-Refines : RefinesCancel (cancel id b) (rank_cancel id rk)
  unfolding cancel
  cancel-Refines = elim (Option-cases (lookup id b.locations)) [
    | inl e ↦ rw (e, cancel) (unknown-RefinesCancel e)
    | inr (loc, e) ↦
        let f = v.located id loc e in
        let whole : loc ≡ location loc.side loc.lvl.price_cents loc.addr =
          ground (arith, f.same_side) in
        located-RefinesCancel loc.side f.traded loc.lvl.price_cents loc.addr (e ∙ ap some whole) (
          pointed b loc.side loc.lvl.price_cents loc.addr id v f.traded (record {
            queue = f.there.queue;
            held = f.there.held;
            element = f.there.element;
            inside = f.there.inside;
            at_addr = f.there.at_addr;
            has_id = f.there.has_id;
          }))
  ]
