-- ===== src/Book/Adding.antt =====
-- internal/domain/matching/book.go: AddResting keeps the book consistent.
use order_book_vibranium.Base.{
  ℕ, suc, ◌<◌, ◌≡◌, ◌≢◌, refl, sym, ◌⊎◌, inl, inr, true, false, none, List, [], ◌∷◌, ◌++◌, arith,
  length, if◌then◌else◌, Bool-cases,
}
use order_book_vibranium.Base.Int64
use order_book_vibranium.Base.Int64.{Int64, pos_part, neg_part, eq_iff}
use order_book_vibranium.Base.Assoc.{lookup, insert}
use order_book_vibranium.Order.{Order, Side, Uuid}
use order_book_vibranium.Level.{Element, Level}
use order_book_vibranium.LevelHeap.{LevelHeap, key, at, push, update_level}
use order_book_vibranium.LevelHeap.Ordered.{IsHeap}
use order_book_vibranium.LevelHeap.Content.{Holds, IsIndexed}
use order_book_vibranium.LevelHeap.Mutate.{push-Pushed}
use order_book_vibranium.LevelHeap.Update.{
  changed, update_level-IsHeap, update_level-IsIndexed, Holds-update_level, update_level-Holds,
}
use order_book_vibranium.Book.{Location, less_of, contains}
use order_book_vibranium.Book.Invariant.{
  In, IsPrice, Rests, IsPlaced, IsQueue, IsSide, FoundIn, location, hi, lo, less_of-RanksBy,
}
use order_book_vibranium.Book.Queues.{
  IsQueue-insert, IsQueue-append, In-append_left, In-append_last,
}

abbrev pub empty_level : Int64 → Level
empty_level p = record { price_cents = p; orders = []; index = 0 }

-- The side once the level at `price` is there: either it was, or it is new and empty.
pub record Opened (s : Side) (price : Int64) (h : List Level) (idx : List Int64) (h1 : List Level)
    (idx1 : List Int64) : Type 0 where
  pub heap : IsHeap (hi s) (lo s) (length h1) h1
  pub indexed : IsIndexed h1
  pub has : (es : List Element) × Holds h1 price es
  pub kept : (q : Int64) (es : List Element) → Holds h q es → Holds h1 q es
  pub only :
      (q : Int64) (es : List Element) → Holds h1 q es → Holds h q es ⊎ (q ≡ price) × (es ≡ [])
  pub known : contains price idx1 ≡ true
  pub more : (q : Int64) → contains q idx ≡ true → contains q idx1 ≡ true
  pub no_more : (q : Int64) → contains q idx1 ≡ true → (q ≡ price) ⊎ (contains q idx ≡ true)

module _ (locs : List (Uuid × Location)) (next : ℕ) (s : Side) (h : LevelHeap) (idx : List Int64)
    (v : IsSide locs next s h idx) (price : Int64) where
  abbrev pub opened_levels : List Level
  opened_levels = if contains price idx then h.levels else push h.less h.levels (empty_level price)

  abbrev pub opened_index : List Int64
  opened_index = if contains price idx then idx else price ∷ idx

  fresh_level : contains price idx ≡ false → (i : ℕ) → i < length h.levels → key h.levels i ≢ price
  fresh_level e i lt same =
      let (_, there) = v.queues (key h.levels i) (at h.levels i).orders (i, lt, refl, refl) in
      cc (there, same, e)

  pub opened : Opened s price h.levels idx opened_levels opened_index
  unfolding contains
  opened = elim (Bool-cases (contains price idx)) [
    | inl e ↦ rw e (record {
      heap = v.heap;
      indexed = v.indexed;
      has = v.listed price e;
      kept = λ q es x. x;
      only = λ q es x. inl x;
      known = e;
      more = λ q x. x;
      no_more = λ q x. inr x;
    })
    | inr e ↦
        let pushed =
          push-Pushed (less_of s) (hi s) (lo s) (less_of-RanksBy s) h.levels v.heap v.indexed
            (empty_level price) (fresh_level e) in
        rw (e, v.order)
          (record {
            heap = pushed.heap;
            indexed = pushed.indexed;
            has = ([], pushed.new);
            kept = pushed.kept;
            only = pushed.only;
            known = ground arith;
            more = λ q x. ground arith;
            no_more = λ q x. elim (Bool-cases (Int64.eq price q)) [
              | inl same ↦ inl (sym ((eq_iff price q).0 same))
              | inr other ↦ inr (ground arith)
            ];
          })
  ]

  module _ (o : Order) (fresh : lookup o.id locs ≡ none) (is_price : IsPrice price)
      (rests : Rests s price o) where
    abbrev pub joining : Element
    joining = record { addr = next; order = o }

    abbrev pub joined_levels : List Level
    joined_levels = update_level price (λ es. es ++ joining ∷ []) opened_levels

    abbrev pub new_locations : List (Uuid × Location)
    new_locations = insert o.id (location s price next) locs

    -- What stood at the price, whether the level is old or new.
    IsPlaced-before :
        (es : List Element)
        → Holds opened_levels price es
        → (e : Element) → In e es
        → IsPlaced locs next s price e
    IsPlaced-before es x e y = elim (opened.only price es x) [
      | inl old ↦ (v.queues price es old).0.placed e y
      | inr (same, none_yet) ↦ elim (let z : In e [] = rw none_yet at y in z) [ ]
    ]

    apart_before :
        (es : List Element)
        → Holds opened_levels price es
        → (d e : Element) → In d es
        → In e es
        → d.addr ≡ e.addr
        → d.order.id ≡ e.order.id
    apart_before es x d e y z = elim (opened.only price es x) [
      | inl old ↦ (v.queues price es old).0.apart d e y z
      | inr (same, none_yet) ↦ elim (let w : In d [] = rw none_yet at y in w) [ ]
    ]

    joined_queue :
        (q : Int64) (es : List Element)
        → Holds opened_levels q es
        → IsQueue new_locations (suc next) s q (changed price (λ fs. fs ++ joining ∷ []) q es)
    joined_queue q es x = elim (Bool-cases (Int64.eq q price)) [
      | inl same ↦
          let e = (eq_iff q price).0 same in
          rw (same, e)
            (IsQueue-append locs next s price o es fresh is_price rests
              (IsPlaced-before es (rw e at x)) (apart_before es (rw e at x)))
      | inr other ↦ rw other (elim (opened.only q es x) [
        | inl old ↦
            IsQueue-insert locs next s q o.id (location s price next) fresh (v.queues q es old).0
        | inr (same, _) ↦ absurd (ground (arith, eq_iff q price))
      ])
    ]

    known_key :
        (q : Int64) (es : List Element) → Holds opened_levels q es → contains q opened_index ≡ true
    known_key q es x = elim (opened.only q es x) [
      | inl old ↦ opened.more q (v.queues q es old).1
      | inr (same, _) ↦ rw same opened.known
    ]

    held_key :
        (q : Int64)
        → contains q opened_index ≡ true
        → (es : List Element) × Holds opened_levels q es
    held_key q x = elim (opened.no_more q x) [
      | inl same ↦ rw same opened.has
      | inr old ↦ let (es, there) = v.listed q old in (es, opened.kept q es there)
    ]

    -- The side that the order joins stays consistent.
    pub joined-IsSide :
        IsSide new_locations (suc next) s (record h { levels = joined_levels }) opened_index
    joined-IsSide = record {
      order = v.order;
      heap = update_level-IsHeap price _ (hi s) (lo s) opened_levels opened.heap;
      indexed = update_level-IsIndexed price _ opened_levels opened.indexed;
      queues = λ q fs x.
          let (es, there, same) = update_level-Holds price _ opened_levels q fs x in
          rw same (joined_queue q es there, known_key q es there);
      listed = λ q x.
          let (es, there) = held_key q x in
          (_, Holds-update_level price (λ fs. fs ++ joining ∷ []) opened_levels q es there);
    }

    pub joined_found :
        (id : Uuid) (loc : Location) → FoundIn h.levels id loc → FoundIn joined_levels id loc
    joined_found id loc f = record {
      queue = changed price (λ fs. fs ++ joining ∷ []) loc.lvl.price_cents f.queue;
      held =
          Holds-update_level price _ opened_levels loc.lvl.price_cents f.queue
            (opened.kept loc.lvl.price_cents f.queue f.held);
      element = f.element;
      inside = elim (Bool-cases (Int64.eq loc.lvl.price_cents price)) [
        | inl e ↦ rw e (In-append_left joining f.inside)
        | inr e ↦ rw e f.inside
      ];
      at_addr = f.at_addr;
      has_id = f.has_id;
    }

    pub new_found : FoundIn joined_levels o.id (location s price next)
    new_found =
        let (es, there) = opened.has in
        record {
          queue = es ++ joining ∷ [];
          held =
              rw ((eq_iff price price).1 refl) at
                (Holds-update_level price (λ fs. fs ++ joining ∷ []) opened_levels price es there);
          element = joining;
          inside = In-append_last joining es;
          at_addr = refl;
          has_id = refl;
        }
