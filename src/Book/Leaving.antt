-- ===== src/Book/Leaving.antt =====
-- internal/domain/matching/book.go: what the removal of an element does to its side of the book.
use order_book_vibranium.Base.{
  ℕ, ◌≡◌, ◌≢◌, refl, sym, ap, ◌∙◌, inl, inr, true, false, some, List, [], ◌∷◌, arith, length,
  if◌then◌else◌, Bool-cases,
}
use order_book_vibranium.Base.Int64
use order_book_vibranium.Base.Int64.{Int64, pos_part, neg_part, eq_iff}
use order_book_vibranium.Base.Assoc.{lookup, erase}
use order_book_vibranium.Order.{Side, Uuid}
use order_book_vibranium.Level.{Element, Level, remove_element}
use order_book_vibranium.LevelHeap.{LevelHeap, remove, update_level}
use order_book_vibranium.LevelHeap.Ordered.{IsHeap}
use order_book_vibranium.LevelHeap.Content.{Holds, IsIndexed}
use order_book_vibranium.LevelHeap.Mutate.{Removed, remove-Removed}
use order_book_vibranium.LevelHeap.Update.{
  changed, update_level-IsHeap, update_level-IsIndexed, Holds-update_level, update_level-Holds,
  Holds-unique, Finds, find_level-Finds,
}
use order_book_vibranium.Book.{Location, less_of, contains, delete}
use order_book_vibranium.Book.Invariant.{
  In, IsQueue, IsSide, FoundIn, location, hi, lo, less_of-RanksBy,
}
use order_book_vibranium.Book.Queues.{
  IsQueue-remove, IsQueue-erase, remove_element-In, location-injective,
}

pub eq-false : (p q : Int64) → p ≢ q → Int64.eq p q ≡ false
eq-false p q ne = ground (arith, eq_iff p q, ne)

pub contains-delete :
    (p q : Int64) (idx : List Int64)
    → contains q (delete p idx) ≡ (if Int64.eq p q then false else contains q idx)
unfolding contains delete
contains-delete p q [] = ground arith
contains-delete p q (r ∷ idx) = ground (arith, contains-delete p q idx)

-- An element of the queue `es` at price `p`, which goes by address `a`; `F` is what happens to the
-- queue.
module _ (locs : List (Uuid × Location)) (next : ℕ) (s : Side) (h : LevelHeap) (idx : List Int64)
    (v : IsSide locs next s h idx) (p : Int64) (es : List Element) (held : Holds h.levels p es)
    (x : Element) (inside : In x es) (a : ℕ) (at_a : x.addr ≡ a) (F : List Element → List Element)
    (F_removes : F es ≡ remove_element a es) where
  abbrev pub left_levels : List Level
  left_levels = update_level p F h.levels

  here : lookup x.order.id locs ≡ some (location s p a)
  here = rw at_a at ((v.queues p es held).0.placed x inside).located

  left-IsIndexed : IsIndexed left_levels
  left-IsIndexed = update_level-IsIndexed p F h.levels v.indexed

  left-IsHeap : IsHeap (hi s) (lo s) (length left_levels) left_levels
  left-IsHeap = update_level-IsHeap p F (hi s) (lo s) h.levels v.heap

  -- Another queue of the side.
  other_queue :
      (q : Int64) (gs : List Element)
      → q ≢ p
      → Holds h.levels q gs
      → IsQueue (erase x.order.id locs) next s q gs
  other_queue q gs ne there =
      IsQueue-erase locs next s q x.order.id (location s p a) here
        (λ b e. ne (location-injective e).1) (v.queues q gs there).0

  own_queue :
      remove_element a es ≢ [] → IsQueue (erase x.order.id locs) next s p (remove_element a es)
  own_queue some_left =
      let queue = (v.queues p es held).0 in
      IsQueue-remove locs next s p x.order.id a es here some_left queue.price
        (λ e y ne. queue.placed e y) queue.apart

  -- Where some are left in the queue, the side stays consistent.
  pub left-IsSide :
      F es ≢ [] → IsSide (erase x.order.id locs) next s (record h { levels = left_levels }) idx
  left-IsSide some_left = record {
    order = v.order;
    heap = left-IsHeap;
    indexed = left-IsIndexed;
    queues = λ q gs y.
        let (fs, there, same) = update_level-Holds p F h.levels q gs y in
        (
          elim (Bool-cases (Int64.eq q p)) [
            | inl e ↦
                let q_is_p = (eq_iff q p).0 e in
                let fs_is_es : fs ≡ es = Holds-unique v.indexed (rw q_is_p at there) held in
                let gone : gs ≡ remove_element a es = same ∙ rw e (ap F fs_is_es ∙ F_removes) in
                rw (gone, q_is_p) (own_queue (λ z. some_left (F_removes ∙ z)))
            | inr e ↦
                let gs_is_fs : gs ≡ fs = same ∙ rw e in
                rw gs_is_fs (other_queue q fs (λ z. ground (arith, eq_iff q p, z)) there)
          ],
          (v.queues q fs there).1,
        );
    listed =
        λ q y. let (fs, there) = v.listed q y in (_, Holds-update_level p F h.levels q fs there);
  }

  -- An order of another id stays where its location points.
  pub left_found :
      (id : Uuid) (loc : Location)
      → x.order.id ≢ id
      → FoundIn h.levels id loc
      → FoundIn left_levels id loc
  left_found id loc ne f = record {
    queue = changed p F loc.lvl.price_cents f.queue;
    held = Holds-update_level p F h.levels loc.lvl.price_cents f.queue f.held;
    element = f.element;
    inside = elim (Bool-cases (Int64.eq loc.lvl.price_cents p)) [
      | inl e ↦
          let q_is_p = (eq_iff loc.lvl.price_cents p).0 e in
          let same : f.queue ≡ es = Holds-unique v.indexed (rw q_is_p at f.held) held in
          let y : In f.element es = rw same at f.inside in
          let apart = (v.queues p es held).0.apart x f.element inside y in
          rw (e, same, F_removes)
            (remove_element-In a es y (λ z. ne (apart (at_a ∙ sym z) ∙ f.has_id)))
      | inr e ↦ rw e f.inside
    ];
    at_addr = f.at_addr;
    has_id = f.has_id;
  }

  -- The level that the element was in, after it has left.
  pub left_level : (lvl : Level) × Finds left_levels p (F es) lvl
  left_level =
      find_level-Finds left_levels p (F es) left-IsIndexed
        (rw ((eq_iff p p).1 refl) at (Holds-update_level p F h.levels p es held))

  module _ (lvl : Level) (finds : Finds left_levels p (F es) lvl) (empty : F es ≡ []) where
    abbrev pub pruned_levels : List Level
    pruned_levels = remove h.less left_levels lvl.index

    removed : Removed (hi s) (lo s) left_levels lvl.index pruned_levels
    removed = rw v.order (
        remove-Removed (less_of s) (hi s) (lo s) (less_of-RanksBy s) left_levels left-IsHeap
          left-IsIndexed lvl.index finds.in_range)

    -- What is in the heap without the level was there before, under another price.
    pub pruned_before :
        (q : Int64) (gs : List Element) → Holds pruned_levels q gs → Holds h.levels q gs × (q ≢ p)
    pruned_before q gs y =
        let (there, ne) = removed.only q gs y in
        let ne' : q ≢ p = λ z. ne (z ∙ sym finds.place) in
        let (fs, old, same) = update_level-Holds p F h.levels q gs there in
        let gs_is_fs : gs ≡ fs = same ∙ rw (eq-false q p ne') in (rw gs_is_fs old, ne')

    pub pruned_after :
        (q : Int64) (gs : List Element) → q ≢ p → Holds h.levels q gs → Holds pruned_levels q gs
    pruned_after q gs ne y =
        removed.kept q gs (λ z. ne (z ∙ finds.place))
          (rw (eq-false q p ne) at (Holds-update_level p F h.levels q gs y))

    still_known :
        (q : Int64)
        → contains q (delete lvl.price_cents idx) ≡ true
        → (q ≢ p) × (contains q idx ≡ true)
    still_known q y =
        let z = sym (contains-delete lvl.price_cents q idx) ∙ y in
        (λ e. ground (arith, finds.price, e, z, eq_iff lvl.price_cents q), ground (arith, z))

    -- Where none is left in the queue, its level goes, and the side stays consistent.
    pub pruned-IsSide :
        IsSide
          (erase x.order.id locs)
          next
          s
          (record h { levels = pruned_levels })
          (delete lvl.price_cents idx)
    pruned-IsSide = record {
      order = v.order;
      heap = removed.heap;
      indexed = removed.indexed;
      queues = λ q gs y.
          let (there, ne) = pruned_before q gs y in
          (
            other_queue q gs ne there,
            contains-delete lvl.price_cents q idx
                ∙ rw (finds.price, eq-false p q (λ z. ne (sym z))) (v.queues q gs there).1,
          );
      listed = λ q y.
          let (ne, known) = still_known q y in
          let (gs, there) = v.listed q known in (gs, pruned_after q gs ne there);
    }

    -- An order of another id stays where its location points.
    pub pruned_found :
        (id : Uuid) (loc : Location)
        → x.order.id ≢ id
        → FoundIn h.levels id loc
        → FoundIn pruned_levels id loc
    pruned_found id loc ne f =
        let g = left_found id loc ne f in
        record {
          queue = g.queue;
          held =
              removed.kept loc.lvl.price_cents g.queue (λ z. elsewhere g (z ∙ finds.place)) g.held;
          element = g.element;
          inside = g.inside;
          at_addr = g.at_addr;
          has_id = g.has_id;
        }
      where
        elsewhere : (g : FoundIn left_levels id loc) → loc.lvl.price_cents ≢ p
        elsewhere g e =
            let now = rw ((eq_iff p p).1 refl) at (Holds-update_level p F h.levels p es held) in
            let same : g.queue ≡ F es = Holds-unique left-IsIndexed (rw e at g.held) now in
            elim (let y : In g.element [] = rw (same ∙ empty) at g.inside in y) [ ]
