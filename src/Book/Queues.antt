-- ===== src/Book/Queues.antt =====
-- internal/domain/matching/book.go: the queues of a level, when elements come and go.
use order_book_vibranium.Base.{
  ℕ, suc, ◌≤◌, ◌≡◌, ◌≢◌, refl, sym, ap, ◌∙◌, ◌⊎◌, inl, inr, false, none, some, List, [], ◌∷◌, ◌++◌,
  arith, ◌==◌, Bool-cases, some_eq_some, ==_iff,
}
use order_book_vibranium.Base.Int64.{Int64}
use order_book_vibranium.Base.Assoc.{lookup, insert, erase, lookup-insert, lookup-erase}
use order_book_vibranium.Order.{Order, Side, Uuid}
use order_book_vibranium.Level.{Element, remove_element, set_front}
use order_book_vibranium.Book.{Location}
use order_book_vibranium.Book.Invariant.{
  In, front, behind, IsPrice, Rests, IsPlaced, IsQueue, location,
}

pub In-append : {e d : Element} (es : List Element) → In e (es ++ d ∷ []) → In e es ⊎ (e ≡ d)
In-append [] front = inr refl
In-append [] (behind x) = elim x [ ]
In-append (c ∷ es) front = inl front
In-append (c ∷ es) (behind x) = elim (In-append es x) [ inl y ↦ inl (behind y) | inr y ↦ inr y ]

pub In-append_left : {e : Element} (d : Element) {es : List Element} → In e es → In e (es ++ d ∷ [])
In-append_left d front = front
In-append_left d (behind x) = behind (In-append_left d x)

pub In-append_last : (d : Element) (es : List Element) → In d (es ++ d ∷ [])
In-append_last d [] = front
In-append_last d (c ∷ es) = behind (In-append_last d es)

append-ne-nil : (es : List Element) (d : Element) → es ++ d ∷ [] ≢ []
append-ne-nil [] d h = cc
append-ne-nil (e ∷ es) d h = cc

pub In-cons : {e d : Element} {es : List Element} → In e (d ∷ es) → (e ≡ d) ⊎ In e es
In-cons front = inl refl
In-cons (behind x) = inr x

pub In-remove_element :
    (a : ℕ) {e : Element} (es : List Element) → In e (remove_element a es) → In e es × (e.addr ≢ a)
unfolding remove_element
In-remove_element a [] x = elim x [ ]
In-remove_element a {e} (d ∷ es) x = elim (Bool-cases (d.addr == a)) [
  | inl gone ↦ let (y, ne) = In-remove_element a es (rw gone at x) in (behind y, ne)
  | inr stays ↦ elim (In-cons (rw stays at x)) [
    | inl same ↦ (rw same front, λ h. ground (arith, same, h))
    | inr y ↦ let (z, ne) = In-remove_element a es y in (behind z, ne)
  ]
]

pub remove_element-In :
    (a : ℕ) {e : Element} (es : List Element) → In e es → e.addr ≢ a → In e (remove_element a es)
unfolding remove_element
remove_element-In a [] x ne = elim x [ ]
remove_element-In a {e} (d ∷ es) front ne =
    let stays : (e.addr == a) ≡ false = ground arith in rw stays front
remove_element-In a {e} (d ∷ es) (behind x) ne = elim (Bool-cases (d.addr == a)) [
  | inl gone ↦ rw gone (remove_element-In a es x ne)
  | inr stays ↦ rw stays (behind (remove_element-In a es x ne))
]

pub location-injective :
    {s t : Side} {p q : Int64} {a b : ℕ}
    → location s p a ≡ location t q b
    → (s ≡ t) × (p ≡ q) × (a ≡ b)
location-injective e = ground arith

-- An element stays placed where the locations keep its entry.
pub IsPlaced-keep :
    {locs locs' : List (Uuid × Location)} {next next' : ℕ} {s : Side} {p : Int64} {e : Element}
    → lookup e.order.id locs' ≡ lookup e.order.id locs
    → next ≤ next'
    → IsPlaced locs next s p e
    → IsPlaced locs' next' s p e
IsPlaced-keep same le v = record {
  rests = v.rests;
  located = same ∙ v.located;
  allocated = omega (arith, v.allocated);
}

module _ (locs : List (Uuid × Location)) (next : ℕ) (s : Side) (p : Int64) where
  -- A queue after an order that the book does not know is added somewhere.
  module _ (id : Uuid) (loc : Location) (fresh : lookup id locs ≡ none) where
    IsPlaced-insert :
        {e : Element} → IsPlaced locs next s p e → IsPlaced (insert id loc locs) (suc next) s p e
    IsPlaced-insert {e} v =
        IsPlaced-keep {locs = locs} {next' = suc next}
          (ground (arith, lookup-insert id e.order.id loc locs, v.located)) (omega arith) v

    pub IsQueue-insert :
        {es : List Element}
        → IsQueue locs next s p es
        → IsQueue (insert id loc locs) (suc next) s p es
    IsQueue-insert v = record {
      price = v.price;
      filled = v.filled;
      placed = λ e x. IsPlaced-insert (v.placed e x);
      apart = v.apart;
    }

  -- The queue that the order joins.
  pub IsQueue-append :
      (o : Order) (es : List Element)
      → lookup o.id locs ≡ none
      → IsPrice p
      → Rests s p o
      → ((e : Element) → In e es → IsPlaced locs next s p e)
      → ((d e : Element) → In d es → In e es → d.addr ≡ e.addr → d.order.id ≡ e.order.id)
      → IsQueue
          (insert o.id (location s p next) locs)
          (suc next)
          s
          p
          (es ++ record { addr = next; order = o } ∷ [])
  IsQueue-append o es fresh price rests placed apart = record {
    price = price;
    filled = append-ne-nil es (record { addr = next; order = o });
    placed = λ e x. elim (In-append es x) [
      | inl old ↦ IsPlaced-insert o.id (location s p next) fresh (placed e old)
      | inr new ↦ rw new (record {
        rests = rests;
        located = ground (arith, lookup-insert o.id o.id (location s p next) locs);
        allocated = omega arith;
      })
    ];
    apart = λ d e x y same. elim (In-append es x) [
      | inl old ↦ elim (In-append es y) [
        | inl old' ↦ apart d e old old' same
        | inr new ↦
            absurd (ground (arith, (placed d old).allocated, ap (λ (c : Element). c.addr) new))
      ]
      | inr new ↦ elim (In-append es y) [
        | inl old ↦
            absurd (ground (arith, (placed e old).allocated, ap (λ (c : Element). c.addr) new))
        | inr new' ↦ ap (λ (c : Element). c.order.id) (new ∙ sym new')
      ]
    ];
  }

  -- An element stays placed when the entry of another element goes.
  IsPlaced-erase :
      (id : Uuid) (loc : Location) {e : Element}
      → lookup id locs ≡ some loc
      → location s p e.addr ≢ loc
      → IsPlaced locs next s p e
      → IsPlaced (erase id locs) next s p e
  IsPlaced-erase id loc {e} gone ne v =
      IsPlaced-keep {locs = locs} {next' = next} kept (omega arith) v
    where
      kept : lookup e.order.id (erase id locs) ≡ lookup e.order.id locs
      kept = elim (Bool-cases (id == e.order.id)) [
        | inl same ↦ absurd (
            ne (
              some_eq_some (
                sym v.located
                ∙ ap (λ k. lookup k locs) (sym ((==_iff id e.order.id).0 same))
                ∙ gone)))
        | inr other ↦ lookup-erase id e.order.id locs ∙ rw other
      ]

  -- The queue that an element has left, if some are left.
  pub IsQueue-remove :
      (id : Uuid) (a : ℕ) (es : List Element)
      → lookup id locs ≡ some (location s p a)
      → remove_element a es ≢ []
      → IsPrice p
      → ((e : Element) → In e es → e.addr ≢ a → IsPlaced locs next s p e)
      → ((d e : Element) → In d es → In e es → d.addr ≡ e.addr → d.order.id ≡ e.order.id)
      → IsQueue (erase id locs) next s p (remove_element a es)
  IsQueue-remove id a es gone some_left price placed apart = record {
    price = price;
    filled = some_left;
    placed = λ e x.
        let (y, ne) = In-remove_element a es x in
        IsPlaced-erase id (location s p a) gone (λ h. ne (location-injective h).2) (placed e y ne);
    apart = λ d e x y. apart d e (In-remove_element a es x).0 (In-remove_element a es y).0;
  }

  -- A queue that the element was not in.
  pub IsQueue-erase :
      (id : Uuid) (loc : Location) {es : List Element}
      → lookup id locs ≡ some loc
      → ((a : ℕ) → location s p a ≢ loc)
      → IsQueue locs next s p es
      → IsQueue (erase id locs) next s p es
  IsQueue-erase id loc gone ne v = record {
    price = v.price;
    filled = v.filled;
    placed = λ e x. IsPlaced-erase id loc gone (ne e.addr) (v.placed e x);
    apart = v.apart;
  }

  -- What an element was before the order at the front was written.
  before_set_front :
      (d : Element) (o : Order) (es : List Element) {e : Element}
      → o.id ≡ d.order.id
      → In e (record d { order = o } ∷ es)
      → (c : Element) × In c (d ∷ es) × (c.addr ≡ e.addr) × (c.order.id ≡ e.order.id)
  before_set_front d o es {e} same x = elim (In-cons x) [
    | inl new ↦ (
      d,
      front,
      ap (λ (c : Element). c.addr) (sym new),
      sym same ∙ ap (λ (c : Element). c.order.id) (sym new),
    )
    | inr old ↦ (e, behind old, refl, refl)
  ]

  -- A queue whose front has been filled in part.
  pub IsQueue-set_front :
      (d : Element) (o : Order) (es : List Element)
      → o.id ≡ d.order.id
      → Rests s p o
      → IsQueue locs next s p (d ∷ es)
      → IsQueue locs next s p (set_front o (d ∷ es))
  unfolding set_front
  IsQueue-set_front d o es same rests v = record {
    price = v.price;
    filled = λ h. cc;
    placed = λ e x. elim (In-cons x) [
      | inl new ↦ rw new (record {
        rests = rests;
        located = rw same (v.placed d front).located;
        allocated = (v.placed d front).allocated;
      })
      | inr old ↦ v.placed e (behind old)
    ];
    apart = λ c e x y.
        let (c', in_c, addr_c, id_c) = before_set_front d o es same x in
        let (e', in_e, addr_e, id_e) = before_set_front d o es same y in
        λ h. sym id_c ∙ v.apart c' e' in_c in_e (addr_c ∙ h ∙ sym addr_e) ∙ id_e;
  }
