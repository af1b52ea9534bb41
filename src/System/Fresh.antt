-- ===== src/System/Fresh.antt =====
-- internal/infra/postgres: a new event in the outbox, and a wallet after its reservation.
use order_book_vibranium.Base.{
  ℕ, suc, ◌%◌, ◌<◌, ◌≡◌, refl, ap, ◌∙◌, false, some, List, [], ◌∷◌, ◌++◌, ◌==◌, arith, All, All-map,
  All-append,
}
use order_book_vibranium.Base.Int64.{full_range}
use order_book_vibranium.Base.Assoc.{lookup, insert}
use order_book_vibranium.Wallet.{Wallet}
use order_book_vibranium.Wallet.Supply.{Asset, units, total}
use order_book_vibranium.Store.{OutboxEvent}
use order_book_vibranium.Store.Repositories.{find, owns}
use order_book_vibranium.Publisher.Rows.{Unique, Delivered}
use order_book_vibranium.Matcher.Supply.{Distinct, pending, pending-load, pending-insert}
use order_book_vibranium.Matcher.Supply.Flushing.{
  pending_nothing, rewritten, rewritten-Distinct, pending-rewritten,
}

abbrev pub Below : ℕ → List OutboxEvent → Type 0
Below n rows = All (λ (e : OutboxEvent). e.id < n) rows

module _ (e : OutboxEvent) where
  pub append-Unique :
      (rows : List OutboxEvent) → Below e.id rows → Unique rows → Unique (rows ++ e ∷ [])
  append-Unique [] b u = (tt, tt)
  append-Unique (r ∷ rows) b u = (
    All-append (λ (x : OutboxEvent). (x.id == r.id) ≡ false) rows (e ∷ []) u.0
        (ground (arith, b.0), tt),
    append-Unique rows b.1 u.1,
  )

  pub append-Below : (rows : List OutboxEvent) → Below e.id rows → Below (suc e.id) (rows ++ e ∷ [])
  append-Below rows b =
      All-append (λ (x : OutboxEvent). x.id < suc e.id) rows (e ∷ [])
        (All-map rows (λ x h. omega arith) b) (omega arith, tt)

  pub append-Delivered :
      (rows sent : List OutboxEvent)
      → e.published ≡ false
      → Delivered rows sent
      → Delivered (rows ++ e ∷ []) sent
  append-Delivered [] sent new d = ((λ published. ground (arith, new, published)), tt)
  append-Delivered (r ∷ rows) sent new d = (d.0, append-Delivered rows sent new d.1)

module _ (a : Asset) (w w' : Wallet) (ws : List Wallet) (d : Distinct ws) where
  replaced_twice : (id : ℕ) → insert id w' (insert id w []) ≡ (id, w') ∷ []
  unfolding insert
  replaced_twice id = ground arith

  inserted : (id : ℕ) → lookup id (insert id w []) ≡ some w
  unfolding insert lookup
  inserted id = ground arith

  -- A wallet is replaced by one of the same user that holds as much.
  pub replaced_lem :
      (id : ℕ)
      → find (owns id) ws ≡ some w
      → w'.user_id ≡ w.user_id
      → units a w' % full_range ≡ units a w % full_range
      → Distinct (rewritten w' ws)
        × (total a (rewritten w' ws) % full_range ≡ total a ws % full_range)
  unfolding lookup
  replaced_lem id found owner same =
      let (loaded, present, owner_w) = pending-load a id w [] ws d refl found in
      let swapped = pending-insert a id w' (insert id w []) w ws d present (inserted id) in
      let one = ap (λ (c : List (ℕ × Wallet)). pending a c ws) (replaced_twice id) in
      let key = ap (λ (k : ℕ). pending a ((k, w') ∷ []) ws) (owner ∙ owner_w) in
      let all = pending-rewritten w' a [] ws refl in
      (
        rewritten-Distinct w' ws d,
        omega (
          arith,
          loaded,
          swapped,
          one,
          key,
          all,
          same,
          pending_nothing a ws,
          pending_nothing a (rewritten w' ws),
        ),
      )
