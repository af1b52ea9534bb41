-- ===== src/Matcher/Supply.antt =====
-- internal/application/matcherapp/consumer_loop.go: what the users hold in the middle of a batch,
-- where the wallet of a user is the one in the cache, if there is one, and else the row.
pub mod Moves
pub mod Trades
pub mod Events
pub mod Flushing
pub mod Conserved
use order_book_vibranium.Base.{
  ℕ, ◌+◌, ◌≡◌, refl, sym, ap, ◌∙◌, Bool, true, false, Option, none, some, List, [], ◌∷◌, ◌==◌,
  ==_iff, if◌then◌else◌, arith,
}
use order_book_vibranium.Base.Assoc.{lookup, insert, lookup-insert}
use order_book_vibranium.Order.{Uuid}
use order_book_vibranium.Wallet.{Wallet}
use order_book_vibranium.Wallet.Supply.{Asset, units}
use order_book_vibranium.Store.Repositories.{any, find, owns}

abbrev pub Cache : Type 0
Cache = List (Uuid × Wallet)

-- No two rows are of one user.
abbrev pub Distinct : List Wallet → Type 0
Distinct [] = Unit {0}
Distinct (w ∷ ws) = (any (owns w.user_id) ws ≡ false) × Distinct ws

abbrev pub or_row : Option Wallet → Wallet → Wallet
or_row (some v) w = v
or_row none w = w

-- What the users of the rows hold together.
abbrev pub pending : Asset → Cache → List Wallet → ℕ
pending a cache [] = 0
pending a cache (w ∷ ws) = units a (or_row (lookup w.user_id cache) w) + pending a cache ws

module _ (a : Asset) (id : Uuid) (w' : Wallet) (cache : Cache) where
  pending_absent :
      (ws : List Wallet)
      → any (owns id) ws ≡ false
      → pending a (insert id w' cache) ws ≡ pending a cache ws
  unfolding any
  pending_absent [] h = refl
  pending_absent (w ∷ ws) h = ground (arith, lookup-insert id w.user_id w' cache, pending_absent ws)

  -- The wallet of one user is replaced.
  pub pending-insert :
      (w : Wallet) (ws : List Wallet)
      → Distinct ws
      → any (owns id) ws ≡ true
      → lookup id cache ≡ some w
      → pending a (insert id w' cache) ws + units a w ≡ pending a cache ws + units a w'
  unfolding any
  pending-insert w [] d p h = cc
  pending-insert w (v ∷ ws) d p h =
      ground (arith, lookup-insert id v.user_id w' cache, pending_absent ws, pending-insert w ws)

  -- The wallet of one user is loaded.
  pub pending-load :
      (ws : List Wallet)
      → Distinct ws
      → lookup id cache ≡ none
      → find (owns id) ws ≡ some w'
      → (pending a (insert id w' cache) ws ≡ pending a cache ws)
        × (any (owns id) ws ≡ true)
        × (w'.user_id ≡ id)
  unfolding any find
  pending-load [] d h p = cc
  pending-load (v ∷ ws) d h p = ground (
    arith,
    lookup-insert id v.user_id w' cache,
    pending_absent ws,
    pending-load ws,
    ==_iff v.user_id id,
  )
