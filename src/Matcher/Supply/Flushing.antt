-- ===== src/Matcher/Supply/Flushing.antt =====
-- internal/application/matcherapp/consumer_loop.go: the UPDATE of the wallets in the cache.
use order_book_vibranium.Base.{◌≡◌, refl, sym, ap, ◌∙◌, none, List, [], ◌∷◌, ==_iff, arith}
use order_book_vibranium.Base.Assoc.{lookup}
use order_book_vibranium.Order.{Uuid}
use order_book_vibranium.Wallet.{Wallet}
use order_book_vibranium.Wallet.Supply.{Asset, total}
use order_book_vibranium.Store.{Session, Faults, for_each, exec}
use order_book_vibranium.Store.Repositories.{any, owns, update_rows, update_wallet}
use order_book_vibranium.Store.Transactions.{Succeeds, >>=-Succeeds}
use order_book_vibranium.Matcher.{flush_wallets}
use order_book_vibranium.Matcher.Supply.{Cache, Distinct, pending}
use order_book_vibranium.Matcher.Supply.Moves.{Keyed, IsSound, view, held}

module _ (w : Wallet) where
  abbrev pub rewritten : List Wallet → List Wallet
  rewritten = update_rows (owns w.user_id) (λ v. w)

  any-rewritten : (j : Uuid) (ws : List Wallet) → any (owns j) (rewritten ws) ≡ any (owns j) ws
  unfolding any update_rows
  any-rewritten j [] = refl
  any-rewritten j (v ∷ ws) = ground (arith, any-rewritten j ws, ==_iff v.user_id w.user_id)

  pub rewritten-Distinct : (ws : List Wallet) → Distinct ws → Distinct (rewritten ws)
  unfolding update_rows
  rewritten-Distinct [] d = tt
  rewritten-Distinct (v ∷ ws) d = ground (
    arith,
    rewritten-Distinct ws,
    any-rewritten v.user_id ws,
    any-rewritten w.user_id ws,
    ==_iff v.user_id w.user_id,
  )

  pub pending-rewritten :
      (a : Asset) (es : Cache) (ws : List Wallet)
      → lookup w.user_id es ≡ none
      → pending a es (rewritten ws) ≡ pending a ((w.user_id, w) ∷ es) ws
  unfolding lookup update_rows
  pending-rewritten a es [] h = refl
  pending-rewritten a es (v ∷ ws) h =
      ground (arith, pending-rewritten a es ws, ==_iff v.user_id w.user_id)

  update_wallet-Succeeds :
      (faults : Faults) (s : Session) (x : Unit {0}) (t : Session)
      → Succeeds (update_wallet w) faults s x t
      → t.db.wallets ≡ rewritten s.db.wallets
  unfolding update_wallet exec
  update_wallet-Succeeds faults s x t h = ground arith

pub pending_nothing : (a : Asset) (ws : List Wallet) → pending a [] ws ≡ total a ws
unfolding lookup
pending_nothing a [] = refl
pending_nothing a (w ∷ ws) = ground (arith, pending_nothing a ws)

flush_each :
    (a : Asset) (es : Cache) (faults : Faults) (s : Session) (x : Unit {0}) (t : Session)
    → Keyed es
    → Distinct s.db.wallets
    → Succeeds (for_each es (λ e. update_wallet e.1)) faults s x t
    → Distinct t.db.wallets × (total a t.db.wallets ≡ pending a es s.db.wallets)
unfolding for_each
flush_each a [] faults s x t k d h =
    let same : s ≡ t = ground (arith, h) in
    (rw (← same) d, rw (← same) (sym (pending_nothing a s.db.wallets)))
flush_each a ((id, w) ∷ es) faults s x t k d h =
    let (y, u, first, rest) =
      >>=-Succeeds (update_wallet w) (λ _. for_each es (λ e. update_wallet e.1)) faults s h in
    let wallets = update_wallet-Succeeds w faults s y u first in
    let (distinct, flushed) =
      flush_each a es faults u x t k.2 (rw wallets (rewritten-Distinct w s.db.wallets d)) rest in
    let absent : lookup w.user_id es ≡ none = rw k.1 k.0 in
    (
      distinct,
      flushed
          ∙ ap (pending a es) wallets
          ∙ pending-rewritten w a es s.db.wallets absent
          ∙ ap (λ (j : Uuid). pending a ((j, w) ∷ es) s.db.wallets) k.1,
    )

-- After the UPDATEs the rows hold what the users held.
pub flush_wallets_lem :
    (a : Asset) (faults : Faults) (s : Session) (x : Unit {0}) (t : Session)
    → IsSound (view s)
    → Succeeds flush_wallets faults s x t
    → Distinct t.db.wallets × (total a t.db.wallets ≡ held a s)
unfolding flush_wallets
flush_wallets_lem a faults s x t sound h =
    flush_each a s.cache faults s x t sound.keyed sound.distinct h
