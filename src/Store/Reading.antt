-- ===== src/Store/Reading.antt =====
-- internal/infra/postgres/wallet_repo.go: what a row that is read has been read from.
use order_book_vibranium.Base.{◌≡◌, sym, ◌∙◌, some}
use order_book_vibranium.Order.{Uuid}
use order_book_vibranium.Wallet.{Wallet}
use order_book_vibranium.Store.{Session, Faults, query, counted, or_raise, wallet_not_found}
use order_book_vibranium.Store.Repositories.{find, owns, get_wallet}
use order_book_vibranium.Store.Transactions.{
  Succeeds, >>=-Succeeds, query-Succeeds, or_raise-Succeeds,
}

pub get_wallet-Succeeds :
    (faults : Faults) (id : Uuid) (s : Session) {w : Wallet} {t : Session}
    → Succeeds (get_wallet id) faults s w t
    → (find (owns id) s.db.wallets ≡ some w) × (t ≡ counted s)
unfolding get_wallet
get_wallet-Succeeds faults id s h =
    let (a, u, read, rest) =
      >>=-Succeeds (query (λ db. find (owns id) db.wallets)) (λ row. or_raise row wallet_not_found)
        faults s h in
    let (a_is, u_is) = query-Succeeds (λ db. find (owns id) db.wallets) faults s read in
    let (found, same) = or_raise-Succeeds a wallet_not_found faults u rest in
    (sym a_is ∙ found, same ∙ u_is)
