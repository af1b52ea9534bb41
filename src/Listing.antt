-- ===== src/Listing.antt =====
-- internal/infra/postgres/trade_repo.go: the pages of the list of trades.
--
-- A cursor is what its text decodes to; the text is base64 of a formatted time and a UUID.
pub mod Pages
use order_book_vibranium.Base.{
  ℕ, zero, suc, ◌+◌, Bool, true, false, ◌&&◌, ◌||◌, not, Option, none, some, List, [], ◌∷◌, ltb,
  leb, ◌==◌, if◌then◌else◌, take, length,
}
use order_book_vibranium.Base.Run.{Result, ok, err}
use order_book_vibranium.Order.{Uuid, Time}
use order_book_vibranium.Trade
use order_book_vibranium.Store.{
  Session, Action, Failure, invalid_trade, invalid_cursor, pure, raise, lift, query, ◌>>=◌, ◌>>◌,
}
use order_book_vibranium.Store.Repositories.{filter}

pub record Position : Type 0 where
  pub executed_at : Time
  pub id : Uuid

-- An absent cursor, one that decodes, and one that does not.
pub data Cursor : Type 0 where
  first_page : Cursor
  after : Position → Cursor
  undecodable : Cursor

-- `limit` is 0 where the request gives none; a negative limit is 0 here too, as the source treats it.
pub record TradeFilter : Type 0 where
  pub user_id : Option Uuid
  pub order_id : Option Uuid
  pub limit : ℕ
  pub cursor : Cursor

unfoldable pub clamp : ℕ → ℕ
clamp limit = if (limit == 0) || ltb 200 limit then 50 else limit

unfoldable pub matches_user : Option Uuid → Trade.Trade → Bool
matches_user none t = true
matches_user (some id) t = (t.buyer_user_id == id) || (t.seller_user_id == id)

unfoldable pub matches_order : Option Uuid → Trade.Trade → Bool
matches_order none t = true
matches_order (some id) t = (t.buy_order_id == id) || (t.sell_order_id == id)

-- `(executed_at, id) < (...)`
unfoldable pub is_before : Trade.Trade → Position → Bool
is_before t p = ltb t.executed_at p.executed_at || (t.executed_at == p.executed_at) && ltb t.id p.id

unfoldable pub matches_cursor : Option Position → Trade.Trade → Bool
unfolding is_before
matches_cursor none t = true
matches_cursor (some p) t = is_before t p

-- `ORDER BY executed_at DESC, id DESC`
unfoldable pub insert_latest : Trade.Trade → List Trade.Trade → List Trade.Trade
unfolding is_before
insert_latest t [] = t ∷ []
insert_latest t (u ∷ us) =
    if is_before t (record { executed_at = u.executed_at; id = u.id })
    then u ∷ insert_latest t us
    else t ∷ u ∷ us

unfoldable pub sort_latest : List Trade.Trade → List Trade.Trade
sort_latest [] = []
sort_latest (t ∷ ts) = insert_latest t (sort_latest ts)

unfoldable pub last_position : List Trade.Trade → Option Position
last_position [] = none
last_position (t ∷ []) = some (record { executed_at = t.executed_at; id = t.id })
last_position (t ∷ u ∷ us) = last_position (u ∷ us)

-- The page and the next cursor, from the rows of the query for one row more than the limit.
unfoldable pub page : ℕ → List Trade.Trade → List Trade.Trade × Option Position
unfolding last_position
page limit rows =
    let has_more = ltb limit (length rows) in
    let out = if has_more then take limit rows else rows in
    (out, if has_more && ltb 0 (length out) then last_position out else none)

-- Every row goes through trade.New once more.
unfoldable pub check_rows : List Trade.Trade → Action (List Trade.Trade)
check_rows [] = pure []
check_rows (t ∷ ts) = do
  u ←
      lift (λ e. invalid_trade)
        (Trade.new t.id t.buy_order_id t.sell_order_id t.buyer_user_id t.seller_user_id
          t.price_cents t.quantity t.executed_at)
  us ← check_rows ts
  pure (u ∷ us)

unfoldable pub decode : Cursor → Action (Option Position)
decode first_page = pure none
decode (after p) = pure (some p)
decode undecodable = raise invalid_cursor

-- The rows of the query.
unfoldable pub select_trades :
    TradeFilter → Option Position → ℕ → List Trade.Trade → List Trade.Trade
unfolding matches_user matches_order matches_cursor insert_latest sort_latest filter
select_trades f position limit trades = take (suc limit) (
    sort_latest (
      filter
        (λ t. matches_user f.user_id t && matches_order f.order_id t && matches_cursor position t)
        trades))

-- ListPaginated
unfoldable pub list_paginated : TradeFilter → Action (List Trade.Trade × Option Position)
unfolding decode clamp page select_trades check_rows
list_paginated f = do
  position ← decode f.cursor
  rows ← query (λ db. select_trades f position (clamp f.limit) db.trades)
  let (kept, next) = page (clamp f.limit) rows
  out ← check_rows kept
  pure (out, next)
