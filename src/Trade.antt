-- ===== src/Trade.antt =====
-- internal/domain/trade/trade.go: the record of one execution.
use order_book_vibranium.Base.{◌||◌, if◌then◌else◌}
use order_book_vibranium.Base.Int64
use order_book_vibranium.Base.Int64.{Int64, pos}
use order_book_vibranium.Base.Run.{Result, ok, err}
use order_book_vibranium.Order.{Uuid, Time}

pub data TradeError : Type 0 where
  invalid_trade : TradeError

pub record Trade : Type 0 where
  pub id : Uuid
  pub buy_order_id : Uuid
  pub sell_order_id : Uuid
  pub buyer_user_id : Uuid
  pub seller_user_id : Uuid
  pub price_cents : Int64
  pub quantity : Int64
  pub executed_at : Time

unfoldable pub new :
    Uuid → Uuid → Uuid → Uuid → Uuid → Int64 → Int64 → Time → Result TradeError Trade
new id buy_order_id sell_order_id buyer_user_id seller_user_id price_cents quantity executed_at =
    if Int64.le price_cents (pos 0) || Int64.le quantity (pos 0)
    then err invalid_trade
    else ok (record {
      id = id;
      buy_order_id = buy_order_id;
      sell_order_id = sell_order_id;
      buyer_user_id = buyer_user_id;
      seller_user_id = seller_user_id;
      price_cents = price_cents;
      quantity = quantity;
      executed_at = executed_at;
    })
