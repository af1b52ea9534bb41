-- ===== src/Lib.antt =====
-- The matching core of an order book exchange for one asset, Vibranium: a Go service.
--
-- The program. The API (internal/infra/httpapi, internal/application/orders) validates an order,
-- reserves the funds in the user's wallet and writes the order and an event to Postgres in one
-- transaction. The outbox publisher moves events to a Redis stream. The matcher
-- (internal/application/matcherapp) reads the stream in batches and, per event, matches an order
-- against the in-memory book or cancels one, settles wallets, and stores the outcome in one
-- transaction per batch.
--
-- The files.
--   Base: shared helpers; Base/Int64 is Go's int64, with its wrap-around written out, and Base/Bytes
--     strings as lists of bytes.
--   Order: internal/domain/order/order.go, Fill and Cancel of an order.
--   Wallet: internal/domain/wallet/wallet.go, reservations, releases and settlements.
--   Trade: internal/domain/trade/trade.go, the constructor of a trade.
--   Level, LevelHeap: the price levels of internal/domain/matching/book.go and the heap over them,
--     with the algorithms of Go's container/heap written out on a list.
--   Book: internal/domain/matching/book.go, the book itself: AddResting, removeFront and Cancel.
--   Engine: internal/domain/matching/engine.go, the function Match as a loop over rounds.
--   Ranking: what the book and Match are meant to do, as a reference without heaps, maps or
--     references: a side is one list of orders in the order of trade, and Match takes the orders
--     from the front of the list. Ranking/Shown relates a list to the levels of a side,
--     Ranking/Commands sequences of calls on both.
--   Store: the tables of migrations/000001_init_schema.up.sql, the statements of
--     internal/infra/postgres on them (Store/Repositories), and actions that may fail at every call.
--   Service: internal/application/orders, placing an order (Place) and the request to cancel one
--     (Withdraw).
--   Matcher: internal/application/matcherapp/consumer_loop.go, applyBatch and what it calls;
--     Matcher/Recovery is book_recovery.go, Matcher/Loop the loops of Run. Matcher/Supply follows
--     what the users hold through a batch, with the wallets that are in the cache.
--   Publisher: internal/application/outboxapp/publisher_loop.go, PublishOnce and Run.
--   System: the programs of cmd/api, cmd/outbox-publisher and cmd/matcher on one database, as a
--     step relation whose steps are requests, ticks of the publisher and rounds of the matcher.
--   Listing: the pages of trades of internal/infra/postgres/trade_repo.go.
--   Http: the handlers of internal/infra/httpapi; Http/Routing is router.go and middleware.go.
--   Config: internal/platform/config/config.go, the settings that the environment gives.
--   Telemetry: internal/platform/telemetry/telemetry.go.
--   Programs: cmd/matcher/main.go and cmd/outbox-publisher/main.go.
--   Tests: runs on concrete values, and the theorems at concrete arguments.
--
-- The correspondence. A UUID and a time are numbers. A method with a pointer receiver is a function
-- from the old value to the new one, and a pointer to a level is its side and price, which find it
-- in the heap. The map from prices to levels is the list of its keys. `time.Now()` is an argument.
--
-- Bounds. int64 arithmetic wraps at 64 bits; the invariants keep the quantities, prices and
-- balances where it does not. The loop of Match has as fuel the quantity left of the order and two
-- more, and each round that goes on fills at least one unit. The loops of the heap have as fuel the
-- index or the length, which each step halves or exceeds.
--
-- Faults. Every call of Postgres or Redis may fail; a COMMIT or an XADD may take effect although its
-- reply is lost. The theorems on services hold for all faults. Transactions run one at a time, which
-- the row locks and the single consumer of the stream provide. The endless loops of the two Runs take
-- fuel: the theorems on them hold for every number of rounds.
--
-- Not modelled: Postgres, Redis, the UUID generator, the clock, the JSON decoder, the validator of
-- request tags, the collation of the database, ParseFloat, chi and the tracing library, which are
-- parameters or readings; logging, the connections and the HTTP server of cmd/api, which keep no
-- state of the exchange.
pub mod Base
pub mod Book
pub mod Config
pub mod Engine
pub mod Http
pub mod Level
pub mod LevelHeap
pub mod Listing
pub mod Matcher
pub mod Order
pub mod Programs
pub mod Publisher
pub mod Ranking
pub mod Service
pub mod Store
pub mod System
pub mod Telemetry
pub mod Tests
pub mod Trade
pub mod Wallet
