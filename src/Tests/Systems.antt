-- ===== src/Tests/Systems.antt =====
-- cmd: the three programs on a small database.
use order_book_vibranium.Base.{◌≡◌, refl, true, false, [], ◌∷◌, ◌++◌, inl, arith}
use order_book_vibranium.Base.Int64.{pos}
use order_book_vibranium.Wallet.Supply.{Asset}
use order_book_vibranium.Service.Place
use order_book_vibranium.Store.{Session}
use order_book_vibranium.Store.Repositories.{any, filter}
use order_book_vibranium.Publisher
use order_book_vibranium.Publisher.Delivered.{IsDelivered}
use order_book_vibranium.Publisher.Progress.{no_faults, waiting}
use order_book_vibranium.Publisher.Polling.{run-Delivers, run-Empties}
use order_book_vibranium.Matcher.Loop
use order_book_vibranium.Matcher.Supply.Conserved.{SameSupply, run-Conserves}
use order_book_vibranium.System.{
  Reach, here, next, place_order, publish_events, match_orders, IsConsistent,
}
use order_book_vibranium.System.Invariant.{Holds, Reach-Holds}
use order_book_vibranium.Tests.Wallets.{rich}
use order_book_vibranium.Tests.Services.{buy_input, queued, small, deliveries}

-- Two users; the order of the one is resting, and the event of the other is in the outbox.
abbrev pub exchange : Session
exchange = record small {
  db = record small.db {
    wallets = rich ∷ record rich { user_id = 71 } ∷ [];
    processed_stream_events = [];
  };
}

run-Conserves_example :
    SameSupply Asset.real exchange.db (Loop.run deliveries (λ k. false) 5 4 no_faults exchange).1.db
unfolding any
run-Conserves_example =
    run-Conserves Asset.real deliveries (λ k. false) 5 4 no_faults exchange (refl, (refl, tt))

-- The first event has been published.
abbrev pub half_sent : Session
half_sent = record small {
  db = record small.db {
    outbox_events = record queued { published = true } ∷ record queued { id = 1 } ∷ [];
    next_outbox_id = 2;
  };
  sent = queued ∷ [];
}

pub half_sent-IsDelivered : IsDelivered half_sent
half_sent-IsDelivered = (((refl, tt), (tt, tt)), ((λ p. inl refl), ((λ p. cc), tt)))

run-Delivers_example :
    IsDelivered (Publisher.run (λ k. false) (pos 10) (pos 100) 3 no_faults half_sent).1
run-Delivers_example =
    run-Delivers (λ k. false) (pos 10) (pos 100) 3 no_faults half_sent half_sent-IsDelivered

run-Empties_example :
    let t = (Publisher.run (λ k. false) (pos 1) (pos 100) 3 no_faults half_sent).1 in
    (t.sent ≡ half_sent.sent ++ waiting half_sent.db.outbox_events)
    × (waiting t.db.outbox_events ≡ [])
unfolding filter
run-Empties_example = run-Empties 1 (pos 100) 3 half_sent half_sent-IsDelivered.0 refl (omega arith)

exchange-IsConsistent : IsConsistent exchange
unfolding any
exchange-IsConsistent = record {
  distinct = (refl, (refl, tt));
  unique = (tt, tt);
  numbered = (omega arith, tt);
  delivered = ((λ p. cc), tt);
  committed = λ j h. h;
}

-- An order is placed, the publisher sends it, and the matcher applies it.
abbrev day :
    Reach exchange
      (Loop.run deliveries
        (λ k. false)
        5
        4
        no_faults
        (Publisher.run
          (λ k. false)
          (pos 10)
          (pos 100)
          3
          no_faults
          (Place.place [] 8 2 buy_input no_faults exchange).1).1).1
day =
    next
      (next (next here (place_order [] 8 2 buy_input no_faults))
        (publish_events (λ k. false) (pos 10) (pos 100) 3 no_faults))
      (match_orders deliveries (λ k. false) 5 4 no_faults)

Reach-Holds_example :
    Holds exchange
      (Loop.run deliveries
        (λ k. false)
        5
        4
        no_faults
        (Publisher.run
          (λ k. false)
          (pos 10)
          (pos 100)
          3
          no_faults
          (Place.place [] 8 2 buy_input no_faults exchange).1).1).1
Reach-Holds_example = Reach-Holds exchange-IsConsistent day
