-- ===== src/Gateway/Risk/Tests.antt =====
-- Runs of the risk state, and its theorems at concrete events.
use quant_arena.Prelude.{
  ◌⊎◌, max, ℕ, ◌+◌, ◌-◌, ◌*◌, ◌≤◌, ◌<◌, ◌≡◌, refl, some, none, List, [], ◌∷◌, arith, nat_eq,
  pair_eq,
}
use quant_arena.Prelude.Int.{pos, negsuc, ◌+ℤ◌, ◌-ℤ◌}
use quant_arena.Dict.{lookup, insert, erase, get_or, contains}
use quant_arena.Dict.Extremes.{lowest, highest}
use quant_arena.Dict.Shift.{shift}
use quant_arena.Dict.Counts.{gain, drop_to_zero}
use quant_arena.Contracts.{Record, account_created, order_accepted, fill, StreamItem}
use quant_arena.Contracts.Side
use quant_arena.Ledger
use quant_arena.Ledger.{calculate_fees}
use quant_arena.Gateway.Risk.{
  Reservation, Request, RiskState, empty, replay, buy_cost, best_ask, best_bid, available_cash,
  available_position, reject_reason_for, grant, commit, apply_order_accepted, reserve, apply,
  banded_market_price, settle, settle_fill, apply_fill, release, release_fill, reservation_of,
}
use quant_arena.Gateway.Risk.Costs.{buy_cost_covers}
use quant_arena.Gateway.Risk.Agreement.{Agrees, replay-Agrees}
use quant_arena.Gateway.Risk.Market.{Rests, IsPriceOf, market_buy_crosses, market_sell_crosses}
use quant_arena.Gateway.Risk.Life.{Event, submitted, observed, run, started, Healthy, run-Healthy}

-- A limit of 1 005 ticks carries a fee of two ticks a unit, rounded up.
buy_cost_rounds : buy_cost 1_005 10 ≡ 10_070
unfolding buy_cost
buy_cost_rounds = refl

buy_cost_covers_example :
    ((calculate_fees 1_000 7).notional + (calculate_fees 1_000 7).taker_fee_ticks
      ≤ buy_cost 1_005 7)
    × ((calculate_fees 1_000 7).notional + (calculate_fees 1_000 7).maker_fee_ticks
        ≤ buy_cost 1_005 7)
buy_cost_covers_example = buy_cost_covers 1_000 1_005 7 (omega arith)

abbrev offer : Reservation
offer = record {
  user_id = 9;
  order_id = some 1;
  client_order_id = 4;
  symbol_id = 3;
  side = 2;
  price_ticks = 1_000;
  qty = 10;
}

abbrev bid : Reservation
bid = record offer { side = 1; price_ticks = 900 }

abbrev quoted : RiskState
quoted = record (started []) { open_orders = (1, offer) ∷ (2, bid) ∷ [] }

banded_prices :
    (banded_market_price 3 Side.buy 500 quoted ≡ some 1_050)
    × (banded_market_price 3 Side.sell 500 quoted ≡ some 855)
    × (banded_market_price 4 Side.buy 500 quoted ≡ none)
unfolding banded_market_price best_ask best_bid lowest highest
banded_prices = (refl, refl, refl)

market_buy_crosses_example :
    ((banded_market_price 3 Side.buy 500 quoted ≡ none)
      × ((id : ℕ) (r : Reservation)
          → lookup id quoted.open_orders ≡ some r
          → ¬ Rests 3 Side.sell r))
    ⊎ (ask : ℕ) × IsPriceOf 3 Side.sell ask quoted
      × ((id : ℕ) (r : Reservation)
          → lookup id quoted.open_orders ≡ some r
          → Rests 3 Side.sell r
          → ask ≤ r.price_ticks)
      × ((p : ℕ) × (banded_market_price 3 Side.buy 500 quoted ≡ some p)
          × (ask ≤ p)
          × (p * 10_000 < ask * (10_000 + 500) + 10_000))
unfolding lookup
market_buy_crosses_example = market_buy_crosses 3 500 quoted (refl, (refl, tt))

market_sell_crosses_example :
    ((banded_market_price 3 Side.sell 500 quoted ≡ none)
      × ((id : ℕ) (r : Reservation) → lookup id quoted.open_orders ≡ some r → ¬ Rests 3 Side.buy r))
    ⊎ (top : ℕ) × IsPriceOf 3 Side.buy top quoted
      × ((id : ℕ) (r : Reservation)
          → lookup id quoted.open_orders ≡ some r
          → Rests 3 Side.buy r
          → r.price_ticks ≤ top)
      × ((p : ℕ) × (banded_market_price 3 Side.sell 500 quoted ≡ some p)
          × (p ≤ max 1 top)
          × (1 ≤ p)
          × (top * (10_000 - 500) < (p + 1) * 10_000))
unfolding lookup
market_sell_crosses_example = market_sell_crosses 3 500 quoted (refl, (refl, tt))

-- User 8, a market maker without inventory, sells four units to user 7.
abbrev sell_request : Request
sell_request = record {
  user_id = 8;
  client_order_id = 1;
  symbol_id = 3;
  side = 2;
  price_ticks = 1_000;
  qty = 10;
}

abbrev buy_request : Request
buy_request = record {
  user_id = 7;
  client_order_id = 1;
  symbol_id = 3;
  side = 1;
  price_ticks = 1_005;
  qty = 4;
}

abbrev accepted : ℕ → Request → Record
accepted id q = order_accepted (record {
  timestamp_ns = 2;
  order_id = id;
  client_order_id = q.client_order_id;
  user_id = q.user_id;
  price_ticks = q.price_ticks;
  qty = q.qty;
  symbol_id = q.symbol_id;
  side = q.side;
  tif = 1;
})

abbrev traded : Record
traded = fill (record {
  timestamp_ns = 3;
  maker_order_id = 1;
  taker_order_id = 2;
  maker_user_id = 8;
  taker_user_id = 7;
  price_ticks = 1_000;
  qty = 4;
  symbol_id = 3;
  aggressor_side = 1;
})

abbrev session : List Event
session =
    observed (record {
      stream_id = "1-0";
      body = account_created (record {
        timestamp_ns = 1;
        client_order_id = 0;
        user_id = 7;
        initial_cash_ticks = pos 5_000;
      });
    })
    ∷ submitted sell_request
    ∷ submitted buy_request
    ∷ observed (record { stream_id = "2-0"; body = accepted 1 sell_request })
    ∷ observed (record { stream_id = "3-0"; body = accepted 2 buy_request })
    ∷ observed (record { stream_id = "4-0"; body = traded })
    ∷ []

session_end :
    (available_cash 7 (run session (started (8 ∷ []))) ≡ pos 996)
    × (available_position 8 3 (run session (started (8 ∷ []))) ≡ negsuc 9)
unfolding run reserve reject_reason_for grant commit apply apply_order_accepted apply_fill settle
    settle_fill release release_fill buy_cost available_cash available_position shift gain
    drop_to_zero insert erase lookup get_or contains ◌+ℤ◌ ◌-ℤ◌
session_end = (refl, refl)

run-Healthy_example : Healthy (run session (started (8 ∷ [])))
unfolding run reserve reject_reason_for grant commit apply apply_order_accepted apply_fill settle
    settle_fill release release_fill buy_cost available_cash available_position shift gain
    drop_to_zero insert erase lookup get_or contains ◌+ℤ◌ ◌-ℤ◌
run-Healthy_example = run-Healthy session (8 ∷ []) (
  (omega arith, tt),
  (
    refl,
    (
      refl,
      (
        ((reservation_of sell_request, refl), refl),
        (
          ((reservation_of buy_request, refl), refl),
          (
            (
              (
                record {
                  bought = record (reservation_of buy_request) { order_id = some 2 };
                  sold = record (reservation_of sell_request) { order_id = some 1 };
                  bought_open = refl;
                  sold_open = refl;
                  bought_side = refl;
                  sold_side = refl;
                  bought_user = refl;
                  sold_user = refl;
                  sold_symbol = refl;
                  within_limit = omega arith;
                },
                (omega arith, omega arith, omega arith),
              ),
              (omega arith, omega arith, omega arith),
            ),
            tt,
          ),
        ),
      ),
    ),
  ),
)

abbrev stream : List StreamItem
stream =
    record {
      stream_id = "1-0";
      body = account_created (record {
        timestamp_ns = 1;
        client_order_id = 0;
        user_id = 7;
        initial_cash_ticks = pos 5_000;
      });
    }
    ∷ record { stream_id = "2-0"; body = accepted 1 sell_request }
    ∷ record { stream_id = "3-0"; body = traded }
    ∷ []

replay-Agrees_example : Agrees (replay stream empty) (Ledger.replay stream Ledger.empty)
replay-Agrees_example = replay-Agrees stream
