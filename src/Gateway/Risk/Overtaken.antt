-- ===== src/Gateway/Risk/Overtaken.antt =====
-- An order whose acceptance overtakes the failure of its request.
use quant_arena.Prelude.{◌+◌, ◌≡◌, refl, false, List, [], ◌∷◌, nat_eq, pair_eq, arith}
use quant_arena.Prelude.Int.{pos, ◌+ℤ◌, ◌-ℤ◌}
use quant_arena.Dict.{lookup, insert, erase, get_or, contains}
use quant_arena.Dict.Shift.{shift}
use quant_arena.Dict.Counts.{gain, drop_to_zero}
use quant_arena.Contracts.{account_created, order_accepted}
use quant_arena.Gateway.Risk.{
  Request, buy_cost, available_cash, reject_reason_for, grant, commit, apply_order_accepted,
  reserve, reservation_of, release, apply,
}
use quant_arena.Gateway.Risk.Backing.{cash_of, committed}
use quant_arena.Gateway.Risk.Life.{Event, submitted, observed, run, started, run-Healthy}
use quant_arena.Gateway.Orders.{abandon}
use quant_arena.Gateway.Orders.Abandon.{abandon_late}

abbrev request : Request
request = record {
  user_id = 7;
  client_order_id = 1;
  symbol_id = 3;
  side = 1;
  price_ticks = 1_005;
  qty = 4;
}

abbrev overtaken : List Event
overtaken =
    observed (record {
      stream_id = "1-0";
      body = account_created (record {
        timestamp_ns = 1;
        client_order_id = 0;
        user_id = 7;
        initial_cash_ticks = pos 5_000;
      });
    })
    ∷ submitted request
    ∷ observed (record {
      stream_id = "2-0";
      body = order_accepted (record {
        timestamp_ns = 2;
        order_id = 1;
        client_order_id = 1;
        user_id = 7;
        price_ticks = 1_005;
        qty = 4;
        symbol_id = 3;
        side = 1;
        tif = 1;
      });
    })
    ∷ []

-- The order is open for 4 028 ticks, and the user has all 5 000 available again.
late_cash :
    available_cash 7 (abandon false (reservation_of request) (run overtaken (started [])))
    ≡ pos 5_000
unfolding abandon run reserve reject_reason_for grant commit apply apply_order_accepted release
    buy_cost available_cash shift gain drop_to_zero insert erase lookup get_or contains ◌+ℤ◌ ◌-ℤ◌
late_cash = refl

abandon_late_example :
    let s = abandon false (reservation_of request) (run overtaken (started [])) in
    get_or 7 0 s.reserved + cash_of 7 (reservation_of request) ≡ committed (cash_of 7) s
unfolding run reserve reject_reason_for grant commit apply apply_order_accepted buy_cost
    available_cash shift gain drop_to_zero insert erase lookup get_or contains ◌+ℤ◌ ◌-ℤ◌
abandon_late_example =
    abandon_late (reservation_of request) 1 (run overtaken (started []))
      (run-Healthy overtaken []
        ((omega arith, tt), (refl, (((reservation_of request, refl), refl), tt)))).0
      refl 7
