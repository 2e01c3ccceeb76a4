-- ===== src/Ledger/Tests.antt =====
-- Runs of the ledger, and its theorems at concrete streams.
use quant_arena.Prelude.{◌++◌, ◌≡◌, refl, some, none, List, [], ◌∷◌, arith, nat_eq, pair_eq}
use quant_arena.Prelude.Int.{pos, negsuc, ◌+ℤ◌, ◌-ℤ◌}
use quant_arena.Dict.{lookup, insert, erase, get_or, contains, add}
use quant_arena.Dict.Shift.{shift}
use quant_arena.Contracts.{
  Fill, Record, account_created, order_accepted, order_cancelled, fill, StreamItem,
}
use quant_arena.Ledger.{
  settle, Ledger, empty, apply, apply_account_created, apply_order_accepted, apply_order_cancelled,
  apply_fill, replay, total_system_cash, get_balance, get_position, take_dirty,
}
use quant_arena.Ledger.Conservation.{replay_cash_conserved}
use quant_arena.Ledger.Positions.{net_position, net_position-replay}
use quant_arena.Ledger.Account.{
  cash_after, cash_of_fill, units_after, units_of_fill, cash_statement, units_statement,
  get_balance-replay, get_position-replay,
}
use quant_arena.Ledger.Unmarked.{SameRows, replay-take_dirty}
use quant_arena.Ledger.Orders.{OrdersLive, OrdersLive-apply, taken, left, lookup-replay}

abbrev created : Record
created = account_created (record {
  timestamp_ns = 1;
  client_order_id = 0;
  user_id = 7;
  initial_cash_ticks = pos 10_000_000;
})

abbrev created_other : Record
created_other =
    account_created (record {
      timestamp_ns = 1;
      client_order_id = 0;
      user_id = 8;
      initial_cash_ticks = pos 5_000;
    })

-- User 8 offers ten units at 5000.
abbrev offered : Record
offered = order_accepted (record {
  timestamp_ns = 2;
  order_id = 1;
  client_order_id = 31;
  user_id = 8;
  price_ticks = 5_000;
  qty = 10;
  symbol_id = 3;
  side = 2;
  tif = 1;
})

-- User 7 buys four of them as the taker.
abbrev traded_fill : Fill
traded_fill = record {
  timestamp_ns = 3;
  maker_order_id = 1;
  taker_order_id = 2;
  maker_user_id = 8;
  taker_user_id = 7;
  price_ticks = 5_000;
  qty = 4;
  symbol_id = 3;
  aggressor_side = 1;
}

abbrev traded : Record
traded = fill traded_fill

abbrev cancelled : Record
cancelled = order_cancelled (record {
  timestamp_ns = 4;
  order_id = 1;
  client_order_id = 31;
  user_id = 8;
  remaining_qty = 6;
  symbol_id = 3;
  reason = 1;
})

abbrev opening : List StreamItem
opening =
    record { stream_id = "1-0"; body = created }
    ∷ record { stream_id = "2-0"; body = created_other }
    ∷ record { stream_id = "3-0"; body = offered }
    ∷ []

abbrev closing : List StreamItem
closing =
    record { stream_id = "4-0"; body = traded }
    ∷ record { stream_id = "5-0"; body = cancelled }
    ∷ []

abbrev trading : Ledger
trading = replay opening empty

-- The taker pays 20 000 and a fee of 20; the maker receives 20 000 less a fee of 4.
balances_after :
    (get_balance (replay closing trading) 7 ≡ pos 9_979_980)
    × (get_balance (replay closing trading) 8 ≡ pos 24_996)
    × (get_position (replay closing trading) 8 3 ≡ negsuc 3)
    × (lookup 1 (replay closing trading).open_orders ≡ none)
unfolding replay apply apply_account_created apply_order_accepted apply_order_cancelled apply_fill
    settle get_balance get_position shift insert erase lookup get_or ◌+ℤ◌ ◌-ℤ◌
balances_after = (refl, refl, refl, refl)

replay_cash_conserved_example :
    total_system_cash (replay opening empty) ≡ (replay opening empty).total_deposits_ticks
unfolding replay apply apply_account_created apply_order_accepted lookup insert
replay_cash_conserved_example = replay_cash_conserved opening (refl, (refl, (tt, tt)))

OrdersLive-apply_example : OrdersLive (apply offered (some "3-0") empty)
OrdersLive-apply_example = OrdersLive-apply offered (some "3-0") empty (omega arith) tt

lookup-replay_example :
    lookup 1 (replay closing trading).open_orders
    ≡ left (taken 1 closing) (
        some (record {
          order_id = 1;
          client_order_id = 31;
          user_id = 8;
          symbol_id = 3;
          side = 2;
          price_ticks = 5_000;
          qty = 10;
          remaining_qty = 10;
          tif = 1;
          created_at_ns = 2;
        }))
unfolding replay apply apply_account_created apply_order_accepted lookup insert
lookup-replay_example = lookup-replay 1 _ closing trading refl (omega arith) (tt, (tt, tt))

net_position-replay_example : net_position 3 (replay (opening ++ closing) empty) ≡ pos 0
net_position-replay_example = net_position-replay (opening ++ closing) 3

-- The taker's statement: the grant, less 20 000 and a fee of 20.
statements :
    (cash_statement 7 (opening ++ closing) (pos 0) ≡ pos 9_979_980)
    × (units_statement 8 3 (opening ++ closing) (pos 0) ≡ negsuc 3)
unfolding cash_statement cash_after cash_of_fill units_statement units_after units_of_fill ◌+ℤ◌ ◌-ℤ◌
statements = (refl, refl)

get_balance-replay_example :
    get_balance (replay (opening ++ closing) empty) 7
    ≡ cash_statement 7 (opening ++ closing) (get_balance empty 7)
get_balance-replay_example = get_balance-replay (opening ++ closing) empty 7

get_position-replay_example :
    get_position (replay (opening ++ closing) empty) 8 3
    ≡ units_statement 8 3 (opening ++ closing) (get_position empty 8 3)
get_position-replay_example = get_position-replay (opening ++ closing) empty 8 3

abbrev cancelling : List StreamItem
cancelling = record { stream_id = "5-0"; body = cancelled } ∷ []

-- A cancellation marks its order alone.
replay-take_dirty_example : SameRows 7 (7, 3) 2 (replay cancelling (take_dirty trading).1) trading
unfolding replay apply apply_order_cancelled take_dirty contains add
replay-take_dirty_example = replay-take_dirty cancelling 7 (7, 3) 2 trading (refl, refl, refl)
