-- ===== src/Matcher/Adapter/Tests.antt =====
-- Runs of the adapter, and the theorems about it at them.
use mathlib.Core.Path.{subst}
use quant_arena.Prelude.{
  ℕ, ◌≡◌, refl, sym, ◌∙◌, ◌+◌, String, List, [], ◌∷◌, nat_eq, pair_eq, ok, ok-injective,
}
use quant_arena.Prelude.Int.{pos}
use quant_arena.Dict.Extremes.{highest, lowest}
use quant_arena.Dict.{lookup, insert, get_or, erase, contains}
use quant_arena.Dict.Queues.{discard}
use quant_arena.Dict.Sums.{sum_ℕ}
use quant_arena.Contracts.{fill, order_accepted, order_cancelled}
use quant_arena.Engine.Book
use quant_arena.Engine.Book.{
  match_order, add_order, enter, queue, match_all, match_round, round_at, cross, best_bid, best_ask,
  first_order, first_of, trade, trade_price, settle, reduce_in, reduce, remove_filled, remove_order,
  remove_found, unlink, unlink_from, set_level, new_order,
}
use quant_arena.Engine.Book.Settle.{left}
use quant_arena.Engine.Book.Empty.{empty-WellFormed, empty-Uncrossed}
use quant_arena.Matcher.Records.{SubmitOrder, submit_order, Outbound, published}
use quant_arena.Matcher.State.{
  Live, NaiveMatcher, new_matcher, book, left_in, remaining_qty, forget, enlist,
}
use quant_arena.Matcher.Adapter.{
  reject_reason, fill_between, contract_fill, to_contract_fill, to_contract_fills, finish, accept,
  submit_if, submit, apply,
}
use quant_arena.Matcher.Adapter.Valid.{Valid}
use quant_arena.Matcher.Adapter.Total.{apply-Valid}

abbrev str : ℕ → String
str n = "7"

abbrev start : NaiveMatcher
start = new_matcher 1 (pos 1000)

start-Valid : Valid start
unfolding book get_or lookup
start-Valid = record {
  well = λ s. empty-WellFormed;
  rest = λ s. empty-Uncrossed;
  known = λ s id o h. cc h;
  at_home = λ k l h. cc h;
  numbered = λ id l h. cc h;
  live_numbered = λ k l h. cc h;
}

abbrev order : ℕ → ℕ → ℕ → ℕ → ℕ → SubmitOrder
order client side price qty tif = record {
  timestamp_ns = 5;
  client_order_id = client;
  user_id = 40 + client;
  price_ticks = pos price;
  qty = pos qty;
  symbol_id = 7;
  side = side;
  tif = tif;
}

abbrev bid_live : Live
bid_live = record {
  order_id = 1;
  client_order_id = 1;
  user_id = 41;
  symbol_id = 7;
  side = 1;
  price_ticks = 101;
  qty = 5;
}

-- A bid of 5 units at 101 rests.
abbrev resting : NaiveMatcher
resting = record {
  initial_cash_ticks = pos 1000;
  books =
      (
        7,
        record {
          bids = (101, 1 ∷ []) ∷ [];
          asks = [];
          orders_by_id =
              (
                1,
                record {
                  order_id = 1;
                  user_id = 41;
                  symbol = "7";
                  side = Book.buy;
                  price = 101;
                  quantity = 5;
                  created_at = 5;
                  remaining_quantity = 5;
                },
              )
              ∷ [];
          arrival_sequence = (1, 0) ∷ [];
          next_arrival_sequence = 1;
        },
      )
      ∷ [];
  next_order_id = 2;
  live = ((41, 1), bid_live) ∷ [];
  by_order_id = (1, bid_live) ∷ [];
}

abbrev bid_accepted : List Outbound
bid_accepted =
    published (
      order_accepted (record {
        timestamp_ns = 5;
        order_id = 1;
        client_order_id = 1;
        user_id = 41;
        price_ticks = 101;
        qty = 5;
        symbol_id = 7;
        side = 1;
        tif = 1;
      }))
    ∷ []

bid_rests : apply str (submit_order (order 1 1 101 5 1)) start ≡ ok (resting, bid_accepted)
unfolding apply submit submit_if accept finish enlist to_contract_fills remaining_qty left_in forget
    reject_reason book match_order add_order enter insert lookup queue get_or match_all match_round
    round_at cross best_bid best_ask highest lowest new_order left sum_ℕ
bid_rests = refl

resting-Valid : Valid resting
resting-Valid =
    let (m, out, r, v) = apply-Valid str (submit_order (order 1 1 101 5 1)) start start-Valid in
    subst (λ p. Valid p.0) (ok-injective _ _ (sym r ∙ bid_rests)) v

-- An immediate order to sell 8 units takes the 5, at the price of the bid, and the rest is cancelled.
what_comes_out :
    (m : NaiveMatcher) × (a : Outbound) × (apply str (submit_order (order 2 2 100 8 2)) resting
      ≡ ok (
        m,
        a
            ∷ published (
                fill (record {
                  timestamp_ns = 5;
                  maker_order_id = 1;
                  taker_order_id = 2;
                  maker_user_id = 41;
                  taker_user_id = 42;
                  price_ticks = 101;
                  qty = 5;
                  symbol_id = 7;
                  aggressor_side = 2;
                }))
            ∷ published (
                order_cancelled (record {
                  timestamp_ns = 5;
                  order_id = 2;
                  client_order_id = 2;
                  user_id = 42;
                  remaining_qty = 3;
                  symbol_id = 7;
                  reason = 2;
                }))
            ∷ [],
      ))
    × (m.by_order_id ≡ [])
unfolding apply submit submit_if accept finish enlist to_contract_fills to_contract_fill
    fill_between contract_fill remaining_qty left_in forget reject_reason book match_order add_order
    enter insert lookup queue get_or match_all match_round round_at cross best_bid best_ask highest
    lowest new_order left sum_ℕ first_order first_of trade trade_price settle reduce_in reduce
    remove_filled remove_order remove_found unlink unlink_from set_level contains discard erase
what_comes_out = (_, _, refl, refl)

-- An immediate order to sell more than the bid takes.
apply-Valid_example :
    (m : NaiveMatcher) × (out : List Outbound) × (apply str
        (submit_order (order 2 2 100 8 2))
        resting
      ≡ ok (m, out))
    × Valid m
apply-Valid_example = apply-Valid str (submit_order (order 2 2 100 8 2)) resting resting-Valid
