-- ===== src/Engine/Book/Tests.antt =====
-- Runs of the book, and the theorems about it at them.
use quant_arena.Prelude.{
  ℕ, ◌≡◌, refl, sym, ◌∙◌, none, some, List, [], ◌∷◌, nat_eq, arith, ◌⊎◌, ok, err,
}
use quant_arena.Dict.Extremes.{highest, lowest}
use quant_arena.Dict.{AllEntries-lookup, lookup, insert, erase, contains, get_or}
use quant_arena.Dict.Queues.{discard}
use quant_arena.Dict.Sums.{sum_ℕ}
use quant_arena.Engine.Book.{
  Side, buy, sell, Order, Fill, OrderBook, empty, queue, enter, new_order, reduce, add_order,
  already_exists, remove_order, match_round, match_all, match_order, matched, best_bid, best_ask,
  first_order, first_of, round_at, cross, reduce_in, remove_filled, remove_found, unlink_from,
  trade, trade_price, settle, unlink, set_level,
}
use quant_arena.Engine.Book.Settle.{left}
use quant_arena.Engine.Book.Trade.{WellFormed}
use quant_arena.Engine.Book.Empty.{empty-WellFormed}
use quant_arena.Engine.Book.Incoming.{IsPartOfAll, match_order-IsPartOfAll}
use quant_arena.Engine.Book.Round.{Executed, Uncrossed}
use quant_arena.Engine.Book.Matching.{Matching, match_all-Matching}
use quant_arena.Engine.Book.Maker.{IsInTime, AllAtMakerPrice, match_order-AllAtMakerPrice}
use quant_arena.Engine.Book.Orders.{
  Joined, Handled, Without, enter-Joined, add_order-Joined, match_order-Handled,
  remove_order-Without, match_round-Executed,
}

abbrev order : ℕ → Side → ℕ → ℕ → Order
order id s p q = record {
  order_id = id;
  user_id = 9;
  symbol = "3";
  side = s;
  price = p;
  quantity = q;
  created_at = 0;
  remaining_quantity = q;
}

-- A bid of 5 units at 101 and one of 2 units at 102.
abbrev bids : OrderBook
bids = enter (order 2 buy 102 2) (enter (order 1 buy 101 5) empty)

-- An ask that reaches both.
abbrev ask : Order
ask = order 3 sell 100 4

bids-WellFormed : WellFormed bids
unfolding lookup enter insert new_order
bids-WellFormed =
    (enter-Joined (order 2 buy 102 2) (order 2 buy 102 2) (enter (order 1 buy 101 5) empty)
      (enter-Joined (order 1 buy 101 5) (order 1 buy 101 5) empty empty-WellFormed refl refl).well
      refl refl).well

both-WellFormed : WellFormed (enter ask bids)
unfolding lookup enter insert new_order
both-WellFormed = (enter-Joined ask ask bids bids-WellFormed refl refl).well

-- The bid at 102 is better and trades first; the rest trades with the other one, at its price.
sells_into_both :
    match_order 9 ask bids
    ≡ matched
        (record { buy_order_id = 2; sell_order_id = 3; symbol = "3"; price = 102; quantity = 2 }
          ∷ record { buy_order_id = 1; sell_order_id = 3; symbol = "3"; price = 101; quantity = 2 }
          ∷ [])
        (record {
          bids = (101, 1 ∷ []) ∷ [];
          asks = [];
          orders_by_id = (1, record (order 1 buy 101 5) { remaining_quantity = 3 }) ∷ [];
          arrival_sequence = (1, 0) ∷ [];
          next_arrival_sequence = 3;
        })
unfolding match_order add_order enter insert lookup queue get_or match_all match_round round_at
    cross best_bid best_ask highest lowest first_order first_of trade trade_price settle reduce_in
    reduce remove_filled remove_order remove_found unlink unlink_from set_level contains discard
    erase
sells_into_both = refl

match_all-Matching_example :
    (fs : List Fill) × (c : OrderBook) × (match_all 8 (enter ask bids) ≡ matched fs c)
    × Matching fs (enter ask bids) c
unfolding left enter insert sum_ℕ lookup
match_all-Matching_example = match_all-Matching 8 (enter ask bids) both-WellFormed (ground arith)

abbrev first_fill : Fill
first_fill = record { buy_order_id = 2; sell_order_id = 3; symbol = "3"; price = 102; quantity = 2 }

abbrev after_first : OrderBook
after_first = record {
  bids = (101, 1 ∷ []) ∷ [];
  asks = (100, 3 ∷ []) ∷ [];
  orders_by_id = (1, order 1 buy 101 5) ∷ (3, record ask { remaining_quantity = 2 }) ∷ [];
  arrival_sequence = (1, 0) ∷ (3, 2) ∷ [];
  next_arrival_sequence = 3;
}

first_round : match_round (enter ask bids) ≡ ok (some (first_fill, after_first))
unfolding enter insert lookup queue get_or match_round round_at cross best_bid best_ask highest
    lowest first_order first_of trade trade_price settle reduce_in reduce remove_filled remove_order
    remove_found unlink unlink_from set_level contains discard erase
first_round = refl

match_round-Executed_example :
    (bid : Order) × (seller : Order) × Executed bid seller first_fill (enter ask bids) after_first
match_round-Executed_example =
    match_round-Executed (enter ask bids) after_first first_fill both-WellFormed first_round

add_order-Joined_example :
    (add_order ask bids ≡ err already_exists)
      × ((x : Order) × (lookup 3 bids.orders_by_id ≡ some x))
    ⊎ (c : OrderBook) × (add_order ask bids ≡ ok c) × Joined ask bids c
unfolding new_order
add_order-Joined_example = add_order-Joined ask ask bids bids-WellFormed refl

match_order-Handled_example :
    (fs : List Fill) × (c : OrderBook) × (match_order 12 ask bids ≡ matched fs c)
    × Handled ask fs bids c
unfolding lookup enter insert new_order left sum_ℕ
match_order-Handled_example =
    match_order-Handled 12 ask ask bids bids-WellFormed refl refl (ground arith)

remove_order-Without_example :
    (remove_order 1 bids ≡ ok bids) × (lookup 1 bids.orders_by_id ≡ none)
    ⊎ (o : Order) × (c : OrderBook) × (lookup 1 bids.orders_by_id ≡ some o)
      × (remove_order 1 bids ≡ ok c)
      × Without 1 o bids c
remove_order-Without_example = remove_order-Without 1 bids bids-WellFormed

bids-Uncrossed : Uncrossed bids
unfolding enter insert
bids-Uncrossed i j x y k l s t =
    let bought =
      AllEntries-lookup (λ n (o : Order). o.side ≡ buy) j y bids.orders_by_id (refl, (refl, tt))
        l in
    absurd (cc (sym bought ∙ t))

match_order-IsPartOfAll_example :
    (fs : List Fill) × (c : OrderBook) × (match_order 12 ask bids ≡ matched fs c)
    × WellFormed c
    × Uncrossed c
    × IsPartOfAll 3 fs
unfolding lookup enter insert new_order left sum_ℕ
match_order-IsPartOfAll_example =
    match_order-IsPartOfAll 12 ask ask bids bids-WellFormed bids-Uncrossed refl refl (ground arith)

bids-IsInTime : IsInTime bids
unfolding enter insert lookup
bids-IsInTime j n h = ground (arith, h)

-- The ask is matched at 102 and then at 101, the prices of the bids.
match_order-AllAtMakerPrice_example :
    (fs : List Fill) × (c : OrderBook) × (match_order 12 ask bids ≡ matched fs c)
    × AllAtMakerPrice 3 bids fs
    × IsInTime c
unfolding lookup enter insert new_order left sum_ℕ
match_order-AllAtMakerPrice_example =
    match_order-AllAtMakerPrice 12 ask ask bids bids-WellFormed bids-Uncrossed bids-IsInTime refl
      refl (ground arith)
