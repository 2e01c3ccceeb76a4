-- ===== src/Engine/Book.antt =====
-- engine/naive_model.py: the order book that says what matching means. An order is one object, that
-- its price level and `orders_by_id` share: here the table holds it, and a level holds its id. A level's
-- own check of its price is left out, since it repeats that of the order it is made for.
pub mod Linked
pub mod Steps
pub mod Settle
pub mod Trade
pub mod Best
pub mod Round
pub mod Matching
pub mod Enter
pub mod Orders
pub mod Incoming
pub mod Maker
pub mod Empty
pub mod Tests
use quant_arena.Prelude.{
  ℕ, zero, suc, ◌+◌, ◌-◌, min, max, String, Bool, true, false, Option, none, some, List, [], ◌∷◌,
  ◌++◌, ltb, leb, ◌==◌, nat_eq, if◌then◌else◌, Result, ok, err, ◌>>=◌,
}
use quant_arena.Dict.{Dict, lookup, get_or, insert, erase, contains, keys}
use quant_arena.Dict.Extremes.{highest, lowest}
use quant_arena.Dict.Queues.{discard}

pub data Side : Type 0 where
  buy : Side
  sell : Side

pub record Order : Type 0 where
  pub order_id : ℕ
  pub user_id : ℕ
  pub symbol : String
  pub side : Side
  pub price : ℕ
  pub quantity : ℕ
  pub created_at : ℕ
  pub remaining_quantity : ℕ

pub record Fill : Type 0 where
  pub buy_order_id : ℕ
  pub sell_order_id : ℕ
  pub symbol : String
  pub price : ℕ
  pub quantity : ℕ

-- The `ValueError`s, and a `KeyError`.
pub data BookError : Type 0 where
  bad_price : BookError
  bad_quantity : BookError
  too_much : BookError
  already_exists : BookError
  not_in_level : BookError
  no_arrival : BookError

-- `Order(...)`, with the checks of `__post_init__`.
unfoldable pub new_order : Order → Result BookError Order
new_order o =
    if o.price == 0
    then err bad_price
    else if o.quantity == 0
    then err bad_quantity
    else ok (record o { remaining_quantity = o.quantity })

unfoldable pub reduce : ℕ → Order → Result BookError Order
reduce qty o =
    if qty == 0
    then err bad_quantity
    else if ltb o.remaining_quantity qty
    then err too_much
    else ok (record o { remaining_quantity = o.remaining_quantity - qty })

-- A price level is its queue: the price is the key that it stands under.
pub record OrderBook : Type 0 where
  pub bids : Dict ℕ (List ℕ)
  pub asks : Dict ℕ (List ℕ)
  pub orders_by_id : Dict ℕ Order
  pub arrival_sequence : Dict ℕ ℕ
  pub next_arrival_sequence : ℕ

abbrev pub empty : OrderBook
empty = record {
  bids = [];
  asks = [];
  orders_by_id = [];
  arrival_sequence = [];
  next_arrival_sequence = 0;
}

abbrev pub side_map : Side → OrderBook → Dict ℕ (List ℕ)
side_map buy b = b.bids
side_map sell b = b.asks

abbrev pub put_side : Side → Dict ℕ (List ℕ) → OrderBook → OrderBook
put_side buy d b = record b { bids = d }
put_side sell d b = record b { asks = d }

-- The order of a level, oldest first; no level is no order.
unfoldable pub queue : Side → ℕ → OrderBook → List ℕ
queue side price b = get_or price [] (side_map side b)

-- An order that is not in the book yet, appended to its level.
unfoldable pub enter : Order → OrderBook → OrderBook
enter o b =
    put_side o.side
      (insert o.price (queue o.side o.price b ++ (o.order_id ∷ [])) (side_map o.side b))
      (record b {
        orders_by_id = insert o.order_id o b.orders_by_id;
        arrival_sequence = insert o.order_id b.next_arrival_sequence b.arrival_sequence;
        next_arrival_sequence = b.next_arrival_sequence + 1;
      })

-- `add_order`, not matched yet.
unfoldable pub add_order : Order → OrderBook → Result BookError OrderBook
unfolding enter
add_order o b = elim (lookup o.order_id b.orders_by_id) [
  | some old ↦ err already_exists
  | none ↦ ok (enter o b)
]

-- A level without orders is deleted.
unfoldable pub set_level : Side → ℕ → List ℕ → OrderBook → OrderBook
set_level side price [] b = put_side side (erase price (side_map side b)) b
set_level side price (id ∷ ids) b = put_side side (insert price (id ∷ ids) (side_map side b)) b

unfoldable pub unlink_from : Option (List ℕ) → Order → OrderBook → Result BookError OrderBook
unfolding set_level
unlink_from none o b = ok b
unlink_from (some ids) o b =
    if contains o.order_id ids
    then ok (set_level o.side o.price (discard o.order_id ids) b)
    else err not_in_level

-- What is left to do once the order was popped from the two tables.
unfoldable pub unlink : Order → OrderBook → Result BookError OrderBook
unfolding unlink_from
unlink o b = unlink_from (lookup o.price (side_map o.side b)) o b

unfoldable pub remove_found : Option Order → ℕ → OrderBook → Result BookError OrderBook
unfolding unlink
remove_found none order_id b = ok b
remove_found (some o) order_id b = unlink o (record b {
  orders_by_id = erase order_id b.orders_by_id;
  arrival_sequence = erase order_id b.arrival_sequence;
})

-- The book that `remove_order` leaves; the order that it returns is the one that the table had.
unfoldable pub remove_order : ℕ → OrderBook → Result BookError OrderBook
unfolding remove_found
remove_order order_id b = remove_found (lookup order_id b.orders_by_id) order_id b

unfoldable pub best_bid : OrderBook → Option ℕ
best_bid b = highest (keys b.bids)

unfoldable pub best_ask : OrderBook → Option ℕ
best_ask b = lowest (keys b.asks)

-- `PriceLevel.first`, as the object.
unfoldable pub first_of : List ℕ → OrderBook → Option Order
first_of [] b = none
first_of (id ∷ ids) b = lookup id b.orders_by_id

unfoldable pub first_order : Side → ℕ → OrderBook → Option Order
unfolding first_of
first_order side price b = first_of (queue side price b) b

-- The order that arrived first makes the price.
unfoldable pub trade_price : Order → Order → ℕ → ℕ → ℕ
trade_price bid ask bid_arrival ask_arrival =
    if ltb bid_arrival ask_arrival then bid.price else ask.price

-- `reduce`, which the table sees, since the object is shared.
unfoldable pub reduce_in : ℕ → Order → OrderBook → Result BookError (Order × OrderBook)
reduce_in qty o b = elim (reduce qty o) [
  | err e ↦ err e
  | ok o' ↦ ok (o', record b { orders_by_id = insert o.order_id o' b.orders_by_id })
]

unfoldable pub remove_filled : Order → OrderBook → Result BookError OrderBook
remove_filled o b = if o.remaining_quantity == 0 then remove_order o.order_id b else ok b

-- Both orders are reduced, then those that are filled leave.
unfoldable pub settle : ℕ → Order → Order → OrderBook → Result BookError OrderBook
unfolding reduce_in remove_filled
settle qty bid ask b = do
  (bid', b1) ← reduce_in qty bid b
  (ask', b2) ← reduce_in qty ask b1
  b3 ← remove_filled bid' b2
  remove_filled ask' b3

-- One round of `match`: nothing crosses, or a trade and the book after it.
unfoldable pub trade : Order → Order → OrderBook → Result BookError (Option (Fill × OrderBook))
trade bid ask b =
    let qty = min bid.remaining_quantity ask.remaining_quantity in
    elim (lookup bid.order_id b.arrival_sequence) [
      | none ↦ err no_arrival
      | some i ↦ elim (lookup ask.order_id b.arrival_sequence) [
        | none ↦ err no_arrival
        | some j ↦ elim (settle qty bid ask b) [
          | err e ↦ err e
          | ok b' ↦ ok (
              some (
                record {
                  buy_order_id = bid.order_id;
                  sell_order_id = ask.order_id;
                  symbol = ask.symbol;
                  price = trade_price bid ask i j;
                  quantity = qty;
                },
                b',
              ))
        ]
      ]
    ]

unfoldable pub cross :
    Option Order → Option Order → OrderBook → Result BookError (Option (Fill × OrderBook))
unfolding trade
cross (some bid) (some ask) b = trade bid ask b
cross none ask b = ok none
cross (some bid) none b = ok none

unfoldable pub round_at :
    Option ℕ → Option ℕ → OrderBook → Result BookError (Option (Fill × OrderBook))
unfolding cross
round_at (some p) (some a) b =
    if ltb p a then ok none else cross (first_order buy p b) (first_order sell a b) b
round_at none a b = ok none
round_at (some p) none b = ok none

unfoldable pub match_round : OrderBook → Result BookError (Option (Fill × OrderBook))
unfolding round_at
match_round b = round_at (best_bid b) (best_ask b) b

-- The `while True` of `match`. Running out of fuel is an outcome of its own.
pub data Outcome : Type 0 where
  matched : List Fill → OrderBook → Outcome
  failed : BookError → Outcome
  out_of_fuel : Outcome

abbrev pub also : Fill → Outcome → Outcome
also f (matched fs b) = matched (f ∷ fs) b
also f (failed e) = failed e
also f out_of_fuel = out_of_fuel

unfoldable pub match_all : ℕ → OrderBook → Outcome
match_all zero b = out_of_fuel
match_all (suc fuel) b = elim (match_round b) [
  | err e ↦ failed e
  | ok none ↦ matched [] b
  | ok (some (f, b')) ↦ also f (match_all fuel b')
]

-- `match_order`: the order joins the book, and the book is matched.
unfoldable pub match_order : ℕ → Order → OrderBook → Outcome
unfolding add_order match_all
match_order fuel o b = elim (add_order o b) [ err e ↦ failed e | ok b' ↦ match_all fuel b' ]
