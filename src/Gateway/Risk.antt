-- ===== src/Gateway/Risk.antt =====
-- services/gateway/risk.py: reservations and pre-trade checks, in the gateway's memory. A buy
-- commits cash and a sell commits units. The proofs are in the modules below.
pub mod Costs
pub mod Agreement
pub mod Backing
pub mod Invariant
pub mod Market
pub mod Matched
pub mod Solvency
pub mod Life
mod Tests
mod Overtaken
use quant_arena.Prelude.{
  ℕ, ◌+◌, ◌-◌, ◌*◌, ◌/◌, min, max, String, Bool, ◌&&◌, true, false, Option, none, some, List, [],
  ◌∷◌, ltb, ◌==◌, nat_eq, pair_eq, if◌then◌else◌, Result, ok, err,
}
use quant_arena.Prelude.Int.{ℤ, pos, ◌+ℤ◌, ◌-ℤ◌, ltb_ℤ}
use quant_arena.Dict.{Dict, lookup, get_or, insert, erase, contains}
use quant_arena.Dict.Shift.{shift}
use quant_arena.Dict.Counts.{gain, drop_to_zero}
use quant_arena.Contracts.{
  OrderAccepted, Fill, OrderCancelled, AccountCreated, CashCredited, Record, account_created,
  cash_credited, order_accepted, order_cancelled, fill, ignored, RejectReason, insufficient_cash,
  insufficient_position, StreamItem,
}
use quant_arena.Dict.Extremes.{highest, lowest}
use quant_arena.Contracts.Side
use quant_arena.Ledger.{calculate_fees, taker_fee_bps, bps_denominator}

-- `-(-price * bps // denominator)`: the floor of a negative quotient, negated, is the ceiling.
pub fee_per_unit : ℕ → ℕ
fee_per_unit price_ticks = (price_ticks * taker_fee_bps + (bps_denominator - 1)) / bps_denominator

pub buy_cost : ℕ → ℕ → ℕ
unfolding fee_per_unit
buy_cost price_ticks qty = qty * (price_ticks + fee_per_unit price_ticks)

pub record Reservation : Type 0 where
  pub user_id : ℕ
  pub order_id : Option ℕ
  pub client_order_id : ℕ
  pub symbol_id : ℕ
  pub side : ℕ
  pub price_ticks : ℕ
  pub qty : ℕ

pub record RiskState : Type 0 where
  pub settled_cash : Dict ℕ ℤ
  pub reserved : Dict ℕ ℕ
  pub positions : Dict (ℕ × ℕ) ℤ
  pub reserved_qty : Dict (ℕ × ℕ) ℕ
  pub pending_by_client : Dict (ℕ × ℕ) Reservation
  pub open_orders : Dict ℕ Reservation
  pub market_makers : List ℕ
  pub last_seq : String

-- `RiskState()`
abbrev pub empty : RiskState
empty = record {
  settled_cash = [];
  reserved = [];
  positions = [];
  reserved_qty = [];
  pending_by_client = [];
  open_orders = [];
  market_makers = [];
  last_seq = "0-0";
}

-- The prices of the resting orders of one side of a symbol.
resting_prices : ℕ → ℕ → Dict ℕ Reservation → List ℕ
resting_prices symbol_id side [] = []
resting_prices symbol_id side ((id, o) ∷ d) =
    let rest = resting_prices symbol_id side d in
    if o.symbol_id == symbol_id && o.side == side && ltb 0 o.qty then o.price_ticks ∷ rest else rest

pub best_ask : ℕ → RiskState → Option ℕ
unfolding resting_prices
best_ask symbol_id s = lowest (resting_prices symbol_id Side.sell s.open_orders)

pub best_bid : ℕ → RiskState → Option ℕ
unfolding resting_prices
best_bid symbol_id s = highest (resting_prices symbol_id Side.buy s.open_orders)

-- The limit of a market order. (A band of more than 10 000 bps leaves a sell at one tick: the
-- source's product is then negative, and here 0.)
pub banded_market_price : ℕ → ℕ → ℕ → RiskState → Option ℕ
banded_market_price symbol_id side band_bps s =
    if side == Side.buy
    then (elim (best_ask symbol_id s) [
      | none ↦ none
      | some reference ↦ some ((reference * (10_000 + band_bps) + 9_999) / 10_000)
    ])
    else (elim (best_bid symbol_id s) [
      | none ↦ none
      | some reference ↦ some (max 1 (reference * (10_000 - band_bps) / 10_000))
    ])

pub available_cash : ℕ → RiskState → ℤ
available_cash user_id s =
    get_or user_id (pos 0) s.settled_cash -ℤ pos (get_or user_id 0 s.reserved)

pub position : ℕ → ℕ → RiskState → ℤ
position user_id symbol_id s = get_or (user_id, symbol_id) (pos 0) s.positions

pub available_position : ℕ → ℕ → RiskState → ℤ
available_position user_id symbol_id s =
    get_or (user_id, symbol_id) (pos 0) s.positions
    -ℤ pos (get_or (user_id, symbol_id) 0 s.reserved_qty)

pub is_market_maker : ℕ → RiskState → Bool
is_market_maker user_id s = contains user_id s.market_makers

-- The arguments of `reserve` and `reject_reason_for`.
pub record Request : Type 0 where
  pub user_id : ℕ
  pub client_order_id : ℕ
  pub symbol_id : ℕ
  pub side : ℕ
  pub price_ticks : ℕ
  pub qty : ℕ

pub reject_reason_for : Request → RiskState → Option RejectReason
unfolding is_market_maker
reject_reason_for q s =
    if q.side == Side.buy
    then (if ltb_ℤ (available_cash q.user_id s) (pos (buy_cost q.price_ticks q.qty))
        then some insufficient_cash
        else none)
    else if is_market_maker q.user_id s
    then none
    else if ltb_ℤ (available_position q.user_id q.symbol_id s) (pos q.qty)
    then some insufficient_position
    else none

-- What an order commits: cash for a buy, units for a sell.
pub commit : Reservation → RiskState → RiskState
commit r s =
    if r.side == Side.buy
    then record s { reserved = gain r.user_id (buy_cost r.price_ticks r.qty) s.reserved }
    else record s { reserved_qty = gain (r.user_id, r.symbol_id) r.qty s.reserved_qty }

pub reservation_of : Request → Reservation
reservation_of q = record {
  user_id = q.user_id;
  order_id = none;
  client_order_id = q.client_order_id;
  symbol_id = q.symbol_id;
  side = q.side;
  price_ticks = q.price_ticks;
  qty = q.qty;
}

-- What `reserve` writes once the check has passed.
pub grant : Request → RiskState → Reservation × RiskState
unfolding reservation_of
grant q s =
    let r = reservation_of q in
    let s' = commit r s in
    (
      r,
      record s' {
        pending_by_client = insert (q.user_id, q.client_order_id) r s'.pending_by_client;
      },
    )

-- A refusal raises before anything is written.
pub reserve : Request → RiskState → Result RejectReason (Reservation × RiskState)
reserve q s = elim (reject_reason_for q s) [ some reason ↦ err reason | none ↦ ok (grant q s) ]

unfoldable pub release : Reservation → ℕ → RiskState → RiskState
release r qty s =
    if r.side == Side.buy
    then record s { reserved = drop_to_zero r.user_id (buy_cost r.price_ticks qty) s.reserved }
    else record s { reserved_qty = drop_to_zero (r.user_id, r.symbol_id) qty s.reserved_qty }

pub retire : Option Reservation → ℕ → RiskState → RiskState
retire none order_id s = s
retire (some r) order_id s =
    release r r.qty (record s { open_orders = erase order_id s.open_orders })

-- `_release_remaining`: the order leaves, with everything that it still committed.
pub release_remaining : ℕ → RiskState → RiskState
unfolding retire
release_remaining order_id s = retire (lookup order_id s.open_orders) order_id s

-- The reservation is shared with the table of open orders, so its quantity falls there; `-` on ℕ
-- is the source's `max(0, qty - filled)`.
pub shrink : Reservation → ℕ → ℕ → RiskState → RiskState
shrink r order_id qty s =
    if r.qty - qty == 0
    then record s { open_orders = erase order_id s.open_orders }
    else record s { open_orders = insert order_id (record r { qty = r.qty - qty }) s.open_orders }

pub fill_found : Option Reservation → ℕ → ℕ → RiskState → RiskState
unfolding shrink
fill_found none order_id qty s = s
fill_found (some r) order_id qty s = shrink r order_id qty (release r qty s)

-- `_release_fill`
pub release_fill : ℕ → ℕ → RiskState → RiskState
unfolding fill_found
release_fill order_id qty s = fill_found (lookup order_id s.open_orders) order_id qty s

pub replayed_reservation : OrderAccepted → Reservation
replayed_reservation o = record {
  user_id = o.user_id;
  order_id = some o.order_id;
  client_order_id = o.client_order_id;
  symbol_id = o.symbol_id;
  side = o.side;
  price_ticks = o.price_ticks;
  qty = o.qty;
}

-- An accepted order whose reservation is pending takes it over; one that is replayed has none,
-- and commits anew.
pub accept_found : Option Reservation → OrderAccepted → RiskState → RiskState
accept_found (some pending) o s = record s {
  pending_by_client = erase (o.user_id, o.client_order_id) s.pending_by_client;
  open_orders = insert o.order_id (record pending { order_id = some o.order_id }) s.open_orders;
}
accept_found none o s =
    let r = replayed_reservation o in
    let s' = commit r s in record s' { open_orders = insert o.order_id r s'.open_orders }

pub apply_order_accepted : OrderAccepted → RiskState → RiskState
unfolding accept_found
apply_order_accepted o s =
    accept_found (lookup (o.user_id, o.client_order_id) s.pending_by_client) o s

-- Who bought and who sold, and what it does to their cash: as in the ledger, written out anew.
pub record Settlement : Type 0 where
  pub buyer_id : ℕ
  pub seller_id : ℕ
  pub buyer_delta : ℤ
  pub seller_delta : ℤ

pub settle : Fill → Settlement
unfolding calculate_fees
settle f =
    let fees = calculate_fees f.price_ticks f.qty in
    if f.aggressor_side == Side.buy
    then record {
      buyer_id = f.taker_user_id;
      seller_id = f.maker_user_id;
      buyer_delta = pos 0 -ℤ pos (fees.notional + fees.taker_fee_ticks);
      seller_delta = pos fees.notional -ℤ pos fees.maker_fee_ticks;
    }
    else record {
      buyer_id = f.maker_user_id;
      seller_id = f.taker_user_id;
      buyer_delta = pos 0 -ℤ pos (fees.notional + fees.maker_fee_ticks);
      seller_delta = pos fees.notional -ℤ pos fees.taker_fee_ticks;
    }

-- The balances and the inventory of a fill, before the reservations are touched.
pub settle_fill : Fill → RiskState → RiskState
settle_fill f s =
    let t = settle f in
    let buyer_key : ℕ × ℕ = (t.buyer_id, f.symbol_id) in
    let seller_key : ℕ × ℕ = (t.seller_id, f.symbol_id) in
    record s {
      settled_cash =
          shift t.seller_id t.seller_delta (shift t.buyer_id t.buyer_delta s.settled_cash);
      positions = shift seller_key (pos 0 -ℤ pos f.qty) (shift buyer_key (pos f.qty) s.positions);
    }

pub apply_fill : Fill → RiskState → RiskState
apply_fill f s =
    release_fill f.taker_order_id f.qty (release_fill f.maker_order_id f.qty (settle_fill f s))

pub dispatch : Record → RiskState → RiskState
dispatch (account_created r) s = record s {
  settled_cash = insert r.user_id r.initial_cash_ticks s.settled_cash;
}
dispatch (cash_credited r) s = record s {
  settled_cash = shift r.user_id r.amount_ticks s.settled_cash;
}
dispatch (order_accepted o) s = apply_order_accepted o s
dispatch (order_cancelled o) s = release_remaining o.order_id s
dispatch (fill f) s = apply_fill f s
dispatch ignored s = s

-- `apply(record, stream_id=...)`
pub apply : Record → Option String → RiskState → RiskState
unfolding dispatch
apply r stream_id s =
    dispatch r (record s { last_seq = (elim stream_id [ none ↦ s.last_seq | some id ↦ id ]) })

-- The loop of `replay_from_stream` over the items of its batches.
pub replay : List StreamItem → RiskState → RiskState
replay [] s = s
replay (item ∷ items) s = replay items (apply item.body (some item.stream_id) s)
