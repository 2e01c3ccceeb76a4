-- ===== src/Ledger.antt =====
-- services/ledger/ledger.py: balances, positions, open orders and fees, derived from the outbound
-- stream. The proofs are in the modules below.
pub mod Conservation
pub mod Positions
pub mod Account
pub mod Orders
pub mod Unmarked
pub mod Consumer
mod Tests
use quant_arena.Prelude.{
  ℕ, ◌+◌, ◌-◌, ◌*◌, ◌/◌, String, Bool, true, ◌&&◌, not, Option, none, some, List, [], ◌∷◌, leb,
  ◌==◌, nat_eq, pair_eq, if◌then◌else◌,
}
use quant_arena.Prelude.Int.{ℤ, pos, ◌+ℤ◌, ◌-ℤ◌, is_zero}
use quant_arena.Dict.{Dict, lookup, get_or, insert, erase, add}
use quant_arena.Dict.Shift.{shift, sum_where}
use quant_arena.Contracts.{
  OrderAccepted, Fill, OrderCancelled, AccountCreated, CashCredited, Record, account_created,
  cash_credited, order_accepted, order_cancelled, fill, ignored, StreamItem,
}
use quant_arena.Contracts.Side

abbrev pub maker_fee_bps : ℕ
maker_fee_bps = 2

abbrev pub taker_fee_bps : ℕ
taker_fee_bps = 10

abbrev pub bps_denominator : ℕ
bps_denominator = 10_000

pub record OpenOrderRecord : Type 0 where
  pub order_id : ℕ
  pub client_order_id : ℕ
  pub user_id : ℕ
  pub symbol_id : ℕ
  pub side : ℕ
  pub price_ticks : ℕ
  pub qty : ℕ
  pub remaining_qty : ℕ
  pub tif : ℕ
  pub created_at_ns : ℕ

pub record FeeBreakdown : Type 0 where
  pub notional : ℕ
  pub maker_fee_ticks : ℕ
  pub taker_fee_ticks : ℕ
  pub total_fee_ticks : ℕ

unfoldable pub calculate_fees : ℕ → ℕ → FeeBreakdown
calculate_fees price_ticks qty =
    let notional = price_ticks * qty in
    let maker_fee = notional * maker_fee_bps / bps_denominator in
    let taker_fee = notional * taker_fee_bps / bps_denominator in
    record {
      notional = notional;
      maker_fee_ticks = maker_fee;
      taker_fee_ticks = taker_fee;
      total_fee_ticks = maker_fee + taker_fee;
    }

pub record Ledger : Type 0 where
  pub cash_balances : Dict ℕ ℤ
  pub positions : Dict (ℕ × ℕ) ℤ
  pub open_orders : Dict ℕ OpenOrderRecord
  pub house_fee_ticks : ℕ
  pub total_deposits_ticks : ℤ
  pub last_seq : String
  pub events_processed : ℕ
  pub dirty_accounts : List ℕ
  pub dirty_positions : List (ℕ × ℕ)
  pub dirty_orders : List ℕ

-- `Ledger()`
abbrev pub empty : Ledger
empty = record {
  cash_balances = [];
  positions = [];
  open_orders = [];
  house_fee_ticks = 0;
  total_deposits_ticks = pos 0;
  last_seq = "0-0";
  events_processed = 0;
  dirty_accounts = [];
  dirty_positions = [];
  dirty_orders = [];
}

-- The three sets of keys that `take_dirty` hands over.
pub record Dirty : Type 0 where
  pub accounts : List ℕ
  pub positions : List (ℕ × ℕ)
  pub orders : List ℕ

pub take_dirty : Ledger → Dirty × Ledger
take_dirty l = (
  record { accounts = l.dirty_accounts; positions = l.dirty_positions; orders = l.dirty_orders },
  record l { dirty_accounts = []; dirty_positions = []; dirty_orders = [] },
)

-- `reset` clears every field, the dirty sets by a `take_dirty` whose result is dropped.
pub reset : Ledger → Ledger
unfolding take_dirty
reset l =
    (take_dirty (record l {
      cash_balances = [];
      positions = [];
      open_orders = [];
      house_fee_ticks = 0;
      total_deposits_ticks = pos 0;
      last_seq = "0-0";
      events_processed = 0;
    })).1

-- Who bought and who sold in a fill, and what it does to their cash.
pub record Settlement : Type 0 where
  pub buyer_id : ℕ
  pub seller_id : ℕ
  pub buyer_cash_delta : ℤ
  pub seller_cash_delta : ℤ

-- The aggressor is the taker. (`Side.BUY` is 1, so the two tests of the source are one.)
unfoldable pub settle : Fill → Settlement
unfolding calculate_fees
settle f =
    let fees = calculate_fees f.price_ticks f.qty in
    if f.aggressor_side == Side.buy
    then record {
      buyer_id = f.taker_user_id;
      seller_id = f.maker_user_id;
      buyer_cash_delta = pos 0 -ℤ pos (fees.notional + fees.taker_fee_ticks);
      seller_cash_delta = pos fees.notional -ℤ pos fees.maker_fee_ticks;
    }
    else record {
      buyer_id = f.maker_user_id;
      seller_id = f.taker_user_id;
      buyer_cash_delta = pos 0 -ℤ pos (fees.notional + fees.maker_fee_ticks);
      seller_cash_delta = pos fees.notional -ℤ pos fees.taker_fee_ticks;
    }

-- A fill or a cancellation takes `qty` off an order that is tracked, and drops it at zero or below.
reduce_found : ℕ → ℕ → Option OpenOrderRecord → Dict ℕ OpenOrderRecord → Dict ℕ OpenOrderRecord
reduce_found order_id qty none orders = orders
reduce_found order_id qty (some o) orders =
    if leb o.remaining_qty qty
    then erase order_id orders
    else insert order_id (record o { remaining_qty = o.remaining_qty - qty }) orders

pub reduce_order : ℕ → ℕ → Dict ℕ OpenOrderRecord → Dict ℕ OpenOrderRecord
unfolding reduce_found
reduce_order order_id qty orders = reduce_found order_id qty (lookup order_id orders) orders

unfoldable pub apply_account_created : AccountCreated → Ledger → Ledger
apply_account_created r l = record l {
  cash_balances = insert r.user_id r.initial_cash_ticks l.cash_balances;
  dirty_accounts = add r.user_id l.dirty_accounts;
  total_deposits_ticks = l.total_deposits_ticks +ℤ r.initial_cash_ticks;
}

unfoldable pub apply_cash_credited : CashCredited → Ledger → Ledger
apply_cash_credited r l = record l {
  cash_balances = shift r.user_id r.amount_ticks l.cash_balances;
  dirty_accounts = add r.user_id l.dirty_accounts;
  total_deposits_ticks = l.total_deposits_ticks +ℤ r.amount_ticks;
}

unfoldable pub apply_order_accepted : OrderAccepted → Ledger → Ledger
apply_order_accepted r l = record l {
  dirty_orders = add r.order_id l.dirty_orders;
  open_orders =
      insert r.order_id
        (record {
          order_id = r.order_id;
          client_order_id = r.client_order_id;
          user_id = r.user_id;
          symbol_id = r.symbol_id;
          side = r.side;
          price_ticks = r.price_ticks;
          qty = r.qty;
          remaining_qty = r.qty;
          tif = r.tif;
          created_at_ns = r.timestamp_ns;
        })
        l.open_orders;
}

unfoldable pub apply_order_cancelled : OrderCancelled → Ledger → Ledger
unfolding reduce_order
apply_order_cancelled r l = record l {
  dirty_orders = add r.order_id l.dirty_orders;
  open_orders = reduce_order r.order_id r.remaining_qty l.open_orders;
}

-- The seller's balance is read after the buyer's was written: they may be one user.
unfoldable pub apply_fill : Fill → Ledger → Ledger
apply_fill r l =
    let fees = calculate_fees r.price_ticks r.qty in
    let s = settle r in
    let buyer_key : ℕ × ℕ = (s.buyer_id, r.symbol_id) in
    let seller_key : ℕ × ℕ = (s.seller_id, r.symbol_id) in
    record l {
      house_fee_ticks = l.house_fee_ticks + fees.total_fee_ticks;
      cash_balances =
          shift s.seller_id s.seller_cash_delta
            (shift s.buyer_id s.buyer_cash_delta l.cash_balances);
      dirty_accounts = add s.seller_id (add s.buyer_id l.dirty_accounts);
      dirty_orders = add r.taker_order_id (add r.maker_order_id l.dirty_orders);
      positions = shift seller_key (pos 0 -ℤ pos r.qty) (shift buyer_key (pos r.qty) l.positions);
      dirty_positions = add seller_key (add buyer_key l.dirty_positions);
      open_orders =
          reduce_order r.taker_order_id r.qty (reduce_order r.maker_order_id r.qty l.open_orders);
    }

unfoldable pub dispatch : Record → Ledger → Ledger
dispatch (account_created r) l = apply_account_created r l
dispatch (cash_credited r) l = apply_cash_credited r l
dispatch (order_accepted r) l = apply_order_accepted r l
dispatch (order_cancelled r) l = apply_order_cancelled r l
dispatch (fill r) l = apply_fill r l
dispatch ignored l = l

-- `apply(record, stream_id)`
unfoldable pub apply : Record → Option String → Ledger → Ledger
unfolding dispatch
apply r stream_id l = dispatch r (record l {
  last_seq = (elim stream_id [ none ↦ l.last_seq | some id ↦ id ]);
  events_processed = l.events_processed + 1;
})

pub get_balance : Ledger → ℕ → ℤ
get_balance l user_id = get_or user_id (pos 0) l.cash_balances

pub get_position : Ledger → ℕ → ℕ → ℤ
get_position l user_id symbol_id = get_or (user_id, symbol_id) (pos 0) l.positions

positions_of : ℕ → Dict (ℕ × ℕ) ℤ → Dict ℕ ℤ
positions_of user_id [] = []
positions_of user_id (((uid, sym), qty) ∷ d) =
    let rest = positions_of user_id d in
    if uid == user_id && not (is_zero qty) then (sym, qty) ∷ rest else rest

pub get_user_positions : Ledger → ℕ → Dict ℕ ℤ
unfolding positions_of
get_user_positions l user_id = positions_of user_id l.positions

orders_of : ℕ → Dict ℕ OpenOrderRecord → List OpenOrderRecord
orders_of user_id [] = []
orders_of user_id ((id, o) ∷ d) =
    let rest = orders_of user_id d in if o.user_id == user_id then o ∷ rest else rest

pub get_open_orders : Ledger → ℕ → List OpenOrderRecord
unfolding orders_of
get_open_orders l user_id = orders_of user_id l.open_orders

pub total_user_cash : Ledger → ℤ
total_user_cash l = sum_where (λ _. true) l.cash_balances

pub total_system_cash : Ledger → ℤ
unfolding total_user_cash
total_system_cash l = total_user_cash l +ℤ pos l.house_fee_ticks

-- The loop of `LedgerConsumer._replay_after` over the items of its batches.
unfoldable pub replay : List StreamItem → Ledger → Ledger
replay [] l = l
replay (item ∷ items) l = replay items (apply item.body (some item.stream_id) l)
