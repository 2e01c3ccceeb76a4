-- ===== src/Fanout/State.antt =====
-- services/fanout/state.py: books, tape and bars for every symbol, folded from the outbound stream.

pub mod Dirty
mod Tests
use quant_arena.Prelude.{
  ℕ, ◌+◌, String, Option, none, some, List, [], ◌∷◌, ◌++◌, nat_eq, Result, ok, err,
}
use quant_arena.Dict.{Dict, lookup, get_or, insert, add}
use quant_arena.Contracts
use quant_arena.Contracts.{
  OrderAccepted, Fill, OrderCancelled, Record, account_created, cash_credited, order_accepted,
  order_cancelled, fill, ignored, StreamItem,
}
use quant_arena.Fanout.Book
use quant_arena.Fanout.Book.{Book}
use quant_arena.Fanout.Bars.{Trade, Bar, Print, Tape, BarSet, new_set, add_set, record_trade}

pub record MarketState : Type 0 where
  pub bar_widths : List ℕ
  pub books : Dict ℕ Book
  pub bars : Dict ℕ BarSet
  pub tape : Tape
  pub last_seq : String
  pub records_applied : ℕ
  pub dirty : List ℕ
  pub closed_bars : List Bar

abbrev pub new_book : ℕ → Book
new_book symbol_id = record { symbol_id = symbol_id; orders = [] }

-- `book(symbol_id)`: the book, created on first sight. What follows writes it back.
pub book : ℕ → MarketState → Book
book symbol_id m = get_or symbol_id (new_book symbol_id) m.books

pub put_book : ℕ → Book → MarketState → MarketState
put_book symbol_id b m = record m { books = insert symbol_id b m.books }

pub mark_dirty : ℕ → MarketState → MarketState
mark_dirty symbol_id m = record m { dirty = add symbol_id m.dirty }

-- `bar_set(symbol_id)`. The configured widths are at least one second; a set that cannot be built
-- raises, which `none` stands for.
pub bar_set : ℕ → MarketState → Option BarSet
bar_set symbol_id m = elim (lookup symbol_id m.bars) [
  | some s ↦ some s
  | none ↦ (elim (new_set symbol_id m.bar_widths) [ ok s ↦ some s | err e ↦ none ])
]

-- How a call ended: what was written before a raise stays written.
pub data Outcome : Type 0 where
  done : MarketState → Outcome
  raised : MarketState → Outcome

abbrev pub state_of : Outcome → MarketState
state_of (done m) = m
state_of (raised m) = m

apply_order_accepted : OrderAccepted → MarketState → MarketState
apply_order_accepted r m =
    let m' = mark_dirty r.symbol_id m in
    put_book r.symbol_id (Book.accept r.order_id r.side r.price_ticks r.qty (book r.symbol_id m'))
      m'

-- Both sides of a fill shrink the book.
fill_books : Fill → MarketState → MarketState
fill_books r m =
    let m' = mark_dirty r.symbol_id m in
    put_book r.symbol_id
      (Book.fill r.taker_order_id r.qty (Book.fill r.maker_order_id r.qty (book r.symbol_id m'))) m'

trade_of : Fill → String → Trade
trade_of r seq = record {
  symbol_id = r.symbol_id;
  price_ticks = r.price_ticks;
  qty = r.qty;
  aggressor_side = r.aggressor_side;
  timestamp_ns = r.timestamp_ns;
  seq = seq;
}

print_of : Fill → Print
print_of r = record { price_ticks = r.price_ticks; qty = r.qty; timestamp_ns = r.timestamp_ns }

advance_bars : Option BarSet → Fill → MarketState → Outcome
unfolding print_of
advance_bars none r m = raised m
advance_bars (some s) r m =
    let (closed, s') = add_set (print_of r) s in
    done (record m { bars = insert r.symbol_id s' m.bars; closed_bars = m.closed_bars ++ closed })

-- `last_seq` has been set to the item's own id by now, so `stream_id or self.last_seq` is it.
apply_fill : Fill → MarketState → Outcome
unfolding trade_of advance_bars
apply_fill r m =
    let m' = fill_books r m in
    let m'' = record m' { tape = record_trade (trade_of r m'.last_seq) m'.tape } in
    advance_bars (bar_set r.symbol_id m'') r m''

apply_order_cancelled : OrderCancelled → MarketState → MarketState
apply_order_cancelled r m =
    let m' = mark_dirty r.symbol_id m in
    put_book r.symbol_id (Book.cancel r.order_id (book r.symbol_id m')) m'

dispatch : Record → MarketState → Outcome
dispatch (order_accepted r) m = done (apply_order_accepted r m)
dispatch (fill r) m = apply_fill r m
dispatch (order_cancelled r) m = done (apply_order_cancelled r m)
dispatch (account_created r) m = done m
dispatch (cash_credited r) m = done m
dispatch ignored m = done m

pub apply : Record → Option String → MarketState → Outcome
unfolding dispatch
apply r stream_id m = dispatch r (record m {
  last_seq = (elim stream_id [ none ↦ m.last_seq | some id ↦ id ]);
  records_applied = m.records_applied + 1;
})

pub drain_dirty : MarketState → List ℕ × MarketState
drain_dirty m = (m.dirty, record m { dirty = [] })

pub drain_closed_bars : MarketState → List Bar × MarketState
drain_closed_bars m = (m.closed_bars, record m { closed_bars = [] })

-- A loop that applies the items of a batch; a raise leaves it.
pub observe : List StreamItem → Outcome → Outcome
observe [] o = o
observe (item ∷ items) (raised m) = raised m
observe (item ∷ items) (done m) = observe items (apply item.body (some item.stream_id) m)
