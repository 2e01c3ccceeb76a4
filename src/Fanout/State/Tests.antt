-- ===== src/Fanout/State/Tests.antt =====
-- The market state at a concrete stream.
use quant_arena.Prelude.{◌≡◌, refl, List, [], ◌∷◌, nat_eq}
use quant_arena.Dict.{add}
use quant_arena.Contracts.{order_accepted, StreamItem}
use quant_arena.Fanout.State.{
  MarketState, done, state_of, observe, book, drain_dirty, apply, apply_order_accepted, mark_dirty,
  put_book,
}
use quant_arena.Fanout.State.Dirty.{unmarked_book}

abbrev start : MarketState
start = record {
  bar_widths = 1 ∷ 60 ∷ [];
  books = [];
  bars = [];
  tape = record { pending = []; total = 0 };
  last_seq = "0-0";
  records_applied = 0;
  dirty = 3 ∷ [];
  closed_bars = [];
}

abbrev items : List StreamItem
items =
    record {
      stream_id = "2-0";
      body = order_accepted (record {
        timestamp_ns = 2;
        order_id = 1;
        client_order_id = 31;
        user_id = 8;
        price_ticks = 5_000;
        qty = 10;
        symbol_id = 4;
        side = 2;
        tif = 1;
      });
    }
    ∷ []

unmarked_book_example :
    book 3 (state_of (observe items (done (drain_dirty start).1))) ≡ book 3 start
unfolding observe apply apply_order_accepted mark_dirty put_book drain_dirty add
unmarked_book_example = unmarked_book 3 items start refl
