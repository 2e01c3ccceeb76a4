-- ===== src/Ledger/Consumer/Tests.antt =====
-- A table of positions as a dict, and a flush into it.
use quant_arena.Prelude.{ℕ, ◌≡◌, refl, List, [], ◌∷◌, nat_eq, pair_eq}
use quant_arena.Prelude.Int.{ℤ, pos}
use quant_arena.Dict.{Dict, lookup, insert, erase, lookup-insert, lookup-erase, get_or}
use quant_arena.Contracts.{fill, StreamItem}
use quant_arena.Ledger.{empty, take_dirty, replay}
use quant_arena.Ledger.Consumer.{PositionTable, flush_positions}
use quant_arena.Ledger.Consumer.Mirror.{row_of, flush_mirrors}

abbrev dict_table : PositionTable
dict_table = record {
  Table = Dict (ℕ × ℕ) ℤ;
  select = λ k t. lookup k t;
  delete = λ k t. erase k t;
  insert_row = λ k v t. insert k v t;
  select-delete = λ k j t. lookup-erase k j t;
  select-insert_row = λ k j v t h. lookup-insert k j v t;
}

-- User 7 buys four units of symbol 3 from user 8.
abbrev traded : List StreamItem
traded =
    record {
      stream_id = "4-0";
      body = fill (record {
        timestamp_ns = 3;
        maker_order_id = 1;
        taker_order_id = 2;
        maker_user_id = 8;
        taker_user_id = 7;
        price_ticks = 5_000;
        qty = 4;
        symbol_id = 3;
        aggressor_side = 1;
      });
    }
    ∷ []

flush_mirrors_example :
    let m = replay traded (take_dirty empty).1 in
    lookup (7, 3) (flush_positions dict_table m []).0 ≡ row_of (get_or (7, 3) (pos 0) m.positions)
unfolding lookup get_or
flush_mirrors_example = flush_mirrors dict_table traded empty [] (λ k. refl) (7, 3)
