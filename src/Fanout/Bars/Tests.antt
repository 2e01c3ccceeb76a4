-- ===== src/Fanout/Bars/Tests.antt =====
-- Runs of the tape and of a bar builder, and their theorems at concrete trades.
use quant_arena.Prelude.{ℕ, ◌≡◌, refl, none, List, [], ◌∷◌, ◌++◌, map, nat_eq, ok, err}
use quant_arena.Fanout.Bars.{
  Trade, Tape, Print, BarBuilder, width_too_small, new_builder, add, extend, bucket_start, open_bar,
  pending_of,
}
use quant_arena.Fanout.Bars.Grouping.{bars, add_prints, fresh, groups, bar_of, bars-add_prints}
use quant_arena.Fanout.Bars.Tapes.{TapeEvent, traded, drained, play, trades_of, play_complete}

abbrev builder : BarBuilder
builder = record {
  symbol_id = 3;
  bucket_seconds = 1;
  width_ns = 1_000_000_000;
  current = none;
  closed = [];
}

abbrev prints : List Print
prints =
    record { price_ticks = 100; qty = 5; timestamp_ns = 7 }
    ∷ record { price_ticks = 104; qty = 1; timestamp_ns = 999_999_999 }
    ∷ record { price_ticks = 98; qty = 2; timestamp_ns = 1_000_000_000 }
    ∷ []

widths_checked : (new_builder 3 0 ≡ err width_too_small) × (new_builder 3 1 ≡ ok builder)
unfolding new_builder
widths_checked = (refl, refl)

two_bars :
    bars (add_prints prints builder)
    ≡ record {
      symbol_id = 3;
      bucket_seconds = 1;
      bar_open_ns = 0;
      open_ticks = 100;
      high_ticks = 104;
      low_ticks = 100;
      close_ticks = 104;
      volume = 6;
    }
      ∷ record {
        symbol_id = 3;
        bucket_seconds = 1;
        bar_open_ns = 1_000_000_000;
        open_ticks = 98;
        high_ticks = 98;
        low_ticks = 98;
        close_ticks = 98;
        volume = 2;
      }
      ∷ []
unfolding bars add_prints add extend bucket_start open_bar
two_bars = refl

bars-add_prints_example :
    bars (add_prints prints (fresh builder)) ≡ map (bar_of builder) (groups builder prints)
bars-add_prints_example = bars-add_prints builder prints

abbrev trade : ℕ → ℕ → Trade
trade symbol_id price_ticks = record {
  symbol_id = symbol_id;
  price_ticks = price_ticks;
  qty = 1;
  aggressor_side = 1;
  timestamp_ns = 5;
  seq = "4-0";
}

abbrev evening : List TapeEvent
evening =
    traded (trade 3 100) ∷ traded (trade 4 50) ∷ drained 3 ∷ traded (trade 3 101) ∷ drained 4 ∷ []

abbrev quiet : Tape
quiet = record { pending = []; total = 0 }

play_complete_example :
    let (sent, end) = play 3 evening quiet in
    sent ++ pending_of 3 end ≡ pending_of 3 quiet ++ trades_of 3 evening
play_complete_example = play_complete 3 evening quiet
