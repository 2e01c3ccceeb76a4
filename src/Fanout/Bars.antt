-- ===== src/Fanout/Bars.antt =====
-- services/fanout/bars.py: the trade tape, which is never conflated, and OHLCV bars, which close
-- when a trade arrives in a later bucket. The proofs are in the modules below.
pub mod Grouping
pub mod Tapes
mod Tests
use quant_arena.Prelude.{
  ℕ, ◌+◌, ◌*◌, ◌/◌, min, max, String, Bool, Option, none, some, List, [], ◌∷◌, ◌++◌, map, ltb, ◌==◌,
  nat_eq, if◌then◌else◌, Result, ok, err,
}
use quant_arena.Dict.{Dict, lookup, get_or, insert, erase}

abbrev pub ns_per_second : ℕ
ns_per_second = 1_000_000_000

pub record Trade : Type 0 where
  pub symbol_id : ℕ
  pub price_ticks : ℕ
  pub qty : ℕ
  pub aggressor_side : ℕ
  pub timestamp_ns : ℕ
  pub seq : String

pub record Bar : Type 0 where
  pub symbol_id : ℕ
  pub bucket_seconds : ℕ
  pub bar_open_ns : ℕ
  pub open_ticks : ℕ
  pub high_ticks : ℕ
  pub low_ticks : ℕ
  pub close_ticks : ℕ
  pub volume : ℕ

unfoldable pub extend : ℕ → ℕ → Bar → Bar
extend price_ticks qty b = record b {
  high_ticks = max b.high_ticks price_ticks;
  low_ticks = min b.low_ticks price_ticks;
  close_ticks = price_ticks;
  volume = b.volume + qty;
}

-- Trades since the last drain, per symbol.
pub record Tape : Type 0 where
  pub pending : Dict ℕ (List Trade)
  pub total : ℕ

unfoldable pub record_trade : Trade → Tape → Tape
record_trade t tape = record {
  pending = insert t.symbol_id (get_or t.symbol_id [] tape.pending ++ (t ∷ [])) tape.pending;
  total = tape.total + 1;
}

unfoldable pub pending_of : ℕ → Tape → List Trade
pending_of symbol_id tape = get_or symbol_id [] tape.pending

unfoldable pub drain : ℕ → Tape → List Trade × Tape
drain symbol_id tape =
    (get_or symbol_id [] tape.pending, record tape { pending = erase symbol_id tape.pending })

pub record BarBuilder : Type 0 where
  pub symbol_id : ℕ
  pub bucket_seconds : ℕ
  pub width_ns : ℕ
  pub current : Option Bar
  pub closed : List Bar

-- The `ValueError` of a width below one second.
pub data BarError : Type 0 where
  width_too_small : BarError

pub new_builder : ℕ → ℕ → Result BarError BarBuilder
new_builder symbol_id bucket_seconds =
    if ltb bucket_seconds 1
    then err width_too_small
    else ok (record {
      symbol_id = symbol_id;
      bucket_seconds = bucket_seconds;
      width_ns = bucket_seconds * ns_per_second;
      current = none;
      closed = [];
    })

unfoldable pub bucket_start : ℕ → BarBuilder → ℕ
bucket_start timestamp_ns b = timestamp_ns / b.width_ns * b.width_ns

-- One print, as a builder takes it.
pub record Print : Type 0 where
  pub price_ticks : ℕ
  pub qty : ℕ
  pub timestamp_ns : ℕ

pub open_bar : Print → BarBuilder → Bar
open_bar p b = record {
  symbol_id = b.symbol_id;
  bucket_seconds = b.bucket_seconds;
  bar_open_ns = bucket_start p.timestamp_ns b;
  open_ticks = p.price_ticks;
  high_ticks = p.price_ticks;
  low_ticks = p.price_ticks;
  close_ticks = p.price_ticks;
  volume = p.qty;
}

pub add_to : Option Bar → Print → BarBuilder → Option Bar × BarBuilder
add_to none p b = (none, record b { current = some (open_bar p b) })
add_to (some c) p b =
    if bucket_start p.timestamp_ns b == c.bar_open_ns
    then (none, record b { current = some (extend p.price_ticks p.qty c) })
    else (some c, record b { closed = b.closed ++ (c ∷ []); current = some (open_bar p b) })

-- The bar that the trade closed, if any.
unfoldable pub add : Print → BarBuilder → Option Bar × BarBuilder
unfolding add_to
add p b = add_to b.current p b

flush_found : Option Bar → BarBuilder → Option Bar × BarBuilder
flush_found none b = (none, record b { current = none })
flush_found (some c) b = (some c, record b { current = none; closed = b.closed ++ (c ∷ []) })

unfoldable pub flush : BarBuilder → Option Bar × BarBuilder
unfolding flush_found
flush b = flush_found b.current b

-- Every configured width, for one symbol.
pub record BarSet : Type 0 where
  pub symbol_id : ℕ
  pub builders : Dict ℕ BarBuilder

-- `__post_init__`: a builder for each width, or the error of the first width that has none.
new_builders : ℕ → List ℕ → Dict ℕ BarBuilder → Result BarError (Dict ℕ BarBuilder)
new_builders symbol_id [] d = ok d
new_builders symbol_id (w ∷ ws) d = elim (new_builder symbol_id w) [
  | err e ↦ err e
  | ok b ↦ new_builders symbol_id ws (insert w b d)
]

unfoldable pub new_set : ℕ → List ℕ → Result BarError BarSet
unfolding new_builders
new_set symbol_id widths = elim (new_builders symbol_id widths []) [
  | err e ↦ err e
  | ok d ↦ ok (record { symbol_id = symbol_id; builders = d })
]

opt_cons : Option Bar → List Bar → List Bar
opt_cons none bars = bars
opt_cons (some b) bars = b ∷ bars

add_all : Print → Dict ℕ BarBuilder → List Bar × Dict ℕ BarBuilder
unfolding opt_cons
add_all p [] = ([], [])
add_all p ((w, b) ∷ d) =
    let (closed, b') = add p b in
    let (bars, d') = add_all p d in (opt_cons closed bars, (w, b') ∷ d')

unfoldable pub add_set : Print → BarSet → List Bar × BarSet
unfolding add_all
add_set p s =
    let (bars, builders) = add_all p s.builders in (bars, record s { builders = builders })
