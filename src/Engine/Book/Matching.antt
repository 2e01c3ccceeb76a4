-- ===== src/Engine/Book/Matching.antt =====
-- The loop of `match`: rounds until no bid reaches an ask.
use quant_arena.Prelude.{
  some, ℕ, zero, suc, ◌+◌, ◌<◌, ◌≡◌, refl, List, [], nat_eq, ◌∷◌, arith, inl, inr,
}
use quant_arena.Dict.{lookup}
use quant_arena.Engine.Book.{Side, buy, sell, Order, Fill, OrderBook, match_all, matched}
use quant_arena.Engine.Book.Settle.{left}
use quant_arena.Engine.Book.Trade.{WellFormed}
use quant_arena.Engine.Book.Round.{Uncrossed, Executed, match_round-cases}

-- The units that a list of fills trades.
unfoldable pub traded_quantity : List Fill → ℕ
traded_quantity [] = 0
traded_quantity (f ∷ fs) = f.quantity + traded_quantity fs

-- Trades one after another, each of the orders that the two sides offer first.
pub data Executions : List Fill → OrderBook → OrderBook → Type 0 where
  at_rest : (b : OrderBook) → Executions [] b b
  then_more :
      (bid ask : Order) (f : Fill) (fs : List Fill) (b b' c : OrderBook)
      → Executed bid ask f b b'
      → Executions fs b' c
      → Executions (f ∷ fs) b c

pub left-Executions :
    (s : Side) (fs : List Fill) (b c : OrderBook)
    → Executions fs b c
    → left s c + traded_quantity fs ≡ left s b
unfolding traded_quantity
left-Executions s fs b c (at_rest d) = ground arith
left-Executions buy fs b c (then_more bid ask f gs d b' e x rest) =
    ground (arith, x.traded.bought, left-Executions buy gs b' e rest)
left-Executions sell fs b c (then_more bid ask f gs d b' e x rest) =
    ground (arith, x.traded.sold, left-Executions sell gs b' e rest)

-- Trades add no order.
pub lookup-Executions :
    (fs : List Fill) (b c : OrderBook)
    → Executions fs b c
    → (j : ℕ) (x : Order) → lookup j c.orders_by_id ≡ some x
    → (y : Order) × (lookup j b.orders_by_id ≡ some y)
lookup-Executions fs b c (at_rest d) j x h = (x, h)
lookup-Executions fs b c (then_more bid ask f gs d b' e t rest) j x h =
    let (y, k) = lookup-Executions gs b' e rest j x h in
    let (z, l, same) = t.traded.stays j y k in (z, l)

-- What `match` does: trades, until the book is at rest.
pub record Matching (fs : List Fill) (b c : OrderBook) : Type 0 where
  pub well : WellFormed c
  pub uncrossed : Uncrossed c
  pub executions : Executions fs b c

-- With more fuel than the bids of a well formed book have units, `match` returns: trades follow one
-- another, each of the orders that the two sides offer first, until no bid reaches an ask.
pub match_all-Matching :
    (fuel : ℕ) (b : OrderBook)
    → WellFormed b
    → left buy b < fuel
    → (fs : List Fill) × (c : OrderBook) × (match_all fuel b ≡ matched fs c) × Matching fs b c
unfolding match_all
match_all-Matching zero b well h = absurd (ground (arith, h))
match_all-Matching (suc fuel) b well h = elim (match_round-cases b well) [
  | inl (e, u) ↦
      ([], b, rw (e, match_all) refl, record { well = well; uncrossed = u; executions = at_rest b })
  | inr (bid, ask, f, b', e, x) ↦
      let (fs, c, r, m) =
        match_all-Matching fuel b' x.traded.after
          (ground (arith, h, x.traded.bought, x.traded.positive)) in
      (
        f ∷ fs,
        c,
        rw (e, r, match_all) refl,
        record {
          well = m.well;
          uncrossed = m.uncrossed;
          executions = then_more bid ask f fs b b' c x m.executions;
        },
      )
]
