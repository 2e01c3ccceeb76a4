-- ===== src/Gateway/Risk/Costs.antt =====
-- What a buy reserves covers whatever its fills charge.
use quant_arena.Prelude.{ℕ, ◌+◌, ◌*◌, ◌/◌, ◌≤◌, ◌≡◌, arith}
use quant_arena.Ledger.{calculate_fees}
use quant_arena.Gateway.Risk.{fee_per_unit, buy_cost}

-- The cost of a buy is additive in its quantity.
pub buy_cost-add : (p a b : ℕ) → buy_cost p (a + b) ≡ buy_cost p a + buy_cost p b
unfolding buy_cost
buy_cost-add p a b = grind arith

fee_per_unit_covers : (p : ℕ) → p * 10 ≤ fee_per_unit p * 10_000
unfolding fee_per_unit
fee_per_unit_covers p = omega arith

pub scaled : (q a b : ℕ) → a ≤ b → q * a ≤ q * b
scaled q a b h = grind arith

-- The taker's fee on a fill of `qty` at or below the limit is at most the fee that was reserved.
taker_fee_covered : (p limit qty : ℕ) → p ≤ limit → p * qty * 10 / 10_000 ≤ qty * fee_per_unit limit
taker_fee_covered p limit qty h = omega (
  arith,
  scaled qty (p * 10) (limit * 10) (omega arith),
  scaled qty (limit * 10) (fee_per_unit limit * 10_000) (fee_per_unit_covers limit),
)

-- A fill of `qty` at or below the limit costs its buyer, as maker or as taker, at most what a buy
-- of `qty` at the limit reserves.
pub buy_cost_covers :
    (p limit qty : ℕ)
    → p ≤ limit
    → let fees = calculate_fees p qty in
      (fees.notional + fees.taker_fee_ticks ≤ buy_cost limit qty)
      × (fees.notional + fees.maker_fee_ticks ≤ buy_cost limit qty)
unfolding calculate_fees buy_cost
buy_cost_covers p limit qty h = (
  omega (arith, taker_fee_covered p limit qty h, scaled qty p limit h),
  omega (arith, taker_fee_covered p limit qty h, scaled qty p limit h),
)
