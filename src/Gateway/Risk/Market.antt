-- ===== src/Gateway/Risk/Market.antt =====
-- The top of the book that the risk state derives, and the band of a market order.
use quant_arena.Prelude.{
  ℕ, ◌+◌, ◌-◌, ◌*◌, ◌/◌, ◌≤◌, ◌<◌, max, ◌≡◌, refl, sym, ap, ◌∙◌, true, ◌&&◌, none, some, [], ◌∷◌,
  arith, inl, inr, ltb, ◌⊎◌, ◌==◌, Bool-cases, Option-cases, ==-cases, ==-refl, nat_eq,
}
use quant_arena.Dict.{Dict, lookup, contains, IsUnique}
use quant_arena.Dict.Extremes.{
  highest, lowest, highest-none, lowest-none, contains-highest, contains-lowest, highest_bounds,
  lowest_bounds,
}
use quant_arena.Contracts.Side
use quant_arena.Gateway.Risk.Costs.{scaled}
use quant_arena.Gateway.Risk.{
  Reservation, RiskState, resting_prices, best_ask, best_bid, banded_market_price,
}

-- An order that rests on one side of a symbol with something left.
abbrev pub Rests : ℕ → ℕ → Reservation → Type 0
Rests symbol side r = (r.symbol_id ≡ symbol) × (r.side ≡ side) × (0 < r.qty)

-- Some order rests on the side at the price.
pub record IsPriceOf (symbol side price : ℕ) (s : RiskState) : Type 0 where
  pub holder : ℕ
  pub order : Reservation
  pub found : lookup holder s.open_orders ≡ some order
  pub rests : Rests symbol side order
  pub priced : order.price_ticks ≡ price

-- A listed price is that of an order on the side.
order_of_price :
    (symbol side p : ℕ) (d : Dict ℕ Reservation)
    → IsUnique d
    → contains p (resting_prices symbol side d) ≡ true
    → (id : ℕ) × (r : Reservation) × (lookup id d ≡ some r)
      × Rests symbol side r
      × (r.price_ticks ≡ p)
unfolding resting_prices lookup contains
order_of_price symbol side p [] u h = cc h
order_of_price symbol side p ((j, o) ∷ d) u h =
    elim (Bool-cases
      (o.symbol_id == symbol && o.side == side && ltb 0 o.qty && o.price_ticks == p)) [
        | inl t ↦ (
          j,
          o,
          rw (==-refl j) refl,
          (ground (arith, t), ground (arith, t), ground (arith, t)),
          ground (arith, t),
        )
        | inr t ↦
            let (id, r, found, rests, priced) =
              order_of_price symbol side p d u.1 (ground (arith, t, h)) in
            (
              id,
              r,
              elim (==-cases j id) [
                | inl (c, e) ↦ absurd (cc (sym u.0 ∙ ap (λ k. lookup k d) e ∙ found))
                | inr (c, n) ↦ rw c found
              ],
              rests,
              priced,
            )
      ]

-- The price of an order on the side is listed.
price_of_order :
    (symbol side id : ℕ) (r : Reservation) (d : Dict ℕ Reservation)
    → lookup id d ≡ some r
    → Rests symbol side r
    → contains r.price_ticks (resting_prices symbol side d) ≡ true
unfolding resting_prices lookup contains
price_of_order symbol side id r [] found h = absurd (ground arith)
price_of_order symbol side id r ((j, o) ∷ d) found h =
    ground (arith, price_of_order symbol side id r d)

listed-IsPriceOf :
    (symbol side p : ℕ) (s : RiskState)
    → IsUnique s.open_orders
    → contains p (resting_prices symbol side s.open_orders) ≡ true
    → IsPriceOf symbol side p s
listed-IsPriceOf symbol side p s u h =
    let (id, r, found, rests, priced) = order_of_price symbol side p s.open_orders u h in
    record { holder = id; order = r; found = found; rests = rests; priced = priced }

-- If a symbol is offered at all, a market buy gets a limit: at least the price of some offer, which no
-- offer is below, and no more than the band above that price, rounded up to a tick. If it is not
-- offered, it gets none.
pub market_buy_crosses :
    (symbol band : ℕ) (s : RiskState)
    → IsUnique s.open_orders
    → ((banded_market_price symbol Side.buy band s ≡ none)
        × ((id : ℕ) (r : Reservation)
            → lookup id s.open_orders ≡ some r
            → ¬ Rests symbol Side.sell r))
      ⊎ (ask : ℕ) × IsPriceOf symbol Side.sell ask s
        × ((id : ℕ) (r : Reservation)
            → lookup id s.open_orders ≡ some r
            → Rests symbol Side.sell r
            → ask ≤ r.price_ticks)
        × ((p : ℕ) × (banded_market_price symbol Side.buy band s ≡ some p)
            × (ask ≤ p)
            × (p * 10_000 < ask * (10_000 + band) + 10_000))
unfolding banded_market_price best_ask contains
market_buy_crosses symbol band s u =
    elim (Option-cases (lowest (resting_prices symbol Side.sell s.open_orders))) [
      | inl nothing ↦ inl (
        rw nothing refl,
        λ id r found h.
            let listed = price_of_order symbol Side.sell id r s.open_orders found h in
            cc (sym (ap (contains r.price_ticks) (lowest-none _ nothing)) ∙ listed),
      )
      | inr (ask, top) ↦ inr (
        ask,
        listed-IsPriceOf symbol Side.sell ask s u (contains-lowest _ ask top),
        (λ id r found h.
            lowest_bounds _ ask r.price_ticks top
              (price_of_order symbol Side.sell id r s.open_orders found h)),
        ((ask * (10_000 + band) + 9_999) / 10_000, rw top refl, omega arith, omega arith),
      )
    ]

-- If a symbol is bid for at all, a market sell gets a limit: at most the price of some bid, which no
-- bid is above, or one tick; not below the band under that price, rounded down to a tick, and never
-- below one tick. If it is not bid for, it gets none.
pub market_sell_crosses :
    (symbol band : ℕ) (s : RiskState)
    → IsUnique s.open_orders
    → ((banded_market_price symbol Side.sell band s ≡ none)
        × ((id : ℕ) (r : Reservation)
            → lookup id s.open_orders ≡ some r
            → ¬ Rests symbol Side.buy r))
      ⊎ (bid : ℕ) × IsPriceOf symbol Side.buy bid s
        × ((id : ℕ) (r : Reservation)
            → lookup id s.open_orders ≡ some r
            → Rests symbol Side.buy r
            → r.price_ticks ≤ bid)
        × ((p : ℕ) × (banded_market_price symbol Side.sell band s ≡ some p)
            × (p ≤ max 1 bid)
            × (1 ≤ p)
            × (bid * (10_000 - band) < (p + 1) * 10_000))
unfolding banded_market_price best_bid contains
market_sell_crosses symbol band s u =
    elim (Option-cases (highest (resting_prices symbol Side.buy s.open_orders))) [
      | inl nothing ↦ inl (
        rw nothing refl,
        λ id r found h.
            let listed = price_of_order symbol Side.buy id r s.open_orders found h in
            cc (sym (ap (contains r.price_ticks) (highest-none _ nothing)) ∙ listed),
      )
      | inr (bid, top) ↦
          let smaller : bid * (10_000 - band) ≤ bid * 10_000 =
            scaled bid (10_000 - band) 10_000 (omega arith) in
          inr (
            bid,
            listed-IsPriceOf symbol Side.buy bid s u (contains-highest _ bid top),
            (λ id r found h.
                highest_bounds _ bid r.price_ticks top
                  (price_of_order symbol Side.buy id r s.open_orders found h)),
            (
              max 1 (bid * (10_000 - band) / 10_000),
              rw top refl,
              omega arith,
              omega arith,
              omega arith,
            ),
          )
    ]
