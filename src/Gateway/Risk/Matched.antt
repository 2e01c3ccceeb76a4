-- ===== src/Gateway/Risk/Matched.antt =====
-- What a fill between two resting orders takes off the cash and the units held back.
use quant_arena.Prelude.{
  ℕ, ◌+◌, ◌≤◌, ◌≡◌, refl, ap, some, false, arith, inl, inr, Bool-cases, ◌==◌, nat_eq, pair_eq,
  if◌then◌else◌,
}
use quant_arena.Dict.{lookup, get_or}
use quant_arena.Contracts.{Fill, fill}
use quant_arena.Contracts.Side
use quant_arena.Gateway.Risk.{Reservation, RiskState, release_fill, settle, settle_fill, apply_fill}
use quant_arena.Gateway.Risk.Backing.{
  cash_of, units_of, cash-Holding, units-Holding, Fits, part, committed-fill_found,
}
use quant_arena.Gateway.Risk.Invariant.{
  IsBacked, Admits, release_fill-IsBacked, lookup-release_fill_ne, settle_fill-IsBacked,
}

-- A fill takes its part off what is held back, no more and no less.
held-release_fill :
    (id n : ℕ) (s : RiskState)
    → Fits n (lookup id s.open_orders)
    → IsBacked s
    → ((u : ℕ)
        → get_or u 0 (release_fill id n s).reserved + part (cash_of u) n (lookup id s.open_orders)
          ≡ get_or u 0 s.reserved)
      × ((k : ℕ × ℕ)
          → get_or k 0 (release_fill id n s).reserved_qty
              + part (units_of k) n (lookup id s.open_orders)
            ≡ get_or k 0 s.reserved_qty)
unfolding release_fill
held-release_fill id n s fits b =
    let after = release_fill-IsBacked id n s fits b in
    (
      λ u. omega (
        arith,
        after.cash u,
        b.cash u,
        committed-fill_found (cash_of u) _ (cash-Holding u) (lookup id s.open_orders) id n s
            b.tables refl fits,
      ),
      λ k. omega (
        arith,
        after.units k,
        b.units k,
        committed-fill_found (units_of k) _ (units-Holding k) (lookup id s.open_orders) id n s
            b.tables refl fits,
      ),
    )

-- The order of a fill that buys, and the one that sells.
abbrev pub buy_order_id : Fill → ℕ
buy_order_id f = if f.aggressor_side == Side.buy then f.taker_order_id else f.maker_order_id

abbrev pub sell_order_id : Fill → ℕ
sell_order_id f = if f.aggressor_side == Side.buy then f.maker_order_id else f.taker_order_id

-- What the matcher guarantees of a fill: both orders rest with the gateway, for the users and the
-- symbol that the fill names, and the price is not above the buyer's limit.
pub record IsGenuine (f : Fill) (s : RiskState) : Type 0 where
  pub bought : Reservation
  pub sold : Reservation
  pub bought_open : lookup (buy_order_id f) s.open_orders ≡ some bought
  pub sold_open : lookup (sell_order_id f) s.open_orders ≡ some sold
  pub bought_side : bought.side ≡ Side.buy
  pub sold_side : (sold.side == Side.buy) ≡ false
  pub bought_user : bought.user_id ≡ (settle f).buyer_id
  pub sold_user : sold.user_id ≡ (settle f).seller_id
  pub sold_symbol : sold.symbol_id ≡ f.symbol_id
  pub within_limit : f.price_ticks ≤ bought.price_ticks

-- What a fill takes off the cash and the units held back, whichever side was the maker.
held-apply_fill :
    (f : Fill) (s : RiskState)
    → Admits (fill f) s
    → IsBacked s
    → ((u : ℕ)
        → get_or u 0 (apply_fill f s).reserved
            + part (cash_of u) f.qty (lookup f.maker_order_id s.open_orders)
            + part (cash_of u) f.qty (lookup f.taker_order_id s.open_orders)
          ≡ get_or u 0 s.reserved)
      × ((k : ℕ × ℕ)
          → get_or k 0 (apply_fill f s).reserved_qty
              + part (units_of k) f.qty (lookup f.maker_order_id s.open_orders)
              + part (units_of k) f.qty (lookup f.taker_order_id s.open_orders)
            ≡ get_or k 0 s.reserved_qty)
unfolding apply_fill settle_fill
held-apply_fill f s a b =
    let s' = settle_fill f s in
    let settled : IsBacked s' = settle_fill-IsBacked f s b in
    let made = release_fill f.maker_order_id f.qty s' in
    let still : lookup f.taker_order_id made.open_orders ≡ lookup f.taker_order_id s.open_orders =
      lookup-release_fill_ne f.taker_order_id f.maker_order_id f.qty s' a.0 in
    let first = held-release_fill f.maker_order_id f.qty s' a.1 settled in
    let second =
      held-release_fill f.taker_order_id f.qty made (rw still a.2)
        (release_fill-IsBacked f.maker_order_id f.qty s' a.1 settled) in
    (
      λ u. omega (arith, first.0 u, second.0 u, ap (part (cash_of u) f.qty) still),
      λ k. omega (arith, first.1 k, second.1 k, ap (part (units_of k) f.qty) still),
    )

-- The same by buyer and seller.
pub held-genuine :
    (f : Fill) (s : RiskState) (g : IsGenuine f s)
    → Admits (fill f) s
    → IsBacked s
    → ((u : ℕ)
        → get_or u 0 (apply_fill f s).reserved + cash_of u (record g.bought { qty = f.qty })
          ≡ get_or u 0 s.reserved)
      × ((k : ℕ × ℕ)
          → get_or k 0 (apply_fill f s).reserved_qty + units_of k (record g.sold { qty = f.qty })
            ≡ get_or k 0 s.reserved_qty)
held-genuine f s g a b =
    let h = held-apply_fill f s a b in
    let open_bought = g.bought_open in
    let open_sold = g.sold_open in
    elim (Bool-cases (f.aggressor_side == Side.buy)) [
      | inl t ↦
          let taken : lookup f.taker_order_id s.open_orders ≡ some g.bought = rw t at open_bought in
          let made : lookup f.maker_order_id s.open_orders ≡ some g.sold = rw t at open_sold in
          (
            λ u. ground (arith, h.0 u, taken, made, g.sold_side, g.bought_side),
            λ k. ground (arith, h.1 k, taken, made, g.sold_side, g.bought_side),
          )
      | inr t ↦
          let made : lookup f.maker_order_id s.open_orders ≡ some g.bought = rw t at open_bought in
          let taken : lookup f.taker_order_id s.open_orders ≡ some g.sold = rw t at open_sold in
          (
            λ u. ground (arith, h.0 u, taken, made, g.sold_side, g.bought_side),
            λ k. ground (arith, h.1 k, taken, made, g.sold_side, g.bought_side),
          )
    ]
