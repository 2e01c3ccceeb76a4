-- ===== src/Gateway/Risk/Backing.antt =====
-- Every tick and every unit that the risk state holds back is committed by an order that is
-- pending or open, and the other way round.
use mathlib.Core.Path.{subst}
use quant_arena.Prelude.{
  ◌∙◌, ℕ, ◌+◌, ◌-◌, ◌≤◌, ◌≡◌, refl, sym, ap, Option, none, some, arith, inl, inr, Bool-cases, ◌==◌,
  nat_eq, pair_eq, if◌then◌else◌,
}
use quant_arena.Dict.{Dict, lookup, get_or, erase, IsUnique}
use quant_arena.Dict.Sums.{sum_ℕ, sum_ℕ-insert, sum_ℕ-insert_new, sum_ℕ-erase}
use quant_arena.Dict.Counts.{get_or-gain, get_or-drop_to_zero}
use quant_arena.Contracts.{OrderAccepted}
use quant_arena.Contracts.Side
use quant_arena.Gateway.Risk.{
  Reservation, RiskState, commit, release, retire, fill_found, shrink, accept_found,
  replayed_reservation, buy_cost,
}
use quant_arena.Gateway.Risk.Costs.{buy_cost-add}

-- A reading of what an order commits, that splits over its quantity.
pub record Measure (m : Reservation → ℕ) : Type 0 where
  pub additive :
      (r : Reservation) (a b : ℕ)
      → m (record r { qty = a + b }) ≡ m (record r { qty = a }) + m (record r { qty = b })
  pub any_id : (r : Reservation) (id : Option ℕ) → m (record r { order_id = id }) ≡ m r

-- The cash that an order holds back from user `u`.
abbrev pub cash_of : ℕ → Reservation → ℕ
cash_of u r =
    if r.side == Side.buy then if r.user_id == u then buy_cost r.price_ticks r.qty else 0 else 0

-- The units that an order holds back under the key `(user, symbol)`.
abbrev pub units_of : ℕ × ℕ → Reservation → ℕ
units_of k r =
    let key : ℕ × ℕ = (r.user_id, r.symbol_id) in
    if r.side == Side.buy then 0 else if key == k then r.qty else 0

cash_of-Measure : (u : ℕ) → Measure (cash_of u)
cash_of-Measure u = record {
  additive = λ r a b. ground (arith, buy_cost-add r.price_ticks a b);
  any_id = λ r id. refl;
}

units_of-Measure : (k : ℕ × ℕ) → Measure (units_of k)
units_of-Measure k = record { additive = λ r a b. ground arith; any_id = λ r id. refl }

-- A reading of what the state holds back, that moves with `commit` and `release` by `m`.
pub record Holding (m : Reservation → ℕ) (held : Dict ℕ ℕ → Dict (ℕ × ℕ) ℕ → ℕ) : Type 0 where
  pub measure : Measure m
  pub held-commit :
      (r : Reservation) (s : RiskState)
      → let s' = commit r s in
        held s'.reserved s'.reserved_qty ≡ held s.reserved s.reserved_qty + m r
  pub held-release :
      (r : Reservation) (n : ℕ) (s : RiskState)
      → let s' = release r n s in
        held s'.reserved s'.reserved_qty ≡ held s.reserved s.reserved_qty - m (record r { qty = n })

pub cash-Holding : (u : ℕ) → Holding (cash_of u) (λ cash _. get_or u 0 cash)
unfolding commit release
cash-Holding u = record {
  measure = cash_of-Measure u;
  held-commit =
      λ r s. ground (arith, get_or-gain r.user_id u (buy_cost r.price_ticks r.qty) s.reserved);
  held-release = λ r n s.
      ground (arith, get_or-drop_to_zero r.user_id u (buy_cost r.price_ticks n) s.reserved);
}

pub units-Holding : (k : ℕ × ℕ) → Holding (units_of k) (λ _ units. get_or k 0 units)
unfolding commit release
units-Holding k = record {
  measure = units_of-Measure k;
  held-commit = λ r s. ground (arith, get_or-gain (r.user_id, r.symbol_id) k r.qty s.reserved_qty);
  held-release =
      λ r n s. ground (arith, get_or-drop_to_zero (r.user_id, r.symbol_id) k n s.reserved_qty);
}

-- What all pending and open orders commit.
abbrev pub committed : (Reservation → ℕ) → RiskState → ℕ
committed m s = sum_ℕ (λ _ r. m r) s.pending_by_client + sum_ℕ (λ _ r. m r) s.open_orders

module _ (m : Reservation → ℕ) (measure : Measure m) where
  -- An order that is all filled commits nothing.
  exhausted : (r : Reservation) → m (record r { qty = 0 }) ≡ 0
  exhausted r = omega (arith, measure.additive r 0 0)

  -- What is filled and what is left are together what there was.
  split_fill :
      (r : Reservation) (n : ℕ)
      → n ≤ r.qty
      → m (record r { qty = r.qty - n }) + m (record r { qty = n }) ≡ m r
  split_fill r n h =
      sym (measure.additive r (r.qty - n) n)
      ∙ ap (λ (q : ℕ). m (record r { qty = q })) (let e : r.qty - n + n ≡ r.qty = omega arith in e)

  committed-shrink :
      (r : Reservation) (id n : ℕ) (s : RiskState)
      → IsUnique s.open_orders
      → lookup id s.open_orders ≡ some r
      → n ≤ r.qty
      → committed m (shrink r id n s) + m (record r { qty = n }) ≡ committed m s
  unfolding shrink
  committed-shrink r id n s u found h = elim (Bool-cases (r.qty - n == 0)) [
    | inl t ↦
        let e : r.qty - n ≡ 0 = ground arith in
        rw t (
          omega (
            arith,
            split_fill r n h,
            exhausted r,
            ap (λ (q : ℕ). m (record r { qty = q })) e,
            sum_ℕ-erase (λ _ q. m q) id r s.open_orders u found,
          ))
    | inr t ↦ rw t (
        omega (
          arith,
          split_fill r n h,
          sum_ℕ-insert (λ _ q. m q) id (record r { qty = r.qty - n }) r s.open_orders found,
        ))
  ]

-- `release` and `commit` leave the tables of orders alone.
pub release_tables :
    (r : Reservation) (n : ℕ) (s : RiskState)
    → ((release r n s).pending_by_client ≡ s.pending_by_client)
      × ((release r n s).open_orders ≡ s.open_orders)
unfolding release
release_tables r n s = ground arith

pub commit_tables :
    (r : Reservation) (s : RiskState)
    → ((commit r s).pending_by_client ≡ s.pending_by_client)
      × ((commit r s).open_orders ≡ s.open_orders)
unfolding commit
commit_tables r s = ground arith

-- A table of orders in which each key stands once.
pub record TablesUnique (s : RiskState) : Type 0 where
  pub pending_unique : IsUnique s.pending_by_client
  pub open_unique : IsUnique s.open_orders

-- Releases of no more than what is left of an order.
abbrev pub Fits : ℕ → Option Reservation → Type 0
Fits n none = Unit
Fits n (some r) = n ≤ r.qty

-- What an order had committed to a fill of `n`.
abbrev pub part : (Reservation → ℕ) → ℕ → Option Reservation → ℕ
part m n none = 0
part m n (some r) = m (record r { qty = n })

module _ (m : Reservation → ℕ) (held : Dict ℕ ℕ → Dict (ℕ × ℕ) ℕ → ℕ)
    (holding : Holding m held) where
  -- What is held back is exactly what the pending and open orders commit.
  abbrev pub Backed : RiskState → Type 0
  Backed s = held s.reserved s.reserved_qty ≡ committed m s

  -- `shrink` gives nothing back by itself.
  shrink_held :
      (r : Reservation) (id n : ℕ) (s : RiskState)
      → let s' = shrink r id n s in
        held s'.reserved s'.reserved_qty ≡ held s.reserved s.reserved_qty
  unfolding shrink
  shrink_held r id n s = elim (Bool-cases (r.qty - n == 0)) [ inl t ↦ rw t | inr t ↦ rw t ]

  pub retire-Backed :
      (r : Option Reservation) (id : ℕ) (s : RiskState)
      → TablesUnique s
      → lookup id s.open_orders ≡ r
      → Backed s
      → Backed (retire r id s)
  unfolding retire
  retire-Backed none id s u found h = h
  retire-Backed (some r) id s u found h =
      let s' : RiskState = record s { open_orders = erase id s.open_orders } in
      let t = release_tables r r.qty s' in
      rw (t.0, t.1)
        (omega (
          arith,
          h,
          holding.held-release r r.qty s',
          sum_ℕ-erase (λ _ q. m q) id r s.open_orders u.open_unique found,
        ))

  -- A fill takes its part off what the orders commit.
  pub committed-fill_found :
      (r : Option Reservation) (id n : ℕ) (s : RiskState)
      → TablesUnique s
      → lookup id s.open_orders ≡ r
      → Fits n r
      → committed m (fill_found r id n s) + part m n r ≡ committed m s
  unfolding fill_found
  committed-fill_found none id n s u found fits = omega arith
  committed-fill_found (some r) id n s u found fits =
      let t = release_tables r n s in
      let same : committed m (release r n s) ≡ committed m s = rw (t.0, t.1) refl in
      committed-shrink m holding.measure r id n (release r n s)
        (subst IsUnique (sym t.1) u.open_unique) (rw t.1 found) fits
      ∙ same

  pub fill_found-Backed :
      (r : Option Reservation) (id n : ℕ) (s : RiskState)
      → TablesUnique s
      → lookup id s.open_orders ≡ r
      → Fits n r
      → Backed s
      → Backed (fill_found r id n s)
  unfolding fill_found
  fill_found-Backed none id n s u found fits h = h
  fill_found-Backed (some r) id n s u found fits h = omega (
    arith,
    h,
    shrink_held r id n (release r n s),
    holding.held-release r n s,
    committed-fill_found (some r) id n s u found fits,
  )

  pub accept_found-Backed :
      (p : Option Reservation) (o : OrderAccepted) (s : RiskState)
      → TablesUnique s
      → lookup (o.user_id, o.client_order_id) s.pending_by_client ≡ p
      → lookup o.order_id s.open_orders ≡ none
      → Backed s
      → Backed (accept_found p o s)
  unfolding accept_found
  accept_found-Backed (some p) o s u found new h =
      let key : ℕ × ℕ = (o.user_id, o.client_order_id) in
      let taken : Reservation = record p { order_id = some o.order_id } in
      omega (
        arith,
        h,
        sum_ℕ-erase (λ _ q. m q) key p s.pending_by_client u.pending_unique found,
        sum_ℕ-insert_new (λ _ q. m q) o.order_id taken s.open_orders new,
        holding.measure.any_id p (some o.order_id),
      )
  accept_found-Backed none o s u found new h =
      let r = replayed_reservation o in
      let t = commit_tables r s in
      rw (t.0, t.1)
        (omega (
          arith,
          h,
          holding.held-commit r s,
          sum_ℕ-insert_new (λ _ q. m q) o.order_id r s.open_orders new,
        ))
