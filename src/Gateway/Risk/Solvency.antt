-- ===== src/Gateway/Risk/Solvency.antt =====
-- No account spends cash that it does not have, and no retail account sells units that it does not
-- have: what is settled always covers what is held back.
use quant_arena.Prelude.{
  ℕ, ◌+◌, ◌*◌, ◌≤◌, ◌≡◌, refl, ap, sym, ◌∙◌, Option, none, some, String, Bool, true, false, arith,
  ◌⊎◌, inl, inr, Bool-cases, ◌==◌, nat_eq, pair_eq, if◌then◌else◌, ==-cases,
}
use quant_arena.Prelude.Int.{ℤ, pos, ◌+ℤ◌, ◌-ℤ◌, ◌≤ℤ◌, int_laws, parts}
use quant_arena.Dict.{contains, lookup, get_or, get_or-insert}
use quant_arena.Dict.Counts.{get_or-drop_to_zero}
use quant_arena.Dict.Shift.{shift, selected, get_or-shift}
use quant_arena.Contracts.{
  Fill, Record, account_created, cash_credited, order_accepted, order_cancelled, fill, ignored,
}
use quant_arena.Contracts.Side
use quant_arena.Gateway.Risk.{
  Reservation, RiskState, buy_cost, available_cash, available_position, is_market_maker, release,
  retire, release_remaining, accept_found, apply_order_accepted, settle, settle_fill, apply_fill,
  dispatch, apply,
}
use quant_arena.Gateway.Risk.Costs.{buy_cost_covers}
use quant_arena.Gateway.Risk.Agreement.{Settled, apply_fill-Settled, retire-Settled}
use quant_arena.Gateway.Risk.Matched.{IsGenuine, held-genuine}
use quant_arena.Gateway.Risk.Invariant.{same_holds, IsBacked, Admits}

-- Settled cash covers the reserved cash of every user, and the settled units of every user who is
-- no market maker cover the reserved units.
pub record IsSolvent (s : RiskState) : Type 0 where
  pub cash : (u : ℕ) → pos 0 ≤ℤ available_cash u s
  pub units : (u sym : ℕ) → (is_market_maker u s ≡ true) ⊎ (pos 0 ≤ℤ available_position u sym s)

pub unless_maker : {P : Type 0} (b : Bool) → (b ≡ false → P) → (b ≡ true) ⊎ P
unless_maker true f = inl refl
unless_maker false f = inr (f refl)

pub of_retail : {P : Type 0} {b : Bool} → b ≡ false → (b ≡ true) ⊎ P → P
of_retail e (inl t) = absurd (cc (e, t))
of_retail e (inr p) = p

-- What the two parties of a fill pay and receive, against what a buy at its limit reserves.
settle_bounds :
    (f : Fill) (limit : ℕ)
    → f.price_ticks ≤ limit
    → (pos 0 ≤ℤ (settle f).seller_delta)
      × (pos 0 ≤ℤ (settle f).buyer_delta +ℤ pos (buy_cost limit f.qty))
unfolding settle
settle_bounds f limit h =
    let c = buy_cost_covers f.price_ticks limit f.qty h in
    let n : ℕ = f.price_ticks * f.qty in
    elim (Bool-cases (f.aggressor_side == Side.buy)) [
      | inl t ↦ rw t (omega int_laws, omega (int_laws, c.0))
      | inr t ↦ rw t (omega int_laws, omega (int_laws, c.1))
    ]

selected_nonneg : (b : Bool) (x : ℤ) → pos 0 ≤ℤ x → pos 0 ≤ℤ selected b x
selected_nonneg true x h = h
selected_nonneg false x h = omega arith

selected_covered :
    (b : Bool) (x : ℤ) (c : ℕ)
    → pos 0 ≤ℤ x +ℤ pos c
    → pos 0 ≤ℤ selected b x +ℤ pos (if b then c else 0)
selected_covered true x c h = h
selected_covered false x c h = omega int_laws

cash-fill :
    (f : Fill) (s : RiskState) (g : IsGenuine f s)
    → Admits (fill f) s
    → IsBacked s
    → (u : ℕ) → pos 0 ≤ℤ available_cash u s
    → pos 0 ≤ℤ available_cash u (apply_fill f s)
unfolding available_cash
cash-fill f s g a b u h =
    let t = settle f in
    let after_buyer = shift t.buyer_id t.buyer_delta s.settled_cash in
    let bounds = settle_bounds f g.bought.price_ticks g.within_limit in
    let settled : get_or u (pos 0) (apply_fill f s).settled_cash
        ≡ get_or u (pos 0) s.settled_cash
          +ℤ selected (t.buyer_id == u) t.buyer_delta
          +ℤ selected (t.seller_id == u) t.seller_delta =
      ap (get_or u (pos 0)) (apply_fill-Settled f s).0
      ∙ (unfold settle_fill in simp get_or-shift) in
    let released : get_or u 0 (apply_fill f s).reserved
          + (if t.buyer_id == u then buy_cost g.bought.price_ticks f.qty else 0)
        ≡ get_or u 0 s.reserved =
      rw (← g.bought_user) (ground (arith, (held-genuine f s g a b).0 u, g.bought_side)) in
    omega (
      int_laws,
      h,
      parts settled,
      released,
      selected_covered (t.buyer_id == u) t.buyer_delta (buy_cost g.bought.price_ticks f.qty)
          bounds.1,
      selected_nonneg (t.seller_id == u) t.seller_delta bounds.0,
    )

units-fill :
    (f : Fill) (s : RiskState) (g : IsGenuine f s)
    → Admits (fill f) s
    → IsBacked s
    → (u sym : ℕ) → pos 0 ≤ℤ available_position u sym s
    → pos 0 ≤ℤ available_position u sym (apply_fill f s)
unfolding available_position
units-fill f s g a b u sym h =
    let t = settle f in
    let k : ℕ × ℕ = (u, sym) in
    let buyer_key : ℕ × ℕ = (t.buyer_id, f.symbol_id) in
    let seller_key : ℕ × ℕ = (t.seller_id, f.symbol_id) in
    let settled : get_or k (pos 0) (apply_fill f s).positions
        ≡ get_or k (pos 0) s.positions
          +ℤ selected (buyer_key == k) (pos f.qty)
          +ℤ selected (seller_key == k) (pos 0 -ℤ pos f.qty) =
      ap (get_or k (pos 0)) (apply_fill-Settled f s).1
      ∙ (unfold settle_fill in simp get_or-shift) in
    let released : get_or k 0 (apply_fill f s).reserved_qty + (if seller_key == k then f.qty else 0)
        ≡ get_or k 0 s.reserved_qty =
      rw (← g.sold_user, ← g.sold_symbol)
        (ground (arith, (held-genuine f s g a b).1 k, g.sold_side)) in
    omega (
      int_laws,
      h,
      parts settled,
      released,
      selected_nonneg (buyer_key == k) (pos f.qty) (omega arith),
      selected_covered (seller_key == k) (pos 0 -ℤ pos f.qty) f.qty (omega int_laws),
    )

retire_releases :
    (r : Option Reservation) (id : ℕ) (s : RiskState)
    → ((u : ℕ) → get_or u 0 (retire r id s).reserved ≤ get_or u 0 s.reserved)
      × ((k : ℕ × ℕ) → get_or k 0 (retire r id s).reserved_qty ≤ get_or k 0 s.reserved_qty)
unfolding retire release
retire_releases none id s = (λ u. omega arith, λ k. omega arith)
retire_releases (some r) id s = (
  λ u. ground (arith, get_or-drop_to_zero r.user_id u (buy_cost r.price_ticks r.qty) s.reserved),
  λ k. ground (arith, get_or-drop_to_zero (r.user_id, r.symbol_id) k r.qty s.reserved_qty),
)

-- Less held back against the same balances is as solvent.
pub released-IsSolvent :
    (s t : RiskState)
    → Settled t s
    → ((u : ℕ) → get_or u 0 t.reserved ≤ get_or u 0 s.reserved)
    → ((k : ℕ × ℕ) → get_or k 0 t.reserved_qty ≤ get_or k 0 s.reserved_qty)
    → IsSolvent s
    → IsSolvent t
unfolding available_cash available_position is_market_maker
released-IsSolvent s t same c n h = record {
  cash = λ u. rw same.0 (omega (int_laws, c u, h.cash u));
  units = λ u sym. unless_maker (contains u t.market_makers) (λ retail.
      let was : contains u s.market_makers ≡ false = rw same.3 at retail in
      rw same.1 (omega (int_laws, n (u, sym), of_retail was (h.units u sym))));
}

-- What the stream guarantees: an account is created with what covers its reservations (none, for a
-- new user), credits are not negative, an accepted order was reserved by this process, and fills
-- are genuine.
abbrev pub IsSound : Record → RiskState → Type 0
IsSound (account_created r) s = pos (get_or r.user_id 0 s.reserved) ≤ℤ r.initial_cash_ticks
IsSound (cash_credited r) s = pos 0 ≤ℤ r.amount_ticks
IsSound (order_accepted o) s =
    (p : Reservation) × (lookup (o.user_id, o.client_order_id) s.pending_by_client ≡ some p)
IsSound (order_cancelled o) s = Unit
IsSound (fill f) s = IsGenuine f s × Admits (fill f) s
IsSound ignored s = Unit

dispatch-IsSolvent :
    (r : Record) (s : RiskState) → IsSound r s → IsBacked s → IsSolvent s → IsSolvent (dispatch r s)
unfolding dispatch
dispatch-IsSolvent (account_created r) s sound b h = record {
  cash =
      unfold available_cash in
      λ u. elim (==-cases r.user_id u) [
        | inl (t, p) ↦
            rw get_or-insert
              (rw t (omega (int_laws, sound, ap (λ (i : ℕ). get_or i 0 s.reserved) p)))
        | inr (t, p) ↦ rw get_or-insert (rw t (h.cash u))
      ];
  units = unfold available_position is_market_maker in h.units;
}
dispatch-IsSolvent (cash_credited r) s sound b h = record {
  cash =
      unfold available_cash in
      λ u.
        rw get_or-shift
          (omega (int_laws, h.cash u, selected_nonneg (r.user_id == u) r.amount_ticks sound));
  units = unfold available_position is_market_maker in h.units;
}
dispatch-IsSolvent (order_accepted o) s sound b h =
    unfold apply_order_accepted accept_found in
    rw sound.1 (record {
      cash = unfold available_cash in h.cash;
      units = unfold available_position is_market_maker in h.units;
    })
dispatch-IsSolvent (order_cancelled o) s sound b h =
    unfold release_remaining in
    let r = lookup o.order_id s.open_orders in
    let less = retire_releases r o.order_id s in
    released-IsSolvent s _ (retire-Settled r o.order_id s) less.0 less.1 h
dispatch-IsSolvent (fill f) s sound b h = record {
  cash = λ u. cash-fill f s sound.0 sound.1 b u (h.cash u);
  units = λ u sym. unless_maker (is_market_maker u (apply_fill f s)) (λ retail.
      let was : is_market_maker u s ≡ false =
        unfold is_market_maker settle_fill in rw (apply_fill-Settled f s).3 at retail in
      units-fill f s sound.0 sound.1 b u sym (of_retail was (h.units u sym)));
}
dispatch-IsSolvent ignored s sound b h = h

-- Soundness does not read the place in the stream.
restamp :
    (r : Record) (id : Option String) (s : RiskState)
    → IsSound r s
    → IsSound r (record s { last_seq = elim id [ none ↦ s.last_seq | some i ↦ i ] })
restamp (account_created r) id s h = h
restamp (cash_credited r) id s h = h
restamp (order_accepted o) id s h = h
restamp (order_cancelled o) id s h = h
restamp (fill f) id s h =
    let g = h.0 in
    (
      record {
        bought = g.bought;
        sold = g.sold;
        bought_open = g.bought_open;
        sold_open = g.sold_open;
        bought_side = g.bought_side;
        sold_side = g.sold_side;
        bought_user = g.bought_user;
        sold_user = g.sold_user;
        sold_symbol = g.sold_symbol;
        within_limit = g.within_limit;
      },
      h.1,
    )
restamp ignored id s h = h

-- A sound record keeps a solvent state solvent.
pub apply-IsSolvent :
    (r : Record) (id : Option String) (s : RiskState)
    → IsSound r s
    → IsBacked s
    → IsSolvent s
    → IsSolvent (apply r id s)
unfolding apply
apply-IsSolvent r id s sound b h =
    let s' : RiskState = record s { last_seq = elim id [ none ↦ s.last_seq | some i ↦ i ] } in
    dispatch-IsSolvent r s' (restamp r id s sound) (same_holds s' s refl refl refl refl b) (record {
      cash = unfold available_cash in h.cash;
      units = unfold available_position is_market_maker in h.units;
    })
