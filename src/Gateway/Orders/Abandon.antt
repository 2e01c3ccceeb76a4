-- ===== src/Gateway/Orders/Abandon.antt =====
-- A reservation that is given back while it is pending leaves the risk state sound.
use quant_arena.Prelude.{ℕ, ◌+◌, ◌≤◌, ◌≡◌, Bool, true, false, some, arith, nat_eq, pair_eq}
use quant_arena.Dict.{lookup, get_or, erase, erase-IsUnique}
use quant_arena.Dict.Sums.{sum_ℕ-erase}
use quant_arena.Dict.Counts.{get_or-drop_to_zero}
use quant_arena.Gateway.Risk.{Reservation, RiskState, release, buy_cost}
use quant_arena.Gateway.Risk.Backing.{
  cash_of, units_of, cash-Holding, units-Holding, release_tables, committed,
}
use quant_arena.Gateway.Risk.Agreement.{Settled}
use quant_arena.Gateway.Risk.Invariant.{IsBacked}
use quant_arena.Gateway.Risk.Solvency.{IsSolvent, released-IsSolvent}
use quant_arena.Gateway.Orders.{abandon}

pub abandon-IsBacked :
    (r : Reservation) (s : RiskState)
    → lookup (r.user_id, r.client_order_id) s.pending_by_client ≡ some r
    → IsBacked s
    → IsBacked (abandon true r s)
unfolding abandon
abandon-IsBacked r s found b =
    let key : ℕ × ℕ = (r.user_id, r.client_order_id) in
    let s' : RiskState = record s { pending_by_client = erase key s.pending_by_client } in
    let t = release_tables r r.qty s' in
    record {
      tables = record {
        pending_unique = rw t.0 (erase-IsUnique key s.pending_by_client b.tables.pending_unique);
        open_unique = rw t.1 b.tables.open_unique;
      };
      cash = λ u.
          rw (t.0, t.1)
            (omega (
              arith,
              (cash-Holding u).held-release r r.qty s',
              b.cash u,
              sum_ℕ-erase (λ _ o. cash_of u o) key r s.pending_by_client b.tables.pending_unique
                  found,
            ));
      units = λ k.
          rw (t.0, t.1)
            (omega (
              arith,
              (units-Holding k).held-release r r.qty s',
              b.units k,
              sum_ℕ-erase (λ _ o. units_of k o) key r s.pending_by_client b.tables.pending_unique
                  found,
            ));
    }

abandon_releases :
    (own : Bool) (r : Reservation) (s : RiskState)
    → ((u : ℕ) → get_or u 0 (abandon own r s).reserved ≤ get_or u 0 s.reserved)
      × ((k : ℕ × ℕ) → get_or k 0 (abandon own r s).reserved_qty ≤ get_or k 0 s.reserved_qty)
unfolding abandon release
abandon_releases own r s = (
  λ u. ground (arith, get_or-drop_to_zero r.user_id u (buy_cost r.price_ticks r.qty) s.reserved),
  λ k. ground (arith, get_or-drop_to_zero (r.user_id, r.symbol_id) k r.qty s.reserved_qty),
)

abandon-Settled : (own : Bool) (r : Reservation) (s : RiskState) → Settled (abandon own r s) s
unfolding abandon release
abandon-Settled own r s = ground arith

-- Giving back never endangers what is covered, whatever `own` is.
pub abandon-IsSolvent :
    (own : Bool) (r : Reservation) (s : RiskState) → IsSolvent s → IsSolvent (abandon own r s)
abandon-IsSolvent own r s h =
    let less = abandon_releases own r s in
    released-IsSolvent s _ (abandon-Settled own r s) less.0 less.1 h

-- Where what is held back is what the orders commit, and the reservation is no longer pending but has
-- become an open order: giving it back all the same leaves the cash that is held back from each user
-- short of what the user's orders commit, by exactly what this order commits.
pub abandon_late :
    (r : Reservation) (id : ℕ) (s : RiskState)
    → IsBacked s
    → lookup id s.open_orders ≡ some (record r { order_id = some id })
    → (u : ℕ)
    → let s' = abandon false r s in get_or u 0 s'.reserved + cash_of u r ≡ committed (cash_of u) s'
unfolding abandon
abandon_late r id s b found u =
    let t = release_tables r r.qty s in
    let taken : Reservation = record r { order_id = some id } in
    rw (t.0, t.1)
      (omega (
        arith,
        (cash-Holding u).held-release r r.qty s,
        b.cash u,
        sum_ℕ-erase (λ _ o. cash_of u o) id taken s.open_orders b.tables.open_unique found,
      ))
