-- ===== src/Gateway/Orders.antt =====
-- services/gateway/routes_orders.py: what the submit route does with the risk state when its order
-- was not appended.
pub mod Abandon
use quant_arena.Prelude.{ℕ, Bool, ◌==◌, pair_eq, if◌then◌else◌}
use quant_arena.Dict.{erase}
use quant_arena.Gateway.Risk.{Reservation, RiskState, release}

-- `_abandon`. The argument `own` is the outcome of `pending_by_client.get(key) is reservation`: a
-- model of values has no identity of objects.
unfoldable pub abandon : Bool → Reservation → RiskState → RiskState
abandon own r s =
    let key : ℕ × ℕ = (r.user_id, r.client_order_id) in
    release r r.qty
      (if own then record s { pending_by_client = erase key s.pending_by_client } else s)
