-- ===== src/Gateway/Risk/Life.antt =====
-- The life of the risk state: orders reserved by the routes, records observed on the stream, in any
-- order.
use mathlib.Core.Path.{subst}
use quant_arena.Prelude.{
  ℕ, ◌≡◌, refl, ap, sym, none, some, List, [], ◌∷◌, true, false, arith, inl, inr, Bool-cases,
  Option-cases, ◌==◌, nat_eq, pair_eq, Result, ok, err, ==-cases,
}
use quant_arena.Prelude.Int.{pos, ◌-ℤ◌, ◌≤ℤ◌, int_laws}
use quant_arena.Dict.{lookup, get_or}
use quant_arena.Dict.Sums.{sum_ℕ}
use quant_arena.Contracts.{StreamItem, RejectReason}
use quant_arena.Contracts.Side
use quant_arena.Gateway.Risk.{
  empty, Reservation, Request, RiskState, available_cash, available_position, is_market_maker,
  reserve, grant, reservation_of, reject_reason_for, commit, apply,
}
use quant_arena.Gateway.Orders.{abandon}
use quant_arena.Gateway.Orders.Abandon.{abandon-IsBacked, abandon-IsSolvent}
use quant_arena.Gateway.Risk.Backing.{cash_of, units_of, cash-Holding, units-Holding}
use quant_arena.Gateway.Risk.Agreement.{Settled}
use quant_arena.Gateway.Risk.Solvency.{IsSolvent, IsSound, apply-IsSolvent, unless_maker, of_retail}
use quant_arena.Gateway.Risk.Invariant.{IsBacked, Admits, apply-IsBacked, grant-IsBacked}

commit-Settled : (r : Reservation) (s : RiskState) → Settled (commit r s) s
unfolding commit
commit-Settled r s = ground arith

-- An order that passes the check commits no more than its user has available.
cash_affordable :
    (q : Request) (s : RiskState) (u : ℕ)
    → reject_reason_for q s ≡ none
    → pos 0 ≤ℤ available_cash u s
    → pos (cash_of u (reservation_of q)) ≤ℤ available_cash u s
unfolding reject_reason_for reservation_of
cash_affordable q s u passed h = elim (Bool-cases (q.side == Side.buy)) [
  | inl t ↦ elim (==-cases q.user_id u) [
    | inl (p, e) ↦ rw (t, p) (ground (arith, passed, t, ap (λ (i : ℕ). available_cash i s) e))
    | inr (p, e) ↦ rw (t, p) h
  ]
  | inr t ↦ rw t h
]

units_affordable :
    (q : Request) (s : RiskState) (u sym : ℕ)
    → reject_reason_for q s ≡ none
    → is_market_maker u s ≡ false
    → pos 0 ≤ℤ available_position u sym s
    → pos (units_of (u, sym) (reservation_of q)) ≤ℤ available_position u sym s
unfolding reject_reason_for reservation_of
units_affordable q s u sym passed retail h =
    let key : ℕ × ℕ = (q.user_id, q.symbol_id) in
    let k : ℕ × ℕ = (u, sym) in
    elim (Bool-cases (q.side == Side.buy)) [
      | inl t ↦ rw t h
      | inr t ↦ elim (==-cases key k) [
        | inl (p, e) ↦
            rw (t, p)
              (ground (
                arith,
                passed,
                t,
                retail,
                ap (λ (i : ℕ × ℕ). available_position i.0 i.1 s) e,
                ap (λ (i : ℕ × ℕ). is_market_maker i.0 s) e,
              ))
        | inr (p, e) ↦ rw (t, p) h
      ]
    ]

-- A reservation that passes the check is covered.
grant-IsSolvent :
    (q : Request) (s : RiskState)
    → reject_reason_for q s ≡ none
    → IsSolvent s
    → IsSolvent (grant q s).1
unfolding grant
grant-IsSolvent q s passed h =
    let r = reservation_of q in
    let same = commit-Settled r s in
    record {
      cash = λ u.
          let affordable = cash_affordable q s u passed (h.cash u) in
          unfold available_cash in
          rw same.0 (omega (int_laws, (cash-Holding u).held-commit r s, affordable));
      units = λ u sym. unless_maker (is_market_maker u (grant q s).1) (λ retail.
          let k : ℕ × ℕ = (u, sym) in
          let was : is_market_maker u s ≡ false = unfold is_market_maker in rw same.3 at retail in
          let affordable = units_affordable q s u sym passed was (of_retail was (h.units u sym)) in
          unfold available_position in
          rw same.1 (omega (int_laws, (units-Holding k).held-commit r s, affordable)));
    }

-- What the gateway does with its risk state: a route reserves, or abandons the reservation that is
-- still pending under its key, or the watcher applies a record.
pub data Event : Type 0 where
  submitted : Request → Event
  abandoned : Reservation → Event
  observed : StreamItem → Event

-- A refused order leaves the state as it was.
abbrev after_reserve : RiskState → Result RejectReason (Reservation × RiskState) → RiskState
after_reserve s (ok (r, s')) = s'
after_reserve s (err reason) = s

unfoldable pub step : Event → RiskState → RiskState
step (submitted q) s = after_reserve s (reserve q s)
step (abandoned r) s = abandon true r s
step (observed item) s = apply item.body (some item.stream_id) s

-- The idempotency check lets a client order id through once, a route abandons what is pending, and
-- the stream is sound.
abbrev pub IsSoundEvent : Event → RiskState → Type 0
IsSoundEvent (submitted q) s = lookup (q.user_id, q.client_order_id) s.pending_by_client ≡ none
IsSoundEvent (abandoned r) s = lookup (r.user_id, r.client_order_id) s.pending_by_client ≡ some r
IsSoundEvent (observed item) s = IsSound item.body s × Admits item.body s

abbrev pub Healthy : RiskState → Type 0
Healthy s = IsBacked s × IsSolvent s

reserve_passed :
    (q : Request) (s : RiskState) → reject_reason_for q s ≡ none → reserve q s ≡ ok (grant q s)
unfolding reserve
reserve_passed q s passed = ground arith

reserve_refused :
    (q : Request) (s : RiskState) (reason : RejectReason)
    → reject_reason_for q s ≡ some reason
    → reserve q s ≡ err reason
unfolding reserve
reserve_refused q s reason refused = ground arith

pub step-Healthy : (e : Event) (s : RiskState) → IsSoundEvent e s → Healthy s → Healthy (step e s)
unfolding step
step-Healthy (submitted q) s sound h = elim (Option-cases (reject_reason_for q s)) [
  | inl passed ↦
      subst (λ r. Healthy (after_reserve s r)) (sym (reserve_passed q s passed))
        (grant-IsBacked q s sound h.0, grant-IsSolvent q s passed h.1)
  | inr (reason, refused) ↦
      subst (λ r. Healthy (after_reserve s r)) (sym (reserve_refused q s reason refused)) h
]
step-Healthy (abandoned r) s found h =
    (abandon-IsBacked r s found h.0, abandon-IsSolvent true r s h.1)
step-Healthy (observed item) s sound h = (
  apply-IsBacked item.body (some item.stream_id) s sound.1 h.0,
  apply-IsSolvent item.body (some item.stream_id) s sound.0 h.0 h.1,
)

unfoldable pub run : List Event → RiskState → RiskState
unfolding step
run [] s = s
run (e ∷ es) s = run es (step e s)

abbrev pub AllSound : List Event → RiskState → Type 0
AllSound [] s = Unit
AllSound (e ∷ es) s = IsSoundEvent e s × AllSound es (step e s)

run-Healthy_from :
    (es : List Event) (s : RiskState) → AllSound es s → Healthy s → Healthy (run es s)
unfolding run
run-Healthy_from [] s sound h = h
run-Healthy_from (e ∷ es) s sound h =
    run-Healthy_from es (step e s) sound.1 (step-Healthy e s sound.0 h)

-- A risk state at start: the market makers are resolved from the configuration.
abbrev pub started : List ℕ → RiskState
started mms = record empty { market_makers = mms }

started-Healthy : (mms : List ℕ) → Healthy (started mms)
unfolding sum_ℕ get_or lookup
started-Healthy mms = (
  record {
    tables = record { pending_unique = tt; open_unique = tt };
    cash = λ u. refl;
    units = λ k. refl;
  },
  record {
    cash = unfold available_cash ◌-ℤ◌ in λ u. omega arith;
    units = unfold available_position ◌-ℤ◌ in λ u sym. inr (omega arith);
  },
)

-- Whatever orders are submitted under new client order ids, whatever pending reservations are
-- abandoned, and whatever sound records arrive, in any order, after a start without orders: what is held back is exactly what the pending and open orders commit, it never
-- exceeds any user's settled cash, and it never exceeds the settled units of a user who is no market
-- maker.
pub run-Healthy :
    (es : List Event) (mms : List ℕ) → AllSound es (started mms) → Healthy (run es (started mms))
run-Healthy es mms sound = run-Healthy_from es (started mms) sound (started-Healthy mms)
