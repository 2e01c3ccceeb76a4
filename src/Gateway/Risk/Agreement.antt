-- ===== src/Gateway/Risk/Agreement.antt =====
-- The gateway's own copy of balances and inventory against the ledger's: two programs over one
-- stream.
use quant_arena.Prelude.{
  ℕ, ◌≡◌, refl, ap, ◌∙◌, some, Option, List, [], ◌∷◌, Bool-cases, inl, inr, ◌==◌, nat_eq, pair_eq,
  none, arith,
}
use quant_arena.Dict.{lookup, insert}
use quant_arena.Dict.Shift.{shift}
use quant_arena.Contracts.{
  Fill, OrderAccepted, Record, account_created, cash_credited, order_accepted, order_cancelled,
  fill, ignored, StreamItem,
}
use quant_arena.Contracts.Side
use quant_arena.Ledger
use quant_arena.Ledger.{Ledger}
use quant_arena.Gateway.Risk
use quant_arena.Gateway.Risk.{
  Reservation, RiskState, empty, apply, replay, settle, settle_fill, apply_fill,
  apply_order_accepted, accept_found, commit, release, retire, release_remaining, fill_found,
  shrink, release_fill,
}

-- The parts of the state that reservations do not touch.
abbrev pub Settled : RiskState → RiskState → Type 0
Settled s t =
    (s.settled_cash ≡ t.settled_cash)
    × (s.positions ≡ t.positions)
    × (s.last_seq ≡ t.last_seq)
    × (s.market_makers ≡ t.market_makers)

pub release-Settled : (r : Reservation) (qty : ℕ) (s : RiskState) → Settled (release r qty s) s
unfolding release
release-Settled r qty s = ground arith

pub retire-Settled : (r : Option Reservation) (id : ℕ) (s : RiskState) → Settled (retire r id s) s
unfolding retire
retire-Settled none id s = (refl, refl, refl, refl)
retire-Settled (some r) id s = release-Settled r r.qty _

fill_found-Settled :
    (r : Option Reservation) (id qty : ℕ) (s : RiskState) → Settled (fill_found r id qty s) s
unfolding fill_found
fill_found-Settled none id qty s = (refl, refl, refl, refl)
fill_found-Settled (some r) id qty s = ground (arith, release-Settled r qty s)

pub accept_found-Settled :
    (p : Option Reservation) (o : OrderAccepted) (s : RiskState) → Settled (accept_found p o s) s
unfolding accept_found commit
accept_found-Settled none o s = ground arith
accept_found-Settled (some p) o s = (refl, refl, refl, refl)

-- The gateway and the ledger read the same balances, the same inventory and the same place in
-- the stream.
abbrev pub Agrees : RiskState → Ledger → Type 0
Agrees s l =
    (s.settled_cash ≡ l.cash_balances) × (s.positions ≡ l.positions) × (s.last_seq ≡ l.last_seq)

settle_agrees :
    (f : Fill)
    → let s = settle f in
      let t = Ledger.settle f in
      (s.buyer_id ≡ t.buyer_id)
      × (s.seller_id ≡ t.seller_id)
      × (s.buyer_delta ≡ t.buyer_cash_delta)
      × (s.seller_delta ≡ t.seller_cash_delta)
unfolding settle Ledger.settle
settle_agrees f = elim (Bool-cases (f.aggressor_side == Side.buy)) [
  | inl h ↦ rw h (refl, refl, refl, refl)
  | inr h ↦ rw h (refl, refl, refl, refl)
]

release_fill-Settled : (id qty : ℕ) (s : RiskState) → Settled (release_fill id qty s) s
unfolding release_fill
release_fill-Settled id qty s = fill_found-Settled (lookup id s.open_orders) id qty s

pub apply_fill-Settled : (f : Fill) (s : RiskState) → Settled (apply_fill f s) (settle_fill f s)
unfolding apply_fill
apply_fill-Settled f s =
    let made = release_fill f.maker_order_id f.qty (settle_fill f s) in
    let first = release_fill-Settled f.maker_order_id f.qty (settle_fill f s) in
    let second = release_fill-Settled f.taker_order_id f.qty made in
    (second.0 ∙ first.0, second.1 ∙ first.1, second.2 ∙ first.2, second.3 ∙ first.3)

settle_fill-Agrees :
    (f : Fill) (s : RiskState) (l : Ledger)
    → Agrees s l
    → Agrees (settle_fill f s) (Ledger.apply_fill f l)
unfolding settle_fill Ledger.apply_fill
settle_fill-Agrees f s l h =
    let t = settle_agrees f in (cc (h.0, t.0, t.1, t.2, t.3), cc (h.1, t.0, t.1), h.2)

dispatch-Agrees :
    (r : Record) (s : RiskState) (l : Ledger)
    → Agrees s l
    → Agrees (Risk.dispatch r s) (Ledger.dispatch r l)
unfolding Risk.dispatch Ledger.dispatch
dispatch-Agrees (account_created r) s l h =
    unfold Ledger.apply_account_created in
    (ap (insert r.user_id r.initial_cash_ticks) h.0, h.1, h.2)
dispatch-Agrees (cash_credited r) s l h =
    unfold Ledger.apply_cash_credited in (ap (shift r.user_id r.amount_ticks) h.0, h.1, h.2)
dispatch-Agrees (order_accepted r) s l h =
    unfold Ledger.apply_order_accepted apply_order_accepted in
    let key : ℕ × ℕ = (r.user_id, r.client_order_id) in
    let t = accept_found-Settled (lookup key s.pending_by_client) r s in
    (t.0 ∙ h.0, t.1 ∙ h.1, t.2 ∙ h.2)
dispatch-Agrees (order_cancelled r) s l h =
    unfold Ledger.apply_order_cancelled release_remaining in
    let t = retire-Settled (lookup r.order_id s.open_orders) r.order_id s in
    (t.0 ∙ h.0, t.1 ∙ h.1, t.2 ∙ h.2)
dispatch-Agrees (fill f) s l h =
    let t = apply_fill-Settled f s in
    let u = settle_fill-Agrees f s l h in (t.0 ∙ u.0, t.1 ∙ u.1, t.2 ∙ u.2)
dispatch-Agrees ignored s l h = h

replay-Agrees_from :
    (items : List StreamItem) (s : RiskState) (l : Ledger)
    → Agrees s l
    → Agrees (replay items s) (Ledger.replay items l)
unfolding replay Ledger.replay apply Ledger.apply
replay-Agrees_from [] s l h = h
replay-Agrees_from (item ∷ items) s l h =
    replay-Agrees_from items (apply item.body (some item.stream_id) s)
      (Ledger.apply item.body (some item.stream_id) l)
      (dispatch-Agrees item.body _ _ (h.0, h.1, refl))

-- After the same stream the gateway's check reads exactly the balances and the inventory that the
-- ledger publishes, and both stand at the same stream id.
pub replay-Agrees :
    (items : List StreamItem) → Agrees (replay items empty) (Ledger.replay items Ledger.empty)
replay-Agrees items = replay-Agrees_from items empty Ledger.empty (refl, refl, refl)
