-- ===== src/Gateway/Risk/Invariant.antt =====
-- The invariant of the risk state, and every operation that keeps it.
use mathlib.Core.Path.{subst}
use quant_arena.Prelude.{
  ◌-◌, ℕ, ◌≡◌, ◌≢◌, refl, ap, ◌∙◌, Option, none, some, String, arith, inl, inr, Bool-cases, ◌==◌,
  nat_eq, pair_eq, ok, Option-cases,
}
use quant_arena.Dict.{lookup, get_or, insert-IsUnique, erase-IsUnique, lookup-insert, lookup-erase}
use quant_arena.Dict.Sums.{sum_ℕ-insert_new}
use quant_arena.Contracts.{
  OrderAccepted, Fill, Record, account_created, cash_credited, order_accepted, order_cancelled,
  fill, ignored,
}
use quant_arena.Gateway.Risk.{
  Reservation, Request, RiskState, reserve, grant, reservation_of, reject_reason_for, release,
  retire, release_remaining, fill_found, shrink, release_fill, accept_found, replayed_reservation,
  apply_order_accepted, settle_fill, apply_fill, apply,
}
use quant_arena.Gateway.Risk.Backing.{
  cash_of, units_of, cash-Holding, units-Holding, TablesUnique, Fits, Backed, retire-Backed,
  fill_found-Backed, accept_found-Backed, release_tables, commit_tables,
}

-- Every key stands once in its table, and what is held back of each user's cash, and of each
-- user's units of a symbol, is exactly what the pending and open orders commit.
pub record IsBacked (s : RiskState) : Type 0 where
  pub tables : TablesUnique s
  pub cash : (u : ℕ) → Backed (cash_of u) (λ cash _. get_or u 0 cash) (cash-Holding u) s
  pub units : (k : ℕ × ℕ) → Backed (units_of k) (λ _ units. get_or k 0 units) (units-Holding k) s

release-TablesUnique :
    (r : Reservation) (n : ℕ) (s : RiskState) → TablesUnique s → TablesUnique (release r n s)
release-TablesUnique r n s u =
    let t = release_tables r n s in
    record { pending_unique = rw t.0 u.pending_unique; open_unique = rw t.1 u.open_unique }

retire-TablesUnique :
    (r : Option Reservation) (id : ℕ) (s : RiskState)
    → TablesUnique s
    → TablesUnique (retire r id s)
unfolding retire
retire-TablesUnique none id s u = u
retire-TablesUnique (some r) id s u = release-TablesUnique r r.qty _ (record {
  pending_unique = u.pending_unique;
  open_unique = erase-IsUnique id s.open_orders u.open_unique;
})

shrink-TablesUnique :
    (r : Reservation) (id n : ℕ) (s : RiskState) → TablesUnique s → TablesUnique (shrink r id n s)
unfolding shrink
shrink-TablesUnique r id n s u =
    let erased = erase-IsUnique id s.open_orders u.open_unique in
    let set = insert-IsUnique id (record r { qty = r.qty - n }) s.open_orders u.open_unique in
    elim (Bool-cases (r.qty - n == 0)) [
      | inl t ↦ rw t (record { pending_unique = u.pending_unique; open_unique = erased })
      | inr t ↦ rw t (record { pending_unique = u.pending_unique; open_unique = set })
    ]

fill_found-TablesUnique :
    (r : Option Reservation) (id n : ℕ) (s : RiskState)
    → TablesUnique s
    → TablesUnique (fill_found r id n s)
unfolding fill_found
fill_found-TablesUnique none id n s u = u
fill_found-TablesUnique (some r) id n s u =
    shrink-TablesUnique r id n _ (release-TablesUnique r n s u)

accept_found-TablesUnique :
    (p : Option Reservation) (o : OrderAccepted) (s : RiskState)
    → TablesUnique s
    → TablesUnique (accept_found p o s)
unfolding accept_found
accept_found-TablesUnique (some p) o s u = record {
  pending_unique = erase-IsUnique _ s.pending_by_client u.pending_unique;
  open_unique = insert-IsUnique o.order_id _ s.open_orders u.open_unique;
}
accept_found-TablesUnique none o s u =
    let r = replayed_reservation o in
    let t = commit_tables r s in
    record {
      pending_unique = rw t.0 u.pending_unique;
      open_unique = insert-IsUnique o.order_id r _ (rw t.1 u.open_unique);
    }

lookup-shrink_ne :
    (j : ℕ) (r : Reservation) (id n : ℕ) (s : RiskState)
    → id ≢ j
    → lookup j (shrink r id n s).open_orders ≡ lookup j s.open_orders
unfolding shrink
lookup-shrink_ne j r id n s h = ground (
  arith,
  lookup-erase id j s.open_orders,
  lookup-insert id j (record r { qty = r.qty - n }) s.open_orders,
)

-- The quantity of a fill is taken off one order, and the others stay.
lookup-fill_found_ne :
    (j : ℕ) (r : Option Reservation) (id n : ℕ) (s : RiskState)
    → id ≢ j
    → lookup j (fill_found r id n s).open_orders ≡ lookup j s.open_orders
unfolding fill_found
lookup-fill_found_ne j none id n s h = refl
lookup-fill_found_ne j (some r) id n s h =
    lookup-shrink_ne j r id n (release r n s) h ∙ ap (lookup j) (release_tables r n s).1

pub lookup-release_fill_ne :
    (j id n : ℕ) (s : RiskState)
    → id ≢ j
    → lookup j (release_fill id n s).open_orders ≡ lookup j s.open_orders
unfolding release_fill
lookup-release_fill_ne j id n s h = lookup-fill_found_ne j (lookup id s.open_orders) id n s h

pub release_fill-IsBacked :
    (id n : ℕ) (s : RiskState)
    → Fits n (lookup id s.open_orders)
    → IsBacked s
    → IsBacked (release_fill id n s)
unfolding release_fill
release_fill-IsBacked id n s fits b = record {
  tables = fill_found-TablesUnique (lookup id s.open_orders) id n s b.tables;
  cash = λ u.
      fill_found-Backed (cash_of u) _ (cash-Holding u) (lookup id s.open_orders) id n s b.tables
        refl fits (b.cash u);
  units = λ k.
      fill_found-Backed (units_of k) _ (units-Holding k) (lookup id s.open_orders) id n s b.tables
        refl fits (b.units k);
}

release_remaining-IsBacked :
    (id : ℕ) (s : RiskState) → IsBacked s → IsBacked (release_remaining id s)
unfolding release_remaining
release_remaining-IsBacked id s b = record {
  tables = retire-TablesUnique (lookup id s.open_orders) id s b.tables;
  cash = λ u.
      retire-Backed (cash_of u) _ (cash-Holding u) (lookup id s.open_orders) id s b.tables refl
        (b.cash u);
  units = λ k.
      retire-Backed (units_of k) _ (units-Holding k) (lookup id s.open_orders) id s b.tables refl
        (b.units k);
}

accept-IsBacked :
    (o : OrderAccepted) (s : RiskState)
    → lookup o.order_id s.open_orders ≡ none
    → IsBacked s
    → IsBacked (apply_order_accepted o s)
unfolding apply_order_accepted
accept-IsBacked o s new b =
    let p = lookup (o.user_id, o.client_order_id) s.pending_by_client in
    record {
      tables = accept_found-TablesUnique p o s b.tables;
      cash = λ u.
          accept_found-Backed (cash_of u) _ (cash-Holding u) p o s b.tables refl new (b.cash u);
      units = λ k.
          accept_found-Backed (units_of k) _ (units-Holding k) p o s b.tables refl new (b.units k);
    }

-- What the matcher guarantees of its records: an order id is given once, and a fill names two
-- orders and takes no more than either has left.
abbrev pub Admits : Record → RiskState → Type 0
Admits (order_accepted o) s = lookup o.order_id s.open_orders ≡ none
Admits (fill f) s =
    (f.maker_order_id ≢ f.taker_order_id)
    × Fits f.qty (lookup f.maker_order_id s.open_orders)
    × Fits f.qty (lookup f.taker_order_id s.open_orders)
Admits _ s = Unit

-- Balances and inventory are not what the invariant speaks of.
pub same_holds :
    (s t : RiskState)
    → s.reserved ≡ t.reserved
    → s.reserved_qty ≡ t.reserved_qty
    → s.pending_by_client ≡ t.pending_by_client
    → s.open_orders ≡ t.open_orders
    → IsBacked t
    → IsBacked s
same_holds s t p q r o b = record {
  tables = record {
    pending_unique = rw r b.tables.pending_unique;
    open_unique = rw o b.tables.open_unique;
  };
  cash = λ u. rw (p, r, o) (b.cash u);
  units = λ k. rw (q, r, o) (b.units k);
}

pub settle_fill-IsBacked : (f : Fill) (s : RiskState) → IsBacked s → IsBacked (settle_fill f s)
unfolding settle_fill
settle_fill-IsBacked f s b = same_holds _ s refl refl refl refl b

-- No record of the stream breaks the books of the risk state.
pub apply-IsBacked :
    (r : Record) (id : Option String) (s : RiskState)
    → Admits r s
    → IsBacked s
    → IsBacked (apply r id s)
unfolding apply
apply-IsBacked (account_created r) id s a b = same_holds _ s refl refl refl refl b
apply-IsBacked (cash_credited r) id s a b = same_holds _ s refl refl refl refl b
apply-IsBacked (order_accepted o) id s a b =
    accept-IsBacked o _ a (same_holds _ s refl refl refl refl b)
apply-IsBacked (order_cancelled o) id s a b =
    release_remaining-IsBacked o.order_id _ (same_holds _ s refl refl refl refl b)
apply-IsBacked (fill f) id s a b =
    unfold apply_fill in
    let s' : RiskState =
      settle_fill f (record s { last_seq = elim id [ none ↦ s.last_seq | some i ↦ i ] }) in
    let settled : IsBacked s' = unfold settle_fill in same_holds _ s refl refl refl refl b in
    let opens : s'.open_orders ≡ s.open_orders = unfold settle_fill in refl in
    let made = release_fill-IsBacked f.maker_order_id f.qty s' (rw opens a.1) settled in
    release_fill-IsBacked f.taker_order_id f.qty _
      (rw (lookup-release_fill_ne f.taker_order_id f.maker_order_id f.qty s' a.0, opens) a.2) made
apply-IsBacked ignored id s a b = same_holds _ s refl refl refl refl b

-- A reservation is granted exactly if the check has no objection.
pub reserve-eq-ok :
    (q : Request) (s : RiskState) (r : Reservation × RiskState)
    → reserve q s ≡ ok r
    → (reject_reason_for q s ≡ none) × (grant q s ≡ r)
unfolding reserve
reserve-eq-ok q s r h = elim (Option-cases (reject_reason_for q s)) [
  | inl passed ↦ (passed, ground arith)
  | inr (reason, refused) ↦ absurd (ground arith)
]

pub grant-IsBacked :
    (q : Request) (s : RiskState)
    → lookup (q.user_id, q.client_order_id) s.pending_by_client ≡ none
    → IsBacked s
    → IsBacked (grant q s).1
unfolding grant
grant-IsBacked q s new b =
    let r = reservation_of q in
    let t = commit_tables r s in
    let key : ℕ × ℕ = (q.user_id, q.client_order_id) in
    record {
      tables = record {
        pending_unique = insert-IsUnique key r _ (rw t.0 b.tables.pending_unique);
        open_unique = rw t.1 b.tables.open_unique;
      };
      cash = λ u.
          rw (t.0, t.1)
            (omega (
              arith,
              (cash-Holding u).held-commit r s,
              b.cash u,
              sum_ℕ-insert_new (λ _ o. cash_of u o) key r s.pending_by_client new,
            ));
      units = λ k.
          rw (t.0, t.1)
            (omega (
              arith,
              (units-Holding k).held-commit r s,
              b.units k,
              sum_ℕ-insert_new (λ _ o. units_of k o) key r s.pending_by_client new,
            ));
    }

-- Nor does a reservation that is granted for a new client order id.
pub reserve-IsBacked :
    (q : Request) (s : RiskState) (r : Reservation) (s' : RiskState)
    → lookup (q.user_id, q.client_order_id) s.pending_by_client ≡ none
    → reserve q s ≡ ok (r, s')
    → IsBacked s
    → IsBacked s'
reserve-IsBacked q s r s' new granted b =
    subst IsBacked (ap (λ (x : Reservation × RiskState). x.1) (reserve-eq-ok q s (r, s') granted).1)
      (grant-IsBacked q s new b)
