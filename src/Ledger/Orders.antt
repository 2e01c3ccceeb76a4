-- ===== src/Ledger/Orders.antt =====
-- The life of an order in the ledger: accepted, reduced by fills and cancellations, dropped.
use mathlib.Core.Path.{subst}
use quant_arena.Prelude.{
  sym, ap, ◌∙◌, ℕ, ◌+◌, ◌-◌, ◌≤◌, ◌<◌, ◌≡◌, ◌≢◌, refl, some, none, List, [], ◌∷◌, ◌==◌, nat_eq,
  pair_eq, Option, String, arith, Bool-cases, inl, inr, leb, if◌then◌else◌, ==-cases,
}
use quant_arena.Dict.{
  Dict, lookup, AllEntries, AllEntries-insert, AllEntries-erase, AllEntries-lookup, lookup-insert,
  lookup-erase,
}
use quant_arena.Contracts.{
  Record, account_created, cash_credited, order_accepted, order_cancelled, fill, ignored,
  StreamItem,
}
use quant_arena.Ledger.{
  OpenOrderRecord, Ledger, apply, reduce_found, reduce_order, apply_account_created,
  apply_cash_credited, apply_order_accepted, apply_order_cancelled, apply_fill, replay,
}

-- An order in the book stands under its own id, and has something left of what was accepted.
abbrev pub IsLive : ℕ → OpenOrderRecord → Type 0
IsLive id o = (o.order_id ≡ id) × (0 < o.remaining_qty) × (o.remaining_qty ≤ o.qty)

abbrev pub OrdersLive : Ledger → Type 0
OrdersLive l = AllEntries IsLive l.open_orders

-- The matcher accepts orders for a positive quantity only.
abbrev pub IsPositive : Record → Type 0
IsPositive (order_accepted r) = 0 < r.qty
IsPositive _ = Unit

reduce_found-IsLive :
    (id qty : ℕ) (o : Option OpenOrderRecord) (d : Dict ℕ OpenOrderRecord)
    → lookup id d ≡ o
    → AllEntries IsLive d
    → AllEntries IsLive (reduce_found id qty o d)
unfolding reduce_found
reduce_found-IsLive id qty none d found h = h
reduce_found-IsLive id qty (some o) d found h = elim (Bool-cases (leb o.remaining_qty qty)) [
  | inl t ↦ rw (t, AllEntries) (AllEntries-erase IsLive id d h)
  | inr t ↦
      let live : IsLive id o = AllEntries-lookup IsLive id o d h found in
      rw (t, AllEntries) (AllEntries-insert IsLive id _ d h (live.0, ground arith, ground arith))
]

reduce_order-IsLive :
    (id qty : ℕ) (d : Dict ℕ OpenOrderRecord)
    → AllEntries IsLive d
    → AllEntries IsLive (reduce_order id qty d)
unfolding reduce_order
reduce_order-IsLive id qty d h = reduce_found-IsLive id qty (lookup id d) d refl h

-- No record leaves an order in the ledger that has nothing left, or more than was accepted.
pub OrdersLive-apply :
    (r : Record) (id : Option String) (l : Ledger)
    → IsPositive r
    → OrdersLive l
    → OrdersLive (apply r id l)
unfolding apply
OrdersLive-apply (account_created r) id l p h = unfold apply_account_created in h
OrdersLive-apply (cash_credited r) id l p h = unfold apply_cash_credited in h
OrdersLive-apply (order_accepted r) id l p h =
    unfold apply_order_accepted in
    AllEntries-insert IsLive r.order_id _ l.open_orders h (refl, p, omega arith)
OrdersLive-apply (order_cancelled r) id l p h =
    unfold apply_order_cancelled in reduce_order-IsLive r.order_id r.remaining_qty l.open_orders h
OrdersLive-apply (fill r) id l p h =
    unfold apply_fill in
    reduce_order-IsLive r.taker_order_id r.qty _
      (reduce_order-IsLive r.maker_order_id r.qty l.open_orders h)
OrdersLive-apply ignored id l p h = h

-- What the records of a stream take off the order `id`: fills by either of their sides, and
-- cancellations.
pub taken_by : ℕ → Record → ℕ
taken_by id (order_cancelled r) = if r.order_id == id then r.remaining_qty else 0
taken_by id (fill r) =
    (if r.maker_order_id == id then r.qty else 0) + (if r.taker_order_id == id then r.qty else 0)
taken_by id _ = 0

pub taken : ℕ → List StreamItem → ℕ
unfolding taken_by
taken id [] = 0
taken id (item ∷ items) = taken_by id item.body + taken id items

-- The matcher gives an order id once.
abbrev pub NotReaccepted : ℕ → Record → Type 0
NotReaccepted id (order_accepted r) = r.order_id ≢ id
NotReaccepted id _ = Unit

abbrev pub NoneReaccept : ℕ → List StreamItem → Type 0
NoneReaccept id [] = Unit
NoneReaccept id (item ∷ items) = NotReaccepted id item.body × NoneReaccept id items

-- What is left of an order from which `n` was taken.
abbrev pub left : ℕ → Option OpenOrderRecord → Option OpenOrderRecord
left n none = none
left n (some o) =
    if leb o.remaining_qty n then none else some (record o { remaining_qty = o.remaining_qty - n })

abbrev IsOpen : Option OpenOrderRecord → Type 0
IsOpen none = Unit
IsOpen (some o) = 0 < o.remaining_qty

left-IsOpen : (n : ℕ) (o : Option OpenOrderRecord) → IsOpen o → IsOpen (left n o)
left-IsOpen n none h = tt
left-IsOpen n (some o) h = ground arith

left-left : (m n : ℕ) (o : Option OpenOrderRecord) → left n (left m o) ≡ left (m + n) o
left-left m n none = refl
left-left m n (some o) = ground arith

left-zero : (o : Option OpenOrderRecord) → IsOpen o → left 0 o ≡ o
left-zero none h = refl
left-zero (some o) h = ground arith

lookup-reduce_found :
    (id j qty : ℕ) (o : Option OpenOrderRecord) (d : Dict ℕ OpenOrderRecord)
    → lookup id d ≡ o
    → IsOpen (lookup j d)
    → lookup j (reduce_found id qty o d) ≡ left (if id == j then qty else 0) (lookup j d)
unfolding reduce_found
lookup-reduce_found id j qty none d found h = ground (arith, left-zero (lookup j d) h, found)
lookup-reduce_found id j qty (some o) d found h = ground (
  arith,
  left-zero (lookup j d) h,
  lookup-erase id j d,
  lookup-insert id j (record o { remaining_qty = o.remaining_qty - qty }) d,
)

lookup-reduce_order :
    (id j qty : ℕ) (d : Dict ℕ OpenOrderRecord)
    → IsOpen (lookup j d)
    → lookup j (reduce_order id qty d) ≡ left (if id == j then qty else 0) (lookup j d)
unfolding reduce_order
lookup-reduce_order id j qty d h = lookup-reduce_found id j qty (lookup id d) d refl h

lookup-apply :
    (j : ℕ) (r : Record) (id : Option String) (l : Ledger)
    → NotReaccepted j r
    → IsOpen (lookup j l.open_orders)
    → lookup j (apply r id l).open_orders ≡ left (taken_by j r) (lookup j l.open_orders)
unfolding apply taken_by
lookup-apply j (account_created r) id l n h = unfold apply_account_created in sym (left-zero _ h)
lookup-apply j (cash_credited r) id l n h = unfold apply_cash_credited in sym (left-zero _ h)
lookup-apply j (order_accepted r) id l n h =
    unfold apply_order_accepted in
    elim (==-cases r.order_id j) [
      | inl (t, p) ↦ absurd (n p)
      | inr (t, p) ↦ rw lookup-insert (rw t (sym (left-zero _ h)))
    ]
lookup-apply j (order_cancelled r) id l n h =
    unfold apply_order_cancelled in lookup-reduce_order r.order_id j r.remaining_qty l.open_orders h
lookup-apply j (fill r) id l n h =
    unfold apply_fill in
    let made = reduce_order r.maker_order_id r.qty l.open_orders in
    let first = lookup-reduce_order r.maker_order_id j r.qty l.open_orders h in
    lookup-reduce_order r.taker_order_id j r.qty made (subst IsOpen (sym first) (left-IsOpen _ _ h))
    ∙ ap (left _) first
    ∙ left-left _ _ (lookup j l.open_orders)
lookup-apply j ignored id l n h = sym (left-zero _ h)

lookup-replay_from :
    (j : ℕ) (items : List StreamItem) (l : Ledger)
    → IsOpen (lookup j l.open_orders)
    → NoneReaccept j items
    → lookup j (replay items l).open_orders ≡ left (taken j items) (lookup j l.open_orders)
unfolding replay taken
lookup-replay_from j [] l h n = sym (left-zero _ h)
lookup-replay_from j (item ∷ items) l h n =
    let l' = apply item.body (some item.stream_id) l in
    let first = lookup-apply j item.body (some item.stream_id) l n.0 h in
    lookup-replay_from j items l' (subst IsOpen (sym first) (left-IsOpen _ _ h)) n.1
    ∙ ap (left (taken j items)) first
    ∙ left-left _ _ (lookup j l.open_orders)

-- What a stream leaves of an open order is its remaining quantity less all that the fills and
-- cancellations of the stream took; once that is nothing the order is gone, and stays gone.
pub lookup-replay :
    (j : ℕ) (o : OpenOrderRecord) (items : List StreamItem) (l : Ledger)
    → lookup j l.open_orders ≡ some o
    → 0 < o.remaining_qty
    → NoneReaccept j items
    → lookup j (replay items l).open_orders ≡ left (taken j items) (some o)
lookup-replay j o items l found open_ n =
    lookup-replay_from j items l (subst IsOpen (sym found) open_) n
    ∙ ap (left (taken j items)) found
