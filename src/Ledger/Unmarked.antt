-- ===== src/Ledger/Unmarked.antt =====
-- What `take_dirty` promises to the flush of the read model: rows outside the dirty sets are as they
-- were when the sets were taken.
use quant_arena.Prelude.{
  ℕ, ◌≡◌, refl, ◌∙◌, Option, none, some, false, List, [], ◌∷◌, arith, Eq, ◌==◌, nat_eq, pair_eq,
  inl, inr, Bool-cases, leb,
}
use quant_arena.Prelude.Int.{ℤ}
use quant_arena.Dict.{Dict, lookup, contains, add, contains-add, lookup-insert, lookup-erase}
use quant_arena.Dict.Shift.{shift}
use quant_arena.Contracts.{
  Record, account_created, cash_credited, order_accepted, order_cancelled, fill, ignored,
  StreamItem,
}
use quant_arena.Ledger.{
  Ledger, OpenOrderRecord, take_dirty, reduce_found, reduce_order, settle, apply_account_created,
  apply_cash_credited, apply_order_accepted, apply_order_cancelled, apply_fill, dispatch, apply,
  replay,
}

module _ {ℓ} {K : Type ℓ} ⦃e : Eq K⦄ where
  -- A key outside `add k s` is not `k`, and outside `s`.
  pub unmarked :
      (k j : K) (s : List K)
      → contains j (add k s) ≡ false
      → ((k == j) ≡ false) × (contains j s ≡ false)
  unmarked k j s h = ground (arith, contains-add k j s)

  pub lookup-shift_other :
      (k j : K) (x : ℤ) (d : Dict K ℤ) → (k == j) ≡ false → lookup j (shift k x d) ≡ lookup j d
  unfolding shift
  lookup-shift_other k j x d h = simp (lookup-insert, h)

lookup-reduce_found :
    (id j qty : ℕ) (o : Option OpenOrderRecord) (d : Dict ℕ OpenOrderRecord)
    → (id == j) ≡ false
    → lookup j (reduce_found id qty o d) ≡ lookup j d
unfolding reduce_found
lookup-reduce_found id j qty none d h = refl
lookup-reduce_found id j qty (some o) d h = elim (Bool-cases (leb o.remaining_qty qty)) [
  | inl t ↦ simp (t, lookup-erase, h)
  | inr t ↦ simp (t, lookup-insert, h)
]

lookup-reduce_other :
    (id j qty : ℕ) (d : Dict ℕ OpenOrderRecord)
    → (id == j) ≡ false
    → lookup j (reduce_order id qty d) ≡ lookup j d
unfolding reduce_order
lookup-reduce_other id j qty d h = lookup-reduce_found id j qty (lookup id d) d h

-- The rows of `user`, `key` and `id` are the same in two ledgers.
abbrev pub SameRows : ℕ → ℕ × ℕ → ℕ → Ledger → Ledger → Type 0
SameRows user key id l m =
    (lookup user l.cash_balances ≡ lookup user m.cash_balances)
    × (lookup key l.positions ≡ lookup key m.positions)
    × (lookup id l.open_orders ≡ lookup id m.open_orders)

-- None of the three is marked.
abbrev pub Unmarked : ℕ → ℕ × ℕ → ℕ → Ledger → Type 0
Unmarked user key id l =
    (contains user l.dirty_accounts ≡ false)
    × (contains key l.dirty_positions ≡ false)
    × (contains id l.dirty_orders ≡ false)

Unmarked-dispatch :
    (r : Record) (user : ℕ) (key : ℕ × ℕ) (id : ℕ) (l : Ledger)
    → Unmarked user key id (dispatch r l)
    → Unmarked user key id l × SameRows user key id (dispatch r l) l
unfolding dispatch apply_account_created apply_cash_credited apply_order_accepted
    apply_order_cancelled apply_fill
Unmarked-dispatch (account_created r) user key id l h =
    let a = unmarked r.user_id user l.dirty_accounts h.0 in
    ((a.1, h.1, h.2), (simp (lookup-insert, a.0), refl, refl))
Unmarked-dispatch (cash_credited r) user key id l h =
    let a = unmarked r.user_id user l.dirty_accounts h.0 in
    ((a.1, h.1, h.2), (lookup-shift_other _ _ _ _ a.0, refl, refl))
Unmarked-dispatch (order_accepted r) user key id l h =
    let a = unmarked r.order_id id l.dirty_orders h.2 in
    ((h.0, h.1, a.1), (refl, refl, simp (lookup-insert, a.0)))
Unmarked-dispatch (order_cancelled r) user key id l h =
    let a = unmarked r.order_id id l.dirty_orders h.2 in
    ((h.0, h.1, a.1), (refl, refl, lookup-reduce_other _ _ _ _ a.0))
Unmarked-dispatch (fill r) user key id l h =
    let s = settle r in
    let seller = unmarked s.seller_id user (add s.buyer_id l.dirty_accounts) h.0 in
    let buyer = unmarked s.buyer_id user l.dirty_accounts seller.1 in
    let buyer_key : ℕ × ℕ = (s.buyer_id, r.symbol_id) in
    let seller_key : ℕ × ℕ = (s.seller_id, r.symbol_id) in
    let sold = unmarked seller_key key (add buyer_key l.dirty_positions) h.1 in
    let bought = unmarked buyer_key key l.dirty_positions sold.1 in
    let taker = unmarked r.taker_order_id id (add r.maker_order_id l.dirty_orders) h.2 in
    let maker = unmarked r.maker_order_id id l.dirty_orders taker.1 in
    (
      (buyer.1, bought.1, maker.1),
      (
        lookup-shift_other _ _ _ _ seller.0 ∙ lookup-shift_other _ _ _ _ buyer.0,
        lookup-shift_other _ _ _ _ sold.0 ∙ lookup-shift_other _ _ _ _ bought.0,
        lookup-reduce_other _ _ _ _ taker.0 ∙ lookup-reduce_other _ _ _ _ maker.0,
      ),
    )
Unmarked-dispatch ignored user key id l h = (h, (refl, refl, refl))

Unmarked-replay :
    (items : List StreamItem) (user : ℕ) (key : ℕ × ℕ) (id : ℕ) (l : Ledger)
    → Unmarked user key id (replay items l)
    → Unmarked user key id l × SameRows user key id (replay items l) l
unfolding replay apply
Unmarked-replay [] user key id l h = (h, (refl, refl, refl))
Unmarked-replay (item ∷ items) user key id l h =
    let later = Unmarked-replay items user key id _ h in
    let now = Unmarked-dispatch item.body user key id _ later.0 in
    (now.0, (later.1.0 ∙ now.1.0, later.1.1 ∙ now.1.1, later.1.2 ∙ now.1.2))

-- After `take_dirty` and any records, an account, a position and an open order whose keys are in none
-- of the dirty sets are exactly as they were when the sets were taken.
pub replay-take_dirty :
    (items : List StreamItem) (user : ℕ) (key : ℕ × ℕ) (id : ℕ) (l : Ledger)
    → Unmarked user key id (replay items (take_dirty l).1)
    → SameRows user key id (replay items (take_dirty l).1) l
unfolding take_dirty
replay-take_dirty items user key id l h = (Unmarked-replay items user key id _ h).1
