-- ===== src/Ledger/Conservation.antt =====
-- Cash and inventory are conserved (services/ledger/ledger.py, invariant I10).
use quant_arena.Prelude.{
  true, ◌≡◌, refl, none, some, List, [], ◌∷◌, Bool-cases, inl, inr, ◌==◌, nat_eq, pair_eq, Option,
  String,
}
use quant_arena.Prelude.Int.{pos, ◌+ℤ◌, int_laws, parts}
use quant_arena.Dict.{lookup}
use quant_arena.Dict.Shift.{shift, sum_where-shift}
use quant_arena.Dict.Sums.{sum_ℤ, sum_ℤ-insert_new}
use quant_arena.Contracts.{
  Fill, Record, account_created, cash_credited, order_accepted, order_cancelled, fill, ignored,
  StreamItem,
}
use quant_arena.Contracts.Side
use quant_arena.Ledger.{
  Ledger, empty, calculate_fees, settle, apply, apply_account_created, apply_cash_credited,
  apply_order_accepted, apply_order_cancelled, apply_fill, total_system_cash, replay,
}

-- What the buyer pays is what the seller receives and the house keeps.
pub settle_balances :
    (f : Fill)
    → let s = settle f in
      s.buyer_cash_delta
        +ℤ s.seller_cash_delta
        +ℤ pos (calculate_fees f.price_ticks f.qty).total_fee_ticks
      ≡ pos 0
unfolding settle
settle_balances f = elim (Bool-cases (f.aggressor_side == Side.buy)) [
  | inl h ↦ rw h (omega int_laws)
  | inr h ↦ rw h (omega int_laws)
]

-- The deposits that an account's creation brings are counted once: its user has no balance yet.
abbrev pub IsNewAccount : Record → Ledger → Type 0
IsNewAccount (account_created r) l = lookup r.user_id l.cash_balances ≡ none
IsNewAccount _ l = Unit

apply_conserves :
    (r : Record) (id : Option String) (l : Ledger)
    → IsNewAccount r l
    → total_system_cash (apply r id l) +ℤ l.total_deposits_ticks
      ≡ total_system_cash l +ℤ (apply r id l).total_deposits_ticks
unfolding apply total_system_cash
apply_conserves (account_created r) id l new =
    unfold apply_account_created in
    omega (
      int_laws,
      parts (sum_ℤ-insert_new (λ _ v. v) r.user_id r.initial_cash_ticks l.cash_balances new),
    )
apply_conserves (cash_credited r) id l new =
    unfold apply_cash_credited in
    omega (int_laws, parts (sum_where-shift (λ _. true) r.user_id r.amount_ticks l.cash_balances))
apply_conserves (order_accepted r) id l new = unfold apply_order_accepted in omega int_laws
apply_conserves (order_cancelled r) id l new = unfold apply_order_cancelled in omega int_laws
apply_conserves (fill r) id l new =
    unfold apply_fill in
    let s = settle r in
    omega (
      int_laws,
      parts (settle_balances r),
      parts (sum_where-shift (λ _. true) s.buyer_id s.buyer_cash_delta l.cash_balances),
      parts (
          sum_where-shift (λ _. true) s.seller_id s.seller_cash_delta
            (shift s.buyer_id s.buyer_cash_delta l.cash_balances)),
    )
apply_conserves ignored id l new = omega int_laws

-- Along a stream, every account is created before any cash stands in its name.
abbrev pub AllNew : List StreamItem → Ledger → Type 0
AllNew [] l = Unit
AllNew (item ∷ items) l =
    IsNewAccount item.body l × AllNew items (apply item.body (some item.stream_id) l)

empty_cash : total_system_cash empty ≡ pos 0
unfolding total_system_cash sum_ℤ ◌+ℤ◌
empty_cash = refl

replay_conserves :
    (items : List StreamItem) (l : Ledger)
    → AllNew items l
    → total_system_cash (replay items l) +ℤ l.total_deposits_ticks
      ≡ total_system_cash l +ℤ (replay items l).total_deposits_ticks
unfolding replay
replay_conserves [] l h = refl
replay_conserves (item ∷ items) l h =
    let l' = apply item.body (some item.stream_id) l in
    omega (
      int_laws,
      parts (apply_conserves item.body (some item.stream_id) l h.0),
      parts (replay_conserves items l' h.1),
    )

-- Whatever is replayed into an empty ledger, users' cash and house fees together are exactly what
-- was deposited, if every account is created before any cash stands in its name.
pub replay_cash_conserved :
    (items : List StreamItem)
    → AllNew items empty
    → total_system_cash (replay items empty) ≡ (replay items empty).total_deposits_ticks
replay_cash_conserved items h =
    omega (int_laws, parts (replay_conserves items empty h), parts empty_cash)
