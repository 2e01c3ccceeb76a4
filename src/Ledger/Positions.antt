-- ===== src/Ledger/Positions.antt =====
-- Inventory is conserved: what one user holds of a symbol, others are short of.
use quant_arena.Prelude.{
  ◌∙◌, ℕ, ◌≡◌, refl, some, List, [], ◌∷◌, Bool, ◌==◌, nat_eq, pair_eq, Option, String, Bool-cases,
  inl, inr,
}
use quant_arena.Prelude.Int.{ℤ, pos, ◌+ℤ◌, ◌-ℤ◌, int_laws, parts}
use quant_arena.Dict.Shift.{shift, selected, sum_where, sum_where-shift}
use quant_arena.Dict.Sums.{sum_ℤ}
use quant_arena.Contracts.{
  Record, account_created, cash_credited, order_accepted, order_cancelled, fill, ignored,
  StreamItem,
}
use quant_arena.Ledger.{
  Ledger, empty, settle, apply, apply_account_created, apply_cash_credited, apply_order_accepted,
  apply_order_cancelled, apply_fill, replay,
}

-- The holdings of all users in one symbol, added up.
abbrev pub net_position : ℕ → Ledger → ℤ
net_position s l = sum_where (λ (k : ℕ × ℕ). k.1 == s) l.positions

selected_cancels : (b : Bool) (q : ℕ) → selected b (pos q) +ℤ selected b (pos 0 -ℤ pos q) ≡ pos 0
selected_cancels b q = elim (Bool-cases b) [
  | inl h ↦ rw h (omega int_laws)
  | inr h ↦ rw h (omega int_laws)
]

net_position-apply :
    (s : ℕ) (r : Record) (id : Option String) (l : Ledger)
    → net_position s (apply r id l) ≡ net_position s l
unfolding apply
net_position-apply s (account_created r) id l = unfold apply_account_created in refl
net_position-apply s (cash_credited r) id l = unfold apply_cash_credited in refl
net_position-apply s (order_accepted r) id l = unfold apply_order_accepted in refl
net_position-apply s (order_cancelled r) id l = unfold apply_order_cancelled in refl
net_position-apply s (fill r) id l =
    unfold apply_fill in
    let t = settle r in
    let buyer_key : ℕ × ℕ = (t.buyer_id, r.symbol_id) in
    let seller_key : ℕ × ℕ = (t.seller_id, r.symbol_id) in
    let p : ℕ × ℕ → Bool = λ k. k.1 == s in
    omega (
      int_laws,
      parts (sum_where-shift p buyer_key (pos r.qty) l.positions),
      parts (
          sum_where-shift p seller_key (pos 0 -ℤ pos r.qty)
            (shift buyer_key (pos r.qty) l.positions)),
      parts (selected_cancels (r.symbol_id == s) r.qty),
    )
net_position-apply s ignored id l = refl

net_position-replay_from :
    (items : List StreamItem) (s : ℕ) (l : Ledger)
    → net_position s (replay items l) ≡ net_position s l
unfolding replay
net_position-replay_from [] s l = refl
net_position-replay_from (item ∷ items) s l =
    net_position-replay_from items s (apply item.body (some item.stream_id) l)
    ∙ net_position-apply s item.body (some item.stream_id) l

empty-net_position : (s : ℕ) → net_position s empty ≡ pos 0
unfolding sum_ℤ
empty-net_position s = refl

-- After any stream the positions of all users in a symbol add up to zero.
pub net_position-replay :
    (items : List StreamItem) (s : ℕ) → net_position s (replay items empty) ≡ pos 0
net_position-replay items s = net_position-replay_from items s empty ∙ empty-net_position s
