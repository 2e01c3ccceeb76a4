-- ===== src/Matcher/Adapter/Total.antt =====
-- `apply` never fails on a valid matcher.
use mathlib.Core.Option.{some-injective}
use quant_arena.Prelude.{
  ℕ, ◌+◌, ◌<◌, ◌≡◌, refl, sym, ap, ◌∙◌, String, false, ◌&&◌, none, some, List, [], ◌∷◌, ◌++◌, arith,
  ◌==◌, nat_eq, pair_eq, ==-refl, inl, inr, ltb, Bool-cases, Option-cases, if◌then◌else◌, if_some,
  Result, ok,
}
use quant_arena.Prelude.Int.{pos_part}
use quant_arena.Dict.{lookup}
use quant_arena.Engine.Book
use quant_arena.Engine.Book.{OrderBook, new_order, match_order, matched}
use quant_arena.Engine.Book.Settle.{left}
use quant_arena.Engine.Book.Matching.{Executions, lookup-Executions}
use quant_arena.Engine.Book.Incoming.{Joined-UncrossedBut}
use quant_arena.Engine.Book.Orders.{Joined, Handled, match_order-Handled}
use quant_arena.Matcher.Records.{
  SubmitOrder, Inbound, submit_order, cancel_order, create_account, credit_cash, configure_replay,
  other, Outbound, ioc, ioc_expired,
}
use quant_arena.Matcher.State.{
  Live, NaiveMatcher, MatcherError, book, put_book, forget, enlist, remaining_qty,
}
use quant_arena.Matcher.Adapter.{
  reject_reason, live_of, model_order, finish, accept, accepted, to_contract_fills, cancelled,
  submit, submit_if, apply,
}
use quant_arena.Matcher.Adapter.Valid.{
  Valid, AtHome, put-Valid, forget-Valid, enlist-Valid, entry-enlist_own, live-enlist, book-enlist,
  book-put, fresh_in_books,
}
use quant_arena.Matcher.Adapter.Cancel.{withdraw, cancel-Valid}
use quant_arena.Matcher.Adapter.Fills.{HasEntries, gone_if_filled, to_contract_fills-Valid}

-- The call returns, and the matcher after it is valid.
abbrev pub Succeeds : Result MatcherError (NaiveMatcher × List Outbound) → Type 0
Succeeds r = (m : NaiveMatcher) × (out : List Outbound) × (r ≡ ok (m, out)) × Valid m

in_bounds :
    (o : SubmitOrder) → reject_reason o ≡ none → (0 < pos_part o.price_ticks) × (0 < pos_part o.qty)
unfolding reject_reason
in_bounds o h = ground (arith, h)

made_order : Book.Order → Book.Order
made_order x = record x { remaining_quantity = x.quantity }

new_order_lem : (x : Book.Order) → 0 < x.price → 0 < x.quantity → new_order x ≡ ok (made_order x)
unfolding new_order made_order
new_order_lem x h k =
    let e : (x.price == 0) ≡ false = ground (arith, h) in
    let f : (x.quantity == 0) ≡ false = ground (arith, k) in rw (e, f) refl

finish-Valid :
    (o : SubmitOrder) (l : Live) (m : NaiveMatcher)
    → Valid m
    → lookup l.order_id m.by_order_id ≡ some l
    → Succeeds (finish o l m)
unfolding finish
finish-Valid o l m v own = elim (Bool-cases (o.tif == ioc && ltb 0 (remaining_qty l m))) [
  | inl t ↦
      let home =
        λ (s : ℕ) (x : Book.Order) (g : lookup l.order_id (book s m).orders_by_id ≡ some x).
          let (y, e) = v.known s l.order_id x g in
          sym e.2 ∙ ap (λ (z : Live). z.symbol_id) (some-injective _ _ (sym e.0 ∙ own)) in
      let (c, r, w) = withdraw l m v home in
      (
        forget l (put_book l.symbol_id c m),
        cancelled o.timestamp_ns o.user_id (remaining_qty l m) ioc_expired l ∷ [],
        rw (t, r, finish) refl,
        w,
      )
  | inr t ↦ elim (Bool-cases (remaining_qty l m == 0)) [
    | inl z ↦ (
      forget l m,
      [],
      rw (t, z, finish) refl,
      forget-Valid l m v
          (gone_if_filled l.symbol_id m v l l.order_id (own, refl, refl) (ground (arith, z))),
    )
    | inr z ↦ (m, [], rw (t, z, finish) refl, v)
  ]
]

accept_steps :
    (str : ℕ → String) (o : SubmitOrder) (m : NaiveMatcher) (x : Book.Order) (fs : List Book.Fill)
    (c : OrderBook) (m2 m3 : NaiveMatcher) (fills rest : List Outbound)
    → new_order (model_order str m.next_order_id o) ≡ ok x
    → match_order (left Book.buy (book o.symbol_id m) + x.quantity + 1) x (book o.symbol_id m)
      ≡ matched fs c
    → to_contract_fills o m.next_order_id fs
        (put_book o.symbol_id c (enlist (live_of m.next_order_id o) m))
      ≡ ok (m2, fills)
    → finish o (live_of m.next_order_id o) m2 ≡ ok (m3, rest)
    → accept str o m ≡ ok (m3, accepted m.next_order_id o ∷ (fills ++ rest))
unfolding accept
accept_steps str o m x fs c m2 m3 fills rest h k l n = rw (h, k, l, n, accept) refl

module _ (str : ℕ → String) (o : SubmitOrder) (m : NaiveMatcher) (v : Valid m) where
  abbrev taker : Live
  taker = live_of m.next_order_id o

  abbrev new_model : Book.Order
  new_model = made_order (model_order str m.next_order_id o)

  abbrev old_book : OrderBook
  old_book = book o.symbol_id m

  enlisted-Valid : Valid (enlist taker m)
  enlisted-Valid = enlist-Valid taker m v refl

  own_entry : lookup m.next_order_id (enlist taker m).by_order_id ≡ some taker
  own_entry = entry-enlist_own taker m

  module _ (joined : OrderBook) (j : Joined new_model old_book joined) where
    joined-HasEntries : HasEntries o.symbol_id joined (enlist taker m)
    unfolding made_order
    joined-HasEntries i x h =
        elim (if_some (m.next_order_id == i) (lookup i old_book.orders_by_id) new_model x
          (sym (j.stored i) ∙ h)) [
            | inl (c, e) ↦
                let p : m.next_order_id ≡ i = (nat_eq.beq_iff m.next_order_id i).0 c in
                (
                  taker,
                  (ap (λ k. lookup k (enlist taker m).by_order_id) (sym p) ∙ own_entry, p, refl),
                )
            | inr (c, g) ↦
                enlisted-Valid.known o.symbol_id i x
                  (ap (λ b. lookup i b.orders_by_id) (book-enlist o.symbol_id taker m) ∙ g)
          ]

    joined-AtHome :
        (k : ℕ × ℕ) (l : Live)
        → lookup k (enlist taker m).live ≡ some l
        → AtHome l o.symbol_id joined
    unfolding made_order
    joined-AtHome k l h x g = elim (live-enlist taker l m k h) [
      | inl e ↦ ap (λ (y : Live). y.symbol_id) e
      | inr e ↦
          let old : (m.next_order_id == l.order_id) ≡ false =
            ground (arith, v.live_numbered k l e) in
          v.at_home k l e o.symbol_id x (
            ap (λ z. if z then some new_model else lookup l.order_id old_book.orders_by_id)
              (sym old)
            ∙ sym (j.stored l.order_id)
            ∙ g)
    ]

    matched-Valid :
        (fs : List Book.Fill) (c : OrderBook)
        → Handled new_model fs old_book c
        → Executions fs joined c
        → Valid (put_book o.symbol_id c (enlist taker m))
    matched-Valid fs c h es =
        put-Valid o.symbol_id c (enlist taker m) enlisted-Valid h.matching.well h.matching.uncrossed
          (λ i x k. let (y, g) = lookup-Executions fs joined c es i x k in joined-HasEntries i y g)
          (λ k l h x g.
            let (y, g') = lookup-Executions fs joined c es l.order_id x g in
            joined-AtHome k l h y g')

  -- An order in bounds is accepted and matched, and the call does not fail.
  accept-Valid : reject_reason o ≡ none → Succeeds (accept str o m)
  unfolding made_order
  accept-Valid bounds =
      let (price, qty) = in_bounds o bounds in
      let made = new_order_lem (model_order str m.next_order_id o) price qty in
      let fuel = left Book.buy old_book + new_model.quantity + 1 in
      let (fs, c, r, h) =
        match_order-Handled fuel (model_order str m.next_order_id o) new_model old_book
          (v.well o.symbol_id) made (fresh_in_books m o.symbol_id v) (ground arith) in
      let v1 = matched-Valid h.joined h.enters fs c h h.matching.executions in
      let m1 = put_book o.symbol_id c (enlist taker m) in
      let at : book o.symbol_id m1 ≡ c =
        book-put o.symbol_id o.symbol_id c (enlist taker m)
        ∙ ap (λ z. if z then c else book o.symbol_id (enlist taker m)) (==-refl o.symbol_id) in
      let (m2, fills, s, v2, own) =
        to_contract_fills-Valid o m.next_order_id o.symbol_id taker fs h.joined c
          h.matching.executions
          (Joined-UncrossedBut new_model old_book h.joined h.enters (v.rest o.symbol_id)) m1 v1 at
          own_entry (joined-HasEntries h.joined h.enters) in
      let (m3, rest, t, v3) = finish-Valid o taker m2 v2 own in
      (
        m3,
        accepted m.next_order_id o ∷ (fills ++ rest),
        accept_steps str o m new_model fs c m2 m3 fills rest made r s t,
        v3,
      )

submit-Valid :
    (str : ℕ → String) (o : SubmitOrder) (m : NaiveMatcher) → Valid m → Succeeds (submit str o m)
unfolding submit submit_if
submit-Valid str o m v = elim (Option-cases (reject_reason o)) [
  | inl n ↦
      let (m', out, r, w) = accept-Valid str o m v n in
      (m', out, ap (λ z. submit_if str z o m) n ∙ r, w)
  | inr (why, h) ↦ (m, _, ap (λ z. submit_if str z o m) h, v)
]

-- Whatever record comes in, a valid matcher answers without an error and is valid afterwards: no book
-- is crossed or loses track of its orders, the match ends, and every fill finds its maker and taker.
pub apply-Valid :
    (str : ℕ → String) (r : Inbound) (m : NaiveMatcher)
    → Valid m
    → (m' : NaiveMatcher) × (out : List Outbound) × (apply str r m ≡ ok (m', out)) × Valid m'
unfolding apply
apply-Valid str (submit_order o) m v = submit-Valid str o m v
apply-Valid str (cancel_order c) m v = cancel-Valid c m v
apply-Valid str (create_account r) m v = (m, _, refl, v)
apply-Valid str (credit_cash r) m v = (m, _, refl, v)
apply-Valid str (configure_replay r) m v = (m, _, refl, v)
apply-Valid str other m v = (m, _, refl, v)
