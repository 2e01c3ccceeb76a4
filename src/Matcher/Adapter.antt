-- ===== src/Matcher/Adapter.antt =====
-- services/matcher/adapter.py: contract records in and out, with a reference book for each symbol.
pub mod Valid
pub mod Cancel
pub mod Fills
pub mod Total
mod Tests
use quant_arena.Prelude.{
  ℕ, ◌+◌, String, Bool, true, false, ◌||◌, ◌&&◌, ◌++◌, not, Option, none, some, List, [], ◌∷◌, ltb,
  ◌==◌, nat_eq, pair_eq, if◌then◌else◌, Result, ok, err, ◌>>=◌,
}
use quant_arena.Prelude.Int.{ℤ, pos, pos_part, ltb_ℤ}
use quant_arena.Dict.{Dict, lookup, get_or, insert, erase}
use quant_arena.Contracts.Side
use quant_arena.Contracts.{
  Record, account_created, cash_credited, order_accepted, order_cancelled, fill, ignored,
  RejectReason, invalid_side, invalid_tif, invalid_price, invalid_quantity, unknown_order,
}
use quant_arena.Matcher.Records.{
  gtc, ioc, user_requested, ioc_expired, SubmitOrder, CancelOrder, CreateAccount, CreditCash,
  ConfigureReplay, Inbound, submit_order, cancel_order, create_account, credit_cash,
  configure_replay, other, OrderRejected, Outbound, published, order_rejected, replay_configured,
}
use quant_arena.Engine.Book
use quant_arena.Engine.Book.{
  OrderBook, BookError, Outcome, matched, failed, out_of_fuel, new_order, match_order, remove_order,
}
use quant_arena.Engine.Book.Settle.{left}
use quant_arena.Matcher.State.{
  Live, NaiveMatcher, new_matcher, MatcherError, no_such_order, in_book, stuck, book, put_book,
  left_in, remaining_qty, forget, enlist,
}

unfoldable pub reject_reason : SubmitOrder → Option RejectReason
reject_reason o =
    if not (o.side == Side.buy || o.side == Side.sell)
    then some invalid_side
    else if not (o.tif == gtc || o.tif == ioc)
    then some invalid_tif
    else if not (ltb_ℤ (pos 0) o.price_ticks)
    then some invalid_price
    else if not (ltb_ℤ (pos 0) o.qty)
    then some invalid_quantity
    else none

abbrev pub in_model : ℕ → Book.Side
in_model side = if side == Side.buy then Book.buy else Book.sell

abbrev pub of_book {ℓ} : {A : Type ℓ} → Result BookError A → Result MatcherError A
of_book (ok a) = ok a
of_book (err e) = err (in_book e)

abbrev pub of_outcome : Outcome → Result MatcherError (List Book.Fill × OrderBook)
of_outcome (matched fs b) = ok (fs, b)
of_outcome (failed e) = err (in_book e)
of_outcome out_of_fuel = err stuck

abbrev pub live_of : ℕ → SubmitOrder → Live
live_of order_id o = record {
  order_id = order_id;
  client_order_id = o.client_order_id;
  user_id = o.user_id;
  symbol_id = o.symbol_id;
  side = o.side;
  price_ticks = pos_part o.price_ticks;
  qty = pos_part o.qty;
}

abbrev pub accepted : ℕ → SubmitOrder → Outbound
accepted order_id o = published (
    order_accepted (record {
      timestamp_ns = o.timestamp_ns;
      order_id = order_id;
      client_order_id = o.client_order_id;
      user_id = o.user_id;
      price_ticks = pos_part o.price_ticks;
      qty = pos_part o.qty;
      symbol_id = o.symbol_id;
      side = o.side;
      tif = o.tif;
    }))

-- The maker is the order of the fill that is not the taker.
abbrev pub maker_of : ℕ → Book.Fill → ℕ
maker_of taker_order_id f =
    if f.buy_order_id == taker_order_id then f.sell_order_id else f.buy_order_id

contract_fill : SubmitOrder → ℕ → Book.Fill → Live → Live → Outbound
contract_fill taker taker_order_id f maker filled = published (
    fill (record {
      timestamp_ns = taker.timestamp_ns;
      maker_order_id = maker_of taker_order_id f;
      taker_order_id = taker_order_id;
      maker_user_id = maker.user_id;
      taker_user_id = filled.user_id;
      price_ticks = f.price;
      qty = f.quantity;
      symbol_id = maker.symbol_id;
      aggressor_side = taker.side;
    }))

fill_between :
    SubmitOrder
    → ℕ
    → Book.Fill
    → Option Live
    → Option Live
    → NaiveMatcher
    → Result MatcherError (NaiveMatcher × Outbound)
unfolding contract_fill
fill_between taker id f (some maker) (some filled) m = ok (
  if remaining_qty maker m == 0 then forget maker m else m,
  contract_fill taker id f maker filled,
)
fill_between taker id f none filled m = err no_such_order
fill_between taker id f (some maker) none m = err no_such_order

unfoldable pub to_contract_fill :
    SubmitOrder → ℕ → Book.Fill → NaiveMatcher → Result MatcherError (NaiveMatcher × Outbound)
unfolding fill_between
to_contract_fill taker id f m =
    fill_between taker id f (lookup (maker_of id f) m.by_order_id) (lookup id m.by_order_id) m

unfoldable pub to_contract_fills :
    SubmitOrder
    → ℕ
    → List Book.Fill
    → NaiveMatcher
    → Result MatcherError (NaiveMatcher × List Outbound)
to_contract_fills taker id [] m = ok (m, [])
to_contract_fills taker id (f ∷ fs) m = do
  (m', out) ← to_contract_fill taker id f m
  (m2, outs) ← to_contract_fills taker id fs m'
  ok (m2, out ∷ outs)

abbrev cancelled : ℕ → ℕ → ℕ → ℕ → Live → Outbound
cancelled timestamp_ns user_id remaining reason l = published (
    order_cancelled (record {
      timestamp_ns = timestamp_ns;
      order_id = l.order_id;
      client_order_id = l.client_order_id;
      user_id = user_id;
      remaining_qty = remaining;
      symbol_id = l.symbol_id;
      reason = reason;
    }))

-- What is left of an immediate order is cancelled; an order that has nothing left is forgotten.
unfoldable pub finish :
    SubmitOrder → Live → NaiveMatcher → Result MatcherError (NaiveMatcher × List Outbound)
finish o l m =
    let remaining = remaining_qty l m in
    if o.tif == ioc && ltb 0 remaining
    then (do
      b ← of_book (remove_order l.order_id (book l.symbol_id m))
      ok (
        forget l (put_book l.symbol_id b m),
        cancelled o.timestamp_ns o.user_id remaining ioc_expired l ∷ [],
      ))
    else if remaining == 0
    then ok (forget l m, [])
    else ok (m, [])

module _ (str : ℕ → String) where
  -- `ModelOrder(...)`, before its checks.
  abbrev pub model_order : ℕ → SubmitOrder → Book.Order
  model_order order_id o = record {
    order_id = order_id;
    user_id = o.user_id;
    symbol = str o.symbol_id;
    side = in_model o.side;
    price = pos_part o.price_ticks;
    quantity = pos_part o.qty;
    created_at = o.timestamp_ns;
    remaining_quantity = 0;
  }

  -- An order that is in bounds. The fuel is more than the units that the bids can trade.
  unfoldable pub accept :
      SubmitOrder → NaiveMatcher → Result MatcherError (NaiveMatcher × List Outbound)
  accept o m =
      let id = m.next_order_id in
      let l = live_of id o in
      let b = book o.symbol_id m in
      do
        order ← of_book (new_order (model_order id o))
        (fs, c) ← of_outcome (match_order (left Book.buy b + order.quantity + 1) order b)
        (m1, fills) ← to_contract_fills o id fs (put_book o.symbol_id c (enlist l m))
        (m2, rest) ← finish o l m1
        ok (m2, accepted id o ∷ (fills ++ rest))

  submit_if :
      Option RejectReason
      → SubmitOrder
      → NaiveMatcher
      → Result MatcherError (NaiveMatcher × List Outbound)
  unfolding accept
  submit_if (some reason) o m = ok (
    m,
    order_rejected (record {
      timestamp_ns = o.timestamp_ns;
      client_order_id = o.client_order_id;
      user_id = o.user_id;
      symbol_id = o.symbol_id;
      reason = reason;
    })
        ∷ [],
  )
  submit_if none o m = accept o m

  unfoldable pub submit :
      SubmitOrder → NaiveMatcher → Result MatcherError (NaiveMatcher × List Outbound)
  unfolding submit_if
  submit o m = submit_if (reject_reason o) o m

cancel_found :
    Option Live → CancelOrder → NaiveMatcher → Result MatcherError (NaiveMatcher × List Outbound)
cancel_found none c m = ok (
  m,
  order_rejected (record {
    timestamp_ns = c.timestamp_ns;
    client_order_id = c.client_order_id;
    user_id = c.user_id;
    symbol_id = 0;
    reason = unknown_order;
  })
      ∷ [],
)
cancel_found (some l) c m = do
  b ← of_book (remove_order l.order_id (book l.symbol_id m))
  ok (
    forget l (put_book l.symbol_id b m),
    cancelled c.timestamp_ns c.user_id (remaining_qty l m) user_requested l ∷ [],
  )

-- By the client's id: an order of another user is not found.
unfoldable pub cancel :
    CancelOrder → NaiveMatcher → Result MatcherError (NaiveMatcher × List Outbound)
unfolding cancel_found
cancel c m = cancel_found (lookup (c.user_id, c.target_client_order_id) m.live) c m

module _ (str : ℕ → String) where
  -- `apply`, with `_forward` in its branches.
  unfoldable pub apply : Inbound → NaiveMatcher → Result MatcherError (NaiveMatcher × List Outbound)
  apply (submit_order o) m = submit str o m
  apply (cancel_order c) m = cancel c m
  apply (create_account r) m = ok (
    m,
    published (
          account_created (record {
            timestamp_ns = r.timestamp_ns;
            client_order_id = r.client_order_id;
            user_id = r.user_id;
            initial_cash_ticks = m.initial_cash_ticks;
          }))
        ∷ [],
  )
  apply (credit_cash r) m = ok (
    m,
    published (
          cash_credited (record {
            timestamp_ns = r.timestamp_ns;
            client_order_id = r.client_order_id;
            user_id = r.user_id;
            amount_ticks = r.amount_ticks;
          }))
        ∷ [],
  )
  apply (configure_replay r) m = ok (m, replay_configured r ∷ [])
  apply other m = ok (m, [])
