-- ===== src/Matcher/Adapter/Cancel.antt =====
-- Cancelling: an order leaves its book, and then the tables.
use quant_arena.Prelude.{
  ℕ, ◌≡◌, sym, ap, ◌∙◌, false, none, some, List, [], ◌∷◌, arith, ◌==◌, nat_eq, pair_eq, ==-refl,
  of_test, Option-cases, inl, inr, if◌then◌else◌, if_none, ok, ◌>>=◌,
}
use quant_arena.Dict.{lookup}
use quant_arena.Engine.Book
use quant_arena.Engine.Book.{OrderBook, BookError, remove_order}
use quant_arena.Matcher.Records.{CancelOrder, Outbound, user_requested}
use quant_arena.Engine.Book.Trade.{WellFormed}
use quant_arena.Engine.Book.Round.{Uncrossed}
use quant_arena.Engine.Book.Orders.{remove_order-Without}
use quant_arena.Matcher.State.{Live, NaiveMatcher, book, put_book, forget, remaining_qty}
use quant_arena.Matcher.Adapter.{cancel, cancel_found, cancelled, of_book}
use quant_arena.Matcher.Adapter.Valid.{Valid, AtHome, put-Valid, forget-Valid, book-put}

-- The order is in no book but its own.
abbrev pub IsOnlyHome : Live → NaiveMatcher → Type 0
IsOnlyHome l m = (s : ℕ) → AtHome l s (book s m)

-- What removing an order from a book at rest leaves.
removed_rest :
    (id : ℕ) (b : OrderBook)
    → WellFormed b
    → Uncrossed b
    → (c : OrderBook) × (remove_order id b ≡ ok c)
      × WellFormed c
      × Uncrossed c
      × (lookup id c.orders_by_id ≡ none)
      × ((j : ℕ) (x : Book.Order)
          → lookup j c.orders_by_id ≡ some x
          → lookup j b.orders_by_id ≡ some x)
removed_rest id b well rest = elim (remove_order-Without id b well) [
  | inl (e, n) ↦ (b, e, well, rest, n, λ j x h. h)
  | inr (o, c, h, e, w) ↦
      let before = λ (j : ℕ) (x : Book.Order) (k : lookup j c.orders_by_id ≡ some x).
        (if_none (id == j) (lookup j b.orders_by_id) x (sym (w.others j) ∙ k)).1 in
      (
        c,
        e,
        w.well,
        (λ i j x y k l. rest i j x y (before i x k) (before j y l)),
        w.others id ∙ ap (λ z. if z then none else lookup id b.orders_by_id) (==-refl id),
        before,
      )
]

absent_elsewhere :
    (l : Live) (m : NaiveMatcher)
    → IsOnlyHome l m
    → (s : ℕ) → (l.symbol_id == s) ≡ false
    → lookup l.order_id (book s m).orders_by_id ≡ none
absent_elsewhere l m home s t = elim (Option-cases (lookup l.order_id (book s m).orders_by_id)) [
  | inl n ↦ n
  | inr (o, h) ↦ absurd (ground (arith, t, home s o h))
]

-- Removing an order from its book and forgetting it keeps the matcher valid, and never fails.
pub withdraw :
    (l : Live) (m : NaiveMatcher)
    → Valid m
    → IsOnlyHome l m
    → (c : OrderBook) × (remove_order l.order_id (book l.symbol_id m) ≡ ok c)
      × Valid (forget l (put_book l.symbol_id c m))
withdraw l m v home =
    let (c, e, well, rest, gone, before) =
      removed_rest l.order_id (book l.symbol_id m) (v.well l.symbol_id) (v.rest l.symbol_id) in
    let put =
      put-Valid l.symbol_id c m v well rest (λ id o h. v.known l.symbol_id id o (before id o h))
        (λ k x h o g. v.at_home k x h l.symbol_id o (before x.order_id o g)) in
    (
      c,
      e,
      forget-Valid l (put_book l.symbol_id c m) put (λ s.
          ap (λ b. lookup l.order_id b.orders_by_id) (book-put l.symbol_id s c m)
          ∙ of_test (λ b. lookup l.order_id b.orders_by_id ≡ none) (l.symbol_id == s) c (book s m)
              (λ t. gone) (λ t. absent_elsewhere l m home s t)),
    )

-- A cancellation never fails and keeps the matcher valid.
pub cancel-Valid :
    (r : CancelOrder) (m : NaiveMatcher)
    → Valid m
    → (m' : NaiveMatcher) × (out : List Outbound) × (cancel r m ≡ ok (m', out)) × Valid m'
unfolding cancel cancel_found
cancel-Valid r m v = elim (Option-cases (lookup (r.user_id, r.target_client_order_id) m.live)) [
  | inl n ↦ (m, _, ap (λ l. cancel_found l r m) n, v)
  | inr (l, h) ↦
      let (c, e, w) = withdraw l m v (v.at_home (r.user_id, r.target_client_order_id) l h) in
      let out = cancelled r.timestamp_ns r.user_id (remaining_qty l m) user_requested l ∷ [] in
      (
        forget l (put_book l.symbol_id c m),
        out,
        ap (λ l. cancel_found l r m) h
            ∙ ap (λ z. of_book z >>= λ b. ok (forget l (put_book l.symbol_id b m), out)) e,
        w,
      )
]
