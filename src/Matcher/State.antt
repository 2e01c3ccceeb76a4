-- ===== src/Matcher/State.antt =====
-- The state of `NaiveMatcher` in services/matcher/adapter.py: a reference book for each symbol, and the
-- orders by their number and by their client's. What is left of an order is read from the book that
-- holds it: the model's order is one object, and one that left the book in a match has nothing left.
use quant_arena.Prelude.{ℕ, ◌+◌, Option, none, some, [], nat_eq, pair_eq}
use quant_arena.Prelude.Int.{ℤ}
use quant_arena.Dict.{Dict, lookup, get_or, insert, erase}
use quant_arena.Engine.Book
use quant_arena.Engine.Book.{OrderBook, BookError}

-- `_Live`, but for the model's order, which the book holds.
pub record Live : Type 0 where
  pub order_id : ℕ
  pub client_order_id : ℕ
  pub user_id : ℕ
  pub symbol_id : ℕ
  pub side : ℕ
  pub price_ticks : ℕ
  pub qty : ℕ

pub record NaiveMatcher : Type 0 where
  pub initial_cash_ticks : ℤ
  pub books : Dict ℕ OrderBook
  pub next_order_id : ℕ
  pub live : Dict (ℕ × ℕ) Live
  pub by_order_id : Dict ℕ Live

abbrev pub new_matcher : ℕ → ℤ → NaiveMatcher
new_matcher first_order_id initial_cash_ticks = record {
  initial_cash_ticks = initial_cash_ticks;
  books = [];
  next_order_id = first_order_id;
  live = [];
  by_order_id = [];
}

-- What `apply` may raise; `stuck` is a match that ran out of fuel.
pub data MatcherError : Type 0 where
  no_such_order : MatcherError
  in_book : BookError → MatcherError
  stuck : MatcherError

unfoldable pub book : ℕ → NaiveMatcher → OrderBook
book symbol_id m = get_or symbol_id Book.empty m.books

abbrev pub put_book : ℕ → OrderBook → NaiveMatcher → NaiveMatcher
put_book symbol_id b m = record m { books = insert symbol_id b m.books }

unfoldable pub left_in : Option Book.Order → ℕ
left_in none = 0
left_in (some o) = o.remaining_quantity

unfoldable pub remaining_qty : Live → NaiveMatcher → ℕ
unfolding left_in
remaining_qty l m = left_in (lookup l.order_id (book l.symbol_id m).orders_by_id)

unfoldable pub forget : Live → NaiveMatcher → NaiveMatcher
forget l m = record m {
  live = erase (l.user_id, l.client_order_id) m.live;
  by_order_id = erase l.order_id m.by_order_id;
}

-- The order under its number in both tables.
unfoldable pub enlist : Live → NaiveMatcher → NaiveMatcher
enlist l m = record m {
  next_order_id = m.next_order_id + 1;
  live = insert (l.user_id, l.client_order_id) l m.live;
  by_order_id = insert l.order_id l m.by_order_id;
}
