-- ===== src/Engine/Book/Orders.antt =====
-- What a caller of the book sees: adding, matching and removing an order.
use mathlib.Core.Path.{subst}
use mathlib.Core.Option.{some-injective}
use quant_arena.Prelude.{
  ℕ, ◌+◌, ◌<◌, ◌≡◌, refl, sym, ap, ◌∙◌, false, none, some, List, [], ◌∷◌, ◌++◌, arith, ◌==◌, nat_eq,
  ◌⊎◌, inl, inr, Option-cases, if◌then◌else◌, if_some, ok, err, ok-injective, guard_passed,
}
use quant_arena.Dict.{lookup}
use quant_arena.Dict.Queues.{discard}
use quant_arena.Dict.Sums.{sum_ℕ, sum_ℕ-insert_new, sum_ℕ-erase}
use quant_arena.Engine.Book.{
  Side, buy, Order, Fill, OrderBook, queue, enter, add_order, new_order, remove_order, remove_found,
  already_exists, bad_price, bad_quantity, match_round, match_order, matched,
}
use quant_arena.Engine.Book.Linked.{
  removed, removed-Linked, same_side, lookup-removed, orders-removed, kept_elsewhere, queue-removed,
  stands_at, place-stands_at,
}
use quant_arena.Engine.Book.Steps.{remove_order_lem}
use quant_arena.Engine.Book.Settle.{left, left_of}
use quant_arena.Engine.Book.Trade.{WellFormed}
use quant_arena.Engine.Book.Round.{Executed, match_round-cases}
use quant_arena.Engine.Book.Matching.{
  Matching, traded_quantity, left-Executions, match_all-Matching,
}
use quant_arena.Engine.Book.Enter.{
  enter-Linked, lookup_order-enter, orders-enter, arrival-enter, next-enter, queue-enter_own,
  queue-enter_other,
}

-- What a new order has to trade on a side.
abbrev pub offers : Side → Order → ℕ
offers s o = if same_side o.side s then o.quantity else 0

-- What the book is like after a new order joined it.
pub record Joined (o : Order) (b c : OrderBook) : Type 0 where
  pub well : WellFormed c
  pub stored :
      (j : ℕ)
      → lookup j c.orders_by_id ≡ (if o.order_id == j then some o else lookup j b.orders_by_id)
  pub arrival :
      (j : ℕ)
      → lookup j c.arrival_sequence
        ≡ (if o.order_id == j then some b.next_arrival_sequence else lookup j b.arrival_sequence)
  pub next : c.next_arrival_sequence ≡ b.next_arrival_sequence + 1
  pub last : queue o.side o.price c ≡ queue o.side o.price b ++ (o.order_id ∷ [])
  pub others : (t : Side) (q : ℕ) → stands_at o t q ≡ false → queue t q c ≡ queue t q b
  pub more : (s : Side) → left s c ≡ left s b + offers s o

new_order_open :
    (o o' : Order)
    → new_order o ≡ ok o'
    → (0 < o'.remaining_quantity) × (o'.remaining_quantity ≡ o'.quantity)
unfolding new_order
new_order_open o o' h =
    let g = guard_passed (o.price == 0) bad_price _ o' h in
    let k = guard_passed (o.quantity == 0) bad_quantity _ o' g.1 in
    subst (λ (x : Order). (0 < x.remaining_quantity) × (x.remaining_quantity ≡ x.quantity))
      (ok-injective _ o' k.1) (ground (arith, k.0), refl)

left-enter :
    (o : Order) (b : OrderBook)
    → lookup o.order_id b.orders_by_id ≡ none
    → o.remaining_quantity ≡ o.quantity
    → (s : Side) → left s (enter o b) ≡ left s b + offers s o
unfolding left
left-enter o b fresh full s =
    ap (sum_ℕ (left_of s)) (orders-enter o b)
    ∙ sum_ℕ-insert_new (left_of s) o.order_id o b.orders_by_id fresh
    ∙ ap (λ n. left s b + (if same_side o.side s then n else 0)) full

pub enter-Joined :
    (o o' : Order) (b : OrderBook)
    → WellFormed b
    → new_order o ≡ ok o'
    → lookup o'.order_id b.orders_by_id ≡ none
    → Joined o' b (enter o' b)
enter-Joined o o' b well made fresh =
    let (open_order, full) = new_order_open o o' made in
    record {
      well = record {
        linked = enter-Linked o' b well.linked fresh;
        open_orders = λ j x h.
            elim (if_some (o'.order_id == j) (lookup j b.orders_by_id) o' x
              (sym (lookup_order-enter o' b j) ∙ h)) [
                | inl (c, e) ↦ subst (λ y. 0 < y.remaining_quantity) e open_order
                | inr (c, l) ↦ well.open_orders j x l
              ];
      };
      stored = lookup_order-enter o' b;
      arrival = arrival-enter o' b;
      next = next-enter o' b;
      last = queue-enter_own o' b o'.side o'.price (place-stands_at o' o'.side o'.price refl refl);
      others = queue-enter_other o' b;
      more = left-enter o' b fresh full;
    }

-- A new order joins the book, last in the queue of its price and with the next arrival number, and the
-- book stays well formed; all other queues keep their orders, and its side has as much more to trade as the order's quantity. It
-- is refused only if its number is taken.
pub add_order-Joined :
    (o o' : Order) (b : OrderBook)
    → WellFormed b
    → new_order o ≡ ok o'
    → (add_order o' b ≡ err already_exists)
        × ((x : Order) × (lookup o'.order_id b.orders_by_id ≡ some x))
      ⊎ (c : OrderBook) × (add_order o' b ≡ ok c) × Joined o' b c
unfolding add_order
add_order-Joined o o' b well made = elim (Option-cases (lookup o'.order_id b.orders_by_id)) [
  | inl n ↦ inr (enter o' b, rw (n, add_order) refl, enter-Joined o o' b well made n)
  | inr (x, h) ↦ inl (rw (h, add_order) refl, (x, h))
]

-- What `match_order` leaves of a new order's book.
pub record Handled (o : Order) (fs : List Fill) (b c : OrderBook) : Type 0 where
  pub joined : OrderBook
  pub enters : Joined o b joined
  pub matching : Matching fs joined c
  pub balance : (s : Side) → left s c + traded_quantity fs ≡ left s b + offers s o

-- With more fuel than the bids have units, `match_order` returns: the order joined as the last of its
-- queue, trades followed, each of the orders that the two sides offered first, and they ended with a
-- well formed book in which no bid reaches an ask. What a side has left, and what was traded, are
-- together what the side had, and what the order brought to it.
pub match_order-Handled :
    (fuel : ℕ) (o o' : Order) (b : OrderBook)
    → WellFormed b
    → new_order o ≡ ok o'
    → lookup o'.order_id b.orders_by_id ≡ none
    → left buy b + o'.quantity < fuel
    → (fs : List Fill) × (c : OrderBook) × (match_order fuel o' b ≡ matched fs c)
      × Handled o' fs b c
unfolding match_order add_order
match_order-Handled fuel o o' b well made fresh enough =
    let j = enter-Joined o o' b well made fresh in
    let (fs, c, r, m) =
      match_all-Matching fuel (enter o' b) j.well (ground (arith, j.more buy, enough)) in
    (
      fs,
      c,
      rw (fresh, match_order, add_order) r,
      record {
        joined = enter o' b;
        enters = j;
        matching = m;
        balance = λ s. left-Executions s fs (enter o' b) c m.executions ∙ j.more s;
      },
    )

-- The book that lost an order.
pub record Without (id : ℕ) (o : Order) (b c : OrderBook) : Type 0 where
  pub well : WellFormed c
  pub others :
      (j : ℕ) → lookup j c.orders_by_id ≡ (if id == j then none else lookup j b.orders_by_id)
  pub own_queue : queue o.side o.price c ≡ discard id (queue o.side o.price b)
  pub less : (s : Side) → left s c + left_of s id o ≡ left s b

-- Removing never fails: an order that the book has is taken out of the table and of its queue, with
-- what it had left, and every other order stays; a number that is not there changes nothing.
pub remove_order-Without :
    (id : ℕ) (b : OrderBook)
    → WellFormed b
    → (remove_order id b ≡ ok b) × (lookup id b.orders_by_id ≡ none)
      ⊎ (o : Order) × (c : OrderBook) × (lookup id b.orders_by_id ≡ some o)
        × (remove_order id b ≡ ok c)
        × Without id o b c
unfolding remove_order remove_found left
remove_order-Without id b well = elim (Option-cases (lookup id b.orders_by_id)) [
  | inl n ↦ inl (ap (λ f. remove_found f id b) n, n)
  | inr (o, h) ↦ inr (
    o,
    removed id o b,
    h,
    remove_order_lem b well.linked id o h,
    record {
      well = record {
        linked = removed-Linked b well.linked id o h;
        open_orders = λ j x k. well.open_orders j x (kept_elsewhere b id o j x k).1;
      };
      others = lookup-removed b id o;
      own_queue =
          queue-removed b id o o.side o.price
          ∙ rw (place-stands_at o o.side o.price refl refl) refl;
      less = λ s.
          ap (λ d. sum_ℕ (left_of s) d + left_of s id o) (orders-removed b id o)
          ∙ sum_ℕ-erase (left_of s) id o b.orders_by_id well.linked.unique h;
    },
  )
]

-- A trade of a well formed book is between a bid and an ask that stand first in their queues and have
-- no better price on their side; it takes all that one of them has left, at the price of the one that
-- came first, which is no worse than either's; and both sides lose its quantity.
pub match_round-Executed :
    (b b' : OrderBook) (f : Fill)
    → WellFormed b
    → match_round b ≡ ok (some (f, b'))
    → (bid : Order) × (ask : Order) × Executed bid ask f b b'
match_round-Executed b b' f well h = elim (match_round-cases b well) [
  | inl (e, u) ↦ absurd (cc (ok-injective _ _ (sym e ∙ h)))
  | inr (bid, ask, g, c, e, x) ↦
      let same : (g, c) ≡ (f, b') = some-injective _ _ (ok-injective _ _ (sym e ∙ h)) in
      (bid, ask, subst (λ z. Executed bid ask z.0 b z.1) same x)
]
