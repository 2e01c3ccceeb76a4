-- ===== src/Engine/Book/Best.antt =====
-- The best price of a side and the order that it is offered by.
use quant_arena.Prelude.{
  ℕ, ◌≡◌, refl, sym, ap, ◌∙◌, true, some, List, [], ◌∷◌, arith, ◌==◌, nat_eq, inl, inr, Bool-cases,
  ==-refl,
}
use quant_arena.Dict.{Dict, lookup, contains, keys}
use quant_arena.Engine.Book.{Side, Order, OrderBook, side_map, queue, first_of, first_order}
use quant_arena.Engine.Book.Linked.{Linked}
use quant_arena.Engine.Book.Steps.{queue-level, level_of_contained}

first_contained : (k : ℕ) (ks : List ℕ) → contains k (k ∷ ks) ≡ true
unfolding contains
first_contained k ks = ground (arith, ==-refl k)

contains-keys :
    {V : Type 0} (k : ℕ) (d : Dict ℕ V)
    → contains k (keys d) ≡ true
    → (v : V) × (lookup k d ≡ some v)
unfolding contains lookup
contains-keys k [] h = cc
contains-keys k ((j, v) ∷ d) h = elim (Bool-cases (j == k)) [
  | inl c ↦ (v, rw c refl)
  | inr c ↦ let r = contains-keys k d (ground (arith, c, h)) in (r.0, rw c r.1)
]

keys-contains :
    {V : Type 0} (k : ℕ) (v : V) (d : Dict ℕ V) → lookup k d ≡ some v → contains k (keys d) ≡ true
unfolding contains lookup
keys-contains k v [] h = cc
keys-contains k v ((j, w) ∷ d) h = ground (arith, h, keys-contains k v d)

-- The order that a side offers first: no other has a better price, and none is before it in its level.
pub record Offered (s : Side) (o : Order) (b : OrderBook) : Type 0 where
  pub found : lookup o.order_id b.orders_by_id ≡ some o
  pub on_side : o.side ≡ s
  pub is_first : (rest : List ℕ) × (queue s o.price b ≡ o.order_id ∷ rest)

-- A level's first order.
pub first_order_lem :
    (s : Side) (p : ℕ) (b : OrderBook)
    → Linked b
    → contains p (keys (side_map s b)) ≡ true
    → (o : Order) × (first_order s p b ≡ some o) × (o.price ≡ p) × Offered s o b
unfolding first_order
first_order_lem s p b linked h =
    let l = contains-keys p (side_map s b) h in
    let f = linked.filled s p l.0 l.1 in
    let q : queue s p b ≡ f.0 ∷ f.1 = queue-level s p b l.0 l.1 ∙ f.2 in
    let x = linked.queued s p f.0 (ap (contains f.0) q ∙ first_contained f.0 f.1) in
    let k = linked.keyed f.0 x.0 x.1 in
    (
      x.0,
      ap (λ ids. first_of ids b) q ∙ unfold first_of in x.1,
      x.3,
      record {
        found = ap (λ i. lookup i b.orders_by_id) k ∙ x.1;
        on_side = x.2;
        is_first = (f.1, ap (λ r. queue s r b) x.3 ∙ q ∙ ap (λ i. i ∷ f.1) (sym k));
      },
    )

-- An order's price is a key of its side.
pub price_key :
    (id : ℕ) (o : Order) (b : OrderBook)
    → Linked b
    → lookup id b.orders_by_id ≡ some o
    → contains o.price (keys (side_map o.side b)) ≡ true
unfolding queue
price_key id o b linked found =
    let l = level_of_contained o.price id (side_map o.side b) (linked.resting id o found) in
    keys-contains o.price l.0 (side_map o.side b) l.1
