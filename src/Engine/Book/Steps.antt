-- ===== src/Engine/Book/Steps.antt =====
-- What the steps of the book do to a book whose tables and levels agree.
use mathlib.Core.Path.{subst}
use mathlib.Core.Option.{some-injective}
use quant_arena.Prelude.{
  ℕ, ◌≡◌, refl, sym, ap, ◌∙◌, true, none, some, List, [], arith, ◌==◌, nat_eq, ==-cases, inl, inr,
  Option-cases, if◌then◌else◌, if_some, ok,
}
use quant_arena.Dict.{Dict, lookup, get_or, insert, erase, contains, lookup-insert, insert-IsUnique}
use quant_arena.Dict.Queues.{discard, IsDistinct}
use quant_arena.Engine.Book.{
  Side, buy, sell, Order, OrderBook, side_map, queue, set_level, unlink, unlink_from, remove_found,
  remove_order,
}
use quant_arena.Engine.Book.Linked.{Linked, removed, lookup-tables}

pub level_of_contained :
    (p id : ℕ) (d : Dict ℕ (List ℕ))
    → contains id (get_or p [] d) ≡ true
    → (level : List ℕ) × (lookup p d ≡ some level)
unfolding get_or contains
level_of_contained p id d h = elim (Option-cases (lookup p d)) [
  | inl n ↦ absurd (ground (arith, h, n))
  | inr l ↦ l
]

pub queue-level :
    (s : Side) (p : ℕ) (b : OrderBook) (level : List ℕ)
    → lookup p (side_map s b) ≡ some level
    → queue s p b ≡ level
unfolding queue get_or
queue-level s p b level h = ap (λ l. elim l [ none ↦ [] | some ids ↦ ids ]) h

unlink-level :
    (o : Order) (b : OrderBook) (level : List ℕ)
    → lookup o.price (side_map o.side b) ≡ some level
    → contains o.order_id level ≡ true
    → unlink o b ≡ ok (set_level o.side o.price (discard o.order_id level) b)
unfolding unlink
unlink-level o b level h k = ap (λ l. unlink_from l o b) h ∙ unfold unlink_from in rw k refl

module _ (b : OrderBook) (linked : Linked b) (id : ℕ) (o : Order)
    (found : lookup id b.orders_by_id ≡ some o) where
  -- The level that the order stands in.
  level_of_found :
      (level : List ℕ) × (lookup o.price (side_map o.side b) ≡ some level)
      × (queue o.side o.price b ≡ level)
      × (contains o.order_id level ≡ true)
  unfolding queue
  level_of_found =
      let h = linked.resting id o found in
      let l = level_of_contained o.price id (side_map o.side b) h in
      let q = queue-level o.side o.price b l.0 l.1 in
      (l.0, l.1, q, (λ i. contains (linked.keyed id o found i) (sym q i)) ∙ h)

  -- An order of the book can be removed.
  pub remove_order_lem : remove_order id b ≡ ok (removed id o b)
  unfolding remove_order remove_found
  remove_order_lem =
      let l = level_of_found in
      ap (λ f. remove_found f id b) found
      ∙ unlink-level o _ l.0 (lookup-tables o.side o.price b _ _ ∙ l.1) l.3
      ∙ (λ i. ok (
          set_level o.side o.price (discard (linked.keyed id o found i) (sym l.2 i)) (record b {
            orders_by_id = erase id b.orders_by_id;
            arrival_sequence = erase id b.arrival_sequence;
          })))

-- The book whose order was replaced by one of the same id, side and price.
abbrev pub replaced : ℕ → Order → OrderBook → OrderBook
replaced id o b = record b { orders_by_id = insert id o b.orders_by_id }

queue-replaced :
    (s : Side) (p id : ℕ) (o : Order) (b : OrderBook) → queue s p (replaced id o b) ≡ queue s p b
unfolding queue
queue-replaced buy p id o b = refl
queue-replaced sell p id o b = refl

lookup-replaced :
    (s : Side) (p id : ℕ) (o : Order) (b : OrderBook)
    → lookup p (side_map s (replaced id o b)) ≡ lookup p (side_map s b)
lookup-replaced buy p id o b = refl
lookup-replaced sell p id o b = refl

-- Orders that differ at most in what is left of them.
abbrev pub SameOrder : Order → Order → Type 0
SameOrder x y = (x.order_id ≡ y.order_id) × (x.side ≡ y.side) × (x.price ≡ y.price)

module _ (b : OrderBook) (linked : Linked b) (id : ℕ) (o new : Order)
    (found : lookup id b.orders_by_id ≡ some o) (same : SameOrder new o) where
  pub replaced-before :
      (j : ℕ) (x : Order)
      → lookup j (replaced id new b).orders_by_id ≡ some x
      → (y : Order) × (lookup j b.orders_by_id ≡ some y) × SameOrder x y
  replaced-before j x h =
      elim (if_some (id == j) (lookup j b.orders_by_id) new x
        (sym (lookup-insert id j new b.orders_by_id) ∙ h)) [
          | inl (c, e) ↦ (
            o,
            ap (λ k. lookup k b.orders_by_id) (sym ((nat_eq.beq_iff id j).0 c)) ∙ found,
            subst (λ z. SameOrder z o) e same,
          )
          | inr (c, l) ↦ (x, l, (refl, refl, refl))
        ]

  replaced-after :
      (j : ℕ) (y : Order)
      → lookup j b.orders_by_id ≡ some y
      → (x : Order) × (lookup j (replaced id new b).orders_by_id ≡ some x) × SameOrder x y
  replaced-after j y h = elim (==-cases id j) [
    | inl (c, e) ↦
        let y_is : o ≡ y =
          some-injective _ _ (sym found ∙ ap (λ k. lookup k b.orders_by_id) e ∙ h) in
        (
          new,
          lookup-insert id j new b.orders_by_id
              ∙ ap (λ t. if t then some new else lookup j b.orders_by_id) c,
          subst (SameOrder new) y_is same,
        )
    | inr (c, n) ↦ (
      y,
      lookup-insert id j new b.orders_by_id
          ∙ ap (λ t. if t then some new else lookup j b.orders_by_id) c
          ∙ h,
      (refl, refl, refl),
    )
  ]

  pub replaced-Linked : Linked (replaced id new b)
  replaced-Linked = record {
    unique = insert-IsUnique id new b.orders_by_id linked.unique;
    keyed = λ j x h. let y = replaced-before j x h in y.2.0 ∙ linked.keyed j y.0 y.1;
    arrived = λ j x h. let y = replaced-before j x h in linked.arrived j y.0 y.1;
    queued = λ s p j h.
        let y = linked.queued s p j (ap (contains j) (sym (queue-replaced s p id new b)) ∙ h) in
        let x = replaced-after j y.0 y.1 in (x.0, x.1, x.2.1 ∙ y.2, x.2.2 ∙ y.3);
    resting = λ j x h.
        let y = replaced-before j x h in
        ap (contains j) (queue-replaced x.side x.price id new b)
        ∙ (λ i. contains j (queue (y.2.1 i) (y.2.2 i) b))
        ∙ linked.resting j y.0 y.1;
    distinct = λ s p. subst IsDistinct (sym (queue-replaced s p id new b)) (linked.distinct s p);
    filled = λ s p ids h. linked.filled s p ids (sym (lookup-replaced s p id new b) ∙ h);
  }
