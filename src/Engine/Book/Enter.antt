-- ===== src/Engine/Book/Enter.antt =====
-- A new order in a book whose tables and levels agree.
use mathlib.Core.Path.{subst}
use mathlib.Core.Option.{some-injective}
use quant_arena.Prelude.{
  ◌+◌, ℕ, ◌≡◌, refl, sym, ap, ◌∙◌, true, false, ◌&&◌, ◌||◌, none, some, List, [], ◌∷◌, ◌++◌, arith,
  ◌==◌, nat_eq, ==-cases, ◌⊎◌, inl, inr, Bool-cases, if◌then◌else◌, if_some, of_test,
}
use quant_arena.Dict.{
  Dict, lookup, get_or, insert, contains, IsUnique, lookup-insert, insert-IsUnique,
}
use quant_arena.Dict.Queues.{IsDistinct, contains-++}
use quant_arena.Engine.Book.{Side, buy, sell, Order, OrderBook, side_map, put_side, queue, enter}
use quant_arena.Engine.Book.Linked.{Linked, same_side, stands_at, stands_at-place, place-stands_at}

lookup-put :
    (s : Side) (p n : ℕ) (ids : List ℕ) (b : OrderBook) (d : Dict ℕ Order) (a : Dict ℕ ℕ) (t : Side)
    (q : ℕ)
    → lookup q (
        side_map t (
          put_side s
            (insert p ids (side_map s b))
            (record b { orders_by_id = d; arrival_sequence = a; next_arrival_sequence = n })))
      ≡ (if same_side s t && p == q then some ids else lookup q (side_map t b))
lookup-put buy p n ids b d a buy q = lookup-insert p q ids b.bids
lookup-put buy p n ids b d a sell q = refl
lookup-put sell p n ids b d a buy q = refl
lookup-put sell p n ids b d a sell q = lookup-insert p q ids b.asks

tables-put :
    (s : Side) (d : Dict ℕ (List ℕ)) (b : OrderBook)
    → ((put_side s d b).orders_by_id ≡ b.orders_by_id)
      × ((put_side s d b).arrival_sequence ≡ b.arrival_sequence)
      × ((put_side s d b).next_arrival_sequence ≡ b.next_arrival_sequence)
tables-put buy d b = (refl, refl, refl)
tables-put sell d b = (refl, refl, refl)

-- Whether a number stands in a queue that ends with one more.
contains-snoc : (j k : ℕ) (ks : List ℕ) → contains j (ks ++ (k ∷ [])) ≡ (contains j ks || k == j)
unfolding contains
contains-snoc j k ks = ground (arith, contains-++ j ks (k ∷ []))

snoc-IsDistinct :
    (k : ℕ) (ks : List ℕ) → contains k ks ≡ false → IsDistinct ks → IsDistinct (ks ++ (k ∷ []))
unfolding contains
snoc-IsDistinct k [] h d = (refl, tt)
snoc-IsDistinct k (j ∷ ks) h d =
    (ground (arith, contains-snoc j k ks, d.0, h), snoc-IsDistinct k ks (ground (arith, h)) d.1)

snoc_filled :
    (k : ℕ) (ks ids : List ℕ)
    → some (ks ++ (k ∷ [])) ≡ some ids
    → (id : ℕ) × (rest : List ℕ) × (ids ≡ id ∷ rest)
snoc_filled k [] ids h = (k, [], sym (some-injective _ _ h))
snoc_filled k (j ∷ ks) ids h = (j, ks ++ (k ∷ []), sym (some-injective _ _ h))

module _ (o : Order) (b : OrderBook) where
  lookup-enter :
      (t : Side) (q : ℕ)
      → lookup q (side_map t (enter o b)) ≡ (
          if stands_at o t q
          then some (queue o.side o.price b ++ (o.order_id ∷ []))
          else lookup q (side_map t b))
  unfolding enter
  lookup-enter t q = lookup-put o.side o.price _ _ b _ _ t q

  queue-enter :
      (t : Side) (q : ℕ)
      → queue t q (enter o b)
        ≡ (if stands_at o t q then queue o.side o.price b ++ (o.order_id ∷ []) else queue t q b)
  unfolding queue get_or
  queue-enter t q = ground (arith, lookup-enter t q)

  pub orders-enter : (enter o b).orders_by_id ≡ insert o.order_id o b.orders_by_id
  unfolding enter
  orders-enter = (tables-put o.side _ _).0

  arrivals-enter :
      (enter o b).arrival_sequence ≡ insert o.order_id b.next_arrival_sequence b.arrival_sequence
  unfolding enter
  arrivals-enter = (tables-put o.side _ _).1

  pub next-enter : (enter o b).next_arrival_sequence ≡ b.next_arrival_sequence + 1
  unfolding enter
  next-enter = (tables-put o.side _ _).2

  pub lookup_order-enter :
      (j : ℕ)
      → lookup j (enter o b).orders_by_id
        ≡ (if o.order_id == j then some o else lookup j b.orders_by_id)
  lookup_order-enter j = ap (lookup j) orders-enter ∙ lookup-insert o.order_id j o b.orders_by_id

  pub arrival-enter :
      (j : ℕ)
      → lookup j (enter o b).arrival_sequence
        ≡ (if o.order_id == j then some b.next_arrival_sequence else lookup j b.arrival_sequence)
  arrival-enter j =
      ap (lookup j) arrivals-enter
      ∙ lookup-insert o.order_id j b.next_arrival_sequence b.arrival_sequence

  -- An order joins its own queue, as the last.
  pub queue-enter_own :
      (t : Side) (q : ℕ)
      → stands_at o t q ≡ true
      → queue t q (enter o b) ≡ queue t q b ++ (o.order_id ∷ [])
  queue-enter_own t q c =
      let at = stands_at-place o t q c in
      queue-enter t q
      ∙ ap (λ z. if z then queue o.side o.price b ++ (o.order_id ∷ []) else queue t q b) c
      ∙ (λ i. queue (at.0 i) (at.1 i) b ++ (o.order_id ∷ []))

  pub queue-enter_other :
      (t : Side) (q : ℕ) → stands_at o t q ≡ false → queue t q (enter o b) ≡ queue t q b
  queue-enter_other t q c =
      queue-enter t q
      ∙ ap (λ z. if z then queue o.side o.price b ++ (o.order_id ∷ []) else queue t q b) c

  contains-enter :
      (t : Side) (q j : ℕ)
      → contains j (queue t q (enter o b))
        ≡ (contains j (queue t q b) || (stands_at o t q && o.order_id == j))
  contains-enter t q j = elim (Bool-cases (stands_at o t q)) [
    | inl c ↦
        ap (contains j) (queue-enter_own t q c)
        ∙ contains-snoc j o.order_id (queue t q b)
        ∙ ground (arith, c)
    | inr c ↦ ap (contains j) (queue-enter_other t q c) ∙ ground (arith, c)
  ]

module _ (o : Order) (b : OrderBook) (linked : Linked b)
    (fresh : lookup o.order_id b.orders_by_id ≡ none) where
  unqueued : (t : Side) (q : ℕ) → contains o.order_id (queue t q b) ≡ false
  unqueued t q = elim (Bool-cases (contains o.order_id (queue t q b))) [
    | inl c ↦ let x = linked.queued t q o.order_id c in cc (sym fresh ∙ x.1)
    | inr c ↦ c
  ]

  -- Another order is where it was.
  entered_before :
      (j : ℕ) (x : Order)
      → lookup j (enter o b).orders_by_id ≡ some x
      → ((o.order_id == j) ≡ true) × (o ≡ x)
        ⊎ ((o.order_id == j) ≡ false) × (lookup j b.orders_by_id ≡ some x)
  entered_before j x h =
      if_some (o.order_id == j) (lookup j b.orders_by_id) o x (sym (lookup_order-enter o b j) ∙ h)

  pub enter-Linked : Linked (enter o b)
  enter-Linked = record {
    unique =
        subst IsUnique (sym (orders-enter o b))
          (insert-IsUnique o.order_id o b.orders_by_id linked.unique);
    keyed = λ j x h. elim (entered_before j x h) [
      | inl (c, e) ↦ ap (λ (y : Order). y.order_id) (sym e) ∙ (nat_eq.beq_iff o.order_id j).0 c
      | inr (c, l) ↦ linked.keyed j x l
    ];
    arrived = λ j x h. elim (entered_before j x h) [
      | inl (c, e) ↦ (b.next_arrival_sequence, arrival-enter o b j ∙ rw c refl)
      | inr (c, l) ↦ let a = linked.arrived j x l in (a.0, arrival-enter o b j ∙ rw c a.1)
    ];
    queued = λ t q j h.
        let k : (contains j (queue t q b) || (stands_at o t q && o.order_id == j)) ≡ true =
          sym (contains-enter o b t q j) ∙ h in
        elim (==-cases o.order_id j) [
          | inl (c, e) ↦
              let absent : contains j (queue t q b) ≡ false =
                ap (λ i. contains i (queue t q b)) (sym e) ∙ unqueued t q in
              let at = stands_at-place o t q (ground (arith, k, absent)) in
              (o, lookup_order-enter o b j ∙ rw c refl, at.0, at.1)
          | inr (c, n) ↦
              let x = linked.queued t q j (ground (arith, k, c)) in
              (
                x.0,
                lookup_order-enter o b j
                    ∙ ap (λ z. if z then some o else lookup j b.orders_by_id) c
                    ∙ x.1,
                x.2,
                x.3,
              )
        ];
    resting = λ j x h. elim (entered_before j x h) [
      | inl (c, e) ↦
          subst (λ y. contains j (queue y.side y.price (enter o b)) ≡ true) e
            (contains-enter o b o.side o.price j
              ∙ ground (arith, c, place-stands_at o o.side o.price refl refl))
      | inr (c, l) ↦ contains-enter o b x.side x.price j ∙ ground (arith, linked.resting j x l)
    ];
    distinct = λ t q. subst IsDistinct (sym (queue-enter o b t q)) (
        of_test IsDistinct (stands_at o t q) _ _
          (λ c.
            snoc-IsDistinct o.order_id _ (unqueued o.side o.price) (linked.distinct o.side o.price))
          (λ c. linked.distinct t q));
    filled = λ t q ids h.
        of_test (λ l. l ≡ some ids → (j : ℕ) × (rest : List ℕ) × (ids ≡ j ∷ rest)) (stands_at o t q)
          (some (queue o.side o.price b ++ (o.order_id ∷ []))) (lookup q (side_map t b))
          (λ c. snoc_filled o.order_id (queue o.side o.price b) ids) (λ c. linked.filled t q ids)
          (sym (lookup-enter o b t q) ∙ h);
  }
