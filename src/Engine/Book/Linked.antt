-- ===== src/Engine/Book/Linked.antt =====
-- The tables and the levels of a book hold the same orders, each in its place.
use quant_arena.Prelude.{
  ℕ, ◌≡◌, refl, sym, ap, ◌∙◌, Bool, true, false, ◌&&◌, not, Option, none, some, List, [], ◌∷◌,
  arith, ◌==◌, nat_eq, ==-cases, inl, inr, Bool-cases, if◌then◌else◌, if_none, of_test,
}
use mathlib.Core.Path.{subst}
use mathlib.Core.Option.{some-injective}
use quant_arena.Dict.{
  Dict, lookup, get_or, erase, contains, IsUnique, lookup-insert, lookup-erase, erase-IsUnique,
}
use quant_arena.Dict.Queues.{discard, IsDistinct, contains-discard, discard-IsDistinct}
use quant_arena.Engine.Book.{Side, buy, sell, Order, OrderBook, side_map, queue, set_level}

abbrev pub same_side : Side → Side → Bool
same_side buy buy = true
same_side buy sell = false
same_side sell buy = false
same_side sell sell = true

pub side_of_same : (s t : Side) → same_side s t ≡ true → s ≡ t
side_of_same buy buy h = refl
side_of_same buy sell h = cc
side_of_same sell buy h = cc
side_of_same sell sell h = refl

pub same_side_refl : (s : Side) → same_side s s ≡ true
same_side_refl buy = refl
same_side_refl sell = refl

-- The level that a queue makes: none, if it is empty.
abbrev pub level_of : List ℕ → Option (List ℕ)
level_of [] = none
level_of (id ∷ ids) = some (id ∷ ids)

pub lookup-set_level :
    (s : Side) (p : ℕ) (ids : List ℕ) (b : OrderBook) (t : Side) (q : ℕ)
    → lookup q (side_map t (set_level s p ids b))
      ≡ (if same_side s t && p == q then level_of ids else lookup q (side_map t b))
unfolding set_level
lookup-set_level buy p [] b buy q = lookup-erase p q b.bids
lookup-set_level buy p [] b sell q = refl
lookup-set_level sell p [] b buy q = refl
lookup-set_level sell p [] b sell q = lookup-erase p q b.asks
lookup-set_level buy p (id ∷ ids) b buy q = lookup-insert p q (id ∷ ids) b.bids
lookup-set_level buy p (id ∷ ids) b sell q = refl
lookup-set_level sell p (id ∷ ids) b buy q = refl
lookup-set_level sell p (id ∷ ids) b sell q = lookup-insert p q (id ∷ ids) b.asks

pub queue-set_level :
    (s : Side) (p : ℕ) (ids : List ℕ) (b : OrderBook) (t : Side) (q : ℕ)
    → queue t q (set_level s p ids b) ≡ (if same_side s t && p == q then ids else queue t q b)
unfolding queue get_or
queue-set_level s p [] b t q = ground (arith, lookup-set_level s p [] b t q)
queue-set_level s p (id ∷ ids) b t q = ground (arith, lookup-set_level s p (id ∷ ids) b t q)

pub tables-set_level :
    (s : Side) (p : ℕ) (ids : List ℕ) (b : OrderBook)
    → ((set_level s p ids b).orders_by_id ≡ b.orders_by_id)
      × ((set_level s p ids b).arrival_sequence ≡ b.arrival_sequence)
      × ((set_level s p ids b).next_arrival_sequence ≡ b.next_arrival_sequence)
unfolding set_level
tables-set_level buy p [] b = (refl, refl, refl)
tables-set_level sell p [] b = (refl, refl, refl)
tables-set_level buy p (id ∷ ids) b = (refl, refl, refl)
tables-set_level sell p (id ∷ ids) b = (refl, refl, refl)

-- Whether an order is one of a side and a price.
abbrev pub stands_at : Order → Side → ℕ → Bool
stands_at o s p = same_side o.side s && o.price == p

pub stands_at-place :
    (o : Order) (s : Side) (p : ℕ) → stands_at o s p ≡ true → (o.side ≡ s) × (o.price ≡ p)
stands_at-place o s p h = (side_of_same o.side s (ground (arith, h)), ground (arith, h))

pub place-stands_at :
    (o : Order) (s : Side) (p : ℕ) → o.side ≡ s → o.price ≡ p → stands_at o s p ≡ true
place-stands_at o s p h k =
    let same : same_side o.side s ≡ true = ap (same_side o.side) (sym h) ∙ same_side_refl o.side in
    ground (arith, same, k)

pub record Linked (b : OrderBook) : Type 0 where
  pub unique : IsUnique b.orders_by_id
  pub keyed : (id : ℕ) (o : Order) → lookup id b.orders_by_id ≡ some o → o.order_id ≡ id
  pub arrived :
      (id : ℕ) (o : Order)
      → lookup id b.orders_by_id ≡ some o
      → (n : ℕ) × (lookup id b.arrival_sequence ≡ some n)
  pub queued :
      (s : Side) (p id : ℕ)
      → contains id (queue s p b) ≡ true
      → (o : Order) × (lookup id b.orders_by_id ≡ some o) × (o.side ≡ s) × (o.price ≡ p)
  pub resting :
      (id : ℕ) (o : Order)
      → lookup id b.orders_by_id ≡ some o
      → contains id (queue o.side o.price b) ≡ true
  pub distinct : (s : Side) (p : ℕ) → IsDistinct (queue s p b)
  pub filled :
      (s : Side) (p : ℕ) (ids : List ℕ)
      → lookup p (side_map s b) ≡ some ids
      → (id : ℕ) × (rest : List ℕ) × (ids ≡ id ∷ rest)

-- The book without an order.
abbrev pub removed : ℕ → Order → OrderBook → OrderBook
removed id o b = set_level o.side o.price (discard id (queue o.side o.price b)) (record b {
  orders_by_id = erase id b.orders_by_id;
  arrival_sequence = erase id b.arrival_sequence;
})

level_of_filled :
    (ids level : List ℕ)
    → level_of ids ≡ some level
    → (id : ℕ) × (rest : List ℕ) × (level ≡ id ∷ rest)
level_of_filled [] level h = cc
level_of_filled (id ∷ rest) level h = (id, rest, sym (some-injective _ _ h))

-- A queue does not look at the tables.
pub queue-tables :
    (s : Side) (p : ℕ) (b : OrderBook) (d : Dict ℕ Order) (a : Dict ℕ ℕ)
    → queue s p (record b { orders_by_id = d; arrival_sequence = a }) ≡ queue s p b
unfolding queue
queue-tables buy p b d a = refl
queue-tables sell p b d a = refl

pub lookup-tables :
    (s : Side) (p : ℕ) (b : OrderBook) (d : Dict ℕ Order) (a : Dict ℕ ℕ)
    → lookup p (side_map s (record b { orders_by_id = d; arrival_sequence = a }))
      ≡ lookup p (side_map s b)
lookup-tables buy p b d a = refl
lookup-tables sell p b d a = refl

and_not : (a b : Bool) → (a && not b) ≡ true → (a ≡ true) × (b ≡ false)
and_not true true h = cc
and_not true false h = (refl, refl)
and_not false b h = cc

module _ (b : OrderBook) (id : ℕ) (o : Order) where
  pub orders-removed : (removed id o b).orders_by_id ≡ erase id b.orders_by_id
  orders-removed = (tables-set_level o.side o.price _ _).0

  arrivals-removed : (removed id o b).arrival_sequence ≡ erase id b.arrival_sequence
  arrivals-removed = (tables-set_level o.side o.price _ _).1

  pub next-removed : (removed id o b).next_arrival_sequence ≡ b.next_arrival_sequence
  next-removed = (tables-set_level o.side o.price _ _).2

  pub queue-removed :
      (s : Side) (p : ℕ)
      → queue s p (removed id o b) ≡ (
          if same_side o.side s && o.price == p
          then discard id (queue o.side o.price b)
          else queue s p b)
  queue-removed s p =
      queue-set_level o.side o.price _ _ s p
      ∙ ap
          (λ t.
            if same_side o.side s && o.price == p then discard id (queue o.side o.price b) else t)
          (queue-tables s p b _ _)

  pub lookup-removed :
      (j : ℕ)
      → lookup j (removed id o b).orders_by_id ≡ (if id == j then none else lookup j b.orders_by_id)
  lookup-removed j = ap (lookup j) orders-removed ∙ lookup-erase id j b.orders_by_id

  pub arrival-removed :
      (j : ℕ)
      → lookup j (removed id o b).arrival_sequence
        ≡ (if id == j then none else lookup j b.arrival_sequence)
  arrival-removed j = ap (lookup j) arrivals-removed ∙ lookup-erase id j b.arrival_sequence

  pub kept_elsewhere :
      (j : ℕ) (x : Order)
      → lookup j (removed id o b).orders_by_id ≡ some x
      → ((id == j) ≡ false) × (lookup j b.orders_by_id ≡ some x)
  kept_elsewhere j x h = if_none _ _ x (sym (lookup-removed j) ∙ h)

module _ (b : OrderBook) (linked : Linked b) (id : ℕ) (o : Order)
    (found : lookup id b.orders_by_id ≡ some o) where
  -- An order that stands in a queue stands in no other.
  alone : (s : Side) (p : ℕ) → contains id (queue s p b) ≡ true → stands_at o s p ≡ true
  alone s p h =
      let q = linked.queued s p id h in
      let same : q.0 ≡ o = some-injective _ _ (sym q.1 ∙ found) in
      place-stands_at o s p (ap (λ (x : Order). x.side) (sym same) ∙ q.2)
        (ap (λ (x : Order). x.price) (sym same) ∙ q.3)

  elsewhere :
      (s : Side) (p j : ℕ)
      → stands_at o s p ≡ false
      → contains j (queue s p b) ≡ (contains j (queue s p b) && not (id == j))
  elsewhere s p j c = elim (==-cases id j) [
    | inl (t, e) ↦ elim (Bool-cases (contains id (queue s p b))) [
      | inl h ↦ absurd (ground (arith, alone s p h, c))
      | inr h ↦ ground (arith, t, sym (ap (λ k. contains k (queue s p b)) e) ∙ h)
    ]
    | inr (t, n) ↦ ground (arith, t)
  ]

  pub contains-removed :
      (s : Side) (p j : ℕ)
      → contains j (queue s p (removed id o b)) ≡ (contains j (queue s p b) && not (id == j))
  contains-removed s p j = elim (Bool-cases (stands_at o s p)) [
    | inl c ↦
        let at = stands_at-place o s p c in
        ap (contains j) (queue-removed b id o s p)
        ∙ (rw c (contains-discard id j _ (linked.distinct o.side o.price)))
        ∙ (λ i. contains j (queue (at.0 i) (at.1 i) b) && not (id == j))
    | inr c ↦ ap (contains j) (queue-removed b id o s p) ∙ rw c (elsewhere s p j c)
  ]

  pub removed-Linked : Linked (removed id o b)
  removed-Linked = record {
    unique =
        subst IsUnique (sym (orders-removed b id o))
          (erase-IsUnique id b.orders_by_id linked.unique);
    keyed = λ j x h. linked.keyed j x (kept_elsewhere b id o j x h).1;
    arrived = λ j x h.
        let k = kept_elsewhere b id o j x h in
        let a = linked.arrived j x k.1 in (a.0, arrival-removed b id o j ∙ rw k.0 a.1);
    queued = λ s p j h.
        let k = and_not _ _ (sym (contains-removed s p j) ∙ h) in
        let x = linked.queued s p j k.0 in
        (
          x.0,
          lookup-removed b id o j ∙ ap (λ c. if c then none else lookup j b.orders_by_id) k.1 ∙ x.1,
          x.2,
          x.3,
        );
    resting = λ j x h.
        let k = kept_elsewhere b id o j x h in
        contains-removed x.side x.price j ∙ rw (linked.resting j x k.1, k.0) refl;
    distinct = λ s p. subst IsDistinct (sym (queue-removed b id o s p)) (
        of_test IsDistinct (stands_at o s p) _ _
          (λ c. discard-IsDistinct id _ (linked.distinct o.side o.price))
          (λ c. linked.distinct s p));
    filled = λ s p ids h.
        of_test (λ l. l ≡ some ids → (j : ℕ) × (rest : List ℕ) × (ids ≡ j ∷ rest)) (stands_at o s p)
          _ _ (λ c. level_of_filled _ ids)
          (λ c k. linked.filled s p ids (sym (lookup-tables s p b _ _) ∙ k))
          (sym (lookup-set_level o.side o.price _ _ s p) ∙ h);
  }
