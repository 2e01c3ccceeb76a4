-- ===== src/Engine/Book/Settle.antt =====
-- A trade between two orders of the book: both are reduced, and the filled ones leave.
use mathlib.Core.Path.{subst}
use mathlib.Core.Option.{some-injective}
use quant_arena.Prelude.{
  ℕ, ◌+◌, ◌-◌, ◌<◌, ◌≤◌, ◌≡◌, refl, sym, ap, ◌∙◌, Bool, false, ◌&&◌, ◌||◌, not, some, arith, ◌==◌,
  nat_eq, ==-cases, inl, inr, Bool-cases, if◌then◌else◌, if_some, if_none, of_test, ok,
}
use quant_arena.Dict.{lookup, lookup-insert}
use quant_arena.Dict.Sums.{sum_ℕ, sum_ℕ-insert, sum_ℕ-erase}
use quant_arena.Engine.Book.{Side, Order, OrderBook, remove_filled}
use quant_arena.Engine.Book.Linked.{
  Linked, removed, removed-Linked, arrival-removed, next-removed, same_side, lookup-removed,
  orders-removed, kept_elsewhere,
}
use quant_arena.Engine.Book.Steps.{replaced, remove_order_lem}

-- The order after a trade of `qty`.
abbrev pub reduced : ℕ → Order → Order
reduced qty o = record o { remaining_quantity = o.remaining_quantity - qty }

-- The book after a filled order left, or the same book.
abbrev pub cleared : Order → OrderBook → OrderBook
cleared o b = if o.remaining_quantity == 0 then removed o.order_id o b else b

-- What a side has left to trade.
abbrev pub left_of : Side → ℕ → Order → ℕ
left_of s id o = if same_side o.side s then o.remaining_quantity else 0

unfoldable pub left : Side → OrderBook → ℕ
left s b = sum_ℕ (left_of s) b.orders_by_id

-- Every order has something left, but those that `f` names.
abbrev pub OpenExcept : (ℕ → Bool) → OrderBook → Type 0
OpenExcept f b =
    (j : ℕ) (x : Order) → lookup j b.orders_by_id ≡ some x → f j ≡ false → 0 < x.remaining_quantity

-- No arrival number is given or changed.
abbrev pub KeepsArrivals : OrderBook → OrderBook → Type 0
KeepsArrivals b b' =
    ((j n : ℕ) → lookup j b'.arrival_sequence ≡ some n → lookup j b.arrival_sequence ≡ some n)
    × (b'.next_arrival_sequence ≡ b.next_arrival_sequence)

pub replaced-OpenExcept :
    (f : ℕ → Bool) (id : ℕ) (o : Order) (b : OrderBook)
    → OpenExcept f b
    → OpenExcept (λ j. id == j || f j) (replaced id o b)
replaced-OpenExcept f id o b h j x k n =
    elim (if_some (id == j) (lookup j b.orders_by_id) o x
      (sym (lookup-insert id j o b.orders_by_id) ∙ k)) [
        | inl (c, e) ↦ absurd (ground (arith, c, n))
        | inr (c, l) ↦ h j x l (ground (arith, c, n))
      ]

module _ (b : OrderBook) (linked : Linked b) (o : Order)
    (found : lookup o.order_id b.orders_by_id ≡ some o) where
  of_cleared {ℓ} :
      (P : OrderBook → Type ℓ)
      → (o.remaining_quantity ≡ 0 → P (removed o.order_id o b))
      → P b
      → P (cleared o b)
  of_cleared P h k =
      of_test P (o.remaining_quantity == 0) (removed o.order_id o b) b (λ c. h (ground arith))
        (λ c. k)

  pub cleared-Linked : Linked (cleared o b)
  cleared-Linked = of_cleared Linked (λ c. removed-Linked b linked o.order_id o found) linked

  pub cleared-before :
      (j : ℕ) (x : Order)
      → lookup j (cleared o b).orders_by_id ≡ some x
      → lookup j b.orders_by_id ≡ some x
  cleared-before j x =
      of_cleared (λ c. lookup j c.orders_by_id ≡ some x → lookup j b.orders_by_id ≡ some x)
        (λ z h. (kept_elsewhere b o.order_id o j x h).1) (λ h. h)

  pub remove_filled-cleared : remove_filled o b ≡ ok (cleared o b)
  unfolding remove_filled
  remove_filled-cleared = elim (Bool-cases (o.remaining_quantity == 0)) [
    | inl c ↦ rw c (remove_order_lem b linked o.order_id o found)
    | inr c ↦ rw c refl
  ]

  pub cleared-OpenExcept :
      (f : ℕ → Bool) → OpenExcept f b → OpenExcept (λ j. not (o.order_id == j) && f j) (cleared o b)
  cleared-OpenExcept f h =
      of_test (OpenExcept (λ j. not (o.order_id == j) && f j)) (o.remaining_quantity == 0)
        (removed o.order_id o b) b
        (λ c j x k n.
          let l = kept_elsewhere b o.order_id o j x k in h j x l.1 (ground (arith, l.0, n)))
        (λ c j x k n. elim (==-cases o.order_id j) [
          | inl (t, e) ↦
              let same : o ≡ x =
                some-injective _ _ (sym found ∙ ap (λ i. lookup i b.orders_by_id) e ∙ k) in
              subst (λ y. 0 < y.remaining_quantity) same (ground (arith, c))
          | inr (t, e) ↦ h j x k (ground (arith, t, n))
        ])

  pub cleared-KeepsArrivals : KeepsArrivals b (cleared o b)
  cleared-KeepsArrivals =
      of_cleared (KeepsArrivals b)
        (λ z. (
          λ j n h.
              (if_none (o.order_id == j) (lookup j b.arrival_sequence) n
                (sym (arrival-removed b o.order_id o j) ∙ h)).1,
          next-removed b o.order_id o,
        ))
        ((λ j n h. h), refl)

  pub left-cleared : (s : Side) → left s (cleared o b) ≡ left s b
  unfolding left
  left-cleared s =
      of_cleared (λ c. left s c ≡ left s b)
        (λ c.
          ap (sum_ℕ (left_of s)) (orders-removed b o.order_id o)
          ∙ ground
              (arith, c, sum_ℕ-erase (left_of s) o.order_id o b.orders_by_id linked.unique found))
        refl

  pub lookup-cleared :
      (j : ℕ) (x : Order)
      → (o.order_id == j) ≡ false
      → lookup j b.orders_by_id ≡ some x
      → lookup j (cleared o b).orders_by_id ≡ some x
  lookup-cleared j x c h =
      of_cleared (λ a. lookup j a.orders_by_id ≡ some x)
        (λ z. lookup-removed b o.order_id o j ∙ rw c h) h

  pub left-replaced :
      (s : Side) (qty : ℕ)
      → qty ≤ o.remaining_quantity
      → left s (replaced o.order_id (reduced qty o) b) + (if same_side o.side s then qty else 0)
        ≡ left s b
  unfolding left
  left-replaced s qty h =
      ground (arith, sum_ℕ-insert (left_of s) o.order_id (reduced qty o) o b.orders_by_id found)
