-- ===== src/Fanout/Book/Best.antt =====
-- The best price of a side, which stands first among its levels.
use mathlib.Core.Path.{subst}
use mathlib.Core.Option.{some-injective}
use quant_arena.Prelude.{
  ℕ, ◌≤◌, ◌<◌, ◌≡◌, refl, ap, ◌∙◌, Bool, true, false, some, List, [], ◌∷◌, arith, ◌==◌, nat_eq, inl,
  inr, Option-cases, ==-cases,
}
use quant_arena.Dict.{AllEntries-lookup, Dict, lookup, get_or}
use quant_arena.Dict.Sums.{sum_ℕ}
use quant_arena.Contracts.Side
use quant_arena.Fanout.Book.{RestingOrder, Book, before, ordered, levels, best, first, take}
use quant_arena.Fanout.Book.Levels.{
  adds, resting_at, InOrder, AllFilled, get_or-ordered, ordered-InOrder,
}

-- An order that rests is counted at its price.
resting_counts :
    (side id : ℕ) (o : RestingOrder) (d : Dict ℕ RestingOrder)
    → lookup id d ≡ some o
    → o.side ≡ side
    → o.remaining_qty ≤ sum_ℕ (λ _ r. adds side o.price_ticks r) d
unfolding sum_ℕ lookup
resting_counts side id o [] found e = absurd (ground arith)
resting_counts side id o ((j, r) ∷ d) found e = ground (arith, resting_counts side id o d)

-- No price that is listed stands before the first.
first_is_best :
    (reverse : Bool) (p k q r : ℕ) (xs : List (ℕ × ℕ))
    → InOrder reverse ((k, q) ∷ xs)
    → lookup p ((k, q) ∷ xs) ≡ some r
    → before reverse p k ≡ false
unfolding before lookup
first_is_best true p k q r xs h found = elim (==-cases k p) [
  | inl (t, e) ↦ ground arith
  | inr (t, e) ↦
      ground (arith, AllEntries-lookup (λ j _. before true k j ≡ true) p r xs h.0 (rw t at found))
]
first_is_best false p k q r xs h found = elim (==-cases k p) [
  | inl (t, e) ↦ ground arith
  | inr (t, e) ↦
      ground (arith, AllEntries-lookup (λ j _. before false k j ≡ true) p r xs h.0 (rw t at found))
]

-- The first of the levels, for a price that some level has.
top_level :
    (reverse : Bool) (p : ℕ) (xs : List (ℕ × ℕ))
    → InOrder reverse xs
    → 0 < get_or p 0 xs
    → (k : ℕ) × (first xs ≡ some (k, get_or k 0 xs)) × (before reverse p k ≡ false)
unfolding get_or
top_level reverse p [] h n = absurd (unfold lookup in ground arith)
top_level reverse p ((k, q) ∷ xs) h n = elim (Option-cases (lookup p ((k, q) ∷ xs))) [
  | inl absent ↦ absurd (ground (arith, absent))
  | inr (r, found) ↦ (k, unfold lookup in ground arith, first_is_best reverse p k q r xs h found)
]

first-take : (xs : List (ℕ × ℕ)) → first (take 1 xs) ≡ first xs
first-take [] = refl
first-take (x ∷ xs) = refl

first-AllFilled : (k q : ℕ) (xs : List (ℕ × ℕ)) → first xs ≡ some (k, q) → AllFilled xs → 0 < q
first-AllFilled k q [] h f = cc h
first-AllFilled k q ((j, r) ∷ xs) h f = subst (λ x. 0 < x.1) (some-injective (j, r) (k, q) h) f.0

-- While an order rests on a side, that side has a best level; no resting order has a better price
-- than it, and its quantity is all that rests at its price, which is not nothing.
pub best_is_top :
    (side id : ℕ) (o : RestingOrder) (b : Book)
    → lookup id b.orders ≡ some o
    → o.side ≡ side
    → 0 < o.remaining_qty
    → (k : ℕ) × (best side b ≡ some (k, resting_at side k b))
      × (before (side == Side.buy) o.price_ticks k ≡ false)
      × (0 < resting_at side k b)
unfolding best levels
best_is_top side id o b found e h =
    let counted = resting_counts side id o b.orders found e in
    let listed : 0 < get_or o.price_ticks 0 (ordered side b) =
      omega (arith, counted, get_or-ordered side o.price_ticks b) in
    let (k, top, better) =
      top_level (side == Side.buy) o.price_ticks (ordered side b) (ordered-InOrder side b).0
        listed in
    (
      k,
      first-take (ordered side b) ∙ top ∙ ap (λ (q : ℕ). some (k, q)) (get_or-ordered side k b),
      better,
      subst (λ q. 0 < q) (get_or-ordered side k b)
          (first-AllFilled k (get_or k 0 (ordered side b)) (ordered side b) top
            (ordered-InOrder side b).1),
    )
