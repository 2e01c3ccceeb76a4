-- ===== src/Fanout/Book.antt =====
-- services/fanout/book.py: one symbol's resting orders, rebuilt from the outbound stream, and the
-- price levels that are aggregated on read. The proofs are in the modules below.
pub mod Levels
pub mod Best
mod Tests
use quant_arena.Prelude.{
  ℕ, ◌+◌, ◌-◌, zero, suc, Bool, true, false, ◌&&◌, not, Option, none, some, List, [], ◌∷◌, ltb, leb,
  ◌==◌, nat_eq, if◌then◌else◌,
}
use quant_arena.Dict.{Dict, lookup, insert, erase}
use quant_arena.Dict.Counts.{gain}
use quant_arena.Contracts.Side

pub record RestingOrder : Type 0 where
  pub order_id : ℕ
  pub side : ℕ
  pub price_ticks : ℕ
  pub remaining_qty : ℕ

pub record Book : Type 0 where
  pub symbol_id : ℕ
  pub orders : Dict ℕ RestingOrder

unfoldable pub accept : ℕ → ℕ → ℕ → ℕ → Book → Book
accept order_id side price_ticks qty b = record b {
  orders =
      insert order_id
        (record {
          order_id = order_id;
          side = side;
          price_ticks = price_ticks;
          remaining_qty = qty;
        })
        b.orders;
}

-- `fill` on the order that was found: at zero or below it is dropped.
fill_found : Option RestingOrder → ℕ → ℕ → Book → Book
fill_found none order_id qty b = b
fill_found (some o) order_id qty b =
    if leb o.remaining_qty qty then record b { orders = erase order_id b.orders } else record b {
      orders = insert order_id (record o { remaining_qty = o.remaining_qty - qty }) b.orders;
    }

-- Silent on an unknown id.
unfoldable pub fill : ℕ → ℕ → Book → Book
unfolding fill_found
fill order_id qty b = fill_found (lookup order_id b.orders) order_id qty b

unfoldable pub cancel : ℕ → Book → Book
cancel order_id b = record b { orders = erase order_id b.orders }

-- The first loop of `levels`: what rests at each price.
pub totals_from : ℕ → Dict ℕ RestingOrder → Dict ℕ ℕ → Dict ℕ ℕ
totals_from side [] totals = totals
totals_from side ((id, o) ∷ d) totals = totals_from side d (
    if o.side == side && ltb 0 o.remaining_qty
    then gain o.price_ticks o.remaining_qty totals
    else totals)

-- `sorted(totals.items(), reverse=...)`: the prices of a dict are distinct, so the order of the
-- pairs is the order of their prices.
pub before : Bool → ℕ → ℕ → Bool
before true p q = ltb q p
before false p q = ltb p q

place : Bool → ℕ × ℕ → List (ℕ × ℕ) → List (ℕ × ℕ)
unfolding before
place reverse x [] = x ∷ []
place reverse x (y ∷ ys) = if before reverse x.0 y.0 then x ∷ y ∷ ys else y ∷ place reverse x ys

pub sorted : Bool → List (ℕ × ℕ) → List (ℕ × ℕ)
unfolding place
sorted reverse [] = []
sorted reverse (x ∷ xs) = place reverse x (sorted reverse xs)

abbrev pub take {ℓ} : {A : Type ℓ} → ℕ → List A → List A
take zero xs = []
take (suc n) [] = []
take (suc n) (x ∷ xs) = x ∷ take n xs

-- All levels of one side, the most aggressive first.
pub ordered : ℕ → Book → List (ℕ × ℕ)
unfolding totals_from sorted
ordered side b = sorted (side == Side.buy) (totals_from side b.orders [])

unfoldable pub levels : ℕ → ℕ → Book → List (ℕ × ℕ)
unfolding ordered
levels side depth b = take depth (ordered side b)

abbrev first {ℓ} : {A : Type ℓ} → List A → Option A
first [] = none
first (x ∷ xs) = some x

unfoldable pub best : ℕ → Book → Option (ℕ × ℕ)
best side b = first (levels side 1 b)

abbrev is_some {ℓ} : {A : Type ℓ} → Option A → Bool
is_some none = false
is_some (some x) = true

abbrev is_empty {ℓ} : {A : Type ℓ} → List A → Bool
is_empty [] = true
is_empty (x ∷ xs) = false

pub is_two_sided : Book → Bool
is_two_sided b = not (is_empty b.orders) && is_some (best Side.buy b) && is_some (best Side.sell b)
