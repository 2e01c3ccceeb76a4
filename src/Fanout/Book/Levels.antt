-- ===== src/Fanout/Book/Levels.antt =====
-- The price levels of a book: each holds what rests at its price, and they stand in order.
use quant_arena.Prelude.{
  ℕ, ◌+◌, ◌<◌, ◌≡◌, ◌≢◌, refl, ◌∙◌, Bool, true, false, ◌&&◌, none, some, List, [], ◌∷◌, arith, ltb,
  ◌==◌, nat_eq, if◌then◌else◌, inl, inr, Bool-cases,
}
use quant_arena.Dict.{
  AllEntries, AllEntries-insert, Dict, lookup, get_or, IsUnique, insert-IsUnique,
}
use quant_arena.Dict.Sums.{sum_ℕ}
use quant_arena.Dict.Counts.{gain, get_or-gain}
use quant_arena.Contracts.Side
use quant_arena.Fanout.Book.{RestingOrder, Book, totals_from, before, place, sorted, ordered}

-- What one order adds to the level of one side at price `p`.
abbrev pub adds : ℕ → ℕ → RestingOrder → ℕ
adds side p o =
    if o.side == side && ltb 0 o.remaining_qty
    then if o.price_ticks == p then o.remaining_qty else 0
    else 0

-- What rests on one side at price `p`, by a sum over all orders.
abbrev pub resting_at : ℕ → ℕ → Book → ℕ
resting_at side p b = sum_ℕ (λ _ o. adds side p o) b.orders

get_or-totals_from :
    (side p : ℕ) (d : Dict ℕ RestingOrder) (t : Dict ℕ ℕ)
    → get_or p 0 (totals_from side d t) ≡ get_or p 0 t + sum_ℕ (λ _ o. adds side p o) d
unfolding totals_from sum_ℕ
get_or-totals_from side p [] t = omega arith
get_or-totals_from side p ((id, o) ∷ d) t =
    elim (Bool-cases (o.side == side && ltb 0 o.remaining_qty)) [
      | inl h ↦ rw h (
          omega (
            arith,
            get_or-totals_from side p d (gain o.price_ticks o.remaining_qty t),
            get_or-gain o.price_ticks p o.remaining_qty t,
          ))
      | inr h ↦ rw h (omega (arith, get_or-totals_from side p d t))
    ]

totals_from-IsUnique :
    (side : ℕ) (d : Dict ℕ RestingOrder) (t : Dict ℕ ℕ)
    → IsUnique t
    → IsUnique (totals_from side d t)
unfolding totals_from gain
totals_from-IsUnique side [] t h = h
totals_from-IsUnique side ((id, o) ∷ d) t h =
    totals_from-IsUnique side d _ (elim (Bool-cases (o.side == side && ltb 0 o.remaining_qty)) [
      | inl e ↦ rw e (insert-IsUnique o.price_ticks _ t h)
      | inr e ↦ rw e h
    ])

-- Sorting keeps what a price maps to.
lookup-place :
    (reverse : Bool) (p k q : ℕ) (xs : List (ℕ × ℕ))
    → lookup k xs ≡ none
    → lookup p (place reverse (k, q) xs) ≡ (if k == p then some q else lookup p xs)
unfolding place lookup
lookup-place reverse p k q [] h = refl
lookup-place reverse p k q ((j, r) ∷ xs) h = ground (arith, lookup-place reverse p k q xs)

lookup-sorted :
    (reverse : Bool) (p : ℕ) (xs : Dict ℕ ℕ)
    → IsUnique xs
    → lookup p (sorted reverse xs) ≡ lookup p xs
unfolding sorted lookup
lookup-sorted reverse p [] h = refl
lookup-sorted reverse p ((k, q) ∷ xs) h = ground (
  arith,
  lookup-sorted reverse p xs h.1,
  lookup-sorted reverse k xs h.1,
  lookup-place reverse p k q (sorted reverse xs),
)

get_or-sorted :
    (reverse : Bool) (p : ℕ) (xs : Dict ℕ ℕ)
    → IsUnique xs
    → get_or p 0 (sorted reverse xs) ≡ get_or p 0 xs
unfolding get_or
get_or-sorted reverse p xs h = ground (arith, lookup-sorted reverse p xs h)

-- The level of a price holds exactly what rests at that price on that side; a price without a level
-- has nothing resting.
pub get_or-ordered : (side p : ℕ) (b : Book) → get_or p 0 (ordered side b) ≡ resting_at side p b
unfolding ordered
get_or-ordered side p b =
    get_or-sorted (side == Side.buy) p (totals_from side b.orders [])
      (totals_from-IsUnique side b.orders [] tt)
    ∙ get_or-totals_from side p b.orders []
    ∙ (unfold get_or lookup in omega arith)

-- Each price stands before all that follow it, strictly.
abbrev pub InOrder : Bool → List (ℕ × ℕ) → Type 0
InOrder reverse [] = Unit
InOrder reverse ((k, q) ∷ xs) =
    AllEntries (λ j _. before reverse k j ≡ true) xs × InOrder reverse xs

before_trans :
    (reverse : Bool) (a b c : ℕ)
    → before reverse a b ≡ true
    → before reverse b c ≡ true
    → before reverse a c ≡ true
unfolding before
before_trans true a b c h k = ground arith
before_trans false a b c h k = ground arith

before_total :
    (reverse : Bool) (a b : ℕ) → before reverse a b ≡ false → b ≢ a → before reverse b a ≡ true
unfolding before
before_total true a b h n = ground arith
before_total false a b h n = ground arith

all_before :
    (reverse : Bool) (a b : ℕ) (xs : List (ℕ × ℕ))
    → before reverse a b ≡ true
    → AllEntries (λ j _. before reverse b j ≡ true) xs
    → AllEntries (λ j _. before reverse a j ≡ true) xs
all_before reverse a b [] h k = tt
all_before reverse a b ((j, q) ∷ xs) h k =
    (before_trans reverse a b j h k.0, all_before reverse a b xs h k.1)

place-all :
    (reverse : Bool) (a k q : ℕ) (xs : List (ℕ × ℕ))
    → before reverse a k ≡ true
    → AllEntries (λ j _. before reverse a j ≡ true) xs
    → AllEntries (λ j _. before reverse a j ≡ true) (place reverse (k, q) xs)
unfolding place
place-all reverse a k q [] h r = (h, tt)
place-all reverse a k q ((j, p) ∷ xs) h r = elim (Bool-cases (before reverse k j)) [
  | inl t ↦ rw t (h, r)
  | inr t ↦ rw t (r.0, place-all reverse a k q xs h r.1)
]

place-InOrder :
    (reverse : Bool) (k q : ℕ) (xs : List (ℕ × ℕ))
    → lookup k xs ≡ none
    → InOrder reverse xs
    → InOrder reverse (place reverse (k, q) xs)
unfolding place lookup
place-InOrder reverse k q [] new h = (tt, tt)
place-InOrder reverse k q ((j, p) ∷ xs) new h = elim (Bool-cases (before reverse k j)) [
  | inl t ↦ rw t ((t, all_before reverse k j xs t h.0), h)
  | inr t ↦
      let apart : j ≢ k = λ e. ground (arith, new, e) in
      let rest : lookup k xs ≡ none = ground (arith, new) in
      rw t (
        place-all reverse j k q xs (before_total reverse k j t apart) h.0,
        place-InOrder reverse k q xs rest h.1,
      )
]

sorted-InOrder :
    (reverse : Bool) (xs : Dict ℕ ℕ) → IsUnique xs → InOrder reverse (sorted reverse xs)
unfolding sorted
sorted-InOrder reverse [] h = tt
sorted-InOrder reverse ((k, q) ∷ xs) h =
    place-InOrder reverse k q (sorted reverse xs) (lookup-sorted reverse k xs h.1 ∙ h.0)
      (sorted-InOrder reverse xs h.1)

-- A level holds something.
abbrev pub AllFilled : List (ℕ × ℕ) → Type 0
AllFilled = AllEntries (λ _ q. 0 < q)

totals_from-AllFilled :
    (side : ℕ) (d : Dict ℕ RestingOrder) (t : Dict ℕ ℕ)
    → AllFilled t
    → AllFilled (totals_from side d t)
unfolding totals_from gain
totals_from-AllFilled side [] t h = h
totals_from-AllFilled side ((id, o) ∷ d) t h =
    totals_from-AllFilled side d _ (elim (Bool-cases (o.side == side && ltb 0 o.remaining_qty)) [
      | inl e ↦ rw e (AllEntries-insert (λ _ q. 0 < q) o.price_ticks _ t h (ground (arith, e)))
      | inr e ↦ rw e h
    ])

place-AllFilled :
    (reverse : Bool) (x : ℕ × ℕ) (xs : List (ℕ × ℕ))
    → 0 < x.1
    → AllFilled xs
    → AllFilled (place reverse x xs)
unfolding place
place-AllFilled reverse x [] h r = (h, tt)
place-AllFilled reverse x (y ∷ ys) h r = elim (Bool-cases (before reverse x.0 y.0)) [
  | inl t ↦ rw t (h, r)
  | inr t ↦ rw t (r.0, place-AllFilled reverse x ys h r.1)
]

sorted-AllFilled :
    (reverse : Bool) (xs : List (ℕ × ℕ)) → AllFilled xs → AllFilled (sorted reverse xs)
unfolding sorted
sorted-AllFilled reverse [] h = tt
sorted-AllFilled reverse (x ∷ xs) h =
    place-AllFilled reverse x (sorted reverse xs) h.0 (sorted-AllFilled reverse xs h.1)

-- Bids stand strictly from the highest down, asks strictly from the lowest up, and no level is empty.
pub ordered-InOrder :
    (side : ℕ) (b : Book) → InOrder (side == Side.buy) (ordered side b) × AllFilled (ordered side b)
unfolding ordered
ordered-InOrder side b = (
  sorted-InOrder (side == Side.buy) (totals_from side b.orders [])
      (totals_from-IsUnique side b.orders [] tt),
  sorted-AllFilled (side == Side.buy) (totals_from side b.orders [])
      (totals_from-AllFilled side b.orders [] tt),
)
