-- ===== src/Engine/Book/Trade.antt =====
-- One trade of two orders that rest in the book.
use mathlib.Core.Option.{some-injective}
use quant_arena.Prelude.{
  none, ◌⊎◌, ℕ, ◌+◌, ◌<◌, ◌≤◌, min, ◌≡◌, refl, sym, ap, ◌∙◌, Bool, true, false, ◌&&◌, ◌||◌, not,
  some, arith, ◌==◌, nat_eq, ==-cases, ==-refl, inl, inr, Option-cases, if◌then◌else◌, ok, ltb,
}
use quant_arena.Dict.{lookup, lookup-insert}
use quant_arena.Engine.Book.{
  Side, buy, sell, Order, Fill, OrderBook, reduce, reduce_in, settle, trade, trade_price,
}
use quant_arena.Engine.Book.Linked.{Linked, same_side}
use quant_arena.Engine.Book.Steps.{replaced, replaced-Linked, replaced-before, SameOrder}
use quant_arena.Engine.Book.Settle.{
  reduced, cleared, left, replaced-OpenExcept, cleared-Linked, cleared-before, KeepsArrivals,
  cleared-KeepsArrivals, remove_filled-cleared, cleared-OpenExcept, left-cleared, lookup-cleared,
  left-replaced,
}

-- A book between two calls: the tables and the levels agree, and every order has something left.
pub record WellFormed (b : OrderBook) : Type 0 where
  pub linked : Linked b
  pub open_orders :
      (id : ℕ) (o : Order) → lookup id b.orders_by_id ≡ some o → 0 < o.remaining_quantity

-- The book after a trade of a quantity, which both sides lose.
pub record Traded (qty : ℕ) (b b' : OrderBook) : Type 0 where
  pub after : WellFormed b'
  pub stays :
      (j : ℕ) (x : Order)
      → lookup j b'.orders_by_id ≡ some x
      → (y : Order) × (lookup j b.orders_by_id ≡ some y) × SameOrder x y
  pub keeps_arrivals : KeepsArrivals b b'
  pub positive : 0 < qty
  pub bought : left buy b' + qty ≡ left buy b
  pub sold : left sell b' + qty ≡ left sell b

reduce_lem :
    (qty : ℕ) (o : Order) → 0 < qty → qty ≤ o.remaining_quantity → reduce qty o ≡ ok (reduced qty o)
unfolding reduce
reduce_lem qty o h k =
    let e : (qty == 0) ≡ false = ground (arith, h) in
    let f : ltb o.remaining_quantity qty ≡ false = ground (arith, k) in rw (e, f) refl

reduce_in_lem :
    (qty : ℕ) (o : Order) (b : OrderBook)
    → 0 < qty
    → qty ≤ o.remaining_quantity
    → reduce_in qty o b ≡ ok (reduced qty o, replaced o.order_id (reduced qty o) b)
unfolding reduce_in
reduce_in_lem qty o b h k = rw (reduce_lem qty o h k, reduce_in) refl

nothing_left : (a p : Bool) → (not a && (not p && (a || (p || false)))) ≡ false
nothing_left true p = refl
nothing_left false true = refl
nothing_left false false = refl

lookup-replaced_other :
    (id j : ℕ) (o x : Order) (b : OrderBook)
    → (id == j) ≡ false
    → lookup j b.orders_by_id ≡ some x
    → lookup j (replaced id o b).orders_by_id ≡ some x
lookup-replaced_other id j o x b c h =
    lookup-insert id j o b.orders_by_id
    ∙ ap (λ t. if t then some o else lookup j b.orders_by_id) c
    ∙ h

lookup-replaced_same :
    (id : ℕ) (o : Order) (b : OrderBook) → lookup id (replaced id o b).orders_by_id ≡ some o
lookup-replaced_same id o b =
    lookup-insert id id o b.orders_by_id
    ∙ ap (λ t. if t then some o else lookup id b.orders_by_id) (==-refl id)

abbrev pub settled : ℕ → Order → Order → OrderBook → OrderBook
settled qty bid ask b = cleared (reduced qty ask) (
    cleared (reduced qty bid)
      (replaced ask.order_id (reduced qty ask) (replaced bid.order_id (reduced qty bid) b)))

abbrev pub fill_of : Order → Order → ℕ → ℕ → ℕ → Fill
fill_of bid ask i j qty = record {
  buy_order_id = bid.order_id;
  sell_order_id = ask.order_id;
  symbol = ask.symbol;
  price = trade_price bid ask i j;
  quantity = qty;
}

module _ (b : OrderBook) (well : WellFormed b) (bid ask : Order)
    (bid_found : lookup bid.order_id b.orders_by_id ≡ some bid)
    (ask_found : lookup ask.order_id b.orders_by_id ≡ some ask) (bid_side : bid.side ≡ buy)
    (ask_side : ask.side ≡ sell) (qty : ℕ) (positive : 0 < qty)
    (bid_has : qty ≤ bid.remaining_quantity) (ask_has : qty ≤ ask.remaining_quantity) where
  apart : (bid.order_id == ask.order_id) ≡ false
  apart = elim (==-cases bid.order_id ask.order_id) [
    | inl (t, e) ↦
        let same : bid ≡ ask =
          some-injective _ _ (sym bid_found ∙ ap (λ i. lookup i b.orders_by_id) e ∙ ask_found) in
        absurd (cc (sym bid_side ∙ ap (λ (o : Order). o.side) same ∙ ask_side))
    | inr (t, n) ↦ t
  ]

  abbrev first_book : OrderBook
  first_book = replaced bid.order_id (reduced qty bid) b

  abbrev second_book : OrderBook
  second_book = replaced ask.order_id (reduced qty ask) first_book

  abbrev third_book : OrderBook
  third_book = cleared (reduced qty bid) second_book

  first-Linked : Linked first_book
  first-Linked =
      replaced-Linked b well.linked bid.order_id bid (reduced qty bid) bid_found (refl, refl, refl)

  ask_in_first : lookup ask.order_id first_book.orders_by_id ≡ some ask
  ask_in_first =
      lookup-replaced_other bid.order_id ask.order_id (reduced qty bid) ask b apart ask_found

  second-Linked : Linked second_book
  second-Linked =
      replaced-Linked first_book first-Linked ask.order_id ask (reduced qty ask) ask_in_first
        (refl, refl, refl)

  bid_in_second : lookup bid.order_id second_book.orders_by_id ≡ some (reduced qty bid)
  bid_in_second =
      lookup-replaced_other ask.order_id bid.order_id (reduced qty ask) (reduced qty bid) first_book
        (ground (arith, apart)) (lookup-replaced_same bid.order_id (reduced qty bid) b)

  third-Linked : Linked third_book
  third-Linked = cleared-Linked second_book second-Linked (reduced qty bid) bid_in_second

  ask_in_third : lookup ask.order_id third_book.orders_by_id ≡ some (reduced qty ask)
  ask_in_third =
      lookup-cleared second_book second-Linked (reduced qty bid) bid_in_second ask.order_id
        (reduced qty ask) apart (lookup-replaced_same ask.order_id (reduced qty ask) first_book)

  settled-Linked : Linked (settled qty bid ask b)
  settled-Linked = cleared-Linked third_book third-Linked (reduced qty ask) ask_in_third

  settled_open :
      (id : ℕ) (o : Order)
      → lookup id (settled qty bid ask b).orders_by_id ≡ some o
      → 0 < o.remaining_quantity
  settled_open id o h =
      cleared-OpenExcept third_book third-Linked (reduced qty ask) ask_in_third _
        (cleared-OpenExcept second_book second-Linked (reduced qty bid) bid_in_second _ (
          replaced-OpenExcept _ ask.order_id (reduced qty ask) first_book (
            replaced-OpenExcept (λ j. false) bid.order_id (reduced qty bid) b
              (λ j x k n. well.open_orders j x k))))
        id o h (nothing_left (ask.order_id == id) (bid.order_id == id))

  settled_stays :
      (j : ℕ) (x : Order)
      → lookup j (settled qty bid ask b).orders_by_id ≡ some x
      → (y : Order) × (lookup j b.orders_by_id ≡ some y) × SameOrder x y
  settled_stays j x h =
      let third = cleared-before third_book third-Linked (reduced qty ask) ask_in_third j x h in
      let second =
        cleared-before second_book second-Linked (reduced qty bid) bid_in_second j x third in
      let (y, first, e) =
        replaced-before first_book first-Linked ask.order_id ask (reduced qty ask) ask_in_first
          (refl, refl, refl) j x second in
      let (z, start, f) =
        replaced-before b well.linked bid.order_id bid (reduced qty bid) bid_found
          (refl, refl, refl) j y first in
      (z, start, (e.0 ∙ f.0, e.1 ∙ f.1, e.2 ∙ f.2))

  pub settled_leaves :
      qty ≡ min bid.remaining_quantity ask.remaining_quantity
      → (lookup bid.order_id (settled qty bid ask b).orders_by_id ≡ none)
        ⊎ (lookup ask.order_id (settled qty bid ask b).orders_by_id ≡ none)
  settled_leaves e =
      elim (Option-cases (lookup bid.order_id (settled qty bid ask b).orders_by_id)) [
        | inl n ↦ inl n
        | inr (x, h) ↦
            elim (Option-cases (lookup ask.order_id (settled qty bid ask b).orders_by_id)) [
              | inl n ↦ inr n
              | inr (y, k) ↦
                  let in_third =
                    cleared-before third_book third-Linked (reduced qty ask) ask_in_third in
                  let in_second =
                    cleared-before second_book second-Linked (reduced qty bid) bid_in_second
                      bid.order_id x (in_third bid.order_id x h) in
                  let x_is : reduced qty bid ≡ x =
                    some-injective _ _ (sym bid_in_second ∙ in_second) in
                  let y_is : reduced qty ask ≡ y =
                    some-injective _ _ (sym ask_in_third ∙ in_third ask.order_id y k) in
                  absurd (
                    ground (
                      arith,
                      e,
                      settled_open bid.order_id x h,
                      settled_open ask.order_id y k,
                      ap (λ (o : Order). o.remaining_quantity) x_is,
                      ap (λ (o : Order). o.remaining_quantity) y_is,
                    ))
            ]
      ]

  left-settled :
      (s : Side)
      → left s (settled qty bid ask b)
          + (if same_side ask.side s then qty else 0)
          + (if same_side bid.side s then qty else 0)
        ≡ left s b
  left-settled s = ground (
    arith,
    left-cleared third_book third-Linked (reduced qty ask) ask_in_third s,
    left-cleared second_book second-Linked (reduced qty bid) bid_in_second s,
    left-replaced first_book first-Linked ask ask_in_first s qty ask_has,
    left-replaced b well.linked bid bid_found s qty bid_has,
  )

  pub settle_lem : settle qty bid ask b ≡ ok (settled qty bid ask b)
  unfolding settle
  settle_lem = rw (reduce_in_lem qty bid b positive bid_has) (
      rw (reduce_in_lem qty ask first_book positive ask_has) (
        rw (remove_filled-cleared second_book second-Linked (reduced qty bid) bid_in_second)
          (remove_filled-cleared third_book third-Linked (reduced qty ask) ask_in_third)))

  pub settled-Traded : Traded qty b (settled qty bid ask b)
  settled-Traded = record {
    after = record { linked = settled-Linked; open_orders = settled_open };
    stays = settled_stays;
    keeps_arrivals =
        let (second, at) =
          cleared-KeepsArrivals second_book second-Linked (reduced qty bid) bid_in_second in
        let (third, at') =
          cleared-KeepsArrivals third_book third-Linked (reduced qty ask) ask_in_third in
        ((λ j n h. second j n (third j n h)), at' ∙ at);
    positive = positive;
    bought = ground (
      arith,
      left-settled buy,
      ap (λ s. same_side s buy) bid_side,
      ap (λ s. same_side s buy) ask_side,
    );
    sold = ground (
      arith,
      left-settled sell,
      ap (λ s. same_side s sell) bid_side,
      ap (λ s. same_side s sell) ask_side,
    );
  }

  pub trade_lem :
      (i j : ℕ)
      → lookup bid.order_id b.arrival_sequence ≡ some i
      → lookup ask.order_id b.arrival_sequence ≡ some j
      → qty ≡ min bid.remaining_quantity ask.remaining_quantity
      → trade bid ask b ≡ ok (some (fill_of bid ask i j qty, settled qty bid ask b))
  unfolding trade
  trade_lem i j h k e =
      rw (h, k, ap (λ q. settle q bid ask b) (sym e) ∙ settle_lem, trade)
        (ap (λ q. ok (some (fill_of bid ask i j q, settled qty bid ask b))) (sym e))
