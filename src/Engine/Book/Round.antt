-- ===== src/Engine/Book/Round.antt =====
-- One round of `match`: the best bid and the best ask trade, or no bid reaches an ask.
use mathlib.Core.Option.{some-injective}
use quant_arena.Prelude.{
  ◌==◌, ==-cases, ℕ, ◌<◌, ◌≤◌, min, ◌≡◌, refl, sym, ap, ◌∙◌, true, false, none, some, [], arith,
  nat_eq, ◌⊎◌, inl, inr, Bool-cases, Option-cases, if◌then◌else◌, ltb, ok,
}
use quant_arena.Dict.Extremes.{
  contains-highest, contains-lowest, highest-none, highest_bounds, lowest-none, lowest_bounds,
}
use quant_arena.Dict.{lookup, contains, keys}
use quant_arena.Engine.Book.{
  Side, buy, sell, Order, Fill, OrderBook, side_map, best_bid, best_ask, trade_price, match_round,
  round_at, cross,
}
use quant_arena.Engine.Book.Trade.{
  WellFormed, Traded, settled-Traded, settled, fill_of, settled_leaves, trade_lem,
}
use quant_arena.Engine.Book.Best.{Offered, first_order_lem, price_key}

-- No resting bid reaches a resting ask.
abbrev pub Uncrossed : OrderBook → Type 0
Uncrossed b =
    (i j : ℕ) (x y : Order)
    → lookup i b.orders_by_id ≡ some x
    → lookup j b.orders_by_id ≡ some y
    → x.side ≡ buy
    → y.side ≡ sell
    → x.price < y.price

abbrev pub NoBetter : Side → ℕ → ℕ → Type 0
NoBetter buy p q = p ≤ q
NoBetter sell p q = q ≤ p

-- No order of the side has a better price.
abbrev pub IsBest : Side → Order → OrderBook → Type 0
IsBest s o b =
    (i : ℕ) (x : Order) → lookup i b.orders_by_id ≡ some x → x.side ≡ s → NoBetter s x.price o.price

-- The trade of the orders that the two sides offer first.
pub record Executed (bid ask : Order) (f : Fill) (b b' : OrderBook) : Type 0 where
  pub buyer : Offered buy bid b
  pub seller : Offered sell ask b
  pub best_buyer : IsBest buy bid b
  pub best_seller : IsBest sell ask b
  pub orders : (f.buy_order_id ≡ bid.order_id) × (f.sell_order_id ≡ ask.order_id)
  pub all_of_one : f.quantity ≡ min bid.remaining_quantity ask.remaining_quantity
  pub no_worse : (ask.price ≤ f.price) × (f.price ≤ bid.price)
  pub earlier_price :
      (i j : ℕ)
      → lookup bid.order_id b.arrival_sequence ≡ some i
      → lookup ask.order_id b.arrival_sequence ≡ some j
      → f.price ≡ (if ltb i j then bid.price else ask.price)
  pub one_leaves :
      (lookup bid.order_id b'.orders_by_id ≡ none) ⊎ (lookup ask.order_id b'.orders_by_id ≡ none)
  pub traded : Traded f.quantity b b'

module _ (b : OrderBook) (well : WellFormed b) where
  bid_key :
      (i : ℕ) (x : Order)
      → lookup i b.orders_by_id ≡ some x
      → x.side ≡ buy
      → contains x.price (keys b.bids) ≡ true
  bid_key i x h s =
      ap (λ t. contains x.price (keys (side_map t b))) (sym s) ∙ price_key i x b well.linked h

  ask_key :
      (i : ℕ) (x : Order)
      → lookup i b.orders_by_id ≡ some x
      → x.side ≡ sell
      → contains x.price (keys b.asks) ≡ true
  ask_key i x h s =
      ap (λ t. contains x.price (keys (side_map t b))) (sym s) ∙ price_key i x b well.linked h

  no_bid : best_bid b ≡ none → (match_round b ≡ ok none) × Uncrossed b
  unfolding match_round best_bid round_at contains
  no_bid h = (
    ap (λ p. round_at p (best_ask b) b) h,
    λ i j x y k l s t.
        let c : contains x.price [] ≡ true =
          ap (contains x.price) (sym (highest-none (keys b.bids) h)) ∙ bid_key i x k s in
        cc c,
  )

  no_ask :
      (p : ℕ) → best_bid b ≡ some p → best_ask b ≡ none → (match_round b ≡ ok none) × Uncrossed b
  unfolding match_round best_ask round_at contains
  no_ask p g h = (
    (λ i. round_at (g i) (h i) b),
    λ i j x y k l s t.
        let c : contains y.price [] ≡ true =
          ap (contains y.price) (sym (lowest-none (keys b.asks) h)) ∙ ask_key j y l t in
        cc c,
  )

  module _ (p a : ℕ) (bid_is : best_bid b ≡ some p) (ask_is : best_ask b ≡ some a) where
    bid_bound : (i : ℕ) (x : Order) → lookup i b.orders_by_id ≡ some x → x.side ≡ buy → x.price ≤ p
    unfolding best_bid
    bid_bound i x h s = highest_bounds (keys b.bids) p x.price bid_is (bid_key i x h s)

    ask_bound : (i : ℕ) (x : Order) → lookup i b.orders_by_id ≡ some x → x.side ≡ sell → a ≤ x.price
    unfolding best_ask
    ask_bound i x h s = lowest_bounds (keys b.asks) a x.price ask_is (ask_key i x h s)

    not_crossed : ltb p a ≡ true → (match_round b ≡ ok none) × Uncrossed b
    unfolding match_round round_at
    not_crossed c = (
      (λ i. round_at (bid_is i) (ask_is i) b) ∙ rw c refl,
      λ i j x y k l s t. ground (arith, c, bid_bound i x k s, ask_bound j y l t),
    )

    crossed :
        ltb p a ≡ false
        → (bid : Order) × (ask : Order) × (f : Fill) × (b' : OrderBook) × (match_round b
            ≡ ok (some (f, b')))
          × Executed bid ask f b b'
    unfolding match_round round_at cross best_bid best_ask trade_price
    crossed c =
        let (bid, bid_first, bid_price, buyer) =
          first_order_lem buy p b well.linked (contains-highest (keys b.bids) p bid_is) in
        let (ask, ask_first, ask_price, seller) =
          first_order_lem sell a b well.linked (contains-lowest (keys b.asks) a ask_is) in
        let (m, bid_arrived) = well.linked.arrived bid.order_id bid buyer.found in
        let (n, ask_arrived) = well.linked.arrived ask.order_id ask seller.found in
        let qty = min bid.remaining_quantity ask.remaining_quantity in
        let bid_open = well.open_orders bid.order_id bid buyer.found in
        let ask_open = well.open_orders ask.order_id ask seller.found in
        let pos : 0 < qty = ground (arith, bid_open, ask_open) in
        let bid_has : qty ≤ bid.remaining_quantity = ground arith in
        let ask_has : qty ≤ ask.remaining_quantity = ground arith in
        let ran =
          trade_lem b well bid ask buyer.found seller.found buyer.on_side seller.on_side qty pos
            bid_has ask_has m n bid_arrived ask_arrived refl in
        (
          bid,
          ask,
          fill_of bid ask m n qty,
          settled qty bid ask b,
          (λ i. round_at (bid_is i) (ask_is i) b)
              ∙ rw c refl
              ∙ (λ i. cross (bid_first i) (ask_first i) b)
              ∙ ran,
          record {
            buyer = buyer;
            seller = seller;
            best_buyer = λ i x h s. ground (arith, bid_bound i x h s, bid_price);
            best_seller = λ i x h s. ground (arith, ask_bound i x h s, ask_price);
            orders = (refl, refl);
            all_of_one = refl;
            no_worse = ground (arith, c, bid_price, ask_price);
            earlier_price = λ i j h k.
                let e : m ≡ i = some-injective _ _ (sym bid_arrived ∙ h) in
                let f : n ≡ j = some-injective _ _ (sym ask_arrived ∙ k) in
                λ t. if ltb (e t) (f t) then bid.price else ask.price;
            one_leaves =
                settled_leaves b well bid ask buyer.found seller.found buyer.on_side seller.on_side
                  qty pos bid_has ask_has refl;
            traded =
                settled-Traded b well bid ask buyer.found seller.found buyer.on_side seller.on_side
                  qty pos bid_has ask_has;
          },
        )

-- A round of a well formed book finds nothing that crosses, or makes one trade. It never fails.
pub match_round-cases :
    (b : OrderBook)
    → WellFormed b
    → (match_round b ≡ ok none) × Uncrossed b
      ⊎ (bid : Order) × (ask : Order) × (f : Fill) × (b' : OrderBook) × (match_round b
          ≡ ok (some (f, b')))
        × Executed bid ask f b b'
match_round-cases b well = elim (Option-cases (best_bid b)) [
  | inl n ↦ inl (no_bid b well n)
  | inr (p, h) ↦ elim (Option-cases (best_ask b)) [
    | inl n ↦ inl (no_ask b well p h n)
    | inr (a, k) ↦ elim (Bool-cases (ltb p a)) [
      | inl c ↦ inl (not_crossed b well p a h k c)
      | inr c ↦ inr (crossed b well p a h k c)
    ]
  ]
]

-- The bid and the ask of a trade are two orders.
pub offers_apart :
    (bid ask : Order) (f : Fill) (b b' : OrderBook)
    → Executed bid ask f b b'
    → (ask.order_id == bid.order_id) ≡ false
offers_apart bid ask f b b' x = elim (==-cases ask.order_id bid.order_id) [
  | inl (c, e) ↦
      let same : ask ≡ bid =
        some-injective _ _
          (sym x.seller.found ∙ ap (λ i. lookup i b.orders_by_id) e ∙ x.buyer.found) in
      absurd (cc (sym x.seller.on_side ∙ ap (λ (o : Order). o.side) same ∙ x.buyer.on_side))
  | inr (c, n) ↦ c
]
