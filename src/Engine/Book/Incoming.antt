-- ===== src/Engine/Book/Incoming.antt =====
-- A new order in a book that is at rest: it has a part in every trade that follows.
use quant_arena.Prelude.{
  ℕ, ◌+◌, ◌<◌, ◌≡◌, refl, sym, ap, ◌∙◌, false, none, some, List, [], ◌∷◌, arith, ◌==◌, nat_eq, ◌⊎◌,
  inl, inr, ==-cases, if◌then◌else◌, ok,
}
use quant_arena.Dict.{lookup}
use quant_arena.Engine.Book.{buy, sell, Order, Fill, OrderBook, new_order, match_order, matched}
use quant_arena.Engine.Book.Settle.{left}
use quant_arena.Engine.Book.Trade.{WellFormed}
use quant_arena.Engine.Book.Round.{Uncrossed, Executed}
use quant_arena.Engine.Book.Matching.{Executions, at_rest, then_more}
use quant_arena.Engine.Book.Orders.{Joined, match_order-Handled}

-- No bid reaches an ask, the order `id` aside.
abbrev pub UncrossedBut : ℕ → OrderBook → Type 0
UncrossedBut id b =
    (i j : ℕ) (x y : Order)
    → lookup i b.orders_by_id ≡ some x
    → lookup j b.orders_by_id ≡ some y
    → x.side ≡ buy
    → y.side ≡ sell
    → (id == i) ≡ false
    → (id == j) ≡ false
    → x.price < y.price

-- A trade that the order has a part in.
abbrev pub IsPartOf : ℕ → Fill → Type 0
IsPartOf id f = (f.buy_order_id ≡ id) ⊎ (f.sell_order_id ≡ id)

abbrev pub IsPartOfAll : ℕ → List Fill → Type 0
IsPartOfAll id [] = Unit
IsPartOfAll id (f ∷ fs) = IsPartOf id f × IsPartOfAll id fs

pub UncrossedBut-Executed :
    (id : ℕ) (bid ask : Order) (f : Fill) (b b' : OrderBook)
    → UncrossedBut id b
    → Executed bid ask f b b'
    → IsPartOf id f × UncrossedBut id b'
UncrossedBut-Executed id bid ask f b b' h x = (
  elim (==-cases id bid.order_id) [
    | inl (c, e) ↦ inl (x.orders.0 ∙ sym e)
    | inr (c, n) ↦ elim (==-cases id ask.order_id) [
      | inl (d, e) ↦ inr (x.orders.1 ∙ sym e)
      | inr (d, m) ↦
          let apart =
            h bid.order_id ask.order_id bid ask x.buyer.found x.seller.found x.buyer.on_side
              x.seller.on_side c d in
          absurd (ground (arith, apart, x.no_worse.0, x.no_worse.1))
    ]
  ],
  λ i j y z k l s t c d.
      let (y', k', e) = x.traded.stays i y k in
      let (z', l', g) = x.traded.stays j z l in
      ground (arith, h i j y' z' k' l' (sym e.1 ∙ s) (sym g.1 ∙ t) c d, e.2, g.2),
)

-- Without the order nothing is traded.
pub UncrossedBut-Executions :
    (id : ℕ) (fs : List Fill) (b c : OrderBook)
    → UncrossedBut id b
    → lookup id b.orders_by_id ≡ none
    → Executions fs b c
    → (j : ℕ) → lookup j b.orders_by_id ≡ lookup j c.orders_by_id
UncrossedBut-Executions id fs b c h gone (at_rest d) j = refl
UncrossedBut-Executions id fs b c h gone (then_more bid ask f gs d b' e x rest) j =
    absurd (elim (UncrossedBut-Executed id bid ask f d b' h x).0 [
      | inl p ↦
          cc (sym gone ∙ ap (λ i. lookup i d.orders_by_id) (sym p ∙ x.orders.0) ∙ x.buyer.found)
      | inr p ↦
          cc (sym gone ∙ ap (λ i. lookup i d.orders_by_id) (sym p ∙ x.orders.1) ∙ x.seller.found)
    ])

Executions-IsPartOfAll :
    (id : ℕ) (fs : List Fill) (b c : OrderBook)
    → UncrossedBut id b
    → Executions fs b c
    → IsPartOfAll id fs
Executions-IsPartOfAll id fs b c h (at_rest d) = tt
Executions-IsPartOfAll id fs b c h (then_more bid ask f gs d b' e x rest) =
    let (part, after) = UncrossedBut-Executed id bid ask f d b' h x in
    (part, Executions-IsPartOfAll id gs b' e after rest)

pub Joined-UncrossedBut :
    (o : Order) (b c : OrderBook) → Joined o b c → Uncrossed b → UncrossedBut o.order_id c
Joined-UncrossedBut o b c joined h i j x y k l s t m n =
    h i j x y (before i x m k) (before j y n l) s t
  where
    before :
        (i : ℕ) (x : Order)
        → (o.order_id == i) ≡ false
        → lookup i c.orders_by_id ≡ some x
        → lookup i b.orders_by_id ≡ some x
    before i x m k =
        ap (λ z. if z then some o else lookup i b.orders_by_id) (sym m) ∙ sym (joined.stored i) ∙ k

-- Where no bid reaches an ask, a new order is matched by trades that it has a part in, until again no
-- bid reaches an ask.
pub match_order-IsPartOfAll :
    (fuel : ℕ) (o o' : Order) (b : OrderBook)
    → WellFormed b
    → Uncrossed b
    → new_order o ≡ ok o'
    → lookup o'.order_id b.orders_by_id ≡ none
    → left buy b + o'.quantity < fuel
    → (fs : List Fill) × (c : OrderBook) × (match_order fuel o' b ≡ matched fs c)
      × WellFormed c
      × Uncrossed c
      × IsPartOfAll o'.order_id fs
match_order-IsPartOfAll fuel o o' b well rest made fresh enough =
    let (fs, c, r, h) = match_order-Handled fuel o o' b well made fresh enough in
    (
      fs,
      c,
      r,
      h.matching.well,
      h.matching.uncrossed,
      Executions-IsPartOfAll o'.order_id fs h.joined c
          (Joined-UncrossedBut o' b h.joined h.enters rest) h.matching.executions,
    )
