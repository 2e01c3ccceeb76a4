-- ===== src/Engine/Book/Maker.antt =====
-- Arrival numbers tell which order came first, so that a trade prints at the price of the one that rested.
use mathlib.Core.Option.{some-injective}
use quant_arena.Prelude.{
  ℕ, ◌+◌, ◌<◌, ◌≡◌, refl, sym, ap, ◌∙◌, false, none, some, List, [], ◌∷◌, arith, ◌==◌, nat_eq, ◌⊎◌,
  inl, inr, ==-refl, if◌then◌else◌, if_some, ok,
}
use quant_arena.Dict.{lookup}
use quant_arena.Engine.Book.{buy, Order, Fill, OrderBook, new_order, match_order, matched}
use quant_arena.Engine.Book.Settle.{left}
use quant_arena.Engine.Book.Trade.{WellFormed}
use quant_arena.Engine.Book.Round.{Uncrossed, Executed, offers_apart}
use quant_arena.Engine.Book.Matching.{Executions, at_rest, then_more}
use quant_arena.Engine.Book.Incoming.{UncrossedBut, UncrossedBut-Executed, Joined-UncrossedBut}
use quant_arena.Engine.Book.Orders.{Joined, match_order-Handled}

-- Every arrival number was given.
abbrev pub IsInTime : OrderBook → Type 0
IsInTime b = (j n : ℕ) → lookup j b.arrival_sequence ≡ some n → n < b.next_arrival_sequence

-- The order came after all others.
abbrev IsLatest : ℕ → OrderBook → Type 0
IsLatest id b =
    (j n m : ℕ)
    → (id == j) ≡ false
    → lookup j b.arrival_sequence ≡ some n
    → lookup id b.arrival_sequence ≡ some m
    → n < m

-- The other orders are those of a book, at their prices.
abbrev ComesFrom : ℕ → OrderBook → OrderBook → Type 0
ComesFrom id b d =
    (j : ℕ) (x : Order)
    → (id == j) ≡ false
    → lookup j d.orders_by_id ≡ some x
    → (y : Order) × (lookup j b.orders_by_id ≡ some y) × (x.price ≡ y.price)

-- A trade of the order with one of a book, at the price of that one.
pub record IsAtMakerPrice (id : ℕ) (b : OrderBook) (f : Fill) : Type 0 where
  pub maker : ℕ
  pub order : Order
  pub found : lookup maker b.orders_by_id ≡ some order
  pub parties :
      ((f.buy_order_id ≡ id) × (f.sell_order_id ≡ maker))
      ⊎ ((f.buy_order_id ≡ maker) × (f.sell_order_id ≡ id))
  pub price : f.price ≡ order.price

abbrev pub AllAtMakerPrice : ℕ → OrderBook → List Fill → Type 0
AllAtMakerPrice id b [] = Unit
AllAtMakerPrice id b (f ∷ fs) = IsAtMakerPrice id b f × AllAtMakerPrice id b fs

Executed-IsAtMakerPrice :
    (id : ℕ) (b d d' : OrderBook) (bid ask : Order) (f : Fill)
    → WellFormed d
    → UncrossedBut id d
    → IsLatest id d
    → ComesFrom id b d
    → Executed bid ask f d d'
    → IsAtMakerPrice id b f
Executed-IsAtMakerPrice id b d d' bid ask f well h late from x =
    let (m, k) = well.linked.arrived bid.order_id bid x.buyer.found in
    let (n, l) = well.linked.arrived ask.order_id ask x.seller.found in
    let price = x.earlier_price m n k l in
    let apart = offers_apart bid ask f d d' x in
    elim (UncrossedBut-Executed id bid ask f d d' h x).0 [
      | inl p ↦
          let e : bid.order_id ≡ id = sym x.orders.0 ∙ p in
          let other : (id == ask.order_id) ≡ false = ground (arith, e, apart) in
          let (y, found, same) = from ask.order_id ask other x.seller.found in
          let order =
            late ask.order_id n m other l (ap (λ i. lookup i d.arrival_sequence) (sym e) ∙ k) in
          record {
            maker = ask.order_id;
            order = y;
            found = found;
            parties = inl (p, x.orders.1);
            price = ground (arith, price, order, same);
          }
      | inr p ↦
          let e : ask.order_id ≡ id = sym x.orders.1 ∙ p in
          let other : (id == bid.order_id) ≡ false = ground (arith, e, apart) in
          let (y, found, same) = from bid.order_id bid other x.buyer.found in
          let order =
            late bid.order_id m n other k (ap (λ i. lookup i d.arrival_sequence) (sym e) ∙ l) in
          record {
            maker = bid.order_id;
            order = y;
            found = found;
            parties = inr (x.orders.0, p);
            price = ground (arith, price, order, same);
          }
    ]

Executions-AllAtMakerPrice :
    (id : ℕ) (b : OrderBook) (fs : List Fill) (d c : OrderBook)
    → Executions fs d c
    → WellFormed d
    → UncrossedBut id d
    → IsLatest id d
    → ComesFrom id b d
    → AllAtMakerPrice id b fs
Executions-AllAtMakerPrice id b fs d c (at_rest d0) well h late from = tt
Executions-AllAtMakerPrice id b fs d c (then_more bid ask f gs d0 d' c0 x rest) well h late from = (
  Executed-IsAtMakerPrice id b d d' bid ask f well h late from x,
  Executions-AllAtMakerPrice id b gs d' c rest x.traded.after
      (UncrossedBut-Executed id bid ask f d d' h x).1
      (λ j n m e k l.
        late j n m e (x.traded.keeps_arrivals.0 j n k) (x.traded.keeps_arrivals.0 id m l))
      (λ j y e k.
        let (z, l, same) = x.traded.stays j y k in
        let (w, found, price) = from j z e l in (w, found, same.2 ∙ price)),
)

module _ (o : Order) (b c : OrderBook) (joined : Joined o b c) (timely : IsInTime b) where
  Joined-IsInTime : IsInTime c
  Joined-IsInTime j n h =
      elim (if_some (o.order_id == j) (lookup j b.arrival_sequence) b.next_arrival_sequence n
        (sym (joined.arrival j) ∙ h)) [
          | inl (t, e) ↦ ground (arith, joined.next, e)
          | inr (t, k) ↦ ground (arith, joined.next, timely j n k)
        ]

  Joined-IsLatest : IsLatest o.order_id c
  Joined-IsLatest j n m e h k =
      let before =
        ap (λ t. if t then some b.next_arrival_sequence else lookup j b.arrival_sequence) (sym e)
        ∙ sym (joined.arrival j)
        ∙ h in
      let own : b.next_arrival_sequence ≡ m = some-injective _ _ (
        ap (λ t. if t then some b.next_arrival_sequence else lookup o.order_id b.arrival_sequence)
          (sym (==-refl o.order_id))
        ∙ sym (joined.arrival o.order_id)
        ∙ k) in
      ground (arith, timely j n before, own)

  Joined-ComesFrom : ComesFrom o.order_id b c
  Joined-ComesFrom j x e h = (
    x,
    ap (λ t. if t then some o else lookup j b.orders_by_id) (sym e) ∙ sym (joined.stored j) ∙ h,
    refl,
  )

IsInTime-Executions :
    (fs : List Fill) (b c : OrderBook) → Executions fs b c → IsInTime b → IsInTime c
IsInTime-Executions fs b c (at_rest d) h = h
IsInTime-Executions fs b c (then_more bid ask f gs d b' e x rest) h =
    let (kept, at) = x.traded.keeps_arrivals in
    IsInTime-Executions gs b' e rest (λ j n k. ground (arith, h j n (kept j n k), at))

-- In a book at rest whose arrival numbers were all given, a new order is matched by trades with orders
-- of that book alone, each at the price of the order that rested; and again all arrival numbers of the
-- book were given.
pub match_order-AllAtMakerPrice :
    (fuel : ℕ) (o o' : Order) (b : OrderBook)
    → WellFormed b
    → Uncrossed b
    → IsInTime b
    → new_order o ≡ ok o'
    → lookup o'.order_id b.orders_by_id ≡ none
    → left buy b + o'.quantity < fuel
    → (fs : List Fill) × (c : OrderBook) × (match_order fuel o' b ≡ matched fs c)
      × AllAtMakerPrice o'.order_id b fs
      × IsInTime c
match_order-AllAtMakerPrice fuel o o' b well rest timely made fresh enough =
    let (fs, c, r, h) = match_order-Handled fuel o o' b well made fresh enough in
    (
      fs,
      c,
      r,
      Executions-AllAtMakerPrice o'.order_id b fs h.joined c h.matching.executions h.enters.well
          (Joined-UncrossedBut o' b h.joined h.enters rest)
          (Joined-IsLatest o' b h.joined h.enters timely)
          (Joined-ComesFrom o' b h.joined h.enters timely),
      IsInTime-Executions fs h.joined c h.matching.executions
          (Joined-IsInTime o' b h.joined h.enters timely),
    )
