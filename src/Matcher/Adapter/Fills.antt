-- ===== src/Matcher/Adapter/Fills.antt =====
-- The fills of a match, as contract records: every maker and taker has its entry.
use mathlib.Core.Option.{some-injective}
use quant_arena.Prelude.{
  ℕ, ◌≡◌, refl, sym, ap, ◌∙◌, false, none, some, List, [], ◌∷◌, arith, ◌==◌, nat_eq, pair_eq,
  ==-cases, ◌⊎◌, inl, inr, Option-cases, if◌then◌else◌, of_test, ok,
}
use quant_arena.Dict.{lookup}
use quant_arena.Engine.Book
use quant_arena.Engine.Book.{OrderBook, BookError}
use quant_arena.Engine.Book.Round.{Executed, offers_apart}
use quant_arena.Engine.Book.Matching.{Executions, at_rest, then_more}
use quant_arena.Engine.Book.Incoming.{UncrossedBut, UncrossedBut-Executed, UncrossedBut-Executions}
use quant_arena.Matcher.Records.{SubmitOrder, Outbound}
use quant_arena.Matcher.State.{Live, NaiveMatcher, book, forget, remaining_qty, left_in}
use quant_arena.Matcher.Adapter.{
  maker_of, to_contract_fill, to_contract_fills, fill_between, contract_fill,
}
use quant_arena.Matcher.Adapter.Valid.{
  Valid, IsEntry, forget-Valid, book-forget, entry-forget_other,
}

-- A maker that is forgotten if nothing is left of it.
abbrev pub settle_maker : Live → NaiveMatcher → NaiveMatcher
settle_maker l m = if remaining_qty l m == 0 then forget l m else m

module _ (s : ℕ) (m : NaiveMatcher) (v : Valid m) (l : Live) (id : ℕ) (e : IsEntry id s l m) where
  -- An order with nothing left is in no book.
  pub gone_if_filled :
      remaining_qty l m ≡ 0 → (t : ℕ) → lookup l.order_id (book t m).orders_by_id ≡ none
  unfolding remaining_qty left_in
  gone_if_filled z t = elim (Option-cases (lookup l.order_id (book t m).orders_by_id)) [
    | inl n ↦ n
    | inr (o, h) ↦
        let (x, f) = v.known t l.order_id o h in
        let same : x ≡ l =
          some-injective _ _ (sym f.0 ∙ ap (λ i. lookup i m.by_order_id) e.1 ∙ e.0) in
        let home : t ≡ l.symbol_id = sym f.2 ∙ ap (λ (y : Live). y.symbol_id) same in
        let here = ap (λ u. lookup l.order_id (book u m).orders_by_id) (sym home) ∙ h in
        let positive = (v.well t).open_orders l.order_id o h in
        absurd (ground (arith, sym (ap left_in here) ∙ z, positive))
  ]

  settle_maker-Valid : Valid (settle_maker l m)
  settle_maker-Valid =
      of_test Valid (remaining_qty l m == 0) (forget l m) m
        (λ c. forget-Valid l m v (gone_if_filled (ground (arith, c)))) (λ c. v)

  book-settle_maker : (t : ℕ) → book t (settle_maker l m) ≡ book t m
  book-settle_maker t =
      of_test (λ n. book t n ≡ book t m) (remaining_qty l m == 0) (forget l m) m
        (λ c. book-forget t l m) (λ c. refl)

  -- The entries of the others stay.
  entry-settle_maker :
      (j : ℕ) (x : Live)
      → (id == j) ≡ false
      → lookup j m.by_order_id ≡ some x
      → lookup j (settle_maker l m).by_order_id ≡ some x
  entry-settle_maker j x c h =
      of_test (λ n. lookup j n.by_order_id ≡ some x) (remaining_qty l m == 0) (forget l m) m
        (λ z. entry-forget_other l x m j (ap (λ i. i == j) e.1 ∙ c) h) (λ z. h)

  -- Its own stays, too, as long as the order rests.
  own_entry-settle_maker :
      (o : Book.Order)
      → lookup id (book s m).orders_by_id ≡ some o
      → lookup id (settle_maker l m).by_order_id ≡ some l
  own_entry-settle_maker o h =
      of_test (λ n. lookup id n.by_order_id ≡ some l) (remaining_qty l m == 0) (forget l m) m
        (λ z. absurd (
          cc (
            sym (gone_if_filled (ground (arith, z)) s)
            ∙ ap (λ i. lookup i (book s m).orders_by_id) e.1
            ∙ h)))
        (λ z. e.0)

-- The maker of a trade is the bid or the ask that is not the taker.
maker_cases :
    (id : ℕ) (bid ask : Book.Order) (f : Book.Fill) (b b' : OrderBook)
    → UncrossedBut id b
    → Executed bid ask f b b'
    → ((maker_of id f ≡ ask.order_id) × (id ≡ bid.order_id))
      ⊎ ((maker_of id f ≡ bid.order_id) × (id ≡ ask.order_id))
maker_cases id bid ask f b b' h x = elim (==-cases f.buy_order_id id) [
  | inl (c, e) ↦ inl (rw c x.orders.1, sym e ∙ x.orders.0)
  | inr (c, n) ↦ elim (UncrossedBut-Executed id bid ask f b b' h x).0 [
    | inl p ↦ absurd (n p)
    | inr p ↦ inr (rw c x.orders.0, sym p ∙ x.orders.1)
  ]
]

-- The maker rests, is not the taker, and if it rests on then the taker is gone.
maker_found :
    (id : ℕ) (bid ask : Book.Order) (f : Book.Fill) (b b' : OrderBook)
    → UncrossedBut id b
    → Executed bid ask f b b'
    → ((o : Book.Order) × (lookup (maker_of id f) b.orders_by_id ≡ some o))
      × ((maker_of id f == id) ≡ false)
      × ((lookup (maker_of id f) b'.orders_by_id ≡ none) ⊎ (lookup id b'.orders_by_id ≡ none))
maker_found id bid ask f b b' h x = elim (maker_cases id bid ask f b b' h x) [
  | inl (k, t) ↦ (
    (ask, ap (λ i. lookup i b.orders_by_id) k ∙ x.seller.found),
    (λ i. k i == t i) ∙ offers_apart bid ask f b b' x,
    elim x.one_leaves [
      | inl n ↦ inr (ap (λ i. lookup i b'.orders_by_id) t ∙ n)
      | inr n ↦ inl (ap (λ i. lookup i b'.orders_by_id) k ∙ n)
    ],
  )
  | inr (k, t) ↦ (
    (bid, ap (λ i. lookup i b.orders_by_id) k ∙ x.buyer.found),
    (λ i. k i == t i) ∙ ground (arith, offers_apart bid ask f b b' x),
    elim x.one_leaves [
      | inl n ↦ inl (ap (λ i. lookup i b'.orders_by_id) k ∙ n)
      | inr n ↦ inr (ap (λ i. lookup i b'.orders_by_id) t ∙ n)
    ],
  )
]

-- All orders of a book have their entries.
abbrev pub HasEntries : ℕ → OrderBook → NaiveMatcher → Type 0
HasEntries s d m =
    (j : ℕ) (o : Book.Order) → lookup j d.orders_by_id ≡ some o → (l : Live) × IsEntry j s l m

-- After a trade, the orders that still rest have their entries: a maker that the match filled does not
-- rest, or the taker is gone and nothing is traded any more.
kept_entries :
    (id s : ℕ) (bid ask : Book.Order) (f : Book.Fill) (fs : List Book.Fill) (d d' c : OrderBook)
    → UncrossedBut id d
    → Executed bid ask f d d'
    → Executions fs d' c
    → (m : NaiveMatcher) → Valid m
    → book s m ≡ c
    → HasEntries s d m
    → (l : Live) → IsEntry (maker_of id f) s l m
    → HasEntries s d' (settle_maker l m)
kept_entries id s bid ask f fs d d' c h x rest m v at entries l e j o k =
    let (y, g, same) = x.traded.stays j o k in
    let (z, r) = entries j y g in
    let maker = maker_of id f in
    elim (==-cases maker j) [
      | inl (t, p) ↦ elim (maker_found id bid ask f d d' h x).2 [
        | inl n ↦ absurd (cc (sym n ∙ ap (λ i. lookup i d'.orders_by_id) p ∙ k))
        | inr n ↦
            let still =
              UncrossedBut-Executions id fs d' c (UncrossedBut-Executed id bid ask f d d' h x).1 n
                rest j in
            let rests : lookup maker (book s m).orders_by_id ≡ some o =
              (λ i. lookup (p i) (at i).orders_by_id) ∙ sym still ∙ k in
            (
              l,
              (
                ap (λ i. lookup i (settle_maker l m).by_order_id) (sym p)
                    ∙ own_entry-settle_maker s m v l maker e o rests,
                e.1 ∙ p,
                e.2,
              ),
            )
      ]
      | inr (t, n) ↦ (z, (entry-settle_maker s m v l maker e j z t r.0, r.1, r.2))
    ]

to_contract_fill_lem :
    (taker : SubmitOrder) (id : ℕ) (f : Book.Fill) (m : NaiveMatcher) (l lt : Live)
    → lookup (maker_of id f) m.by_order_id ≡ some l
    → lookup id m.by_order_id ≡ some lt
    → to_contract_fill taker id f m ≡ ok (settle_maker l m, contract_fill taker id f l lt)
unfolding to_contract_fill fill_between
to_contract_fill_lem taker id f m l lt h k = λ i. fill_between taker id f (h i) (k i) m

-- Fills become records one after another, and none of them misses an entry.
pub to_contract_fills-Valid :
    (taker : SubmitOrder) (id s : ℕ) (lt : Live) (fs : List Book.Fill) (d c : OrderBook)
    → Executions fs d c
    → UncrossedBut id d
    → (m : NaiveMatcher) → Valid m
    → book s m ≡ c
    → lookup id m.by_order_id ≡ some lt
    → HasEntries s d m
    → (m' : NaiveMatcher) × (outs : List Outbound) × (to_contract_fills taker id fs m
        ≡ ok (m', outs))
      × Valid m'
      × (lookup id m'.by_order_id ≡ some lt)
unfolding to_contract_fills
to_contract_fills-Valid taker id s lt fs d c (at_rest d0) h m v at own entries =
    (m, [], refl, v, own)
to_contract_fills-Valid taker id s lt fs d c (then_more bid ask f gs d0 d' c0 x rest) h m v at own
      entries =
    let ((o, k), apart, leaves) = maker_found id bid ask f d d' h x in
    let (l, e) = entries (maker_of id f) o k in
    let after = (UncrossedBut-Executed id bid ask f d d' h x).1 in
    let out = contract_fill taker id f l lt in
    let (m', outs, r, w, own') =
      to_contract_fills-Valid taker id s lt gs d' c rest after (settle_maker l m)
        (settle_maker-Valid s m v l (maker_of id f) e)
        (book-settle_maker s m v l (maker_of id f) e s ∙ at)
        (entry-settle_maker s m v l (maker_of id f) e id lt apart own)
        (kept_entries id s bid ask f gs d d' c h x rest m v at entries l e) in
    (
      m',
      out ∷ outs,
      rw (to_contract_fill_lem taker id f m l lt e.0 own, r, to_contract_fills) refl,
      w,
      own',
    )
