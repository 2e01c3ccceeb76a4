-- ===== src/Matcher/Adapter/Valid.antt =====
-- What holds of the matcher between two records, and what its steps keep of it.
use mathlib.Core.Path.{subst}
use quant_arena.Prelude.{
  ℕ, ◌<◌, ◌≡◌, refl, sym, ap, ◌∙◌, false, none, some, arith, ◌==◌, nat_eq, pair_eq, ==-cases,
  ==-refl, ◌⊎◌, inl, inr, Option-cases, if◌then◌else◌, if_none, if_some, of_test,
}
use quant_arena.Dict.{lookup, lookup-insert, lookup-erase, get_or-insert}
use quant_arena.Engine.Book
use quant_arena.Engine.Book.{OrderBook}
use quant_arena.Engine.Book.Trade.{WellFormed}
use quant_arena.Engine.Book.Round.{Uncrossed}
use quant_arena.Matcher.State.{Live, NaiveMatcher, book, put_book, forget, enlist}

-- The entry of an order that rests in the book of a symbol.
abbrev pub IsEntry : ℕ → ℕ → Live → NaiveMatcher → Type 0
IsEntry id symbol_id l m =
    (lookup id m.by_order_id ≡ some l) × (l.order_id ≡ id) × (l.symbol_id ≡ symbol_id)

-- An order is in the book of that symbol only.
abbrev pub AtHome : Live → ℕ → OrderBook → Type 0
AtHome l symbol_id b =
    (o : Book.Order) → lookup l.order_id b.orders_by_id ≡ some o → symbol_id ≡ l.symbol_id

pub record Valid (m : NaiveMatcher) : Type 0 where
  pub well : (s : ℕ) → WellFormed (book s m)
  pub rest : (s : ℕ) → Uncrossed (book s m)
  pub known :
      (s id : ℕ) (o : Book.Order)
      → lookup id (book s m).orders_by_id ≡ some o
      → (l : Live) × IsEntry id s l m
  pub at_home : (k : ℕ × ℕ) (l : Live) → lookup k m.live ≡ some l → (s : ℕ) → AtHome l s (book s m)
  pub numbered : (id : ℕ) (l : Live) → lookup id m.by_order_id ≡ some l → id < m.next_order_id
  pub live_numbered :
      (k : ℕ × ℕ) (l : Live) → lookup k m.live ≡ some l → l.order_id < m.next_order_id

pub book-put :
    (s t : ℕ) (c : OrderBook) (m : NaiveMatcher)
    → book t (put_book s c m) ≡ (if s == t then c else book t m)
unfolding book
book-put s t c m = get_or-insert s t c Book.empty m.books

-- A book replaced by one whose orders have their entries.
pub put-Valid :
    (s : ℕ) (c : OrderBook) (m : NaiveMatcher)
    → Valid m
    → WellFormed c
    → Uncrossed c
    → ((id : ℕ) (o : Book.Order)
        → lookup id c.orders_by_id ≡ some o
        → (l : Live) × IsEntry id s l m)
    → ((k : ℕ × ℕ) (l : Live) → lookup k m.live ≡ some l → AtHome l s c)
    → Valid (put_book s c m)
put-Valid s c m v well rest entries homes = record {
  well = λ t.
      subst WellFormed (sym (book-put s t c m))
        (of_test WellFormed (s == t) c _ (λ e. well) (λ e. v.well t));
  rest = λ t.
      subst Uncrossed (sym (book-put s t c m))
        (of_test Uncrossed (s == t) c _ (λ e. rest) (λ e. v.rest t));
  known = λ t id o.
      subst (λ b. lookup id b.orders_by_id ≡ some o → (l : Live) × IsEntry id t l m)
        (sym (book-put s t c m))
        (of_test (λ b. lookup id b.orders_by_id ≡ some o → (l : Live) × IsEntry id t l m) (s == t) c
          _
          (λ e.
            subst (λ u. lookup id c.orders_by_id ≡ some o → (l : Live) × IsEntry id u l m)
              ((nat_eq.beq_iff s t).0 e) (entries id o))
          (λ e. v.known t id o));
  at_home = λ k l h t. subst (AtHome l t) (sym (book-put s t c m)) (
      of_test (AtHome l t) (s == t) c _
        (λ e. subst (λ u. AtHome l u c) ((nat_eq.beq_iff s t).0 e) (homes k l h))
        (λ e. v.at_home k l h t));
  numbered = v.numbered;
  live_numbered = v.live_numbered;
}

live-forget :
    (l x : Live) (m : NaiveMatcher) (k : ℕ × ℕ)
    → lookup k (forget l m).live ≡ some x
    → lookup k m.live ≡ some x
unfolding forget
live-forget l x m k h =
    (if_none _ (lookup k m.live) x
      (sym (lookup-erase (l.user_id, l.client_order_id) k m.live) ∙ h)).1

pub entry-forget :
    (l x : Live) (m : NaiveMatcher) (id : ℕ)
    → lookup id (forget l m).by_order_id ≡ some x
    → lookup id m.by_order_id ≡ some x
unfolding forget
entry-forget l x m id h =
    (if_none _ (lookup id m.by_order_id) x (sym (lookup-erase l.order_id id m.by_order_id) ∙ h)).1

pub entry-forget_other :
    (l x : Live) (m : NaiveMatcher) (id : ℕ)
    → (l.order_id == id) ≡ false
    → lookup id m.by_order_id ≡ some x
    → lookup id (forget l m).by_order_id ≡ some x
unfolding forget
entry-forget_other l x m id c h =
    lookup-erase l.order_id id m.by_order_id
    ∙ ap (λ z. if z then none else lookup id m.by_order_id) c
    ∙ h

pub book-forget : (s : ℕ) (l : Live) (m : NaiveMatcher) → book s (forget l m) ≡ book s m
unfolding book forget
book-forget s l m = refl

-- An order that is in no book is forgotten.
pub forget-Valid :
    (l : Live) (m : NaiveMatcher)
    → Valid m
    → ((s : ℕ) → lookup l.order_id (book s m).orders_by_id ≡ none)
    → Valid (forget l m)
forget-Valid l m v gone = record {
  well = λ s. subst WellFormed (sym (book-forget s l m)) (v.well s);
  rest = λ s. subst Uncrossed (sym (book-forget s l m)) (v.rest s);
  known = λ s id o h.
      let h' = ap (λ b. lookup id b.orders_by_id) (sym (book-forget s l m)) ∙ h in
      let (x, e) = v.known s id o h' in
      elim (==-cases l.order_id id) [
        | inl (c, p) ↦
            absurd (cc (sym (gone s) ∙ ap (λ j. lookup j (book s m).orders_by_id) p ∙ h'))
        | inr (c, n) ↦ (x, (entry-forget_other l x m id c e.0, e.1, e.2))
      ];
  at_home = λ k x h s.
      subst (AtHome x s) (sym (book-forget s l m)) (v.at_home k x (live-forget l x m k h) s);
  numbered = λ id x h. unfold forget in v.numbered id x (entry-forget l x m id h);
  live_numbered = λ k x h. unfold forget in v.live_numbered k x (live-forget l x m k h);
}

pub live-enlist :
    (l x : Live) (m : NaiveMatcher) (k : ℕ × ℕ)
    → lookup k (enlist l m).live ≡ some x
    → (l ≡ x) ⊎ (lookup k m.live ≡ some x)
unfolding enlist
live-enlist l x m k h =
    elim (if_some ((l.user_id, l.client_order_id) == k) (lookup k m.live) l x
      (sym (lookup-insert (l.user_id, l.client_order_id) k l m.live) ∙ h)) [
        | inl (c, e) ↦ inl e
        | inr (c, e) ↦ inr e
      ]

entry-enlist :
    (l : Live) (m : NaiveMatcher) (id : ℕ)
    → lookup id (enlist l m).by_order_id
      ≡ (if l.order_id == id then some l else lookup id m.by_order_id)
unfolding enlist
entry-enlist l m id = lookup-insert l.order_id id l m.by_order_id

pub entry-enlist_own :
    (l : Live) (m : NaiveMatcher) → lookup l.order_id (enlist l m).by_order_id ≡ some l
entry-enlist_own l m =
    entry-enlist l m l.order_id
    ∙ ap (λ z. if z then some l else lookup l.order_id m.by_order_id) (==-refl l.order_id)

pub book-enlist : (s : ℕ) (l : Live) (m : NaiveMatcher) → book s (enlist l m) ≡ book s m
unfolding book enlist
book-enlist s l m = refl

-- A number that was not given yet is in no book.
pub fresh_in_books :
    (m : NaiveMatcher) (s : ℕ) → Valid m → lookup m.next_order_id (book s m).orders_by_id ≡ none
fresh_in_books m s v = elim (Option-cases (lookup m.next_order_id (book s m).orders_by_id)) [
  | inl n ↦ n
  | inr (o, h) ↦
      let (l, e) = v.known s m.next_order_id o h in
      absurd (ground (arith, v.numbered m.next_order_id l e.0))
]

-- An order under the next number.
pub enlist-Valid :
    (l : Live) (m : NaiveMatcher) → Valid m → l.order_id ≡ m.next_order_id → Valid (enlist l m)
enlist-Valid l m v next = record {
  well = λ s. subst WellFormed (sym (book-enlist s l m)) (v.well s);
  rest = λ s. subst Uncrossed (sym (book-enlist s l m)) (v.rest s);
  known = λ s id o h.
      let (x, e) =
        v.known s id o (ap (λ b. lookup id b.orders_by_id) (sym (book-enlist s l m)) ∙ h) in
      let apart : (l.order_id == id) ≡ false = ground (arith, next, v.numbered id x e.0) in
      (
        x,
        (
          entry-enlist l m id ∙ ap (λ z. if z then some l else lookup id m.by_order_id) apart ∙ e.0,
          e.1,
          e.2,
        ),
      );
  at_home = λ k x h s. subst (AtHome x s) (sym (book-enlist s l m)) (elim (live-enlist l x m k h) [
    | inl e ↦
        subst (λ y. AtHome y s (book s m)) e
          (λ o g. cc (
            sym (fresh_in_books m s v) ∙ ap (λ i. lookup i (book s m).orders_by_id) (sym next) ∙ g))
    | inr e ↦ v.at_home k x e s
  ]);
  numbered = λ id x h.
      unfold enlist in
      elim (if_some (l.order_id == id) (lookup id m.by_order_id) l x
        (sym (entry-enlist l m id) ∙ h)) [
          | inl (c, e) ↦ ground (arith, c, next)
          | inr (c, e) ↦ ground (arith, v.numbered id x e)
        ];
  live_numbered = λ k x h.
      unfold enlist in
      elim (live-enlist l x m k h) [
        | inl e ↦ ground (arith, next, ap (λ (y : Live). y.order_id) e)
        | inr e ↦ ground (arith, v.live_numbered k x e)
      ];
}
