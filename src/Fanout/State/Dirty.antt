-- ===== src/Fanout/State/Dirty.antt =====
-- The tick encodes the symbols that are marked dirty and no others: no book that moved is missed.
use quant_arena.Prelude.{
  ℕ, ◌+◌, ◌≡◌, ◌⊎◌, refl, ap, ◌∙◌, true, false, Option, none, some, List, [], ◌∷◌, String, nat_eq,
  inl, inr, Bool-cases, ==-cases,
}
use quant_arena.Dict.{get_or, get_or-insert, contains, contains-add}
use quant_arena.Contracts.{
  Fill, Record, account_created, cash_credited, order_accepted, order_cancelled, fill, ignored,
  StreamItem,
}
use quant_arena.Fanout.Book.{Book}
use quant_arena.Fanout.Bars.{BarSet, record_trade}
use quant_arena.Fanout.State.{
  MarketState, Outcome, done, raised, state_of, book, new_book, put_book, mark_dirty, apply,
  apply_order_accepted, fill_books, advance_bars, apply_fill, apply_order_cancelled, observe,
  drain_dirty, bar_set, trade_of,
}

-- What is not marked in `t` was not marked in `s`, and its book is as it was.
abbrev KeepsUnmarked : ℕ → MarketState → MarketState → Type 0
KeepsUnmarked k s t =
    (contains k t.dirty ≡ true) ⊎ (contains k s.dirty ≡ false) × (book k t ≡ book k s)

put_book-marked :
    (k j : ℕ) (b : Book) (m : MarketState) → KeepsUnmarked k m (put_book j b (mark_dirty j m))
unfolding put_book mark_dirty book
put_book-marked k j b m = elim (==-cases j k) [
  | inl (h, e) ↦ inl (rw contains-add (rw h))
  | inr (h, n) ↦ elim (Bool-cases (contains k m.dirty)) [
    | inl t ↦ inl (rw contains-add (rw (h, t)))
    | inr t ↦ inr (t, rw get_or-insert (rw h))
  ]
]

advance_bars_keeps :
    (k : ℕ) (s : Option BarSet) (r : Fill) (m : MarketState)
    → ((state_of (advance_bars s r m)).dirty ≡ m.dirty)
      × ((state_of (advance_bars s r m)).books ≡ m.books)
unfolding advance_bars
advance_bars_keeps k none r m = (refl, refl)
advance_bars_keeps k (some s) r m = (refl, refl)

same_keeps :
    (k : ℕ) (s t u : MarketState)
    → u.dirty ≡ t.dirty
    → u.books ≡ t.books
    → KeepsUnmarked k s t
    → KeepsUnmarked k s u
unfolding book
same_keeps k s t u d b (inl marked) = inl (rw d marked)
same_keeps k s t u d b (inr (unmarked, same)) = inr (unmarked, ap (get_or k (new_book k)) b ∙ same)

fill_keeps : (k : ℕ) (r : Fill) (m : MarketState) → KeepsUnmarked k m (state_of (apply_fill r m))
unfolding apply_fill
fill_keeps k r m =
    let m' = fill_books r m in
    let m'' : MarketState = record m' { tape = record_trade (trade_of r m'.last_seq) m'.tape } in
    let kept = advance_bars_keeps k (bar_set r.symbol_id m'') r m'' in
    same_keeps k m m' _ kept.0 kept.1 (unfold fill_books in put_book-marked k r.symbol_id _ m)

unmoved : (k : ℕ) (m : MarketState) → KeepsUnmarked k m m
unmoved k m = elim (Bool-cases (contains k m.dirty)) [ inl t ↦ inl t | inr t ↦ inr (t, refl) ]

apply_keeps :
    (k : ℕ) (r : Record) (id : Option String) (m : MarketState)
    → KeepsUnmarked k m (state_of (apply r id m))
unfolding apply book
apply_keeps k (order_accepted r) id m =
    unfold apply_order_accepted book put_book mark_dirty in put_book-marked k r.symbol_id _ m
apply_keeps k (fill r) id m = fill_keeps k r (record m {
  last_seq = (elim id [ none ↦ m.last_seq | some i ↦ i ]);
  records_applied = m.records_applied + 1;
})
apply_keeps k (order_cancelled r) id m =
    unfold apply_order_cancelled book put_book mark_dirty in put_book-marked k r.symbol_id _ m
apply_keeps k (account_created r) id m = unmoved k m
apply_keeps k (cash_credited r) id m = unmoved k m
apply_keeps k ignored id m = unmoved k m

-- From one drain to the next tick: a symbol that is not marked has the book that it had.
observe_keeps :
    (k : ℕ) (items : List StreamItem) (o : Outcome)
    → contains k (state_of (observe items o)).dirty ≡ false
    → (contains k (state_of o).dirty ≡ false)
      × (book k (state_of (observe items o)) ≡ book k (state_of o))
unfolding observe
observe_keeps k [] o h = (h, refl)
observe_keeps k (item ∷ items) (raised m) h = (h, refl)
observe_keeps k (item ∷ items) (done m) h =
    let o = apply item.body (some item.stream_id) m in
    let rest = observe_keeps k items o h in
    elim (apply_keeps k item.body (some item.stream_id) m) [
      | inl marked ↦ absurd (cc (marked, rest.0))
      | inr (unmarked, same) ↦ (unmarked, rest.1 ∙ same)
    ]

-- A tick that finds a symbol unmarked would send the book that the last tick saw: whatever records
-- came between, an unmarked symbol's book has not moved since the marks were drained.
pub unmarked_book :
    (k : ℕ) (items : List StreamItem) (m : MarketState)
    → let end = observe items (done (drain_dirty m).1) in
      contains k (state_of end).dirty ≡ false → book k (state_of end) ≡ book k m
unfolding drain_dirty
unmarked_book k items m h =
    (observe_keeps k items (done (record m { dirty = [] })) h).1 ∙ (unfold book in refl)
