-- ===== src/Fanout/Bars/Tapes.antt =====
-- The tape delivers every print: nothing is dropped between a record and the drain that sends it.
use quant_arena.Prelude.{
  ℕ, ◌≡◌, refl, ap, ◌∙◌, true, List, [], ◌∷◌, ◌++◌, ◌==◌, nat_eq, inl, inr, Bool-cases, ==-cases,
  if◌then◌else◌,
}
use mathlib.Core.List.{append_assoc, append-nil}
use quant_arena.Dict.{get_or, get_or-insert, get_or-erase}
use quant_arena.Fanout.Bars.{Trade, Tape, record_trade, pending_of, drain}

-- What happens to a tape: a trade is recorded, or a tick drains a symbol.
pub data TapeEvent : Type 0 where
  traded : Trade → TapeEvent
  drained : ℕ → TapeEvent

-- The prints that the ticks delivered for `id`, and the tape that is left.
pub play : ℕ → List TapeEvent → Tape → List Trade × Tape
play id [] tape = ([], tape)
play id (traded t ∷ es) tape = play id es (record_trade t tape)
play id (drained s ∷ es) tape =
    let (sent, tape') = drain s tape in
    let (later, end) = play id es tape' in ((if s == id then sent ++ later else later), end)

-- The trades of a symbol, in the order in which they were recorded.
pub trades_of : ℕ → List TapeEvent → List Trade
trades_of id [] = []
trades_of id (traded t ∷ es) = if t.symbol_id == id then t ∷ trades_of id es else trades_of id es
trades_of id (drained s ∷ es) = trades_of id es

pending_of-record_trade :
    (id : ℕ) (t : Trade) (tape : Tape)
    → pending_of id (record_trade t tape)
      ≡ (if t.symbol_id == id then pending_of id tape ++ (t ∷ []) else pending_of id tape)
unfolding pending_of record_trade
pending_of-record_trade id t tape = elim (==-cases t.symbol_id id) [
  | inl (h, e) ↦ rw get_or-insert (rw h (ap (λ s. get_or s [] tape.pending ++ (t ∷ [])) e))
  | inr (h, n) ↦ rw get_or-insert (rw h)
]

pending_of-drain :
    (id s : ℕ) (tape : Tape)
    → pending_of id (drain s tape).1 ≡ (if s == id then [] else pending_of id tape)
unfolding pending_of drain
pending_of-drain id s tape = get_or-erase s id [] tape.pending

sent-drain : (s : ℕ) (tape : Tape) → (drain s tape).0 ≡ pending_of s tape
unfolding pending_of drain
sent-drain s tape = refl

drained_self : (id s : ℕ) (tape : Tape) → (s == id) ≡ true → pending_of id (drain s tape).1 ≡ []
drained_self id s tape h = pending_of-drain id s tape ∙ (rw h)

-- What the ticks delivered for a symbol, followed by what is still pending, is what was pending
-- followed by all trades of the symbol: every print once, in order.
pub play_complete :
    (id : ℕ) (es : List TapeEvent) (tape : Tape)
    → let (sent, end) = play id es tape in
      sent ++ pending_of id end ≡ pending_of id tape ++ trades_of id es
unfolding play trades_of
play_complete id [] tape = rw append-nil
play_complete id (traded t ∷ es) tape =
    play_complete id es (record_trade t tape)
    ∙ rw pending_of-record_trade (elim (Bool-cases (t.symbol_id == id)) [
      | inl h ↦ rw h (append_assoc (pending_of id tape) (t ∷ []) (trades_of id es))
      | inr h ↦ rw h
    ])
play_complete id (drained s ∷ es) tape =
    let rest = play_complete id es (drain s tape).1 in
    elim (==-cases s id) [
      | inl (h, e) ↦ rw h (
          append_assoc (drain s tape).0 _ _
          ∙ ap (λ l. (drain s tape).0 ++ l)
              (rest ∙ ap (λ l. l ++ trades_of id es) (drained_self id s tape h))
          ∙ ap (λ l. l ++ trades_of id es) (sent-drain s tape ∙ ap (λ i. pending_of i tape) e))
      | inr (h, n) ↦
          rw h (rest ∙ ap (λ l. l ++ trades_of id es) (pending_of-drain id s tape ∙ (rw h)))
    ]
