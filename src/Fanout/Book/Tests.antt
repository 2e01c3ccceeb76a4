-- ===== src/Fanout/Book/Tests.antt =====
-- Runs of a book, and its theorems at a concrete one.
use quant_arena.Prelude.{◌<◌, ℕ, ◌≡◌, refl, some, none, [], ◌∷◌, true, false, arith, nat_eq}
use quant_arena.Dict.{lookup, get_or, insert, erase}
use quant_arena.Dict.Counts.{gain}
use quant_arena.Contracts.Side
use quant_arena.Fanout.Book.{Book, accept, fill, cancel, levels, best, before, ordered}
use quant_arena.Fanout.Book.Levels.{resting_at, get_or-ordered, InOrder, AllFilled, ordered-InOrder}
use quant_arena.Fanout.Book.Best.{best_is_top}

abbrev quoted : Book
quoted =
    accept 4 2 101 9
      (accept 3 1 99 5 (accept 2 1 98 7 (accept 1 1 99 10 (record { symbol_id = 3; orders = [] }))))

levels_read :
    (levels Side.buy 10 quoted ≡ (99, 15) ∷ (98, 7) ∷ [])
    × (levels Side.buy 1 (fill 1 10 quoted) ≡ (99, 5) ∷ [])
    × (best Side.sell (cancel 4 quoted) ≡ none)
unfolding levels accept fill cancel best insert erase lookup get_or gain
levels_read = (refl, refl, refl)

get_or-ordered_example : get_or 99 0 (ordered Side.buy quoted) ≡ resting_at Side.buy 99 quoted
get_or-ordered_example = get_or-ordered Side.buy 99 quoted

ordered-InOrder_example :
    InOrder true (ordered Side.buy quoted) × AllFilled (ordered Side.buy quoted)
ordered-InOrder_example = ordered-InOrder Side.buy quoted

best_is_top_example :
    (k : ℕ) × (best Side.buy quoted ≡ some (k, resting_at Side.buy k quoted))
    × (before true 98 k ≡ false)
    × (0 < resting_at Side.buy k quoted)
unfolding accept insert lookup
best_is_top_example =
    best_is_top Side.buy 2 (record { order_id = 2; side = 1; price_ticks = 98; remaining_qty = 7 })
      quoted refl refl (omega arith)
