-- ===== src/Engine/Book/Empty.antt =====
-- The book without orders.
use mathlib.Core.Path.{subst}
use quant_arena.Prelude.{ℕ, ◌≡◌, refl, sym, ap, ◌∙◌, none, [], nat_eq}
use quant_arena.Dict.{lookup, contains, get_or}
use quant_arena.Dict.Queues.{IsDistinct}
use quant_arena.Engine.Book.{Side, buy, sell, empty, side_map, queue}
use quant_arena.Engine.Book.Trade.{WellFormed}
use quant_arena.Engine.Book.Round.{Uncrossed}

pub queue-empty : (s : Side) (p : ℕ) → queue s p empty ≡ []
unfolding queue get_or lookup
queue-empty buy p = refl
queue-empty sell p = refl

level-empty : (s : Side) (p : ℕ) → lookup p (side_map s empty) ≡ none
unfolding lookup
level-empty buy p = refl
level-empty sell p = refl

pub empty-WellFormed : WellFormed empty
unfolding lookup contains
empty-WellFormed = record {
  linked = record {
    unique = tt;
    keyed = λ id o h. cc h;
    arrived = λ id o h. cc h;
    queued = λ s p id h. cc (ap (contains id) (sym (queue-empty s p)) ∙ h);
    resting = λ id o h. cc h;
    distinct = λ s p. subst IsDistinct (sym (queue-empty s p)) tt;
    filled = λ s p ids h. cc (sym (level-empty s p) ∙ h);
  };
  open_orders = λ id o h. cc h;
}

pub empty-Uncrossed : Uncrossed empty
unfolding lookup
empty-Uncrossed i j x y k l s t = cc k
