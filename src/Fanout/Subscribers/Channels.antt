-- ===== src/Fanout/Subscribers/Channels.antt =====
-- Which channels a connection holds, and which of them are owed a first frame.
use quant_arena.Prelude.{
  String, ◌≡◌, refl, ap, ◌∙◌, ◌&&◌, ◌||◌, not, List, [], ◌∷◌, arith, text_eq, inl, inr, ==-cases,
}
use quant_arena.Dict.{contains, contains-add}
use quant_arena.Fanout.Subscribers.{Subscriber, union, difference, subscribe, unsubscribe}

contains-union :
    (x : String) (s t : List String) → contains x (union s t) ≡ (contains x s || contains x t)
unfolding union contains
contains-union x s [] = ground arith
contains-union x s (c ∷ t) = ground (arith, contains-add c x (union s t), contains-union x s t)

contains-difference :
    (x : String) (s t : List String)
    → contains x (difference s t) ≡ (contains x s && not (contains x t))
unfolding difference contains
contains-difference x [] t = refl
contains-difference x (c ∷ s) t = elim (==-cases c x) [
  | inl (h, e) ↦
      let same : contains c t ≡ contains x t = ap (λ y. contains y t) e in
      ground (arith, h, same, contains-difference x s t)
  | inr (h, n) ↦ ground (arith, h, contains-difference x s t)
]

-- A subscription adds its channels and owes a first frame on those that are new; the end of one
-- takes its channels out of both sets.
pub subscribe_lem :
    (x : String) (names : List String) (s : Subscriber)
    → (contains x (subscribe names s).channels ≡ (contains x s.channels || contains x names))
      × (contains x (subscribe names s).fresh
          ≡ (contains x s.fresh || contains x names && not (contains x s.channels)))
      × (contains x (unsubscribe names s).channels
          ≡ (contains x s.channels && not (contains x names)))
      × (contains x (unsubscribe names s).fresh ≡ (contains x s.fresh && not (contains x names)))
unfolding subscribe unsubscribe
subscribe_lem x names s = (
  contains-union x s.channels names,
  contains-union x s.fresh (difference names s.channels)
      ∙ ap (λ b. contains x s.fresh || b) (contains-difference x names s.channels),
  contains-difference x s.channels names,
  contains-difference x s.fresh names,
)
