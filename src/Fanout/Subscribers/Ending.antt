-- ===== src/Fanout/Subscribers/Ending.antt =====
-- A writer ends only when its connection is closed.
use quant_arena.Prelude.{
  ℕ, String, ◌≡◌, refl, ◌∙◌, true, false, List, [], ◌∷◌, ◌++◌, map, length, arith, inl, inr,
  Bool-cases,
}
use quant_arena.Fanout.Subscribers.{
  Frame, market_frame, private_frame, Subscriber, hand_over, offer_market, offer_private, subscribe,
  unsubscribe, take_fresh, flush, Writer, waiting, writing, done, Connection, connect, loop, finish,
  take_batch, resume, break_off, stop,
}
use quant_arena.Fanout.Subscribers.Delivery.{
  Event, market_offered, private_offered, subscribed, unsubscribed, fresh_taken, flushed, resumed,
  broken_off, stopped, step, run,
}

-- A writer ends only on a closed connection.
unfoldable pub HasEnded : Writer → Subscriber → Type 0
HasEnded waiting s = Unit
HasEnded (writing batch n p) s = Unit
HasEnded (done batch) s = s.closed ≡ true

HasEnded-same : (w : Writer) (s t : Subscriber) → t.closed ≡ s.closed → HasEnded w s → HasEnded w t
unfolding HasEnded
HasEnded-same waiting s t e h = tt
HasEnded-same (writing batch n p) s t e h = tt
HasEnded-same (done batch) s t e h = e ∙ h

HasEnded-finish :
    (batch : List Frame) (n p : ℕ) (c : Connection)
    → HasEnded (finish batch n p c).writer (finish batch n p c).subscriber
unfolding finish loop HasEnded
HasEnded-finish [] n p c = elim (Bool-cases c.subscriber.closed) [
  | inl h ↦ simp h refl
  | inr h ↦ simp h tt
]
HasEnded-finish (f ∷ batch) n p c = tt

HasEnded-take_batch : (c : Connection) → HasEnded (take_batch c).writer (take_batch c).subscriber
unfolding take_batch
HasEnded-take_batch c =
    let ps = c.subscriber.private in
    let batch = map private_frame ps ++ map market_frame c.subscriber.market in
    HasEnded-finish batch (length batch) (length ps)
      (record c { subscriber = record c.subscriber { wake = false; private = []; market = [] } })

HasEnded-resume :
    (w : Writer) (c : Connection)
    → c.writer ≡ w
    → HasEnded c.writer c.subscriber
    → HasEnded (resume w c).writer (resume w c).subscriber
unfolding resume take_batch
HasEnded-resume waiting c q h = elim (Bool-cases c.subscriber.wake) [
  | inl g ↦ simp g (HasEnded-take_batch c)
  | inr g ↦ simp g h
]
HasEnded-resume (writing [] n p) c q h = HasEnded-finish [] n p c
HasEnded-resume (writing (f ∷ batch) n p) c q h = HasEnded-finish batch n p _
HasEnded-resume (done batch) c q h = h

HasEnded-break_off :
    (w : Writer) (c : Connection)
    → c.writer ≡ w
    → HasEnded c.writer c.subscriber
    → HasEnded (break_off w c).writer (break_off w c).subscriber
unfolding break_off
HasEnded-break_off waiting c q h = h
HasEnded-break_off (writing batch n p) c q h = unfold HasEnded in refl
HasEnded-break_off (done batch) c q h = h

closed-offer_market : (t : String) (s : Subscriber) → (offer_market t s).1.closed ≡ s.closed
unfolding offer_market
closed-offer_market t s = ground arith

closed-offer_private : (t : String) (s : Subscriber) → (offer_private t s).1.closed ≡ s.closed
unfolding offer_private hand_over
closed-offer_private t s = ground arith

closed-flush : (s : Subscriber) → (flush s).closed ≡ s.closed
unfolding flush hand_over
closed-flush s = ground arith

HasEnded-step :
    (e : Event) (c : Connection)
    → HasEnded c.writer c.subscriber
    → HasEnded (step e c).writer (step e c).subscriber
unfolding step
HasEnded-step (market_offered t) c h =
    HasEnded-same c.writer c.subscriber _ (closed-offer_market t c.subscriber) h
HasEnded-step (private_offered t) c h =
    HasEnded-same c.writer c.subscriber _ (closed-offer_private t c.subscriber) h
HasEnded-step (subscribed names) c h =
    HasEnded-same c.writer c.subscriber _ (unfold subscribe in refl) h
HasEnded-step (unsubscribed names) c h =
    HasEnded-same c.writer c.subscriber _ (unfold unsubscribe in refl) h
HasEnded-step fresh_taken c h = HasEnded-same c.writer c.subscriber _ (unfold take_fresh in refl) h
HasEnded-step flushed c h = HasEnded-same c.writer c.subscriber _ (closed-flush c.subscriber) h
HasEnded-step resumed c h = HasEnded-resume c.writer c refl h
HasEnded-step broken_off c h = HasEnded-break_off c.writer c refl h
HasEnded-step stopped c h = unfold stop HasEnded in refl

HasEnded-run :
    (es : List Event) (c : Connection)
    → HasEnded c.writer c.subscriber
    → HasEnded (run es c).writer (run es c).subscriber
unfolding run
HasEnded-run [] c h = h
HasEnded-run (e ∷ es) c h = HasEnded-run es (step e c) (HasEnded-step e c h)

pub run-HasEnded :
    (es : List Event) (user_id private_max : ℕ)
    → let c = run es (connect user_id private_max) in HasEnded c.writer c.subscriber
run-HasEnded es user_id private_max =
    HasEnded-run es (connect user_id private_max) (unfold HasEnded in tt)
