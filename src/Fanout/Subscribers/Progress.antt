-- ===== src/Fanout/Subscribers/Progress.antt =====
-- The queue of private frames is bounded, and the writer always has a reason to go on while one is
-- queued.
use quant_arena.Prelude.{
  ℕ, ◌≤◌, String, ◌≡◌, refl, ◌⊎◌, true, false, List, [], ◌∷◌, ◌++◌, map, leb, length, length-++,
  arith, inl, inr, Bool-cases,
}
use quant_arena.Fanout.Subscribers.{
  Frame, market_frame, private_frame, Subscriber, hand_over, offer_market, offer_private, subscribe,
  unsubscribe, take_fresh, flush, Writer, waiting, writing, done, Connection, connect, loop, finish,
  take_batch, resume, break_off, stop,
}
use quant_arena.Fanout.Subscribers.Delivery.{
  Event, market_offered, private_offered, subscribed, unsubscribed, fresh_taken, flushed, resumed,
  broken_off, stopped, step, run,
}

-- The queue is within its bound, and the writer's event is set while something is queued.
unfoldable pub IsPrompt : Subscriber → Type 0
IsPrompt s = (length s.private ≤ s.private_max) × ((s.private ≡ []) ⊎ (s.wake ≡ true))

IsPrompt-offer_market : (t : String) (s : Subscriber) → IsPrompt s → IsPrompt (offer_market t s).1
unfolding offer_market IsPrompt
IsPrompt-offer_market t s h = ground arith

IsPrompt-offer_private : (t : String) (s : Subscriber) → IsPrompt s → IsPrompt (offer_private t s).1
unfolding offer_private hand_over IsPrompt length
IsPrompt-offer_private t s h = elim (Bool-cases s.closed) [
  | inl a ↦ simp a h
  | inr a ↦ elim (Bool-cases (leb s.private_max (length s.private))) [
    | inl b ↦ simp (a, b) h
    | inr b ↦ simp (a, b) (ground (arith, length-++ s.private (t ∷ [])), inr refl)
  ]
]

IsPrompt-flush : (s : Subscriber) → IsPrompt s → IsPrompt (flush s)
unfolding flush hand_over IsPrompt
IsPrompt-flush s h = ground arith

IsPrompt-finish :
    (batch : List Frame) (n p : ℕ) (c : Connection)
    → IsPrompt c.subscriber
    → IsPrompt (finish batch n p c).subscriber
unfolding finish loop IsPrompt
IsPrompt-finish [] n p c h = h
IsPrompt-finish (f ∷ batch) n p c h = h

IsPrompt-nothing :
    (s : Subscriber) → IsPrompt (record s { wake = false; private = []; market = [] })
unfolding IsPrompt length
IsPrompt-nothing s = (ground arith, inl refl)

IsPrompt-take_batch : (c : Connection) → IsPrompt (take_batch c).subscriber
unfolding take_batch
IsPrompt-take_batch c =
    let ps = c.subscriber.private in
    let batch = map private_frame ps ++ map market_frame c.subscriber.market in
    IsPrompt-finish batch (length batch) (length ps)
      (record c { subscriber = record c.subscriber { wake = false; private = []; market = [] } })
      (IsPrompt-nothing c.subscriber)

pub IsPrompt-resume :
    (w : Writer) (c : Connection) → IsPrompt c.subscriber → IsPrompt (resume w c).subscriber
unfolding resume take_batch
IsPrompt-resume waiting c h = elim (Bool-cases c.subscriber.wake) [
  | inl g ↦ simp g (IsPrompt-take_batch c)
  | inr g ↦ simp g h
]
IsPrompt-resume (writing [] n p) c h = IsPrompt-finish [] n p c h
IsPrompt-resume (writing (f ∷ batch) n p) c h = IsPrompt-finish batch n p _ h
IsPrompt-resume (done batch) c h = h

IsPrompt-break_off :
    (w : Writer) (c : Connection) → IsPrompt c.subscriber → IsPrompt (break_off w c).subscriber
unfolding break_off IsPrompt
IsPrompt-break_off waiting c h = h
IsPrompt-break_off (writing batch n p) c h = h
IsPrompt-break_off (done batch) c h = h

pub IsPrompt-step :
    (e : Event) (c : Connection) → IsPrompt c.subscriber → IsPrompt (step e c).subscriber
unfolding step
IsPrompt-step (market_offered t) c h = IsPrompt-offer_market t c.subscriber h
IsPrompt-step (private_offered t) c h = IsPrompt-offer_private t c.subscriber h
IsPrompt-step (subscribed names) c h = unfold subscribe IsPrompt in h
IsPrompt-step (unsubscribed names) c h = unfold unsubscribe IsPrompt in h
IsPrompt-step fresh_taken c h = unfold take_fresh IsPrompt in h
IsPrompt-step flushed c h = IsPrompt-flush c.subscriber h
IsPrompt-step resumed c h = IsPrompt-resume c.writer c h
IsPrompt-step broken_off c h = IsPrompt-break_off c.writer c h
IsPrompt-step stopped c h = unfold stop IsPrompt in (h.0, inr refl)

pub IsPrompt-run :
    (es : List Event) (c : Connection) → IsPrompt c.subscriber → IsPrompt (run es c).subscriber
unfolding run
IsPrompt-run [] c h = h
IsPrompt-run (e ∷ es) c h = IsPrompt-run es (step e c) (IsPrompt-step e c h)

pub connect-IsPrompt : (user_id private_max : ℕ) → IsPrompt (connect user_id private_max).subscriber
unfolding IsPrompt length
connect-IsPrompt user_id private_max = (ground arith, inl refl)

-- Whatever happens to a connection, no more private frames are queued than `private_max` allows, and
-- the writer's event is set while any is queued.
pub run-IsPrompt :
    (es : List Event) (user_id private_max : ℕ)
    → IsPrompt (run es (connect user_id private_max)).subscriber
run-IsPrompt es user_id private_max =
    IsPrompt-run es (connect user_id private_max) (connect-IsPrompt user_id private_max)
