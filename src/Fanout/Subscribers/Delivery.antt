-- ===== src/Fanout/Subscribers/Delivery.antt =====
-- Private frames are never dropped and never reordered: what the socket took, what the writer holds
-- and what is queued are together what was accepted.
use mathlib.Core.List.{append_assoc, append-nil}
use quant_arena.Prelude.{
  ℕ, String, ◌≡◌, refl, sym, ap, ◌∙◌, List, [], ◌∷◌, ◌++◌, map, leb, length, arith, inl, inr,
  Bool-cases, if◌then◌else◌,
}
use quant_arena.Fanout.Subscribers.{
  Frame, market_frame, private_frame, Subscriber, hand_over, offer_market, offer_private, subscribe,
  unsubscribe, take_fresh, flush, Writer, waiting, writing, done, Connection, connect, loop, finish,
  take_batch, resume, break_off, unsent, stop,
}

-- What may happen to a connection, in any order.
pub data Event : Type 0 where
  market_offered : String → Event
  private_offered : String → Event
  subscribed : List String → Event
  unsubscribed : List String → Event
  fresh_taken : Event
  flushed : Event
  resumed : Event
  broken_off : Event
  stopped : Event

unfoldable pub step : Event → Connection → Connection
step (market_offered t) c = record c { subscriber = (offer_market t c.subscriber).1 }
step (private_offered t) c = record c { subscriber = (offer_private t c.subscriber).1 }
step (subscribed names) c = record c { subscriber = subscribe names c.subscriber }
step (unsubscribed names) c = record c { subscriber = unsubscribe names c.subscriber }
step fresh_taken c = record c { subscriber = (take_fresh c.subscriber).1 }
step flushed c = record c { subscriber = flush c.subscriber }
step resumed c = resume c.writer c
step broken_off c = break_off c.writer c
step stopped c = stop c

unfoldable pub run : List Event → Connection → Connection
run [] c = c
run (e ∷ es) c = run es (step e c)

-- The private frames for which `offer_private` returned true.
unfoldable pub accepted_now : Event → Connection → List String
accepted_now (private_offered t) c = if (offer_private t c.subscriber).0 then t ∷ [] else []
accepted_now e c = []

unfoldable pub accepted : List Event → Connection → List String
accepted [] c = []
accepted (e ∷ es) c = accepted_now e c ++ accepted es (step e c)

unfoldable pub privates : List Frame → List String
privates [] = []
privates (private_frame t ∷ fs) = t ∷ privates fs
privates (market_frame t ∷ fs) = privates fs

pub privates-++ : (fs gs : List Frame) → privates (fs ++ gs) ≡ privates fs ++ privates gs
unfolding privates
privates-++ [] gs = refl
privates-++ (private_frame t ∷ fs) gs = ap (λ x. t ∷ x) (privates-++ fs gs)
privates-++ (market_frame t ∷ fs) gs = privates-++ fs gs

pub privates-private : (ts : List String) → privates (map private_frame ts) ≡ ts
unfolding privates
privates-private [] = refl
privates-private (t ∷ ts) = ap (λ x. t ∷ x) (privates-private ts)

pub privates-market : (ts : List String) → privates (map market_frame ts) ≡ []
unfolding privates
privates-market [] = refl
privates-market (t ∷ ts) = privates-market ts

pub privates_batch :
    (ps ms : List String) → privates (map private_frame ps ++ map market_frame ms) ≡ ps
privates_batch ps ms =
    privates-++ (map private_frame ps) (map market_frame ms)
    ∙ (rw (privates-private, privates-market, append-nil))

-- Every private frame that a connection has accepted, in order.
unfoldable pub entrusted : Connection → List String
entrusted c = privates c.socket ++ (privates (unsent c.writer) ++ c.subscriber.private)

entrusted-finish :
    (batch : List Frame) (n p : ℕ) (c : Connection)
    → entrusted (finish batch n p c) ≡ privates c.socket ++ (privates batch ++ c.subscriber.private)
unfolding entrusted finish loop privates
entrusted-finish [] n p c = elim (Bool-cases c.subscriber.closed) [
  | inl h ↦ rw h refl
  | inr h ↦ rw h refl
]
entrusted-finish (f ∷ batch) n p c = refl

pub entrusted_at :
    (w : Writer) (c : Connection)
    → c.writer ≡ w
    → entrusted c ≡ privates c.socket ++ (privates (unsent w) ++ c.subscriber.private)
unfolding entrusted
entrusted_at w c q = ap (λ v. privates c.socket ++ (privates (unsent v) ++ c.subscriber.private)) q

entrusted-take_batch :
    (c : Connection) → entrusted (take_batch c) ≡ privates c.socket ++ c.subscriber.private
unfolding take_batch
entrusted-take_batch c = rw (entrusted-finish, privates_batch, append-nil) refl

-- A frame that was sent moves from the batch to the socket.
privates_moved :
    (f : Frame) (sent batch : List Frame) (rest : List String)
    → privates (sent ++ (f ∷ [])) ++ (privates batch ++ rest)
      ≡ privates sent ++ (privates (f ∷ batch) ++ rest)
unfolding privates
privates_moved (private_frame t) sent batch rest = rw (privates-++, append_assoc) refl
privates_moved (market_frame t) sent batch rest = rw (privates-++, append-nil) refl

pub entrusted-resume :
    (w : Writer) (c : Connection) → c.writer ≡ w → entrusted (resume w c) ≡ entrusted c
unfolding resume privates
entrusted-resume waiting c q = elim (Bool-cases c.subscriber.wake) [
  | inl h ↦ simp h (entrusted-take_batch c ∙ sym (entrusted_at waiting c q))
  | inr h ↦ rw h refl
]
entrusted-resume (writing [] n p) c q =
    entrusted-finish [] n p c ∙ sym (entrusted_at (writing [] n p) c q)
entrusted-resume (writing (f ∷ batch) n p) c q =
    entrusted-finish batch n p _
    ∙ privates_moved f c.socket batch c.subscriber.private
    ∙ sym (entrusted_at (writing (f ∷ batch) n p) c q)
entrusted-resume (done batch) c q = refl

entrusted-break_off :
    (w : Writer) (c : Connection) → c.writer ≡ w → entrusted (break_off w c) ≡ entrusted c
unfolding break_off entrusted
entrusted-break_off waiting c q = refl
entrusted-break_off (writing batch n p) c q = sym (entrusted_at (writing batch n p) c q)
entrusted-break_off (done batch) c q = refl

private-offer_market : (t : String) (s : Subscriber) → (offer_market t s).1.private ≡ s.private
unfolding offer_market
private-offer_market t s = ground arith

private-flush : (s : Subscriber) → (flush s).private ≡ s.private
unfolding flush hand_over
private-flush s = ground arith

private-offer_private :
    (t : String) (s : Subscriber)
    → (offer_private t s).1.private ≡ s.private ++ (if (offer_private t s).0 then t ∷ [] else [])
unfolding offer_private hand_over
private-offer_private t s = elim (Bool-cases s.closed) [
  | inl h ↦ rw (h, append-nil) refl
  | inr h ↦ elim (Bool-cases (leb s.private_max (length s.private))) [
    | inl g ↦ rw (h, g, append-nil) refl
    | inr g ↦ rw (h, g) refl
  ]
]

entrusted-step :
    (e : Event) (c : Connection) → entrusted (step e c) ≡ entrusted c ++ accepted_now e c
unfolding step accepted_now
entrusted-step (private_offered t) c =
    unfold entrusted in
    ap (λ p. privates c.socket ++ (privates (unsent c.writer) ++ p))
      (private-offer_private t c.subscriber)
    ∙ (simp append_assoc)
entrusted-step (market_offered t) c = unfold entrusted in rw (private-offer_market, append-nil) refl
entrusted-step (subscribed names) c = unfold entrusted subscribe in sym (append-nil _)
entrusted-step (unsubscribed names) c = unfold entrusted unsubscribe in sym (append-nil _)
entrusted-step fresh_taken c = unfold entrusted take_fresh in sym (append-nil _)
entrusted-step flushed c = unfold entrusted in rw (private-flush, append-nil) refl
entrusted-step resumed c = entrusted-resume c.writer c refl ∙ sym (append-nil _)
entrusted-step broken_off c = entrusted-break_off c.writer c refl ∙ sym (append-nil _)
entrusted-step stopped c = unfold entrusted stop in sym (append-nil _)

entrusted-run :
    (es : List Event) (c : Connection) → entrusted (run es c) ≡ entrusted c ++ accepted es c
unfolding run accepted
entrusted-run [] c = sym (append-nil _)
entrusted-run (e ∷ es) c = entrusted-run es (step e c) ∙ (simp (entrusted-step, append_assoc))

-- Whatever happens to a connection, the private frames that its socket took, followed by those that
-- the writer holds and those that are queued, are the private frames that were accepted, once and
-- in order.
pub run_delivers :
    (es : List Event) (user_id private_max : ℕ)
    → let c = run es (connect user_id private_max) in
      privates c.socket ++ (privates (unsent c.writer) ++ c.subscriber.private)
      ≡ accepted es (connect user_id private_max)
run_delivers es user_id private_max =
    unfold entrusted privates in entrusted-run es (connect user_id private_max)
