-- ===== src/Fanout/Subscribers/Drain.antt =====
-- A writer whose sends return delivers everything that was accepted.
use mathlib.Core.List.{append-nil}
use mathlib.Core.Path.{subst}
use quant_arena.Prelude.{
  ℕ, ◌≡◌, refl, sym, ap, ◌∙◌, ◌⊎◌, true, false, List, [], ◌∷◌, ◌++◌, map, length, inl, inr,
}
use quant_arena.Fanout.Subscribers.{
  Frame, market_frame, private_frame, Subscriber, Writer, waiting, writing, done, Connection,
  connect, loop, finish, take_batch, resume,
}
use quant_arena.Fanout.Subscribers.Progress.{IsPrompt, IsPrompt-resume, run-IsPrompt}
use quant_arena.Fanout.Subscribers.Ending.{HasEnded, run-HasEnded}
use quant_arena.Fanout.Subscribers.Delivery.{
  accepted, run_delivers, Event, run, privates, entrusted, entrusted_at, entrusted-resume,
}

-- The writer goes on, some number of times, and nothing else happens.
pub data Resumes : Connection → Connection → Type 0 where
  here : (c : Connection) → Resumes c c
  on : (c d : Connection) → Resumes (resume c.writer c) d → Resumes c d

joined : (a b c : Connection) → Resumes a b → Resumes b c → Resumes a c
joined a b c (here _) q = q
joined a b c (on _ _ p) q = on a c (joined (resume a.writer a) b c p q)

entrusted-Resumes : (a b : Connection) → Resumes a b → entrusted b ≡ entrusted a
entrusted-Resumes a b (here _) = refl
entrusted-Resumes a b (on _ _ p) =
    entrusted-Resumes (resume a.writer a) b p ∙ entrusted-resume a.writer a refl

-- The writer is back at its event, on an open connection, and left the queue and the event alone.
IsBack : Connection → Connection → Type 0
IsBack c d =
    (d.writer ≡ waiting)
    × (d.subscriber.closed ≡ false)
    × (d.subscriber.private ≡ c.subscriber.private)
    × (d.subscriber.wake ≡ c.subscriber.wake)

-- A batch is written out.
written :
    (batch : List Frame) (n p : ℕ) (c : Connection)
    → c.subscriber.closed ≡ false
    → (d : Connection) × Resumes (finish batch n p c) d × IsBack c d
unfolding finish loop IsBack resume
written [] n p c h = (finish [] n p c, here _, (simp h, h, refl, refl))
written (f ∷ batch) n p c h =
    let (d, r, b) =
      written batch n p
        (record c { writer = writing (f ∷ batch) n p; socket = c.socket ++ (f ∷ []) }) h in
    (d, on (finish (f ∷ batch) n p c) d r, b)

resume_woken :
    (c : Connection)
    → c.writer ≡ waiting
    → c.subscriber.wake ≡ true
    → resume c.writer c ≡ take_batch c
unfolding resume
resume_woken c w e = ap (λ v. resume v c) w ∙ (simp e)

prompt_cases : (s : Subscriber) → IsPrompt s → (s.private ≡ []) ⊎ (s.wake ≡ true)
unfolding IsPrompt
prompt_cases s h = h.1

-- The writer is at its event and nothing private is queued.
IsIdle : Connection → Type 0
IsIdle d = (d.writer ≡ waiting) × (d.subscriber.closed ≡ false) × (d.subscriber.private ≡ [])

taken :
    (c : Connection)
    → c.subscriber.closed ≡ false
    → (d : Connection) × Resumes (take_batch c) d × IsIdle d
unfolding take_batch IsBack IsIdle
taken c o =
    let ps = c.subscriber.private in
    let batch = map private_frame ps ++ map market_frame c.subscriber.market in
    let (d, r, b) =
      written batch (length batch) (length ps)
        (record c { subscriber = record c.subscriber { wake = false; private = []; market = [] } })
        o in
    (d, r, (b.0, b.1, b.2))

-- A writer at its event writes out the queue.
unqueued :
    (c : Connection)
    → c.writer ≡ waiting
    → c.subscriber.closed ≡ false
    → IsPrompt c.subscriber
    → (d : Connection) × Resumes c d × IsIdle d
unfolding IsIdle
unqueued c w o h = elim (prompt_cases c.subscriber h) [
  | inl e ↦ (c, here c, (w, o, e))
  | inr e ↦
      let (d, r, b) = taken c o in
      (d, on c d (subst (λ x. Resumes x d) (sym (resume_woken c w e)) r), b)
]

idle_open : (d : Connection) → IsIdle d → d.subscriber.closed ≡ false
unfolding IsIdle
idle_open d h = h.1

idle_delivered : (d : Connection) → IsIdle d → entrusted d ≡ privates d.socket
unfolding IsIdle privates
idle_delivered d h =
    entrusted_at waiting d h.0
    ∙ ap (λ p. privates d.socket ++ p) h.2
    ∙ append-nil (privates d.socket)

IsPrompt-Resumes : (a b : Connection) → Resumes a b → IsPrompt a.subscriber → IsPrompt b.subscriber
IsPrompt-Resumes a b (here _) h = h
IsPrompt-Resumes a b (on _ _ p) h =
    IsPrompt-Resumes (resume a.writer a) b p (IsPrompt-resume a.writer a h)

-- A writer inside a batch comes back to its event.
rest_written :
    (batch : List Frame) (n p : ℕ) (c : Connection)
    → c.subscriber.closed ≡ false
    → (d : Connection) × Resumes (resume (writing batch n p) c) d × IsBack c d
unfolding resume IsBack
rest_written [] n p c o = written [] n p c o
rest_written (f ∷ batch) n p c o = written batch n p (record c { socket = c.socket ++ (f ∷ []) }) o

back_idle :
    (c d : Connection)
    → Resumes c d
    → IsBack c d
    → IsPrompt c.subscriber
    → (x : Connection) × Resumes c x × IsIdle x
unfolding IsBack
back_idle c d r b h =
    let (x, s, i) = unqueued d b.0 b.1 (IsPrompt-Resumes c d r h) in (x, joined c d x r s, i)

-- From a writer that has not ended, wherever it stands.
drained :
    (w : Writer) (c : Connection)
    → c.writer ≡ w
    → HasEnded w c.subscriber
    → c.subscriber.closed ≡ false
    → IsPrompt c.subscriber
    → (d : Connection) × Resumes c d × IsIdle d
unfolding HasEnded
drained waiting c q e o h = unqueued c q o h
drained (writing batch n p) c q e o h =
    let (d, r, b) = rest_written batch n p c o in
    back_idle c d (on c d (subst (λ w. Resumes (resume w c) d) (sym q) r)) b h
drained (done batch) c q e o h = absurd (cc (e, o))

entrusted-run-connect :
    (es : List Event) (user_id private_max : ℕ)
    → entrusted (run es (connect user_id private_max)) ≡ accepted es (connect user_id private_max)
unfolding entrusted
entrusted-run-connect es user_id private_max = run_delivers es user_id private_max

-- On a connection that is still open, whatever has happened to it, the writer's sends need only
-- return often enough: then the socket has taken every private frame that was accepted, in order,
-- and the connection is still open.
pub open_delivers :
    (es : List Event) (user_id private_max : ℕ)
    → (run es (connect user_id private_max)).subscriber.closed ≡ false
    → (d : Connection) × Resumes (run es (connect user_id private_max)) d
      × (d.subscriber.closed ≡ false)
      × (privates d.socket ≡ accepted es (connect user_id private_max))
open_delivers es user_id private_max o =
    let c = run es (connect user_id private_max) in
    let (d, r, i) =
      drained c.writer c refl (run-HasEnded es user_id private_max) o
        (run-IsPrompt es user_id private_max) in
    (
      d,
      r,
      idle_open d i,
      sym (idle_delivered d i)
          ∙ entrusted-Resumes c d r
          ∙ entrusted-run-connect es user_id private_max,
    )
