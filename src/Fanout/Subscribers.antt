-- ===== src/Fanout/Subscribers.antt =====
-- services/fanout/subscribers.py: one WebSocket connection. Frames are queued by the tick and by the
-- private stream, and a writer task sends them. The writer is modelled between its awaits, so that
-- frames may arrive while it writes. The proofs are in the modules below.
pub mod Delivery
pub mod Channels
pub mod Progress
pub mod Ending
pub mod Drain
mod Tests
use quant_arena.Prelude.{
  ℕ, ◌+◌, String, Bool, true, false, ◌&&◌, ◌||◌, not, List, [], ◌∷◌, ◌++◌, map, leb, length,
  if◌then◌else◌, text_eq,
}
use quant_arena.Dict.{contains, add}

-- The socket takes strings; the constructor says which of the two offers a string came by.
pub data Frame : Type 0 where
  market_frame : String → Frame
  private_frame : String → Frame

pub record Subscriber : Type 0 where
  pub user_id : ℕ
  pub channels : List String
  pub fresh : List String
  pub private_max : ℕ
  pub market : List String
  pub private : List String
  pub wake : Bool
  pub busy : Bool
  pub closed : Bool
  pub overflowed : Bool
  pub sent : ℕ
  pub skipped : ℕ
  pub private_sent : ℕ

-- `Subscriber(user_id=..., send=..., private_max=...)`
abbrev pub new_subscriber : ℕ → ℕ → Subscriber
new_subscriber user_id private_max = record {
  user_id = user_id;
  channels = [];
  fresh = [];
  private_max = private_max;
  market = [];
  private = [];
  wake = false;
  busy = false;
  closed = false;
  overflowed = false;
  sent = 0;
  skipped = 0;
  private_sent = 0;
}

-- `_hand_over`
unfoldable pub hand_over : Subscriber → Subscriber
hand_over s = record s { busy = true; wake = true }

unfoldable pub offer_market : String → Subscriber → Bool × Subscriber
offer_market frame s =
    if s.closed
    then (false, s)
    else if s.busy
    then (false, record s { skipped = s.skipped + 1 })
    else (true, record s { market = s.market ++ (frame ∷ []) })

unfoldable pub offer_private : String → Subscriber → Bool × Subscriber
offer_private frame s =
    if s.closed
    then (false, s)
    else if leb s.private_max (length s.private)
    then (false, record s { overflowed = true })
    else (true, hand_over (record s { private = s.private ++ (frame ∷ []) }))

-- `s | t`
unfoldable pub union : List String → List String → List String
union s [] = s
union s (c ∷ t) = add c (union s t)

-- `s - t`
unfoldable pub difference : List String → List String → List String
difference [] t = []
difference (c ∷ s) t = let rest = difference s t in if contains c t then rest else c ∷ rest

unfoldable pub subscribe : List String → Subscriber → Subscriber
subscribe channels s =
    let new = difference channels s.channels in
    record s { channels = union s.channels channels; fresh = union s.fresh new }

unfoldable pub unsubscribe : List String → Subscriber → Subscriber
unsubscribe channels s = record s {
  channels = difference s.channels channels;
  fresh = difference s.fresh channels;
}

unfoldable pub take_fresh : Subscriber → List String × Subscriber
take_fresh s = (s.fresh, record s { fresh = [] })

abbrev is_empty : List String → Bool
is_empty [] = true
is_empty (x ∷ xs) = false

unfoldable pub flush : Subscriber → Subscriber
flush s = if s.closed || (is_empty s.market && is_empty s.private) then s else hand_over s

-- Where `_run` stands: at `wake.wait()`; inside the `for`, with the frames that it has not sent, the
-- size of the batch and its number of private frames; or at an end, with what it did not send.
pub data Writer : Type 0 where
  waiting : Writer
  writing : List Frame → ℕ → ℕ → Writer
  done : List Frame → Writer

-- A subscriber, its writer task, and what the socket has taken.
pub record Connection : Type 0 where
  pub subscriber : Subscriber
  pub writer : Writer
  pub socket : List Frame

abbrev pub connect : ℕ → ℕ → Connection
connect user_id private_max = record {
  subscriber = new_subscriber user_id private_max;
  writer = waiting;
  socket = [];
}

-- The `while` of `_run`: a closed subscriber ends it.
unfoldable pub loop : Connection → Connection
loop c = record c { writer = if c.subscriber.closed then done [] else waiting }

-- After the `for`: a batch that is out is counted, and the loop goes round.
unfoldable pub finish : List Frame → ℕ → ℕ → Connection → Connection
unfolding loop
finish [] size private_count c =
    let s = c.subscriber in
    loop (record c {
      subscriber = record s {
        sent = s.sent + size;
        private_sent = s.private_sent + private_count;
        busy = false;
      };
    })
finish (f ∷ batch) size private_count c = record c {
  writer = writing (f ∷ batch) size private_count;
}

-- From `wake.wait()` to the first `await`: private frames come first in the batch.
unfoldable pub take_batch : Connection → Connection
unfolding finish
take_batch c =
    let s = c.subscriber in
    let batch = map private_frame s.private ++ map market_frame s.market in
    finish batch (length batch) (length s.private)
      (record c { subscriber = record s { wake = false; private = []; market = [] } })

-- The writer goes on: it wakes if the event is set, or a `send` returns.
unfoldable pub resume : Writer → Connection → Connection
unfolding take_batch
resume waiting c = if c.subscriber.wake then take_batch c else c
resume (writing [] size private_count) c = finish [] size private_count c
resume (writing (f ∷ batch) size private_count) c =
    finish batch size private_count (record c { socket = c.socket ++ (f ∷ []) })
resume (done batch) c = c

-- A `send` raises: the socket is gone.
unfoldable pub break_off : Writer → Connection → Connection
break_off waiting c = c
break_off (writing batch size private_count) c =
    let s = c.subscriber in
    record c { subscriber = record s { closed = true; busy = false }; writer = done batch }
break_off (done batch) c = c

-- What the writer took from the queues and has not sent.
abbrev pub unsent : Writer → List Frame
unsent waiting = []
unsent (writing batch size private_count) = batch
unsent (done batch) = batch

-- `stop` closes the subscriber and cancels the writer at its `await`.
unfoldable pub stop : Connection → Connection
stop c =
    let s = c.subscriber in
    record c {
      subscriber = record s { closed = true; wake = true };
      writer = done (unsent c.writer);
    }
