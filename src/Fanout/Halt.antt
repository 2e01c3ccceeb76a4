-- ===== src/Fanout/Halt.antt =====
-- services/fanout/halt.py: the halt state that the gateway publishes, as the fan-out reads it, and
-- `Conflator._halt_frame` of services/fanout/conflation.py, which tells the clients.
pub mod Announced
mod Tests
use quant_arena.Prelude.{
  ℕ, ◌+◌, String, Bool, true, false, ◌&&◌, not, Option, none, some, ◌==◌, nat_eq, text_eq,
  if◌then◌else◌,
}

pub record HaltView : Type 0 where
  pub halted : Bool
  pub reason : Option String
  pub detail : Option String
  pub transitions : ℕ

-- `HaltView()`
abbrev pub new_view : HaltView
new_view = record { halted = false; reason = none; detail = none; transitions = 0 }

-- `HaltReason`
abbrev pub redis_unreachable : String
redis_unreachable = "redis_unreachable"

abbrev pub gateway_unreachable : String
gateway_unreachable = "gateway_unreachable"

abbrev pub no_gateway : String
no_gateway = "no gateway is publishing a halt state"

abbrev pub no_state : String
no_state = "halt key is not readable"

-- What a read of the key gives: Redis fails with a text, there is no key, it does not parse, it parses
-- to a value that is no object, or it holds a published state.
pub data Reading : Type 0 where
  unreachable : String → Reading
  absent : Reading
  unreadable : Reading
  no_object : Reading
  published : Bool → Option String → Option String → Reading

abbrev pub same_flag : Bool → Bool → Bool
same_flag true b = b
same_flag false b = not b

abbrev pub same_reason : Option String → Option String → Bool
same_reason none none = true
same_reason none (some b) = false
same_reason (some a) none = false
same_reason (some a) (some b) = a == b

-- `_set`: true if the state changed; a new detail alone does not count.
unfoldable pub set : Bool → Option String → Option String → HaltView → Bool × HaltView
set halted reason detail v =
    if same_flag halted v.halted && same_reason reason v.reason
    then (false, record v { detail = detail })
    else (
      true,
      record { halted = halted; reason = reason; detail = detail; transitions = v.transitions + 1 },
    )

-- `refresh`. `none` is the `AttributeError` of `state.get`, which nothing catches.
unfoldable pub refresh : Reading → HaltView → Option (Bool × HaltView)
unfolding set
refresh (unreachable text) v = some (set true (some redis_unreachable) (some text) v)
refresh absent v = some (set true (some gateway_unreachable) (some no_gateway) v)
refresh unreadable v = some (set true (some gateway_unreachable) (some no_state) v)
refresh no_object v = none
refresh (published halted reason detail) v = some (set halted reason detail v)

-- One turn of the loop of `watch_halt` in services/fanout/server.py: whether it still runs, and the
-- view. An exception ends the task, and the view keeps what it held.
unfoldable pub watch : Reading → Bool × HaltView → Bool × HaltView
unfolding refresh
watch r (false, v) = (false, v)
watch r (true, v) = elim (refresh r v) [ none ↦ (false, v) | some p ↦ (true, p.1) ]

-- `messages.halted(reason, detail)` and `messages.resumed()`, before they are encoded.
pub data HaltFrame : Type 0 where
  halted_frame : Option String → Option String → HaltFrame
  resumed_frame : HaltFrame

-- `_halt_frame`, with `_halt_transitions` as its state: the frame for all connections, if any.
unfoldable pub halt_frame : HaltView → ℕ → Option HaltFrame × ℕ
halt_frame v seen =
    if v.transitions == seen
    then (none, seen)
    else (some (if v.halted then halted_frame v.reason v.detail else resumed_frame), v.transitions)
