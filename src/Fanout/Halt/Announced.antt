-- ===== src/Fanout/Halt/Announced.antt =====
-- After every tick the clients have been told what the view holds, although a frame is sent on a
-- change only.
use quant_arena.Prelude.{
  ℕ, ◌+◌, ◌<◌, ◌≡◌, refl, ◌⊎◌, String, Bool, true, false, ◌&&◌, Option, none, some, List, [], ◌∷◌,
  arith, nat_eq, text_eq, inl, inr, Bool-cases, ==-cases, if◌then◌else◌,
}
use quant_arena.Fanout.Halt.{
  HaltView, new_view, redis_unreachable, gateway_unreachable, no_gateway, no_state, Reading,
  unreachable, absent, unreadable, no_object, published, same_flag, same_reason, set, refresh,
  watch, HaltFrame, halted_frame, resumed_frame, halt_frame,
}

-- What a client shows: the market is open, or halted for a reason.
pub data Belief : Type 0 where
  open_market : Belief
  halted_market : Option String → Belief

unfoldable pub believe : Option HaltFrame → Belief → Belief
believe none b = b
believe (some (halted_frame reason detail)) b = halted_market reason
believe (some resumed_frame) b = open_market

-- The belief that fits a view.
unfoldable pub state_of : HaltView → Belief
state_of v = if v.halted then halted_market v.reason else open_market

pub data HaltEvent : Type 0 where
  polled : Reading → HaltEvent
  ticked : HaltEvent

pub record Feed : Type 0 where
  pub watching : Bool
  pub view : HaltView
  pub seen : ℕ
  pub belief : Belief

-- A feed at start: a client that was told nothing shows an open market.
abbrev pub new_feed : Feed
new_feed = record { watching = true; view = new_view; seen = 0; belief = open_market }

unfoldable pub tick : Feed → Feed
tick f =
    let (frame, seen) = halt_frame f.view f.seen in
    record f { seen = seen; belief = believe frame f.belief }

unfoldable pub poll : Reading → Feed → Feed
poll r f =
    let (watching, view) = watch r (f.watching, f.view) in
    record f { watching = watching; view = view }

unfoldable pub run : List HaltEvent → Feed → Feed
run [] f = f
run (polled r ∷ es) f = run es (poll r f)
run (ticked ∷ es) f = run es (tick f)

-- The frames that were sent are behind the view, or tell what it holds.
unfoldable pub IsCurrent : Feed → Type 0
IsCurrent f =
    (f.seen < f.view.transitions) ⊎ ((f.seen ≡ f.view.transitions) × (f.belief ≡ state_of f.view))

set-IsCurrent :
    (halted : Bool) (reason detail : Option String) (f : Feed)
    → IsCurrent f
    → IsCurrent (record f { view = (set halted reason detail f.view).1 })
unfolding set IsCurrent state_of
set-IsCurrent halted reason detail f h =
    let changed : (f.seen < f.view.transitions)
          ⊎ ((f.seen ≡ f.view.transitions) × (f.belief ≡ state_of f.view))
        → (f.seen < f.view.transitions + 1)
          ⊎ ((f.seen ≡ f.view.transitions + 1)
              × (f.belief ≡ (if halted then halted_market reason else open_market))) =
      λ g. elim g [ inl l ↦ inl (omega arith) | inr e ↦ inl (omega (arith, e.0)) ] in
    elim (Bool-cases (same_flag halted f.view.halted && same_reason reason f.view.reason)) [
      | inl t ↦ simp t h
      | inr t ↦ simp t (changed h)
    ]

watch-IsCurrent :
    (r : Reading) (on : Bool) (f : Feed)
    → IsCurrent f
    → let (watching, view) = watch r (on, f.view) in
      IsCurrent (record f { watching = watching; view = view })
unfolding watch refresh IsCurrent
watch-IsCurrent r false f h = h
watch-IsCurrent (unreachable text) true f h =
    set-IsCurrent true (some redis_unreachable) (some text) f h
watch-IsCurrent absent true f h =
    set-IsCurrent true (some gateway_unreachable) (some no_gateway) f h
watch-IsCurrent unreadable true f h =
    set-IsCurrent true (some gateway_unreachable) (some no_state) f h
watch-IsCurrent no_object true f h = h
watch-IsCurrent (published halted reason detail) true f h = set-IsCurrent halted reason detail f h

poll-IsCurrent : (r : Reading) (f : Feed) → IsCurrent f → IsCurrent (poll r f)
unfolding poll
poll-IsCurrent r f h = watch-IsCurrent r f.watching f h

view-tick : (f : Feed) → (tick f).view ≡ f.view
unfolding tick
view-tick f = refl

tick_announces :
    (f : Feed)
    → IsCurrent f
    → ((tick f).seen ≡ f.view.transitions) × ((tick f).belief ≡ state_of f.view)
unfolding tick halt_frame IsCurrent state_of believe
tick_announces f h = elim (==-cases f.view.transitions f.seen) [
  | inl (t, e) ↦ simp t (elim h [ inl l ↦ absurd (omega (arith, e)) | inr g ↦ g ])
  | inr (t, n) ↦ elim (Bool-cases f.view.halted) [
    | inl d ↦ simp (t, d) (refl, refl)
    | inr d ↦ simp (t, d) (refl, refl)
  ]
]

tick-IsCurrent : (f : Feed) → IsCurrent f → IsCurrent (tick f)
unfolding IsCurrent tick
tick-IsCurrent f h = inr (tick_announces f h)

run-IsCurrent : (es : List HaltEvent) (f : Feed) → IsCurrent f → IsCurrent (run es f)
unfolding run
run-IsCurrent [] f h = h
run-IsCurrent (polled r ∷ es) f h = run-IsCurrent es _ (poll-IsCurrent r f h)
run-IsCurrent (ticked ∷ es) f h = run-IsCurrent es (tick f) (tick-IsCurrent f h)

-- After any polls of the halt key, whatever they read, and any ticks, one more tick leaves a client that heard every frame
-- with exactly the state that the view holds: halted, for its reason, or open.
pub tick-run :
    (es : List HaltEvent) → (tick (run es new_feed)).belief ≡ state_of (tick (run es new_feed)).view
unfolding tick
tick-run es =
    (tick_announces (run es new_feed)
      (run-IsCurrent es new_feed (unfold IsCurrent state_of in inr (refl, refl)))).1
