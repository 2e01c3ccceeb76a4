-- ===== src/Fanout/Halt/Tests.antt =====
-- An outage that is announced once, and its end.
use quant_arena.Prelude.{◌≡◌, refl, false, none, some, List, [], ◌∷◌, nat_eq, text_eq}
use quant_arena.Fanout.Halt.{
  absent, no_object, published, set, refresh, watch, halt_frame, gateway_unreachable,
}
use quant_arena.Fanout.Halt.Announced.{
  HaltEvent, polled, ticked, new_feed, tick, poll, run, believe, halted_market, open_market,
  state_of, tick-run,
}

abbrev outage : List HaltEvent
outage = polled absent ∷ ticked ∷ polled absent ∷ ticked ∷ []

abbrev recovery : List HaltEvent
recovery = polled absent ∷ ticked ∷ polled (published false none none) ∷ ticked ∷ []

outage_end :
    ((run outage new_feed).belief ≡ halted_market (some gateway_unreachable))
    × ((run outage new_feed).seen ≡ 1)
    × ((run recovery new_feed).belief ≡ open_market)
    × ((run recovery new_feed).seen ≡ 2)
unfolding run poll watch refresh set tick halt_frame believe
outage_end = (refl, refl, refl, refl)

-- A key that holds a number ends the watch: the market stays open for the clients, although there is
-- no gateway any more.
watch_ends :
    let f = run (polled no_object ∷ polled absent ∷ ticked ∷ []) new_feed in
    (f.watching ≡ false) × (f.belief ≡ open_market)
unfolding run poll watch refresh set tick halt_frame believe
watch_ends = (refl, refl)

tick-run_example : (tick (run outage new_feed)).belief ≡ state_of (tick (run outage new_feed)).view
tick-run_example = tick-run outage
