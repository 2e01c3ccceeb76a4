-- ===== src/Fanout/Subscribers/Tests.antt =====
-- Runs of a connection, and its theorems at concrete events.
use quant_arena.Prelude.{
  ◌≡◌, refl, String, false, ◌&&◌, ◌||◌, not, List, [], ◌∷◌, ◌++◌, length, text_eq,
}
use quant_arena.Dict.{contains}
use quant_arena.Fanout.Subscribers.{
  new_subscriber, subscribe, unsubscribe, hand_over, offer_market, offer_private, writing,
  private_frame, Connection, connect, loop, finish, take_batch, resume, unsent,
}
use quant_arena.Fanout.Subscribers.Channels.{subscribe_lem}
use quant_arena.Fanout.Subscribers.Delivery.{
  Event, market_offered, private_offered, resumed, step, run, accepted, accepted_now, privates,
  run_delivers,
}
use quant_arena.Fanout.Subscribers.Progress.{IsPrompt, run-IsPrompt}
use quant_arena.Fanout.Subscribers.Drain.{Resumes, open_delivers}

-- A second frame arrives while the writer sends the first.
abbrev overlapping : List Event
overlapping =
    market_offered "book"
    ∷ private_offered "first"
    ∷ resumed
    ∷ private_offered "second"
    ∷ resumed
    ∷ resumed
    ∷ resumed
    ∷ []

-- The second batch is being written, and `busy` is false: the end of the first batch cleared it.
not_busy :
    ((run overlapping (connect 7 10)).subscriber.busy ≡ false)
    × ((run overlapping (connect 7 10)).writer ≡ writing (private_frame "second" ∷ []) 1 1)
    × (accepted overlapping (connect 7 10) ≡ "first" ∷ "second" ∷ [])
unfolding run step accepted accepted_now offer_market offer_private hand_over resume take_batch
    finish loop length
not_busy = (refl, refl, refl)

run_delivers_example :
    let c = run overlapping (connect 7 10) in
    privates c.socket ++ (privates (unsent c.writer) ++ c.subscriber.private)
    ≡ accepted overlapping (connect 7 10)
run_delivers_example = run_delivers overlapping 7 10

run-IsPrompt_example : IsPrompt (run overlapping (connect 7 10)).subscriber
run-IsPrompt_example = run-IsPrompt overlapping 7 10

open_delivers_example :
    (d : Connection) × Resumes (run overlapping (connect 7 10)) d
    × (d.subscriber.closed ≡ false)
    × (privates d.socket ≡ accepted overlapping (connect 7 10))
unfolding run step offer_market offer_private hand_over resume take_batch finish loop length
open_delivers_example = open_delivers overlapping 7 10 refl

abbrev tape : List String
tape = "tape:A" ∷ []

subscribe_lem_example :
    let s = subscribe tape (new_subscriber 7 10) in
    (contains {K = String} "book" (subscribe ("book" ∷ tape) s).channels
      ≡ (contains {K = String} "book" s.channels || contains {K = String} "book" ("book" ∷ tape)))
    × (contains {K = String} "book" (subscribe ("book" ∷ tape) s).fresh ≡ (
        contains {K = String} "book" s.fresh
        || contains {K = String} "book" ("book" ∷ tape)
          && not (contains {K = String} "book" s.channels)))
    × (contains {K = String} "book" (unsubscribe ("book" ∷ tape) s).channels ≡ (
        contains {K = String} "book" s.channels
        && not (contains {K = String} "book" ("book" ∷ tape))))
    × (contains {K = String} "book" (unsubscribe ("book" ∷ tape) s).fresh ≡ (
        contains {K = String} "book" s.fresh && not (contains {K = String} "book" ("book" ∷ tape))))
subscribe_lem_example = subscribe_lem "book" ("book" ∷ tape) (subscribe tape (new_subscriber 7 10))
