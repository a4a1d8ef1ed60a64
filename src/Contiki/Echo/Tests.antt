-- ===== src/Contiki/Echo/Tests.antt =====
-- Runs and instances of the counting client.
use nsdscourse.Base.{
  ◌+◌, ◌%◌, ◌^◌, ◌≡◌, refl, true, false, ◌||◌, List, [], ◌∷◌, ◌++◌, replicate, if◌then◌else◌, arith,
}
use nsdscourse.Contiki.Echo.{
  Event, answer, timeout, deliver, step, run, start, client_wakes, client_receives,
  client_times_out,
}
use nsdscourse.Contiki.Echo.Streak.{any_answer, Rounds}
use nsdscourse.Contiki.Echo.Bursts.{run-counts}

-- Two answers come before the process handles an event, a round has no answer, and then an answer
-- comes while the root cannot be reached.
abbrev events : List Event
events =
    timeout
    ∷ deliver true
    ∷ answer true
    ∷ answer true
    ∷ deliver true
    ∷ deliver true
    ∷ timeout
    ∷ deliver true
    ∷ answer true
    ∷ deliver false
    ∷ timeout
    ∷ deliver true
    ∷ []

counts : (run start events).sent ≡ 0 ∷ 1 ∷ 0 ∷ 1 ∷ []
unfolding run step client_wakes client_receives client_times_out
counts = refl

abbrev burst : List Event
burst = answer true ∷ timeout ∷ answer false ∷ []

run-counts_example :
    let c = run start events in
    Rounds 0 events c.sent
    × ((run c (burst ++ replicate 3 (deliver true))).sent
        ≡ c.sent ++ ((if c.received || any_answer burst then (c.count + 1) % 2 ^ 32 else 0) ∷ []))
unfolding run step client_wakes client_receives client_times_out
run-counts_example = run-counts events burst 3 tt refl (omega arith)
