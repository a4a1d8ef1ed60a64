-- ===== src/Examples/Events/Tests.antt =====
-- A run of protothreads-events.c.
use nsdscourse.Base.{◌≡◌, refl, some, List, [], ◌∷◌}
use nsdscourse.Examples.Events.{
  Choice, next_event, expire, start, step, run, deliver, ping_turn, pong_turn, sent_first_ping,
  sent_ping, sent_pong, got_ping, got_pong,
}
use nsdscourse.Examples.Events.Turns.{after, rounds}

abbrev choices : List Choice
choices = next_event ∷ next_event ∷ next_event ∷ expire ∷ next_event ∷ []

five_steps : run choices start ≡ some (after 5)
unfolding run step deliver ping_turn pong_turn rounds
five_steps = refl

lines_of_a_round :
    (after 5).printed ≡ sent_first_ping ∷ got_ping 0 ∷ sent_pong ∷ got_pong 1 ∷ sent_ping ∷ []
unfolding rounds
lines_of_a_round = refl
