-- ===== src/Contiki/Queue/Tests.antt =====
-- Runs and instances of es1.c.
use nsdscourse.Base.{ℕ, ◌≡◌, refl, List, [], ◌∷◌, replicate}
use nsdscourse.Contiki.Queue.{
  Cells, put, shift, pop, Event, producer_timer, consumer_timer, deliver, producer, consumer,
  deliver_first, step, run, start,
}
use nsdscourse.Contiki.Queue.Fifo.{IsFifo, run-IsFifo}
use nsdscourse.Contiki.Queue.Wakeup.{IsAwake, run-IsAwake}

abbrev zeros : List ℕ
zeros = replicate 10 0

abbrev two_items : Cells
two_items = record { queue = 7 ∷ 8 ∷ replicate 8 0; num_el = 2 }

-- Two items are added, the consumer starts on the first delivery and pops one.
abbrev schedule : List (Event × ℕ)
schedule =
    (producer_timer, 23)
    ∷ (deliver, 0)
    ∷ (producer_timer, 45)
    ∷ (consumer_timer, 0)
    ∷ (deliver, 0)
    ∷ []

popped_first : (run (start zeros) schedule).log_popped ≡ 3 ∷ []
unfolding run step producer consumer deliver_first put shift pop
popped_first = refl

run-IsFifo_example : IsFifo (run (start zeros) schedule)
run-IsFifo_example = run-IsFifo zeros schedule refl

run-IsAwake_example : IsAwake (run (start zeros) schedule)
run-IsAwake_example = run-IsAwake zeros schedule
