-- ===== src/Contiki/Queue/Wakeup.antt =====
-- No wake-up of es1.c is lost.
use nsdscourse.Base.{
  ℕ, ◌≤◌, ◌≡◌, refl, ◌⊎◌, List, [], ◌∷◌, ◌++◌, arith, Bool, true, false, ◌||◌, ap, if_intro,
}
use nsdscourse.Contiki.Queue.{
  Post, put, pop, System, producer, consumer, deliver_first, step, run, start, capacity, Event,
  producer_timer, consumer_timer, deliver, added, popped,
}

abbrev pub is_added : Post → Bool
is_added added = true
is_added popped = false

-- An `added` event is on its way to the consumer; a `popped` event to the producer.
abbrev pub any_added : List Post → Bool
any_added [] = false
any_added (added ∷ ps) = true
any_added (popped ∷ ps) = any_added ps

abbrev pub any_popped : List Post → Bool
any_popped [] = false
any_popped (popped ∷ ps) = true
any_popped (added ∷ ps) = any_popped ps

-- A process whose timer has expired waits only while the queue gives it nothing to do, or an event
-- is on its way that makes it look again.
pub record IsAwake (s : System) : Type 0 where
  pub producer_waits :
      s.producer_expired ≡ true → (capacity ≤ s.cells.num_el) ⊎ (any_popped s.waiting ≡ true)
  pub consumer_waits :
      s.consumer_expired ≡ true → (s.cells.num_el ≡ 0) ⊎ (any_added s.waiting ≡ true)
  pub not_started : s.consumer_started ≡ false → s.consumer_expired ≡ false

any_added-append : (ps qs : List Post) → any_added (ps ++ qs) ≡ (any_added ps || any_added qs)
any_added-append [] qs = refl
any_added-append (added ∷ ps) qs = refl
any_added-append (popped ∷ ps) qs = any_added-append ps qs

any_popped-append : (ps qs : List Post) → any_popped (ps ++ qs) ≡ (any_popped ps || any_popped qs)
any_popped-append [] qs = refl
any_popped-append (popped ∷ ps) qs = refl
any_popped-append (added ∷ ps) qs = any_popped-append ps qs

-- What holds of the consumer's timer when the producer is about to look, and the other way round.
abbrev ConsumerAwake : System → Type 0
ConsumerAwake s =
    (s.consumer_expired ≡ true → (s.cells.num_el ≡ 0) ⊎ (any_added s.waiting ≡ true))
    × (s.consumer_started ≡ false → s.consumer_expired ≡ false)

abbrev ProducerAwake : System → Type 0
ProducerAwake s =
    s.producer_expired ≡ true → (capacity ≤ s.cells.num_el) ⊎ (any_popped s.waiting ≡ true)

producer-IsAwake : (rand : ℕ) (s : System) → ConsumerAwake s → IsAwake (producer rand s)
unfolding producer put
producer-IsAwake rand s h =
    ground
      (arith, any_added-append s.waiting (added ∷ []), any_popped-append s.waiting (added ∷ []))

consumer-IsAwake :
    (s : System)
    → ProducerAwake s
    → (s.consumer_started ≡ false → s.consumer_expired ≡ false)
    → IsAwake (consumer s)
unfolding consumer pop
consumer-IsAwake s h k =
    ground
      (arith, any_added-append s.waiting (popped ∷ []), any_popped-append s.waiting (popped ∷ []))

deliver-IsAwake :
    (ps : List Post) (rand : ℕ) (s : System)
    → s.waiting ≡ ps
    → IsAwake s
    → IsAwake (deliver_first ps rand s)
unfolding deliver_first
deliver-IsAwake [] rand s e h = h
deliver-IsAwake (added ∷ rest) rand s e h =
    consumer-IsAwake (record s { waiting = rest })
      (λ q. ground (arith, h.producer_waits q, ap any_popped e)) h.not_started
deliver-IsAwake (popped ∷ rest) rand s e h =
    producer-IsAwake rand (record s { waiting = rest })
      (λ q. ground (arith, h.consumer_waits q, ap any_added e), h.not_started)

step-IsAwake : (s : System) (e : Event) (rand : ℕ) → IsAwake s → IsAwake (step s e rand)
unfolding step
step-IsAwake s producer_timer rand h =
    producer-IsAwake rand (record s { producer_expired = true }) (h.consumer_waits, h.not_started)
step-IsAwake s consumer_timer rand h =
    let ringing = record s { consumer_expired = true } in
    if_intro IsAwake s.consumer_started (consumer ringing) s
      (λ on. consumer-IsAwake ringing h.producer_waits (λ q. cc)) (λ off. h)
step-IsAwake s deliver rand h = deliver-IsAwake s.waiting rand s refl h

run-keeps : (s : System) (es : List (Event × ℕ)) → IsAwake s → IsAwake (run s es)
unfolding run
run-keeps s [] h = h
run-keeps s ((e, rand) ∷ es) h = run-keeps (step s e rand) es (step-IsAwake s e rand h)

-- In every run a process whose timer has expired is held up only by a full queue, or an empty one
-- for the consumer, unless an event that wakes it is on its way.
pub run-IsAwake : (queue : List ℕ) (es : List (Event × ℕ)) → IsAwake (run (start queue) es)
run-IsAwake queue es =
    run-keeps (start queue) es
      (record { producer_waits = λ h. cc; consumer_waits = λ h. cc; not_started = λ h. refl })
