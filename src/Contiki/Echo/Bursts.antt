-- ===== src/Contiki/Echo/Bursts.antt =====
-- What a burst of answers and time-outs makes the client of es3 send.
use nsdscourse.Base.{
  ℕ, zero, suc, ◌+◌, ◌%◌, ◌^◌, ◌≤◌, ◌<◌, ◌≡◌, refl, ap, ◌∙◌, Bool, true, false, ◌||◌, List, [], ◌∷◌,
  ◌++◌, length, replicate, if◌then◌else◌, arith,
}
use nsdscourse.Contiki.Echo.{
  Client, client_wakes, client_receives, client_times_out, next_count, deliver_next, Event, answer,
  timeout, deliver, step, run, start,
}
use nsdscourse.Contiki.Echo.Streak.{client, any_answer, Rounds, run-Rounds}

-- No event is handled meanwhile.
abbrev pub IsBurst : List Event → Type 0
IsBurst [] = Unit
IsBurst (answer posted ∷ es) = IsBurst es
IsBurst (timeout ∷ es) = IsBurst es
IsBurst (deliver reachable ∷ es) = ⊥

-- An answer whose event could be posted, or a time-out.
abbrev pub any_post : List Event → Bool
any_post [] = false
any_post (answer posted ∷ es) = posted || any_post es
any_post (timeout ∷ es) = true
any_post (deliver reachable ∷ es) = any_post es

-- The event of an expired timer is on its way.
abbrev IsAwake : Client → Type 0
IsAwake c = c.expired ≡ true → 0 < c.waiting

wakes-IsAwake : (r : Bool) (c : Client) → (client_wakes r c).expired ≡ false
unfolding client_wakes
wakes-IsAwake r c = ground arith

deliver_next-IsAwake :
    (n : ℕ) (r : Bool) (c : Client) → c.waiting ≡ n → IsAwake c → IsAwake (deliver_next n r c)
deliver_next-IsAwake zero r c e h = h
deliver_next-IsAwake (suc n) r c e h =
    λ q. ground (arith, wakes-IsAwake r (record c { waiting = n }))

step-IsAwake : (c : Client) (e : Event) → IsAwake c → IsAwake (step c e)
unfolding step client_receives client_times_out
step-IsAwake c (answer posted) h = λ q. ground (arith, h q)
step-IsAwake c timeout h = λ q. ground arith
step-IsAwake c (deliver r) h = deliver_next-IsAwake c.waiting r c refl h

run-IsAwake : (es : List Event) (c : Client) → IsAwake c → IsAwake (run c es)
unfolding run
run-IsAwake [] c h = h
run-IsAwake (e ∷ es) c h = run-IsAwake es (step c e) (step-IsAwake c e h)

run-append : (xs ys : List Event) (c : Client) → run c (xs ++ ys) ≡ run (run c xs) ys
unfolding run
run-append [] ys c = refl
run-append (e ∷ xs) ys c = run-append xs ys (step c e)

-- What a burst does: nothing is sent, and the client is to be woken if there is a post in it.
record Burst (c c' : Client) (burst : List Event) : Type 0 where
  sent : c'.sent ≡ c.sent
  count : c'.count ≡ c.count
  received : c'.received ≡ (c.received || any_answer burst)
  bounded : c'.waiting ≤ c.waiting + length burst
  kept : c.waiting ≤ c'.waiting
  still : c.expired ≡ true → c'.expired ≡ true
  posted : IsAwake c → any_post burst ≡ true → 0 < c'.waiting
  caused : any_post burst ≡ true → (c'.expired || c'.received) ≡ true

answer-Burst :
    (posted : Bool) (es : List Event) (c c' : Client)
    → Burst (client_receives posted c) c' es
    → Burst c c' (answer posted ∷ es)
unfolding client_receives
answer-Burst posted es c c' b = record {
  sent = b.sent;
  count = b.count;
  received = ground (arith, b.received);
  bounded = ground (arith, b.bounded);
  kept = ground (arith, b.kept);
  still = b.still;
  posted = λ w q. ground (arith, b.kept, b.posted (λ e. ground (arith, w e)));
  caused = λ q. ground (arith, b.received);
}

timeout-Burst :
    (es : List Event) (c c' : Client) → Burst (client_times_out c) c' es → Burst c c' (timeout ∷ es)
unfolding client_times_out
timeout-Burst es c c' b = record {
  sent = ground (arith, b.sent);
  count = ground (arith, b.count);
  received = ground (arith, b.received);
  bounded = ground (arith, b.bounded);
  kept = ground (arith, b.kept);
  still = λ q. ground (arith, b.still);
  posted = λ w q. ground (arith, b.kept, w);
  caused = λ q. ground (arith, b.still);
}

run-Burst : (burst : List Event) (c : Client) → IsBurst burst → Burst c (run c burst) burst
unfolding run step
run-Burst [] c h = record {
  sent = refl;
  count = refl;
  received = ground arith;
  bounded = omega arith;
  kept = omega arith;
  still = λ q. q;
  posted = λ w q. cc;
  caused = λ q. cc;
}
run-Burst (answer posted ∷ es) c h =
    answer-Burst posted es c _ (run-Burst es (client_receives posted c) h)
run-Burst (timeout ∷ es) c h = timeout-Burst es c _ (run-Burst es (client_times_out c) h)
run-Burst (deliver r ∷ es) c h = absurd h

-- Once nothing is to be counted, the events on their way make it send nothing.
run-quiet :
    (n count waiting : ℕ) (sent : List ℕ)
    → (run (client count false false waiting sent) (replicate n (deliver true))).sent ≡ sent
unfolding run step client_wakes
run-quiet zero count waiting sent = refl
run-quiet (suc n) count zero sent = run-quiet n count zero sent
run-quiet (suc n) count (suc waiting) sent = run-quiet n count waiting sent

run-sends :
    (n count : ℕ) (received expired : Bool) (waiting : ℕ) (sent : List ℕ)
    → (expired || received) ≡ true
    → 0 < waiting
    → waiting ≤ n
    → (run (client count received expired waiting sent) (replicate n (deliver true))).sent
      ≡ sent ++ (next_count received count ∷ [])
unfolding run step client_wakes
run-sends n count received expired zero sent h k l = absurd (omega arith)
run-sends zero count received expired (suc waiting) sent h k l = absurd (omega arith)
run-sends (suc n) count false false (suc waiting) sent h k l = cc
run-sends (suc n) count true true (suc waiting) sent h k l = run-quiet n _ waiting _
run-sends (suc n) count true false (suc waiting) sent h k l = run-quiet n _ waiting _
run-sends (suc n) count false true (suc waiting) sent h k l = run-quiet n _ waiting _

-- After any events from the start on, these can be cut into one part for each count sent and a rest:
-- each part ends with an event that is handled while the root can be reached, and its count is the
-- one after the count before if an answer came in the part, however many did, and 0 if only a time-out
-- did. And if then, before the process handles its next event, answers and time-outs come, one of them
-- at least with its event posted, and all events on their way are handled while the root can be reached,
-- just one more count is sent: the next one if an answer has come since the last count, also while
-- the root could not be reached, and 0 if none has.
pub run-counts :
    (es burst : List Event) (n : ℕ)
    → IsBurst burst
    → any_post burst ≡ true
    → (run start es).waiting + length burst ≤ n
    → let c = run start es in
      Rounds 0 es c.sent
      × ((run c (burst ++ replicate n (deliver true))).sent
          ≡ c.sent ++ ((if c.received || any_answer burst then (c.count + 1) % 2 ^ 32 else 0) ∷ []))
run-counts es burst n h k l =
    let c = run start es in
    let b = run-Burst burst c h in
    let awake = run-IsAwake es start (λ q. cc) in
    let d = run c burst in
    let sent =
      run-sends n d.count d.received d.expired d.waiting d.sent (b.caused k) (b.posted awake k)
        (omega (arith, b.bounded)) in
    (
      run-Rounds es,
      ap (λ d. d.sent) (run-append burst (replicate n (deliver true)) c)
          ∙ sent
          ∙ ground (arith, b.sent, b.count, b.received),
    )
