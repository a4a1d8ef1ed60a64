-- ===== src/Contiki/Echo/Streak.antt =====
-- What each count that the client of es3 sends says of the events before it.
use nsdscourse.Base.{
  ℕ, zero, suc, ◌+◌, ◌%◌, ◌^◌, ◌≡◌, refl, ap, sym, ◌∙◌, subst, Bool, true, false, ◌||◌, List, [],
  ◌∷◌, ◌++◌, append_assoc, append-nil, if◌then◌else◌, arith,
}
use nsdscourse.Contiki.Echo.{
  Client, client_wakes, client_receives, client_times_out, Event, answer, timeout, deliver, step,
  run, start,
}

abbrev pub any_answer : List Event → Bool
any_answer [] = false
any_answer (answer posted ∷ es) = true
any_answer (timeout ∷ es) = any_answer es
any_answer (deliver reachable ∷ es) = any_answer es

abbrev pub any_timeout : List Event → Bool
any_timeout [] = false
any_timeout (timeout ∷ es) = true
any_timeout (answer posted ∷ es) = any_timeout es
any_timeout (deliver reachable ∷ es) = any_timeout es

-- The events can be cut into one part for each count, and a rest. Each part ends with an event that
-- is handled while the root can be reached, and has an answer or a time-out in front of it. Its count
-- is the one after the count before if there is an answer in the part, however many there are, and
-- 0 if there is none.
abbrev pub Rounds : ℕ → List Event → List ℕ → Type 0
Rounds count es [] = Unit
Rounds count es (m ∷ ms) =
    (part : List Event) × (rest : List Event) × (es ≡ part ++ (deliver true ∷ rest))
    × ((any_answer part || any_timeout part) ≡ true)
    × (m ≡ (if any_answer part then (count + 1) % 2 ^ 32 else 0))
    × Rounds m rest ms

any_answer-append : (xs ys : List Event) → any_answer (xs ++ ys) ≡ (any_answer xs || any_answer ys)
any_answer-append [] ys = refl
any_answer-append (answer posted ∷ xs) ys = refl
any_answer-append (timeout ∷ xs) ys = any_answer-append xs ys
any_answer-append (deliver reachable ∷ xs) ys = any_answer-append xs ys

any_timeout-append :
    (xs ys : List Event) → any_timeout (xs ++ ys) ≡ (any_timeout xs || any_timeout ys)
any_timeout-append [] ys = refl
any_timeout-append (timeout ∷ xs) ys = refl
any_timeout-append (answer posted ∷ xs) ys = any_timeout-append xs ys
any_timeout-append (deliver reachable ∷ xs) ys = any_timeout-append xs ys

-- `part` are the events since the last count was sent.
record Since (part : List Event) (c : Client) : Type 0 where
  answered : c.received ≡ any_answer part
  timed_out : c.expired ≡ true → any_timeout part ≡ true

abbrev Continues : Client → List Event → List Event → Type 0
Continues c part es =
    (ms : List ℕ) × ((run c es).sent ≡ c.sent ++ ms) × Rounds c.count (part ++ es) ms

-- An event that sends nothing belongs to the part.
stays :
    (part es : List Event) (e : Event) (c : Client)
    → (step c e).sent ≡ c.sent
    → (step c e).count ≡ c.count
    → Continues (step c e) (part ++ (e ∷ [])) es
    → Continues c part (e ∷ es)
unfolding run
stays part es e c same same' (ms, sent, rounds) = (
  ms,
  sent ∙ ap (λ l. l ++ ms) same,
  subst (λ l. Rounds c.count l ms) (append_assoc part (e ∷ []) es)
      (subst (λ n. Rounds n ((part ++ (e ∷ [])) ++ es) ms) same' rounds),
)

-- An event that sends a count ends the part.
sends :
    (part es : List Event) (c : Client) (m : ℕ)
    → (step c (deliver true)).sent ≡ c.sent ++ (m ∷ [])
    → (step c (deliver true)).count ≡ m
    → (any_answer part || any_timeout part) ≡ true
    → m ≡ (if any_answer part then (c.count + 1) % 2 ^ 32 else 0)
    → Continues (step c (deliver true)) [] es
    → Continues c part (deliver true ∷ es)
unfolding run
sends part es c m more now cause value (ms, sent, rounds) = (
  m ∷ ms,
  sent ∙ ap (λ l. l ++ ms) more ∙ append_assoc c.sent (m ∷ []) ms,
  (part, es, refl, cause, value, subst (λ n. Rounds n es ms) now rounds),
)

abbrev pub client : ℕ → Bool → Bool → ℕ → List ℕ → Client
client count received expired waiting sent = record {
  count = count;
  received = received;
  expired = expired;
  waiting = waiting;
  sent = sent;
}

-- An event that is handled without a count being sent.
handled :
    (part : List Event) (r : Bool) (c c' : Client)
    → c'.received ≡ c.received
    → (c'.expired ≡ true → c.expired ≡ true)
    → Since part c
    → Since (part ++ (deliver r ∷ [])) c'
handled part r c c' same less h = record {
  answered = ground (arith, h.answered, any_answer-append part (deliver r ∷ []));
  timed_out = λ q. ground (arith, h.timed_out (less q), any_timeout-append part (deliver r ∷ []));
}

timed :
    (part : List Event) (c c' : Client)
    → c'.received ≡ c.received
    → Since part c
    → Since (part ++ (timeout ∷ [])) c'
timed part c c' same h = record {
  answered = ground (arith, h.answered, any_answer-append part (timeout ∷ []));
  timed_out = λ q. ground (arith, any_timeout-append part (timeout ∷ []));
}

answered_now :
    (part : List Event) (posted : Bool) (c c' : Client)
    → c'.received ≡ true
    → c'.expired ≡ c.expired
    → Since part c
    → Since (part ++ (answer posted ∷ [])) c'
answered_now part posted c c' now same h = record {
  answered = ground (arith, any_answer-append part (answer posted ∷ []));
  timed_out =
      λ q. ground (arith, h.timed_out (sym same ∙ q), any_timeout-append part (answer posted ∷ []));
}

fresh : (count waiting : ℕ) (sent : List ℕ) → Since [] (client count false false waiting sent)
fresh count waiting sent = record { answered = refl; timed_out = λ q. cc }

run-Continues :
    (es part : List Event) (count : ℕ) (received expired : Bool) (waiting : ℕ) (sent : List ℕ)
    → Since part (client count received expired waiting sent)
    → Continues (client count received expired waiting sent) part es
unfolding run step client_receives client_times_out client_wakes
run-Continues [] part count received expired waiting sent h = ([], sym (append-nil sent), tt)
run-Continues (answer posted ∷ es) part count received expired waiting sent h =
    let c = client count received expired waiting sent in
    let later = if posted then waiting + 1 else waiting in
    let c' = client count true expired later sent in
    let here = answered_now part posted c c' refl refl h in
    stays part es (answer posted) c refl refl
      (run-Continues es (part ++ (answer posted ∷ [])) count true expired later sent here)
run-Continues (timeout ∷ es) part count received true waiting sent h =
    let c = client count received true waiting sent in
    let here = timed part c c refl h in
    stays part es timeout c refl refl
      (run-Continues es (part ++ (timeout ∷ [])) count received true waiting sent here)
run-Continues (timeout ∷ es) part count received false waiting sent h =
    let c = client count received false waiting sent in
    let here = timed part c (client count received true (waiting + 1) sent) refl h in
    stays part es timeout c refl refl
      (run-Continues es (part ++ (timeout ∷ [])) count received true (waiting + 1) sent here)
run-Continues (deliver r ∷ es) part count received expired zero sent h =
    let c = client count received expired zero sent in
    stays part es (deliver r) c refl refl (
      run-Continues es (part ++ (deliver r ∷ [])) count received expired zero sent
        (handled part r c c refl (λ q. q) h))
run-Continues (deliver r ∷ es) part count false false (suc waiting) sent h =
    let c = client count false false (suc waiting) sent in
    stays part es (deliver r) c refl refl (
      run-Continues es (part ++ (deliver r ∷ [])) count false false waiting sent
        (handled part r c (client count false false waiting sent) refl (λ q. q) h))
run-Continues (deliver true ∷ es) part count true true (suc waiting) sent h =
    let m = (count + 1) % 2 ^ 32 in
    let value : m ≡ (if any_answer part then m else 0) = ground (arith, h.answered) in
    sends part es (client count true true (suc waiting) sent) m refl refl
      (ground (arith, h.answered)) value
      (run-Continues es [] m false false waiting (sent ++ (m ∷ []))
        (fresh m waiting (sent ++ (m ∷ []))))
run-Continues (deliver true ∷ es) part count true false (suc waiting) sent h =
    let m = (count + 1) % 2 ^ 32 in
    let value : m ≡ (if any_answer part then m else 0) = ground (arith, h.answered) in
    sends part es (client count true false (suc waiting) sent) m refl refl
      (ground (arith, h.answered)) value
      (run-Continues es [] m false false waiting (sent ++ (m ∷ []))
        (fresh m waiting (sent ++ (m ∷ []))))
run-Continues (deliver true ∷ es) part count false true (suc waiting) sent h =
    sends part es (client count false true (suc waiting) sent) 0 refl refl
      (ground (arith, h.timed_out refl)) (ground (arith, h.answered))
      (run-Continues es [] 0 false false waiting (sent ++ (0 ∷ []))
        (fresh 0 waiting (sent ++ (0 ∷ []))))
run-Continues (deliver false ∷ es) part count true true (suc waiting) sent h =
    let c = client count true true (suc waiting) sent in
    stays part es (deliver false) c refl refl (
      run-Continues es (part ++ (deliver false ∷ [])) count true false waiting sent
        (handled part false c (client count true false waiting sent) refl (λ q. refl) h))
run-Continues (deliver false ∷ es) part count true false (suc waiting) sent h =
    let c = client count true false (suc waiting) sent in
    stays part es (deliver false) c refl refl (
      run-Continues es (part ++ (deliver false ∷ [])) count true false waiting sent
        (handled part false c (client count true false waiting sent) refl (λ q. q) h))
run-Continues (deliver false ∷ es) part count false true (suc waiting) sent h =
    let c = client count false true (suc waiting) sent in
    stays part es (deliver false) c refl refl (
      run-Continues es (part ++ (deliver false ∷ [])) count false false waiting sent
        (handled part false c (client count false false waiting sent) refl (λ q. refl) h))

pub run-Rounds : (es : List Event) → Rounds 0 es (run start es).sent
run-Rounds es =
    let (ms, sent, rounds) = run-Continues es [] 0 false false 0 [] (fresh 0 0 []) in
    subst (Rounds 0 es) (sym sent) rounds
