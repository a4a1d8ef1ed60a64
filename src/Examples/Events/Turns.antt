-- ===== src/Examples/Events/Turns.antt =====
-- The processes of protothreads-events.c take turns.
use nsdscourse.Base.{
  ℕ, zero, suc, ◌+◌, ◌*◌, ◌≡◌, refl, first_of, ap, ◌∙◌, Bool, true, false, some, append_assoc,
  append-nil, sym, length, List, [], ◌∷◌, ◌++◌, arith,
}
use mathlib.Core.Option.{some-injective}
use nsdscourse.Examples.Events.{
  ping_event, pong_event, timer, ping_process, pong_process, Line, sent_first_ping, sent_ping,
  sent_pong, got_ping, got_pong, Post, System, ping_turn, pong_turn, deliver, start, Choice,
  next_event, expire, step, run,
}

-- Two lines for the count that a ping finds, and two for the one behind it.
abbrev pub one_round : ℕ → List Line
one_round k = got_ping (2 * k) ∷ sent_pong ∷ got_pong (2 * k + 1) ∷ sent_ping ∷ []

-- What is printed when the ping behind `k` rounds has been sent.
unfoldable pub rounds : ℕ → List Line
rounds zero = sent_first_ping ∷ []
rounds (suc k) = rounds k ++ one_round k

-- After `k` rounds: a ping is to be delivered, a pong is, the timer runs, or its event is to be
-- delivered.
pub data Turn : Type 0 where
  ping_posted pong_posted waiting expired : Turn

abbrev pub queued : Turn → List Post
queued ping_posted = record { process = pong_process; event = ping_event } ∷ []
queued pong_posted = record { process = ping_process; event = pong_event } ∷ []
queued waiting = []
queued expired = record { process = ping_process; event = timer } ∷ []

abbrev pub lines : Turn → ℕ → List Line
lines ping_posted k = []
lines pong_posted k = got_ping (2 * k) ∷ sent_pong ∷ []
lines _ k = got_ping (2 * k) ∷ sent_pong ∷ got_pong (2 * k + 1) ∷ []

abbrev is_waiting : Turn → Bool
is_waiting waiting = true
is_waiting _ = false

abbrev counted : Turn → ℕ → ℕ
counted ping_posted k = 2 * k
counted _ k = 2 * k + 1

abbrev pub at : Turn → ℕ → System
at turn k = record {
  paused = false;
  count = counted turn k;
  queue = queued turn;
  timer_set = is_waiting turn;
  printed = rounds k ++ lines turn k;
}

-- The next turn, of the next round after the last one.
abbrev pub next : Turn → Turn
next ping_posted = pong_posted
next pong_posted = waiting
next waiting = expired
next expired = ping_posted

abbrev pub next_round : Turn → ℕ → ℕ
next_round expired k = suc k
next_round _ k = k

-- The one choice that is possible.
abbrev pub due : Turn → Choice
due waiting = expire
due _ = next_event

step-at :
    (turn : Turn) (k : ℕ) → step (due turn) (at turn k) ≡ some (at (next turn) (next_round turn k))
unfolding step deliver ping_turn pong_turn rounds
step-at ping_posted k = simp (append_assoc, append-nil) refl
step-at pong_posted k = simp append_assoc refl
step-at waiting k = refl
step-at expired k = simp (append_assoc, append-nil) (ground arith)

step_only-at :
    (c : Choice) (turn : Turn) (k : ℕ) (s : System)
    → step c (at turn k) ≡ some s
    → s ≡ at (next turn) (next_round turn k)
unfolding step
step_only-at next_event ping_posted k s e =
    some-injective s (at (next ping_posted) (next_round ping_posted k))
      (sym e ∙ step-at ping_posted k)
step_only-at expire ping_posted k s e = ground arith
step_only-at next_event pong_posted k s e =
    some-injective s (at (next pong_posted) (next_round pong_posted k))
      (sym e ∙ step-at pong_posted k)
step_only-at expire pong_posted k s e = ground arith
step_only-at next_event expired k s e =
    some-injective s (at (next expired) (next_round expired k)) (sym e ∙ step-at expired k)
step_only-at expire expired k s e = ground arith
step_only-at next_event waiting k s e = ground arith
step_only-at expire waiting k s e =
    some-injective s (at (next waiting) (next_round waiting k)) (sym e ∙ step-at waiting k)

-- Where the system is behind so many steps.
abbrev pub turn_after : ℕ → Turn
turn_after zero = ping_posted
turn_after (suc n) = next (turn_after n)

abbrev pub rounds_after : ℕ → ℕ
rounds_after zero = 0
rounds_after (suc n) = next_round (turn_after n) (rounds_after n)

abbrev pub after : ℕ → System
after zero = start
after (suc n) = at (turn_after n) (rounds_after n)

first_step : step next_event start ≡ some (after 1)
unfolding step deliver rounds
first_step = refl

step-after : (n : ℕ) → (c : Choice) × (step c (after n) ≡ some (after (suc n)))
step-after zero = (next_event, first_step)
step-after (suc n) = (due (turn_after n), step-at (turn_after n) (rounds_after n))

step_only-after : (c : Choice) (n : ℕ) (s : System) → step c (after n) ≡ some s → s ≡ after (suc n)
unfolding step
step_only-after next_event zero s e = some-injective s (after 1) (sym e ∙ first_step)
step_only-after expire zero s e = ground arith
step_only-after c (suc n) s e = step_only-at c (turn_after n) (rounds_after n) s e

run_from-after :
    (cs : List Choice) (n : ℕ) (s : System) → run cs (after n) ≡ some s → s ≡ after (length cs + n)
unfolding run
run_from-after [] n s e =
    some-injective s (after n) (sym e) ∙ ap after {x = n} {y = 0 + n} (omega arith)
run_from-after (c ∷ cs) n s e =
    let (s', stepped, rest) = first_of (step c (after n)) (run cs) s e in
    let here = step_only-after c n s' stepped in
    run_from-after cs (suc n) s (ap (run cs) (sym here) ∙ rest)
    ∙ ap after {x = length cs + suc n} {y = length (c ∷ cs) + n} (omega arith)

-- Every run is at the place of its length: the processes post to each other in turn, each ping shows an
-- even number and each pong the odd one behind it, no event is unknown to its process, and one
-- more step is always possible.
pub run-after :
    (cs : List Choice) (s : System)
    → run cs start ≡ some s
    → (s ≡ after (length cs)) × ((c : Choice) × (step c s ≡ some (after (length cs + 1))))
run-after cs s e =
    let here =
      run_from-after cs 0 s e ∙ ap after {x = length cs + 0} {y = length cs} (omega arith) in
    let (c, more) = step-after (length cs) in
    (
      here,
      (
        c,
        ap (step c) here
            ∙ more
            ∙ ap (λ n. some (after n)) {x = suc (length cs)} {y = length cs + 1} (omega arith),
      ),
    )
