-- ===== src/Mpi/PingPong/Turns.antt =====
-- The two processes of ping_pong.c take turns and reach the end.
use nsdscourse.Base.{
  ℕ, zero, suc, ◌+◌, ◌%◌, ◌≤◌, ◌<◌, ◌≡◌, refl, Bool, true, false, some, Option, List, [], ◌∷◌,
  arith, ◌==◌, inl, inr, ℕ_discrete, Bool-cases,
}
use nsdscourse.Mpi.Network.{Network}
use nsdscourse.Mpi.Process.{Choice, Config, step, run, move}
use nsdscourse.Mpi.Process.Runs.{run_inv}
use nsdscourse.Mpi.PingPong.{ping_pong, start, tot_msgs}

module _ (net : Network) where
  -- `k` messages are received, and the next one is not sent yet.
  pub record Settled (k : ℕ) (c : Config net ℕ) : Type 0 where
    within : k ≤ 100
    first : c.local 0 ≡ k
    second : c.local 1 ≡ k
    none_there : net.pending c.flight 0 1 ≡ []
    none_back : net.pending c.flight 1 0 ≡ []

  -- Message `k + 1` is on its way from rank 0, or from rank 1.
  pub record There (k : ℕ) (c : Config net ℕ) : Type 0 where
    within : k < 100
    turn : k % 2 ≡ 0
    first : c.local 0 ≡ k + 1
    second : c.local 1 ≡ k
    one_there : net.pending c.flight 0 1 ≡ ((k + 1) ∷ []) ∷ []
    none_back : net.pending c.flight 1 0 ≡ []

  pub record Back (k : ℕ) (c : Config net ℕ) : Type 0 where
    within : k < 100
    turn : k % 2 ≡ 1
    first : c.local 0 ≡ k
    second : c.local 1 ≡ k + 1
    none_there : net.pending c.flight 0 1 ≡ []
    one_back : net.pending c.flight 1 0 ≡ ((k + 1) ∷ []) ∷ []

  -- Where the two processes are, after `k` messages.
  data Phase (c : Config net ℕ) : Type 0 where
    settled : (k : ℕ) → Settled k c → Phase c
    there : (k : ℕ) → There k c → Phase c
    back : (k : ℕ) → Back k c → Phase c

  abbrev pub total : Config net ℕ → ℕ
  total c = c.local 0 + c.local 1

  -- A step leads from phase to phase, and the counts grow.
  abbrev Advances : Config net ℕ → Config net ℕ → Type 0
  Advances c d = Phase d × (total c < total d)

  abbrev pub step_with : ℕ → ℕ → Bool → Config net ℕ → Option (Config net ℕ)
  step_with r q b c = step net 2 ping_pong (record { rank = r; peer = q; copied = b }) c

  module _ (k : ℕ) (c d : Config net ℕ) where
    abbrev message : List ℕ
    message = (k + 1) ∷ []

    Settled-first : (q : ℕ) (b : Bool) → Settled k c → step_with 0 q b c ≡ some d → Advances c d
    unfolding step ping_pong
    Settled-first q true s e =
        let post = net.pending-post 0 1 message c.flight in
        (there k (ground (arith, post 0 1, post 1 0)), ground (arith, post 0 1))
    Settled-first q false s e = (settled (k + 1) (ground arith), ground arith)

    Settled-second : (q : ℕ) (b : Bool) → Settled k c → step_with 1 q b c ≡ some d → Advances c d
    unfolding step ping_pong
    Settled-second q true s e =
        let post = net.pending-post 1 0 message c.flight in
        (back k (ground (arith, post 0 1, post 1 0)), ground (arith, post 0 1))
    Settled-second q false s e = (settled (k + 1) (ground arith), ground arith)

    There-first : (q : ℕ) (b : Bool) → There k c → step_with 0 q b c ≡ some d → Advances c d
    unfolding step ping_pong
    There-first q b s e = absurd (ground arith)

    There-second : (q : ℕ) (b : Bool) → There k c → step_with 1 q b c ≡ some d → Advances c d
    unfolding step ping_pong
    There-second q b s e =
        let taken = net.pending-take_first 0 1 c.flight in
        (settled (k + 1) (ground (arith, taken 0 1, taken 1 0)), ground arith)

    Back-first : (q : ℕ) (b : Bool) → Back k c → step_with 0 q b c ≡ some d → Advances c d
    unfolding step ping_pong
    Back-first q b s e =
        let taken = net.pending-take_first 1 0 c.flight in
        (settled (k + 1) (ground (arith, taken 0 1, taken 1 0)), ground arith)

    Back-second : (q : ℕ) (b : Bool) → Back k c → step_with 1 q b c ≡ some d → Advances c d
    unfolding step ping_pong
    Back-second q b s e = absurd (ground arith)

  step-Phase :
      (r q : ℕ) (b : Bool) (c d : Config net ℕ)
      → step_with r q b c ≡ some d
      → Phase c
      → Advances c d
  unfolding step
  step-Phase zero q b c d e (settled k s) = Settled-first k c d q b s e
  step-Phase zero q b c d e (there k s) = There-first k c d q b s e
  step-Phase zero q b c d e (back k s) = Back-first k c d q b s e
  step-Phase (suc zero) q b c d e (settled k s) = Settled-second k c d q b s e
  step-Phase (suc zero) q b c d e (there k s) = There-second k c d q b s e
  step-Phase (suc zero) q b c d e (back k s) = Back-second k c d q b s e
  step-Phase (suc (suc r)) q b c d e p = absurd (ground arith)

  run-Phase : (hs : List Choice) → Phase (run net 2 ping_pong hs (start net))
  run-Phase hs =
      run_inv net 2 ping_pong Phase (λ h c d e p. (step-Phase h.rank h.peer h.copied c d e p).0) hs
        (start net)
        (settled 0 (record {
          within = omega arith;
          first = refl;
          second = refl;
          none_there = net.pending-empty 0 1;
          none_back = net.pending-empty 1 0;
        }))

  -- Both processes have reached the end, or some process can go on, also if no message is copied.
  pub data MovesOn (c : Config net ℕ) : Type 0 where
    at_end : c.local 0 ≡ tot_msgs → c.local 1 ≡ tot_msgs → MovesOn c
    goes_on : (r q : ℕ) (d : Config net ℕ) → step_with r q false c ≡ some d → MovesOn c

  Phase-MovesOn : (c : Config net ℕ) → Phase c → MovesOn c
  unfolding step ping_pong
  Phase-MovesOn c (settled k s) = elim (ℕ_discrete k 100) [
    | yes e ↦ at_end (omega (arith, s.first)) (omega (arith, s.second))
    | no e ↦ elim (Bool-cases (k % 2 == 0)) [
      | inl even ↦ goes_on 0 1 (move net 1 (k + 1) (move net 0 (k + 1) c)) (ground arith)
      | inr odd ↦ goes_on 1 0 (move net 0 (k + 1) (move net 1 (k + 1) c)) (ground arith)
    ]
  ]
  Phase-MovesOn c (there k s) =
      goes_on 1 0 (move net 1 (k + 1) (record c { flight = net.take_first 0 1 c.flight }))
        (ground arith)
  Phase-MovesOn c (back k s) =
      goes_on 0 1 (move net 0 (k + 1) (record c { flight = net.take_first 1 0 c.flight }))
        (ground arith)

  abbrev pub reached : List Choice → Config net ℕ
  reached hs = run net 2 ping_pong hs (start net)

  -- The counts stay together and below the end, and the processes go on until both are there.
  pub record InTurn (c : Config net ℕ) : Type 0 where
    pub second_close : c.local 0 ≤ c.local 1 + 1
    pub first_close : c.local 1 ≤ c.local 0 + 1
    pub within : total c ≤ 200
    pub moves_on : MovesOn c

  Phase-close :
      (c : Config net ℕ)
      → Phase c
      → (c.local 0 ≤ c.local 1 + 1) × (c.local 1 ≤ c.local 0 + 1) × (total c ≤ 200)
  Phase-close c (settled k s) = omega (arith, s.within, s.first, s.second)
  Phase-close c (there k s) = omega (arith, s.within, s.first, s.second)
  Phase-close c (back k s) = omega (arith, s.within, s.first, s.second)

  Phase-InTurn : (c : Config net ℕ) → Phase c → InTurn c
  Phase-InTurn c p = record {
    second_close = (Phase-close c p).0;
    first_close = (Phase-close c p).1;
    within = (Phase-close c p).2;
    moves_on = Phase-MovesOn c p;
  }

  -- Whatever the order of the steps, and whether messages are copied or not: the two counts differ by
  -- one at most and their sum does not pass 200; and until both are 100, some process can go on even
  -- if no message is copied.
  pub run-InTurn : (hs : List Choice) → InTurn (reached hs)
  run-InTurn hs = Phase-InTurn (reached hs) (run-Phase hs)

  -- Each step of a run raises the sum of the two counts, so that after 200 steps at most none is left.
  pub total-ping_pong-step :
      (hs : List Choice) (h : Choice) (d : Config net ℕ)
      → step net 2 ping_pong h (reached hs) ≡ some d
      → total (reached hs) < total d
  total-ping_pong-step hs h d e =
      (step-Phase h.rank h.peer h.copied (reached hs) d e (run-Phase hs)).1
