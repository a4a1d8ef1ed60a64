-- ===== src/Mpi/Ring/Around.antt =====
-- The processes of ring.c pass the number around, and rank 0 ends with the number of processes.
use nsdscourse.Mpi.Ring.Ranks.{
  is_empty, is_cons, listed, at_rank, all_behind, find, sum_below, sum_below-lt, sum_below-bound,
}
use nsdscourse.Base.{
  ℕ, zero, suc, ◌+◌, ◌*◌, ◌≤◌, ◌<◌, ◌≡◌, ◌≢◌, sym, ap, ◌∙◌, inl, inr, arith, List, [], ◌∷◌,
  ℕ_discrete, Bool-cases, Bool, false, some, Option,
}
use nsdscourse.Mpi.Network.{Network}
use nsdscourse.Mpi.Process.{Choice, Config, step, run}
use nsdscourse.Mpi.Process.Runs.{run_inv}
use nsdscourse.Mpi.Ring.{Loop, receiver, ring, start}
use nsdscourse.Mpi.Ring.Hops.{receiver-ne, receiver-lt}
use nsdscourse.Mpi.Ring.Passing.{
  InRing, after_send, after_round, after_receive, after_meeting, sent-InRing, round-InRing,
  received-InRing, met-InRing,
}

module _ (net : Network) (w : ℕ) where
  -- What a step of rank `r` can be.
  data Stepped (r : ℕ) (c d : Config net Loop) : Type 0 where
    sends : r ≡ (c.local r).i → d ≡ after_send net w r c → Stepped r c d
    passes :
        (c.local r).i < w
        → r ≢ (c.local r).i
        → r ≢ receiver w (c.local r).i
        → d ≡ after_round net w r c
        → Stepped r c d
    receives :
        (m : List ℕ) (ms : List (List ℕ))
        → (c.local r).i < w
        → r ≡ receiver w (c.local r).i
        → net.pending c.flight (c.local r).i r ≡ m ∷ ms
        → d ≡ after_receive net w r m c
        → Stepped r c d
    meets :
        r ≡ (c.local r).i
        → (c.local (receiver w r)).i ≡ r
        → net.pending c.flight r (receiver w r) ≡ []
        → d ≡ after_meeting net w r (receiver w r) c
        → Stepped r c d

  abbrev pub step_with : ℕ → ℕ → Bool → Config net Loop → Option (Config net Loop)
  step_with r q b c = step net w (ring w) (record { rank = r; peer = q; copied = b }) c

  module _ (r q : ℕ) (c d : Config net Loop) where
    waiting-Stepped : r ≡ (c.local r).i → step_with r q false c ≡ some d → Stepped r c d
    unfolding step ring
    waiting-Stepped own e = elim (listed (net.pending c.flight r (receiver w r))) [
      | is_empty nothing ↦
          meets own (ground (arith, ap (receiver w) own, nothing)) nothing
            (ground (arith, ap (receiver w) own, nothing))
      | is_cons m ms there ↦ absurd (ground (arith, ap (receiver w) own, there))
    ]

    receiving-Stepped :
        (b : Bool)
        → r ≢ (c.local r).i
        → r ≡ receiver w (c.local r).i
        → step_with r q b c ≡ some d
        → Stepped r c d
    unfolding step ring
    receiving-Stepped b other is_receiver e = elim (listed (net.pending c.flight (c.local r).i r)) [
      | is_empty nothing ↦ absurd (ground (arith, nothing))
      | is_cons m ms there ↦ receives m ms (ground arith) is_receiver there (ground (arith, there))
    ]

    step-Stepped : (b : Bool) → step_with r q b c ≡ some d → Stepped r c d
    unfolding step ring
    step-Stepped b e = elim (ℕ_discrete r (c.local r).i) [
      | yes own ↦ elim (Bool-cases b) [
        | inl copied ↦ sends own (ground arith)
        | inr uncopied ↦ waiting-Stepped own (rw (sym uncopied) e)
      ]
      | no other ↦ elim (ℕ_discrete r (receiver w (c.local r).i)) [
        | yes is_receiver ↦ receiving-Stepped b other is_receiver e
        | no away ↦ passes (ground arith) other away (ground arith)
      ]
    ]

  step-InRing :
      (r q : ℕ) (b : Bool) (c d : Config net Loop)
      → 2 ≤ w
      → r < w
      → InRing net w c
      → Stepped r c d
      → InRing net w d
  step-InRing r q b c d wide small inv (sends own e) =
      rw e (sent-InRing net w wide c inv r small own)
  step-InRing r q b c d wide small inv (passes more x y e) =
      rw e (round-InRing net w wide c inv r small more x y)
  step-InRing r q b c d wide small inv (receives m ms more x there e) =
      rw e (received-InRing net w wide c inv r small m ms more x there)
  step-InRing r q b c d wide small inv (meets own x nothing e) =
      rw e (met-InRing net w wide c inv r small own x nothing)

  rank-lt : (r q : ℕ) (b : Bool) (c d : Config net Loop) → step_with r q b c ≡ some d → r < w
  unfolding step
  rank-lt r q b c d e = ground arith

  abbrev pub reached : List Choice → Config net Loop
  reached hs = run net w (ring w) hs (start net)

  start-InRing : 2 ≤ w → InRing net w (start net)
  start-InRing wide = record {
    rounds = λ r h. omega arith;
    hops = λ r h. ground arith;
    way = λ s h. ground (arith, net.pending-empty s (receiver w s));
    order = λ s h k. absurd (omega arith);
  }

  run-InRing : 2 ≤ w → (hs : List Choice) → InRing net w (reached hs)
  run-InRing wide hs =
      run_inv net w (ring w) (InRing net w)
        (λ h c d e inv.
          step-InRing h.rank h.peer h.copied c d wide (rank-lt h.rank h.peer h.copied c d e) inv
            (step-Stepped h.rank h.peer c d h.copied e))
        hs (start net) (start-InRing wide)

  -- All processes have ended, rank 0 with as many hops as there are processes; or one can go on although
  -- no message is copied.
  pub data MovesOn (c : Config net Loop) : Type 0 where
    all_around : ((r : ℕ) → r < w → (c.local r).i ≡ w) → (c.local 0).num_hops ≡ w → MovesOn c
    goes_on : (r q : ℕ) (d : Config net Loop) → step_with r q false c ≡ some d → MovesOn c

  module _ (wide : 2 ≤ w) (c : Config net Loop) (inv : InRing net w c) where
    -- In the lowest round the sender meets its receiver, the receiver takes the message of a sender
    -- that is ahead, and any other process passes.
    sender-MovesOn :
        (k : ℕ) → k < w → ((s : ℕ) → s < w → k ≤ (c.local s).i) → (c.local k).i ≡ k → MovesOn c
    unfolding step ring
    sender-MovesOn k h low own =
        let q = receiver w k in
        let there : q < w = receiver-lt w k h in
        goes_on k q (after_meeting net w k q c) (
          ground (
            arith,
            there,
            low q there,
            inv.order k h,
            inv.way k h,
            receiver-ne w k wide h,
            ap (receiver w) own,
            ap (receiver w) {x = (c.local q).i} {y = k},
          ))

    lowest-MovesOn :
        (k r : ℕ)
        → k < w
        → r < w
        → ((s : ℕ) → s < w → k ≤ (c.local s).i)
        → (c.local r).i ≡ k
        → MovesOn c
    unfolding step ring
    lowest-MovesOn k r h small low e = elim (ℕ_discrete r k) [
      | yes own ↦ sender-MovesOn k h low (ap (λ (j : ℕ). (c.local j).i) (sym own) ∙ e)
      | no other ↦ elim (ℕ_discrete r (receiver w k)) [
        | yes is_receiver ↦ elim (ℕ_discrete (c.local k).i k) [
          | yes waits ↦ sender-MovesOn k h low waits
          | no ahead ↦ goes_on r k (after_receive net w r ((k + 1) ∷ []) c) (
              ground (
                arith,
                inv.way k h,
                low k h,
                ap (λ (j : ℕ). (c.local j).i) is_receiver,
                is_receiver,
              ))
        ]
        | no away ↦ goes_on r r (after_round net w r c) (ground (arith, ap (receiver w) e))
      ]
    ]

    moves_on : (fuel k : ℕ) → k + fuel ≡ w → ((s : ℕ) → s < w → k ≤ (c.local s).i) → MovesOn c
    moves_on zero k e low =
        all_around (λ r h. omega (arith, low r h, inv.rounds r h))
          (ground
            (arith, inv.hops 0 (omega arith), inv.rounds 0 (omega arith), low 0 (omega arith)))
    moves_on (suc fuel) k e low = elim (find (λ s. (c.local s).i) k w low) [
      | at_rank r h at_k ↦ lowest-MovesOn k r (omega arith) h low at_k
      | all_behind more ↦ moves_on fuel (suc k) (omega arith) more
    ]

  -- On two processes or more, whatever the order of the steps: until all processes have gone through
  -- the loop and rank 0 holds the number of processes, some process can go on, also if no message is
  -- copied.
  pub ring-MovesOn : 2 ≤ w → (hs : List Choice) → MovesOn (reached hs)
  ring-MovesOn wide hs =
      moves_on wide (reached hs) (run-InRing wide hs) w 0 (omega arith) (λ s h. omega arith)

  abbrev pub total : Config net Loop → ℕ
  total c = sum_below w (λ r. (c.local r).i)

  Stepped-total : (r : ℕ) (c d : Config net Loop) → r < w → Stepped r c d → total c < total d
  Stepped-total r c d h (sends own e) =
      sum_below-lt w _ _ r (λ s. rw e (ground arith)) h (rw e (ground arith))
  Stepped-total r c d h (passes more x y e) =
      sum_below-lt w _ _ r (λ s. rw e (ground arith)) h (rw e (ground arith))
  Stepped-total r c d h (receives m ms more x there e) =
      sum_below-lt w _ _ r (λ s. rw e (ground arith)) h (rw e (ground arith))
  Stepped-total r c d h (meets own x nothing e) =
      sum_below-lt w _ _ r (λ s. rw e (ground arith)) h (rw e (ground arith))

  -- Each step of a run of ring.c raises the sum of the processes' rounds, which stays within the square
  -- of their number: that many steps are the most.
  pub total-ring-step :
      2 ≤ w
      → (hs : List Choice) (h : Choice) (d : Config net Loop)
      → step net w (ring w) h (reached hs) ≡ some d
      → (total (reached hs) < total d) × (total d ≤ w * w)
  total-ring-step wide hs h d e =
      let c = reached hs in
      let small = rank-lt h.rank h.peer h.copied c d e in
      let stepped = step-Stepped h.rank h.peer c d h.copied e in
      let inv = step-InRing h.rank h.peer h.copied c d wide small (run-InRing wide hs) stepped in
      (Stepped-total h.rank c d small stepped, sum_below-bound w w (λ r. (d.local r).i) inv.rounds)
