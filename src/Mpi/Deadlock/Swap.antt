-- ===== src/Mpi/Deadlock/Swap.antt =====
-- The two repaired programs end with both numbers swapped.
use nsdscourse.Base.{
  ℕ, zero, suc, ◌+◌, ◌≤◌, ◌<◌, ◌≡◌, refl, Bool, true, false, some, Option, List, [], ◌∷◌, arith,
}
use nsdscourse.Mpi.Network.{Network}
use nsdscourse.Mpi.Process.{Op, Choice, Config, step, run, move}
use nsdscourse.Mpi.Process.Runs.{run_inv}
use nsdscourse.Mpi.Deadlock.{
  Place, at_send, at_recv, at_wait, at_end, swap, all_at, avoid_isend, avoid_sendrecv,
}

-- The messages from a process at the first place to a process at the second.
abbrev pub between : Place → Place → List (List ℕ)
between at_send q = []
between at_recv at_send = (1 ∷ []) ∷ []
between at_recv at_recv = (1 ∷ []) ∷ []
between at_recv q = []
between (at_wait m) at_send = (1 ∷ []) ∷ []
between (at_wait m) at_recv = (1 ∷ []) ∷ []
between (at_wait m) q = []
between (at_end m) at_send = (1 ∷ []) ∷ []
between (at_end m) at_recv = (1 ∷ []) ∷ []
between (at_end m) q = []

-- A process that has received has received the 1 of a process that has sent.
abbrev pub Sound : Place → Place → Type 0
Sound (at_wait m) at_send = ⊥
Sound (at_end m) at_send = ⊥
Sound (at_wait m) q = m ≡ 1
Sound (at_end m) q = m ≡ 1
Sound p q = Unit

abbrev pub steps_made : Place → ℕ
steps_made at_send = 0
steps_made at_recv = 1
steps_made (at_wait m) = 2
steps_made (at_end m) = 3

steps_made-le : (p : Place) → steps_made p ≤ 3
steps_made-le at_send = omega arith
steps_made-le at_recv = omega arith
steps_made-le (at_wait m) = omega arith
steps_made-le (at_end m) = omega arith

module _ (net : Network) where
  -- The two processes, and the messages between them.
  record InSwap (c : Config net Place) : Type 0 where
    sound : Sound (c.local 0) (c.local 1)
    sound_back : Sound (c.local 1) (c.local 0)
    none_self : net.pending c.flight 0 0 ≡ []
    none_self_back : net.pending c.flight 1 1 ≡ []
    there : net.pending c.flight 0 1 ≡ between (c.local 0) (c.local 1)
    back : net.pending c.flight 1 0 ≡ between (c.local 1) (c.local 0)

  abbrev pub total : Config net Place → ℕ
  total c = steps_made (c.local 0) + steps_made (c.local 1)

  abbrev Advances : Config net Place → Config net Place → Type 0
  Advances c d = InSwap d × (total c < total d)

  -- Both programs: the receive is from any source, or from the other process.
  abbrev pub program : Bool → ℕ → Place → Op Place
  program true = avoid_sendrecv
  program false = avoid_isend

  abbrev pub step_with : Bool → ℕ → ℕ → Bool → Config net Place → Option (Config net Place)
  step_with any r q b c = step net 2 (program any) (record { rank = r; peer = q; copied = b }) c

  abbrev Known : Place → Place → Config net Place → Type 0
  Known x y c = (c.local 0 ≡ x) × (c.local 1 ≡ y) × InSwap c

  module _ (any : Bool) (q : ℕ) (b : Bool) (c d : Config net Place) where
    first-Advances : (x y : Place) → Known x y c → step_with any 0 q b c ≡ some d → Advances c d
    unfolding step swap
    first-Advances at_send at_send k h =
        let post = net.pending-post 0 1 (1 ∷ []) c.flight in
        ground (arith, post 0 0, post 0 1, post 1 0, post 1 1)
    first-Advances at_send y k h =
        let post = net.pending-post 0 1 (1 ∷ []) c.flight in
        ground (arith, post 0 0, post 0 1, post 1 0, post 1 1)
    first-Advances at_recv at_send k h = ground arith
    first-Advances at_recv y k h =
        let taken = net.pending-take_first 1 0 c.flight in
        ground (arith, taken 0 0, taken 0 1, taken 1 0, taken 1 1)
    first-Advances (at_wait m) at_send k h = ground arith
    first-Advances (at_wait m) y k h = ground arith
    first-Advances (at_end m) y k h = absurd (ground arith)

    second-Advances : (y x : Place) → Known x y c → step_with any 1 q b c ≡ some d → Advances c d
    unfolding step swap
    second-Advances at_send at_send k h =
        let post = net.pending-post 1 0 (1 ∷ []) c.flight in
        ground (arith, post 0 0, post 0 1, post 1 0, post 1 1)
    second-Advances at_send x k h =
        let post = net.pending-post 1 0 (1 ∷ []) c.flight in
        ground (arith, post 0 0, post 0 1, post 1 0, post 1 1)
    second-Advances at_recv at_send k h = ground arith
    second-Advances at_recv x k h =
        let taken = net.pending-take_first 0 1 c.flight in
        ground (arith, taken 0 0, taken 0 1, taken 1 0, taken 1 1)
    second-Advances (at_wait m) at_send k h = ground arith
    second-Advances (at_wait m) x k h = ground arith
    second-Advances (at_end m) x k h = absurd (ground arith)

  step-Advances :
      (any : Bool) (r q : ℕ) (b : Bool) (c d : Config net Place)
      → InSwap c
      → step_with any r q b c ≡ some d
      → Advances c d
  unfolding step
  step-Advances any zero q b c d s h =
      first-Advances any q b c d (c.local 0) (c.local 1) (refl, refl, s) h
  step-Advances any (suc zero) q b c d s h =
      second-Advances any q b c d (c.local 1) (c.local 0) (refl, refl, s) h
  step-Advances any (suc (suc r)) q b c d s h = absurd (ground arith)

  -- Both processes are at the end with the other's number, or one can go on although no message
  -- is copied.
  pub data MovesOn (any : Bool) (c : Config net Place) : Type 0 where
    both_at_end : c.local 0 ≡ at_end 1 → c.local 1 ≡ at_end 1 → MovesOn any c
    goes_on : (r q : ℕ) (d : Config net Place) → step_with any r q false c ≡ some d → MovesOn any c

  waits : (any : Bool) (c : Config net Place) (x y : Place) → Known x y c → MovesOn any c
  unfolding step swap
  waits any c at_send y k =
      goes_on 0 1 (move net 0 at_recv (record c { flight = net.post 0 1 (1 ∷ []) c.flight }))
        (ground arith)
  waits any c x at_send k =
      goes_on 1 0 (move net 1 at_recv (record c { flight = net.post 1 0 (1 ∷ []) c.flight }))
        (ground arith)
  waits any c at_recv y k =
      goes_on 0 1 (move net 0 (at_wait 1) (record c { flight = net.take_first 1 0 c.flight }))
        (ground arith)
  waits any c x at_recv k =
      goes_on 1 0 (move net 1 (at_wait 1) (record c { flight = net.take_first 0 1 c.flight }))
        (ground arith)
  waits any c (at_wait m) y k = goes_on 0 1 (move net 0 (at_end m) c) (ground arith)
  waits any c x (at_wait m) k = goes_on 1 0 (move net 1 (at_end m) c) (ground arith)
  waits any c (at_end m) (at_end n) k = both_at_end (ground arith) (ground arith)

  abbrev pub reached : Bool → List Choice → Config net Place
  reached any hs = run net 2 (program any) hs (all_at at_send net)

  run-InSwap : (any : Bool) (hs : List Choice) → InSwap (reached any hs)
  run-InSwap any hs =
      let empty = net.pending-empty in
      run_inv net 2 (program any) InSwap
        (λ h c d e s. (step-Advances any h.rank h.peer h.copied c d s e).0) hs (all_at at_send net)
        (record {
          sound = tt;
          sound_back = tt;
          none_self = empty 0 0;
          none_self_back = empty 1 1;
          there = empty 0 1;
          back = empty 1 0;
        })

  -- In both repaired programs, whatever the order of the steps: until both processes have ended with
  -- the number that the other one sent, one of them can go on, and no step needs a copied message.
  pub run-MovesOn : (any : Bool) (hs : List Choice) → MovesOn any (reached any hs)
  run-MovesOn any hs =
      let c = reached any hs in waits any c (c.local 0) (c.local 1) (refl, refl, run-InSwap any hs)

  -- Each step of a run of them is one of the three that each process makes.
  pub total-step :
      (any : Bool) (hs : List Choice) (h : Choice) (d : Config net Place)
      → step net 2 (program any) h (reached any hs) ≡ some d
      → (total (reached any hs) < total d) × (total d ≤ 6)
  total-step any hs h d e =
      let (s, more) =
        step-Advances any h.rank h.peer h.copied (reached any hs) d (run-InSwap any hs) e in
      (more, omega (arith, steps_made-le (d.local 0), steps_made-le (d.local 1)))
