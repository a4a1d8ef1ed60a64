-- ===== src/Mpi/Probe/Count.antt =====
-- The receiver of probe.c ends with all numbers, in an array of the right size.
use nsdscourse.Base.{
  ℕ, zero, suc, ◌≡◌, refl, Bool, false, some, Option, List, [], ◌∷◌, arith, length, ◌⊎◌, inl, inr,
}
use nsdscourse.Mpi.Network.{Network}
use nsdscourse.Mpi.Process.{Choice, Config, step, run, move}
use nsdscourse.Mpi.Process.Runs.{run_inv}
use nsdscourse.Mpi.Probe.{Place, starting, ended, probed, received, main, start}

abbrev pub numbers : List ℕ
numbers = 0 ∷ 1 ∷ 2 ∷ 3 ∷ 4 ∷ 5 ∷ 6 ∷ 7 ∷ 8 ∷ 9 ∷ []

-- The sender's place, the receiver's, and the messages between them, fit together.
abbrev pub Fits : Place → Place → List (List ℕ) → Type 0
Fits starting starting ms = ms ≡ []
Fits starting (probed q n) ms = (q ≡ 0) × (n ≡ 10) × (ms ≡ [])
Fits ended starting ms = ms ≡ numbers ∷ []
Fits ended (probed q n) ms = (q ≡ 0) × (n ≡ 10) × (ms ≡ numbers ∷ [])
Fits ended (received m) ms = (m ≡ numbers) × (ms ≡ [])
Fits x y ms = ⊥

module _ (net : Network) where
  record InOrder (c : Config net Place) : Type 0 where
    fits : Fits (c.local 0) (c.local 1) (net.pending c.flight 0 1)
    none_back : net.pending c.flight 1 0 ≡ []
    none_self : net.pending c.flight 1 1 ≡ []

  abbrev pub step_with : ℕ → ℕ → Bool → Config net Place → Option (Config net Place)
  step_with r q b c = step net 2 main (record { rank = r; peer = q; copied = b }) c

  module _ (q : ℕ) (b : Bool) (c d : Config net Place) where
    abbrev Known : Place → Place → Type 0
    Known x y = (c.local 0 ≡ x) × (c.local 1 ≡ y) × InOrder c

    sender-InOrder : (x y : Place) → Known x y → step_with 0 q b c ≡ some d → InOrder d
    unfolding step main
    sender-InOrder starting starting k h =
        let post = net.pending-post 0 1 numbers c.flight in
        ground (arith, post 0 1, post 1 0, post 1 1)
    sender-InOrder starting y k h =
        let post = net.pending-post 0 1 numbers c.flight in
        ground (arith, post 0 1, post 1 0, post 1 1)
    sender-InOrder ended y k h = absurd (ground arith)
    sender-InOrder x y k h = absurd (ground arith)

    receiver-InOrder : (y x : Place) → Known x y → step_with 1 q b c ≡ some d → InOrder d
    unfolding step main
    receiver-InOrder starting starting k h = ground arith
    receiver-InOrder starting x k h = ground arith
    receiver-InOrder (probed s n) starting k h = ground arith
    receiver-InOrder (probed s n) x k h =
        let taken = net.pending-take_first 0 1 c.flight in
        ground (arith, taken 0 1, taken 1 0, taken 1 1)
    receiver-InOrder ended x k h = absurd (ground arith)
    receiver-InOrder y x k h = absurd (ground arith)

  step-InOrder :
      (r q : ℕ) (b : Bool) (c d : Config net Place)
      → InOrder c
      → step_with r q b c ≡ some d
      → InOrder d
  unfolding step
  step-InOrder zero q b c d s h = sender-InOrder q b c d (c.local 0) (c.local 1) (refl, refl, s) h
  step-InOrder (suc zero) q b c d s h =
      receiver-InOrder q b c d (c.local 1) (c.local 0) (refl, refl, s) h
  step-InOrder (suc (suc r)) q b c d s h = absurd (ground arith)

  -- Where a run stands: the receiver is at its end with all numbers; or it has asked, and its array has
  -- room for just what is sent; or it has not asked yet. A process can go on before the end, although
  -- no message is copied.
  pub data Stands (c : Config net Place) : Type 0 where
    at_end : c.local 0 ≡ ended → c.local 1 ≡ received numbers → Stands c
    has_asked :
        (q : ℕ) (d : Config net Place)
        → c.local 1 ≡ probed 0 (length numbers)
        → step_with 1 q false c ≡ some d ⊎ step_with 0 q false c ≡ some d
        → Stands c
    asks :
        (q : ℕ) (d : Config net Place)
        → c.local 1 ≡ starting
        → step_with 1 q false c ≡ some d
        → Stands c

  stands : (c : Config net Place) (x y : Place) → Known 0 false c c x y → Stands c
  unfolding step main
  stands c starting starting k = asks 0 (move net 1 (probed 0 10) c) (ground arith) (ground arith)
  stands c starting (probed q n) k =
      has_asked 1 (move net 1 (received numbers) (move net 0 ended c)) (ground arith)
        (inr (ground arith))
  stands c ended starting k = asks 0 (move net 1 (probed 0 10) c) (ground arith) (ground arith)
  stands c ended (probed q n) k =
      has_asked 0
        (move net 1 (received numbers) (record c { flight = net.take_first 0 1 c.flight }))
        (ground arith) (inl (ground arith))
  stands c ended (received m) k = at_end (ground arith) (ground arith)
  stands c starting ended k = absurd (ground arith)
  stands c x y k = absurd (ground arith)

  abbrev pub reached : List Choice → Config net Place
  reached hs = run net 2 main hs (start net)

  run-InOrder : (hs : List Choice) → InOrder (reached hs)
  run-InOrder hs =
      run_inv net 2 main InOrder (λ h c d e s. step-InOrder h.rank h.peer h.copied c d s e) hs
        (start net)
        (record {
          fits = net.pending-empty 0 1;
          none_back = net.pending-empty 1 0;
          none_self = net.pending-empty 1 1;
        })

  -- Whatever the order of the steps of probe.c: its receiver makes an array for exactly the ten numbers
  -- that rank 0 sends and ends with all of them, and until then some process can go on.
  pub run-Stands : (hs : List Choice) → Stands (reached hs)
  run-Stands hs =
      let c = reached hs in stands c (c.local 0) (c.local 1) (refl, refl, run-InOrder hs)
