-- ===== src/Mpi/Deadlock/Stuck.antt =====
-- deadlock.c and recv.c are stuck from the start.
use nsdscourse.Base.{ℕ, zero, suc, ◌≡◌, ◌↔◌, refl, Bool, none, List, [], ◌∷◌, arith}
use nsdscourse.Mpi.Network.{Network}
use nsdscourse.Mpi.Process.{Op, finished, Choice, Config, step, run, next_op}
use nsdscourse.Mpi.Deadlock.{at_send, deadlock, recv_only, all_at, at_recv}

module _ (net : Network) where
  run-stuck :
      {S : Type 0} (world_size : ℕ) (op : ℕ → S → Op S) (c : Config net S)
      → ((h : Choice) → step net world_size op h c ≡ none)
      → (hs : List Choice) → run net world_size op hs c ≡ c
  unfolding run
  run-stuck world_size op c stuck [] = refl
  run-stuck world_size op c stuck (h ∷ hs) = rw (stuck h) (run-stuck world_size op c stuck hs)

  deadlock-step :
      (r q : ℕ) (b : Bool)
      → step net 2 deadlock (record { rank = r; peer = q; copied = b }) (all_at at_send net) ≡ none
  unfolding step deadlock
  deadlock-step zero q b = ground (arith, net.pending-empty 0 1)
  deadlock-step (suc zero) q b = ground (arith, net.pending-empty 1 0)
  deadlock-step (suc (suc r)) q b = ground arith

  -- In every run of deadlock.c both processes stay at their MPI_Ssend: no step is ever possible.
  pub run-deadlock :
      (hs : List Choice) (h : Choice)
      → (run net 2 deadlock hs (all_at at_send net) ≡ all_at at_send net)
        × (step net 2 deadlock h (run net 2 deadlock hs (all_at at_send net)) ≡ none)
  run-deadlock hs h =
      let stays =
        run-stuck 2 deadlock (all_at at_send net) (λ h. deadlock-step h.rank h.peer h.copied) hs in
      (stays, rw stays (deadlock-step h.rank h.peer h.copied))

  recv_only-step :
      (world_size : ℕ) (h : Choice) → step net world_size recv_only h (all_at at_recv net) ≡ none
  unfolding step recv_only
  recv_only-step world_size h = ground (arith, net.pending-empty h.peer h.rank)

  -- In every run of recv.c, on any number of processes, rank 0 is at its end and each other rank
  -- waits for a message for ever: no step is ever possible.
  pub run-recv_only :
      (world_size : ℕ) (hs : List Choice) (h : Choice) (r : ℕ)
      → (step net world_size recv_only h (run net world_size recv_only hs (all_at at_recv net))
          ≡ none)
        × ((next_op net world_size recv_only
                (run net world_size recv_only hs (all_at at_recv net))
                r
              ≡ finished)
            ↔ (r ≡ 0))
  unfolding recv_only
  run-recv_only world_size hs h r =
      let stays =
        run-stuck world_size recv_only (all_at at_recv net) (recv_only-step world_size) hs in
      (rw stays (recv_only-step world_size h), rw stays (ground arith, ground arith))
