-- ===== src/Mpi/Ring.antt =====
-- MPI/NSDS_MPI_tutorial/src/ring.c: a number goes round all processes and grows by one at each hop.
pub mod Hops
mod Ranks
pub mod Passing
pub mod Around
mod Tests
use nsdscourse.Base.{ℕ, ◌+◌, ◌%◌, some, [], ◌∷◌, get_or, ltb, ◌==◌, if◌then◌else◌}
use nsdscourse.Mpi.Network.{Network}
use nsdscourse.Mpi.Process.{Op, finished, compute, send, recv, standard, Config}

-- The variables of the loop.
pub record Loop : Type 0 where
  pub i : ℕ
  pub num_hops : ℕ

-- `receiver`
unfoldable pub receiver : ℕ → ℕ → ℕ
receiver world_size i = (i + 1) % world_size

-- The loop of `main`, a round of it for each call; a round without a message is a computation.
unfoldable pub ring : ℕ → ℕ → Loop → Op Loop
ring world_size my_rank l =
    if ltb l.i world_size
    then if my_rank == l.i
      then send standard (receiver world_size l.i) ((l.num_hops + 1) ∷ [])
          (record { i = l.i + 1; num_hops = l.num_hops + 1 })
      else if my_rank == receiver world_size l.i
      then recv (some l.i)
          (λ source message. record { i = l.i + 1; num_hops = get_or message 0 l.num_hops })
      else compute (record l { i = l.i + 1 })
    else finished

abbrev pub start : (net : Network) → Config net Loop
start net = record { local = λ r. record { i = 0; num_hops = 0 }; flight = net.empty }
