-- ===== src/Mpi/Deadlock.antt =====
-- MPI/NSDS_MPI_tutorial/src/deadlock.c, deadlock_avoid_isend.c, deadlock_avoid_sendrecv.c and recv.c:
-- two processes that send each other a number, with and without a deadlock, and processes that
-- wait for a message that nobody sends. MPI_Sendrecv does what an MPI_Isend, an MPI_Recv and an
-- MPI_Wait do; the barrier behind it stands with the end of the program.
pub mod Stuck
pub mod Swap
mod Tests
use nsdscourse.Base.{ℕ, ◌-◌, Option, none, some, [], ◌∷◌, get_or, ltb, if◌then◌else◌}
use nsdscourse.Mpi.Network.{Network}
use nsdscourse.Mpi.Process.{Op, finished, send, recv, wait, synchronous, immediate, Config}

-- Where a process is; behind the receive with the number that it has received.
pub data Place : Type 0 where
  at_send at_recv : Place
  at_wait at_end : ℕ → Place

-- The call of MPI_Recv; `place` is where the process is behind it.
abbrev pub receive_from : Option ℕ → (ℕ → Place) → Op Place
receive_from source place = recv source (λ q message. place (get_or message 0 0))

-- `main` of deadlock.c.
unfoldable pub deadlock : ℕ → Place → Op Place
deadlock my_rank at_send = send synchronous (1 - my_rank) (1 ∷ []) at_recv
deadlock my_rank at_recv = receive_from (some (1 - my_rank)) at_end
deadlock my_rank (at_wait m) = finished
deadlock my_rank (at_end m) = finished

-- A send that does not wait, a receive from `source`, and the wait for the send.
unfoldable pub swap : Option ℕ → ℕ → Place → Op Place
swap source my_rank at_send = send immediate (1 - my_rank) (1 ∷ []) at_recv
swap source my_rank at_recv = receive_from source at_wait
swap source my_rank (at_wait m) = wait (1 - my_rank) (at_end m)
swap source my_rank (at_end m) = finished

-- `main` of deadlock_avoid_isend.c.
abbrev pub avoid_isend : ℕ → Place → Op Place
avoid_isend my_rank = swap (some (1 - my_rank)) my_rank

-- `main` of deadlock_avoid_sendrecv.c.
abbrev pub avoid_sendrecv : ℕ → Place → Op Place
avoid_sendrecv my_rank = swap none my_rank

-- `main` of recv.c.
unfoldable pub recv_only : ℕ → Place → Op Place
recv_only my_rank at_recv = if ltb 0 my_rank then receive_from (some 0) at_end else finished
recv_only my_rank at_send = finished
recv_only my_rank (at_wait m) = finished
recv_only my_rank (at_end m) = finished

-- All processes at the same place, and no message on its way.
abbrev pub all_at : Place → (net : Network) → Config net Place
all_at p net = record { local = λ r. p; flight = net.empty }
