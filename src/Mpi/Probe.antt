-- ===== src/Mpi/Probe.antt =====
-- MPI/NSDS_MPI_tutorial/src/probe.c: rank 0 sends ten numbers to rank 1, which does not know how many
-- they are and asks MPI_Probe.
pub mod Count
mod Tests
use nsdscourse.Base.{ℕ, zero, suc, ◌-◌, ◌==◌, some, List, [], ◌∷◌, length, leb, if◌then◌else◌}
use nsdscourse.Mpi.Network.{Network}
use nsdscourse.Mpi.Process.{Op, finished, send, recv, probe, standard, Config}

-- `for (int i=0; i<num_msgs; i++) msgs[i] = i;`, with `rounds` rounds left.
pub fill : ℕ → ℕ → List ℕ
fill zero i = []
fill (suc rounds) i = i ∷ fill rounds (suc i)

abbrev pub num_msgs : ℕ
num_msgs = 10

-- Where a process is: the receiver with what the probe and then the receive have given it. A message
-- longer than the array of the receiver is an error.
pub data Place : Type 0 where
  starting ended : Place
  probed : (source num_msgs : ℕ) → Place
  received : List ℕ → Place
  truncated : Place

-- The array `msgs` has room for `room` numbers.
abbrev pub receive_into : ℕ → List ℕ → Place
receive_into room message = if leb (length message) room then received message else truncated

-- `main`
pub main : ℕ → Place → Op Place
unfolding fill
main my_rank starting =
    if my_rank == 0 then send standard (1 - my_rank) (fill num_msgs 0) ended else probe probed
main my_rank (probed source n) = recv (some source) (λ q message. receive_into n message)
main my_rank ended = finished
main my_rank (received message) = finished
main my_rank truncated = finished

abbrev pub start : (net : Network) → Config net Place
start net = record { local = λ r. starting; flight = net.empty }
