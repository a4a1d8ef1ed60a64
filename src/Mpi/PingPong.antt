-- ===== src/Mpi/PingPong.antt =====
-- MPI/NSDS_MPI_tutorial/src/ping_pong.c: two processes count to 100 by sending each other the count.
pub mod Turns
mod Tests
use nsdscourse.Base.{ℕ, ◌+◌, ◌-◌, ◌%◌, some, [], ◌∷◌, get_or, ltb, ◌==◌, if◌then◌else◌}
use nsdscourse.Mpi.Network.{Network}
use nsdscourse.Mpi.Process.{Op, finished, send, recv, standard, Config}

abbrev pub tot_msgs : ℕ
tot_msgs = 100

abbrev pub other_rank : ℕ → ℕ
other_rank my_rank = 1 - my_rank

-- The loop of `main`, with `num_msgs` as the variable.
unfoldable pub ping_pong : ℕ → ℕ → Op ℕ
ping_pong my_rank num_msgs =
    if ltb num_msgs tot_msgs
    then if num_msgs % 2 == my_rank
      then send standard (other_rank my_rank) ((num_msgs + 1) ∷ []) (num_msgs + 1)
      else recv (some (other_rank my_rank)) (λ source message. get_or message 0 num_msgs)
    else finished

abbrev pub start : (net : Network) → Config net ℕ
start net = record { local = λ r. 0; flight = net.empty }
