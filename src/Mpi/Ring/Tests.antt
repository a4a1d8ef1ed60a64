-- ===== src/Mpi/Ring/Tests.antt =====
-- Runs and instances of ring.c.
use nsdscourse.Base.{ℕ, zero, suc, ◌*◌, ◌≤◌, ◌<◌, ◌≡◌, refl, false, some, List, [], ◌∷◌, arith}
use nsdscourse.Mpi.Network.Local.{local}
use nsdscourse.Mpi.Process.{Choice, step, run}
use nsdscourse.Mpi.Ring.{ring, receiver, start}
use nsdscourse.Mpi.Ring.Passing.{after_round}
use nsdscourse.Mpi.Ring.Around.{MovesOn, reached, ring-MovesOn, total, total-ring-step}

abbrev choice : ℕ → ℕ → Choice
choice r q = record { rank = r; peer = q; copied = false }

-- Each of three ranks is asked in turn, with every other one.
abbrev turns : ℕ → List Choice
turns zero = []
turns (suc n) =
    choice 0 1 ∷ choice 0 2 ∷ choice 1 0 ∷ choice 1 2 ∷ choice 2 0 ∷ choice 2 1 ∷ turns n

three_hops : ((reached local 3 (turns 4)).local 0).num_hops ≡ 3
unfolding run step ring receiver
three_hops = refl

ring-MovesOn_example : MovesOn local 3 (reached local 3 (turns 1))
ring-MovesOn_example = ring-MovesOn local 3 (omega arith) (turns 1)

first_step :
    step local 3 (ring 3) (choice 2 0) (reached local 3 [])
    ≡ some (after_round local 3 2 (start local))
unfolding run step ring receiver
first_step = refl

total-ring-step_example :
    (total local 3 (reached local 3 []) < total local 3 (after_round local 3 2 (start local)))
    × (total local 3 (after_round local 3 2 (start local)) ≤ 3 * 3)
total-ring-step_example =
    total-ring-step local 3 (omega arith) [] (choice 2 0) (after_round local 3 2 (start local))
      first_step
