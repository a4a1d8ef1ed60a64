-- ===== src/Mpi/MonteCarlo.antt =====
-- MPI/NSDS_MPI_lab/monte_carlo.c: the share of random points that fall into the quarter circle. A
-- point is `a / RAND_MAX`, `b / RAND_MAX`; its distance is compared exactly, without the rounding of
-- `double`, so that both tests of the source are the same one.
pub mod Bounds
mod Tests
use nsdscourse.Base.{ℕ, ◌+◌, ◌*◌, List, [], ◌∷◌, map, leb, if◌then◌else◌}
use nsdscourse.Mpi.Collective.{Collective}

-- The two calls of `rand()` for a point.
pub record Point : Type 0 where
  pub a : ℕ
  pub b : ℕ

-- The loop of `main`.
pub count_hits : ℕ → ℕ → List Point → ℕ
count_hits rand_max local_sum [] = local_sum
count_hits rand_max local_sum (p ∷ ps) =
    count_hits rand_max
      (if leb (p.a * p.a + p.b * p.b) (rand_max * rand_max) then local_sum + 1 else local_sum) ps

-- The sum that rank 0 receives, from the points of each rank.
pub global_hits : Collective → ℕ → List (List Point) → ℕ
global_hits mpi rand_max ranks = mpi.reduce_sum (map (count_hits rand_max 0) ranks)
