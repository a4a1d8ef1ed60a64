-- ===== src/Mpi/Average.antt =====
-- MPI/NSDS_MPI_tutorial/src/average.c: rank 0 scatters random numbers, each rank averages its own,
-- and rank 0 averages the averages. `float` is a parameter.
pub mod Sums
mod Tests
use nsdscourse.Base.{
  ℕ, ◌+◌, ◌*◌, ◌%◌, ◌^◌, List, [], ◌∷◌, map, length, Option, none, some, replicate,
}
use mathlib.Core.Option.{map as option_map}
use nsdscourse.Mpi.Collective.{Collective}

-- `rand() % max_value` for each element; the list is what `rand()` returns.
pub create_random_array : List ℕ → ℕ → List ℕ
create_random_array [] max_value = []
create_random_array (r ∷ rs) max_value = r % max_value ∷ create_random_array rs max_value

pub record Floats (F : Type 0) : Type 0 where
  pub of_int : ℕ → F
  pub add : F → F → F
  pub div : F → F → F

-- The loop of `compute_average`, on an `int` that must not overflow.
pub int_sum : ℕ → List ℕ → ℕ
int_sum sum [] = sum
int_sum sum (x ∷ xs) = int_sum (sum + x) xs

module _ {F : Type 0} (floats : Floats F) where
  pub compute_average : List ℕ → F
  compute_average array =
      floats.div (floats.of_int (int_sum 0 array)) (floats.of_int (length array))

  pub float_sum : F → List F → F
  float_sum sum [] = sum
  float_sum sum (x ∷ xs) = float_sum (floats.add sum x) xs

  pub compute_final_average : List F → F
  compute_final_average array =
      floats.div (float_sum (floats.of_int 0) array) (floats.of_int (length array))

  -- What rank 0 prints: the average of the averages, and the sequential one.
  pub average : Collective → ℕ → ℕ → List ℕ → Option (F × F)
  average mpi num_elements_per_proc world_size global_arr =
      option_map
        (λ gather_buffer. (compute_final_average gather_buffer, compute_average global_arr))
        (mpi.gather F (replicate world_size 0)
          (map compute_average (mpi.scatter ℕ num_elements_per_proc world_size global_arr)))
