-- ===== src/Mpi/Ants.antt =====
-- MPI/NSDS_MPI_eval/ants_simulation_25.c: ants on a line move towards the nearest food source and
-- towards their centre. `float` and `double` are parameters. The broadcasts give each rank the values
-- of rank 0, so that these are kept once; the sum that MPI_Reduce forms of the ranks' floats is a
-- parameter too.
pub mod Nearest
pub mod Shares
mod Tests
use nsdscourse.Base.{
  ℕ, zero, suc, ◌*◌, ◌/◌, Bool, List, [], ◌∷◌, ◌++◌, map, length, drop, get_or, if◌then◌else◌,
}
use nsdscourse.Mpi.Collective.{Collective}

-- What the program does with `float` (F) and `double` (D).
pub record Floats (F D : Type 0) : Type 0 where
  pub of_int : ℕ → F
  pub add : F → F → F
  pub sub : F → F → F
  pub div : F → F → F
  -- `fabs(a) < fabs(b)`
  pub shorter : F → F → Bool
  -- `* 0.01` and `* 0.012`, on `double`, and back to `float`
  pub scale_f1 : F → F
  pub scale_f2 : F → F
  pub zero_double : D
  -- `sum += a` with a `double` sum
  pub accumulate : D → F → D
  -- `sum / n` with a `double` sum, back to `float`
  pub ratio : D → ℕ → F

module _ {F D : Type 0} (floats : Floats F D) where
  -- `min` and `max`
  abbrev pub min_position : F
  min_position = floats.of_int 0

  abbrev pub max_position : F
  max_position = floats.of_int 1000

  -- The argument is what `rand()` returns.
  pub random_position : ℕ → ℕ → F
  random_position rand_max rand =
      floats.add
        (floats.div (floats.of_int rand)
          (floats.div (floats.of_int rand_max) (floats.sub max_position min_position)))
        min_position

  -- One call of `rand()` for each food source.
  pub init_food_sources : ℕ → List ℕ → List F
  init_food_sources rand_max [] = []
  init_food_sources rand_max (r ∷ rs) = random_position rand_max r ∷ init_food_sources rand_max rs

  -- One call of `rand()` for each ant.
  pub init_ants : ℕ → List ℕ → List F
  init_ants rand_max [] = []
  init_ants rand_max (r ∷ rs) = random_position rand_max r ∷ init_ants rand_max rs

  -- The loop of `get_f1`.
  pub nearest : F → F → List F → F
  nearest pos min [] = min
  nearest pos min (f ∷ fs) =
      nearest pos (if floats.shorter (floats.sub f pos) min then floats.sub f pos else min) fs

  pub get_f1 : F → List F → F
  get_f1 pos food_source =
      floats.scale_f1
        (nearest pos (floats.sub (get_or food_source 0 min_position) pos) (drop 1 food_source))

  pub get_f2 : F → F → F
  get_f2 pos center = floats.scale_f2 (floats.sub center pos)

  -- The body of the loop over the ants.
  pub move_ant : List F → F → F → F
  move_ant food_sources center pos =
      let pos' = floats.add pos (get_f1 pos food_sources) in floats.add pos' (get_f2 pos' center)

  -- The loops that add up positions.
  pub add_up : D → List F → D
  add_up sum [] = sum
  add_up sum (a ∷ ants) = add_up (floats.accumulate sum a) ants

  -- The ants of each rank, the centre, and the centres that rank 0 has printed.
  pub record State : Type 0 where
    pub local_ants : List (List F)
    pub center : F
    pub printed : List F

  module _ (reduce : List F → F) (num_procs num_local_ants : ℕ) (food_sources : List F) where
    -- The body of the loop of `main`.
    pub iterate : State → State
    iterate s =
        let moved = map (map (move_ant food_sources s.center)) s.local_ants in
        let local_centers =
          map (λ ants. floats.ratio (add_up floats.zero_double ants) num_local_ants) moved in
        let center = floats.div (reduce local_centers) (floats.of_int num_procs) in
        record { local_ants = moved; center = center; printed = s.printed ++ (center ∷ []) }

    pub iterations : ℕ → State → State
    iterations zero s = s
    iterations (suc n) s = iterations n (iterate s)

  -- `main` from the scatter on.
  pub simulate : Collective → (List F → F) → ℕ → ℕ → List F → List F → State
  simulate mpi reduce num_iterations num_procs food_sources ants =
      let num_local_ants = length ants / num_procs in
      iterations reduce num_procs num_local_ants food_sources num_iterations (record {
        local_ants = mpi.scatter F num_local_ants num_procs ants;
        center = floats.ratio (add_up floats.zero_double ants) (length ants);
        printed = [];
      })
