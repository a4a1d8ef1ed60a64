-- ===== src/Mpi/LinearRoad.antt =====
-- MPI/NSDS_MPI_lab/linear_road.c: cars move along a road that is cut into segments, a block of
-- segments for each rank. `rand r k` is what the `k`-th call of `rand()` returns at rank `r`, and
-- `rand_max` is RAND_MAX. A message from rank `r` to rank `r + 1` is the only one of its iteration
-- between the two, so what rank `r + 1` receives is what rank `r` sent in the same iteration.
pub mod Drain
pub mod Conservation
mod Tests
use nsdscourse.Base.{
  ℕ, zero, suc, ◌+◌, ◌-◌, ◌/◌, ◌%◌, Bool, true, false, List, [], ◌∷◌, ltb, ◌==◌, if◌then◌else◌, sum,
  replicate, map,
}
use nsdscourse.Mpi.Collective.{Collective}

-- The local variables of a loop over the cars of a segment: the counter, the cars left, the cars
-- moved on, and the calls of `rand()` so far.
pub record Flow : Type 0 where
  pub c : ℕ
  pub left : ℕ
  pub moved : ℕ
  pub drawn : ℕ

-- `(rand() / RAND_MAX) < alpha`, with an integer division and alpha = 0.5
abbrev pub move_next_segment : ℕ → ℕ → Bool
move_next_segment rand_max r = r / rand_max == 0

-- `rand() % max_in_per_sec`
abbrev pub create_random_input : ℕ → ℕ
create_random_input r = r % 10

-- `segments[0] += cars`
abbrev pub add_first : ℕ → List ℕ → List ℕ
add_first cars [] = []
add_first cars (x ∷ xs) = (x + cars) ∷ xs

-- A rank after the loops of an iteration.
pub record Swept : Type 0 where
  pub segments : List ℕ
  pub exiting_cars : ℕ
  pub drawn : ℕ

module _ (rand : ℕ → ℕ) (rand_max : ℕ) where
  abbrev pub one_car : Flow → Flow
  one_car f =
      if move_next_segment rand_max (rand f.drawn)
      then record { c = f.c + 1; left = f.left - 1; moved = f.moved + 1; drawn = f.drawn + 1 }
      else record f { c = f.c + 1; drawn = f.drawn + 1 }

  -- `for (c = 0; c < segments[s]; c++)`, where the body lowers `segments[s]`, on fuel.
  pub drain : ℕ → Flow → Flow
  drain zero f = f
  drain (suc fuel) f = let rest = drain fuel (one_car f) in if ltb f.c f.left then rest else f

  -- The loop over a segment of `cars` cars, at the call `drawn` of `rand()`.
  abbrev pub flow : ℕ → ℕ → Flow
  flow cars drawn = drain cars (record { c = 0; left = cars; moved = 0; drawn = drawn })

  -- The last segment first, then the others downwards, each into the next one.
  pub sweep : List ℕ → ℕ → Swept
  sweep [] drawn = record { segments = []; exiting_cars = 0; drawn = drawn }
  sweep (x ∷ []) drawn =
      let f = flow x drawn in
      record { segments = f.left ∷ []; exiting_cars = f.moved; drawn = f.drawn }
  sweep (x ∷ y ∷ xs) drawn =
      let s = sweep (y ∷ xs) drawn in
      let f = flow x s.drawn in
      record {
        segments = f.left ∷ add_first f.moved s.segments;
        exiting_cars = s.exiting_cars;
        drawn = f.drawn;
      }

-- The segments of one rank, and its calls of `rand()` so far.
pub record Rank : Type 0 where
  pub segments : List ℕ
  pub drawn : ℕ

-- The road after an iteration, with the cars that entered and those that left it.
pub record Road : Type 0 where
  pub ranks : List Rank
  pub entered : ℕ
  pub gone : ℕ

module _ (rand : ℕ → ℕ → ℕ) (rand_max : ℕ) where
  -- The ranks from `rank` on, the first of which receives `buff` cars; with the cars that the last
  -- rank does not send on.
  pub receive_from : ℕ → ℕ → List Rank → List Rank × ℕ
  receive_from rank buff [] = ([], buff)
  receive_from rank buff (r ∷ rs) =
      let s = sweep (rand rank) rand_max r.segments r.drawn in
      let rest = receive_from (suc rank) s.exiting_cars rs in
      (record { segments = add_first buff s.segments; drawn = s.drawn } ∷ rest.0, rest.1)

  -- An iteration: new cars enter at rank 0, drawn after its loops.
  pub iterate_ranks : List Rank → ℕ → ℕ → Road
  iterate_ranks [] entered gone = record { ranks = []; entered = entered; gone = gone }
  iterate_ranks (r ∷ rs) entered gone =
      let s = sweep (rand 0) rand_max r.segments r.drawn in
      let input = create_random_input (rand 0 s.drawn) in
      let rest = receive_from 1 s.exiting_cars rs in
      record {
        ranks = record { segments = add_first input s.segments; drawn = s.drawn + 1 } ∷ rest.0;
        entered = entered + input;
        gone = gone + rest.1;
      }

  abbrev pub iterate : Road → Road
  iterate road = iterate_ranks road.ranks road.entered road.gone

  -- The overall sum that rank 0 prints.
  pub global_sum : Collective → List Rank → ℕ
  global_sum mpi ranks = mpi.reduce_sum (map (λ r. sum r.segments) ranks)

  -- `it` iterations from iteration `first` on, with the sums that are printed.
  pub simulate : Collective → ℕ → ℕ → Road → Road × List ℕ
  simulate mpi zero it road = (road, [])
  simulate mpi (suc n) it road =
      let road' = iterate road in
      let rest = simulate mpi n (it + 1) road' in
      (rest.0, if it % 10 == 0 then global_sum mpi road'.ranks ∷ rest.1 else rest.1)

-- `calloc(sizeof(int), num_segments / num_procs)` at each of `num_procs` ranks.
pub empty_road : ℕ → Road
empty_road num_procs = record {
  ranks = replicate num_procs (record { segments = replicate (256 / num_procs) 0; drawn = 0 });
  entered = 0;
  gone = 0;
}
