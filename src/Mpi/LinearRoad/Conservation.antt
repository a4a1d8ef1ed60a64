-- ===== src/Mpi/LinearRoad/Conservation.antt =====
-- No car of linear_road.c is lost, and the printed sums are right.
use nsdscourse.Base.{
  ℕ, zero, suc, ◌+◌, ◌≤◌, ◌<◌, ◌≡◌, refl, List, [], ◌∷◌, map, arith, ◌==◌, if◌then◌else◌, length,
  sum, replicate, All, ◌-◌, ◌/◌, ◌%◌, length-replicate, All-replicate, sum-replicate_zero,
}
use native.Mathlib.Nat.{le-div_iff_mul-le}
use nsdscourse.Mpi.Collective.{Collective}
use nsdscourse.Mpi.LinearRoad.{
  create_random_input, flow, add_first, sweep, Rank, Road, receive_from, iterate_ranks, iterate,
  global_sum, simulate, empty_road,
}
use nsdscourse.Mpi.LinearRoad.Drain.{flow_lem}

-- The cars on the road.
abbrev pub total : List Rank → ℕ
total ranks = sum (map (λ r. sum r.segments) ranks)

-- Each rank has a segment.
abbrev pub HasSegments : List Rank → Type 0
HasSegments ranks = All (λ r. 0 < length r.segments) ranks

sum-add_first : (cars : ℕ) (xs : List ℕ) → 0 < length xs → sum (add_first cars xs) ≡ sum xs + cars
sum-add_first cars [] h = absurd (omega arith)
sum-add_first cars (x ∷ xs) h = omega arith

length-add_first : (cars : ℕ) (xs : List ℕ) → length (add_first cars xs) ≡ length xs
length-add_first cars [] = refl
length-add_first cars (x ∷ xs) = refl

module _ (rand : ℕ → ℕ) (rand_max : ℕ) where
  length-sweep :
      (xs : List ℕ) (drawn : ℕ) → length (sweep rand rand_max xs drawn).segments ≡ length xs
  unfolding sweep
  length-sweep [] drawn = refl
  length-sweep (x ∷ []) drawn = refl
  length-sweep (x ∷ y ∷ xs) drawn = omega (arith, length-add_first, length-sweep (y ∷ xs) drawn)

  -- The loops of an iteration move cars along, and none is lost: what leaves the last segment is
  -- what the segments lose together.
  pub sweep_lem :
      (xs : List ℕ) (drawn : ℕ)
      → let s = sweep rand rand_max xs drawn in sum s.segments + s.exiting_cars ≡ sum xs
  unfolding sweep
  sweep_lem [] drawn = refl
  sweep_lem (x ∷ []) drawn = omega (arith, flow_lem rand rand_max x drawn)
  sweep_lem (x ∷ y ∷ xs) drawn =
      let s = sweep rand rand_max (y ∷ xs) drawn in
      let f = flow rand rand_max x s.drawn in
      omega (
        arith,
        sum-add_first f.moved s.segments (omega (arith, length-sweep (y ∷ xs) drawn)),
        flow_lem rand rand_max x s.drawn,
        sweep_lem (y ∷ xs) drawn,
      )

-- What a road satisfies at the end of each iteration.
pub record IsBalanced (road : Road) : Type 0 where
  pub balance : total road.ranks + road.gone ≡ road.entered
  pub running : HasSegments road.ranks

module _ (rand : ℕ → ℕ → ℕ) (rand_max : ℕ) where
  receive_from-total :
      (rank buff : ℕ) (rs : List Rank)
      → HasSegments rs
      → let (rs', out) = receive_from rand rand_max rank buff rs in
        (total rs' + out ≡ total rs + buff) × HasSegments rs'
  unfolding receive_from
  receive_from-total rank buff [] h = (omega arith, tt)
  receive_from-total rank buff (r ∷ rs) h =
      let s = sweep (rand rank) rand_max r.segments r.drawn in
      let long = length-sweep (rand rank) rand_max r.segments r.drawn in
      let rest = receive_from-total (suc rank) s.exiting_cars rs h.1 in
      (
        omega (
          arith,
          rest.0,
          sweep_lem (rand rank) rand_max r.segments r.drawn,
          sum-add_first buff s.segments (omega (arith, long, h.0)),
        ),
        (omega (arith, long, length-add_first buff s.segments, h.0), rest.1),
      )

  iterate_ranks-IsBalanced :
      (ranks : List Rank) (entered gone : ℕ)
      → IsBalanced (record { ranks = ranks; entered = entered; gone = gone })
      → IsBalanced (iterate_ranks rand rand_max ranks entered gone)
  unfolding iterate_ranks
  iterate_ranks-IsBalanced [] entered gone b = b
  iterate_ranks-IsBalanced (r ∷ rs) entered gone b =
      let s = sweep (rand 0) rand_max r.segments r.drawn in
      let input = create_random_input (rand 0 s.drawn) in
      let long = length-sweep (rand 0) rand_max r.segments r.drawn in
      let rest = receive_from-total 1 s.exiting_cars rs b.running.1 in
      let grown = sum-add_first input s.segments (omega (arith, long, b.running.0)) in
      record {
        balance =
            omega (arith, rest.0, b.balance, sweep_lem (rand 0) rand_max r.segments r.drawn, grown);
        running = (omega (arith, long, length-add_first input s.segments, b.running.0), rest.1);
      }

  -- The sums that `simulate` prints, of the roads that it goes through.
  pub printed : ℕ → ℕ → Road → List ℕ
  printed zero it road = []
  printed (suc n) it road =
      let next = iterate rand rand_max road in
      let rest = printed n (it + 1) next in
      if it % 10 == 0 then (next.entered - next.gone) ∷ rest else rest

  -- From a road where the cars add up and every rank has a segment, after any number of iterations
  -- the cars on the road are those that entered less those that left, and every sum that rank 0
  -- prints, at each tenth iteration, is that number at its time.
  pub simulate_lem :
      (mpi : Collective) (n it : ℕ) (road : Road)
      → IsBalanced road
      → IsBalanced (simulate rand rand_max mpi n it road).0
        × ((simulate rand rand_max mpi n it road).1 ≡ printed n it road)
  unfolding simulate printed global_sum
  simulate_lem mpi zero it road b = (b, refl)
  simulate_lem mpi (suc n) it road b =
      let b' = iterate_ranks-IsBalanced road.ranks road.entered road.gone b in
      let rest = simulate_lem mpi n (it + 1) (iterate rand rand_max road) b' in
      let next = iterate rand rand_max road in
      let shown : mpi.reduce_sum (map (λ r. sum r.segments) next.ranks) ≡ next.entered - next.gone =
        omega (arith, mpi.reduce_sum_lem (map (λ r. sum r.segments) next.ranks), b'.balance) in
      (rest.0, rw (shown, rest.1))

total-replicate : (n : ℕ) (r : Rank) → sum r.segments ≡ 0 → total (replicate n r) ≡ 0
total-replicate zero r h = refl
total-replicate (suc n) r h = omega (arith, total-replicate n r h)

-- The road that the program starts with is balanced, if each rank gets a segment.
pub empty_road-IsBalanced :
    (num_procs : ℕ) → 0 < num_procs → num_procs ≤ 256 → IsBalanced (empty_road num_procs)
unfolding empty_road
empty_road-IsBalanced num_procs h k = record {
  balance = omega (arith, total-replicate num_procs empty (sum-replicate_zero (256 / num_procs)));
  running =
      All-replicate (λ r. 0 < length r.segments) num_procs empty
        (omega (arith, length-replicate {A = ℕ} (256 / num_procs) 0, some_segments));
}
  where
    empty : Rank
    empty = record { segments = replicate (256 / num_procs) 0; drawn = 0 }

    some_segments : 0 < 256 / num_procs
    some_segments = (le-div_iff_mul-le h).1 (omega arith)
