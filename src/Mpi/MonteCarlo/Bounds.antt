-- ===== src/Mpi/MonteCarlo/Bounds.antt =====
-- The estimate of monte_carlo.c lies between 0 and 4.
use nsdscourse.Base.{
  ℕ, ◌+◌, ◌*◌, ◌≤◌, ◌<◌, ◌^◌, ◌≡◌, List, [], ◌∷◌, map, arith, length, sum, All, leb, if◌then◌else◌,
}
use nsdscourse.Mpi.Collective.{Collective}
use nsdscourse.Mpi.MonteCarlo.{Point, count_hits, global_hits}

count_hits-le : (rand_max acc : ℕ) (ps : List Point) → count_hits rand_max acc ps ≤ acc + length ps
unfolding count_hits
count_hits-le rand_max acc [] = omega arith
count_hits-le rand_max acc (p ∷ ps) = ground (
  arith,
  count_hits-le rand_max
      (if leb (p.a * p.a + p.b * p.b) (rand_max * rand_max) then acc + 1 else acc) ps,
)

hits-le :
    (rand_max n : ℕ) (ranks : List (List Point))
    → All (λ ps. length ps ≡ n) ranks
    → sum (map (count_hits rand_max 0) ranks) ≤ n * length ranks
hits-le rand_max n [] h = omega arith
hits-le rand_max n (ps ∷ ranks) h =
    omega (arith, h.0, count_hits-le rand_max 0 ps, hits-le rand_max n ranks h.1)

-- A product of two bounded numbers.
product-le : (n m a b : ℕ) → n ≤ a → m ≤ b → n * m ≤ a * b
product-le n m a b h k = grind arith

-- With `n` points at each rank there are no more hits than points; and with ten million points at
-- most for a rank and 214 ranks at most the number of points fits the `int` that it is computed in.
pub global_hits-le :
    (mpi : Collective) (rand_max n : ℕ) (ranks : List (List Point))
    → All (λ ps. length ps ≡ n) ranks
    → n ≤ 10000000
    → length ranks ≤ 214
    → (global_hits mpi rand_max ranks ≤ n * length ranks) × (n * length ranks < 2 ^ 31)
unfolding global_hits
global_hits-le mpi rand_max n ranks h k l = (
  omega (arith, mpi.reduce_sum_lem (map (count_hits rand_max 0) ranks), hits-le rand_max n ranks h),
  omega (arith, product-le n (length ranks) 10000000 214 k l),
)
