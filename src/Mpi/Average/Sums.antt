-- ===== src/Mpi/Average/Sums.antt =====
-- The sums of average.c: nothing is lost by scattering, and no `int` overflows.
use nsdscourse.Base.{
  ℕ, zero, suc, ◌+◌, ◌*◌, ◌≤◌, ◌<◌, ◌^◌, ◌≡◌, refl, ap, List, [], ◌∷◌, map, arith, length, sum, All,
  sum-le,
}
use nsdscourse.Mpi.Collective.{Collective, chunks}
use nsdscourse.Mpi.Collective.Chunks.{sum-chunks}
use nsdscourse.Mpi.Average.{create_random_array, int_sum}

int_sum-sum : (acc : ℕ) (xs : List ℕ) → int_sum acc xs ≡ acc + sum xs
unfolding int_sum
int_sum-sum acc [] = omega arith
int_sum-sum acc (x ∷ xs) = omega (arith, int_sum-sum (acc + x) xs)

map-int_sum : (xss : List (List ℕ)) → map (int_sum 0) xss ≡ map sum xss
map-int_sum [] = refl
map-int_sum (xs ∷ xss) =
    let head : int_sum 0 xs ≡ sum xs = omega (arith, int_sum-sum 0 xs) in rw (head, map-int_sum xss)

-- The sums that the ranks compute, of an array with as many elements for each rank, add up to the
-- sum that rank 0 computes sequentially.
pub sums_agree :
    (mpi : Collective) (count procs : ℕ) (global_arr : List ℕ)
    → procs * count ≡ length global_arr
    → sum (map (int_sum 0) (mpi.scatter ℕ count procs global_arr)) ≡ int_sum 0 global_arr
sums_agree mpi count procs global_arr h =
    rw
      (
        mpi.scatter_lem ℕ count procs global_arr (omega arith),
        map-int_sum (chunks count procs global_arr),
      )
      (omega (arith, sum-chunks count procs global_arr h, int_sum-sum 0 global_arr))

small-array : (rs : List ℕ) → All (λ x. x ≤ 99) (create_random_array rs 100)
unfolding create_random_array
small-array [] = tt
small-array (r ∷ rs) = (omega arith, small-array rs)

length-array : (rs : List ℕ) → length (create_random_array rs 100) ≡ length rs
unfolding create_random_array
length-array [] = refl
length-array (r ∷ rs) = ap suc (length-array rs)

-- With at most 21 million elements, which the modulus keeps below 100, the sum fits an `int`.
pub int_sum-bound :
    (rs : List ℕ) → length rs ≤ 21000000 → int_sum 0 (create_random_array rs 100) < 2 ^ 31
int_sum-bound rs h =
    let xs = create_random_array rs 100 in
    omega (arith, int_sum-sum 0 xs, sum-le 99 xs (small-array rs), length-array rs)

length-chunks :
    {A : Type 0} (count procs : ℕ) (xs : List A) → length (chunks count procs xs) ≡ procs
length-chunks count zero xs = refl
length-chunks count (suc procs) xs = ap suc (length-chunks count procs _)
