-- ===== src/Mpi/Ring/Ranks.antt =====
-- Searches and sums over ranks, as the proofs about ring.c use them.
use nsdscourse.Base.{
  ℕ, zero, suc, ◌+◌, ◌*◌, ◌≤◌, ◌<◌, ◌≡◌, refl, ap, arith, List, [], ◌∷◌, ℕ_discrete,
}

-- A list is empty or not, with the equation kept.
pub data Listed {A : Type 0} (xs : List A) : Type 0 where
  is_empty : xs ≡ [] → Listed xs
  is_cons : (a : A) (as' : List A) → xs ≡ a ∷ as' → Listed xs

pub listed : {A : Type 0} (xs : List A) → Listed xs
listed [] = is_empty refl
listed (a ∷ as') = is_cons a as' refl

-- Some rank below `n` is in round `k`, or all are behind it.
pub data Found (f : ℕ → ℕ) (k n : ℕ) : Type 0 where
  at_rank : (r : ℕ) → r < n → f r ≡ k → Found f k n
  all_behind : ((r : ℕ) → r < n → k < f r) → Found f k n

pub find : (f : ℕ → ℕ) (k n : ℕ) → ((r : ℕ) → r < n → k ≤ f r) → Found f k n
find f k zero low = all_behind (λ r h. absurd (omega arith))
find f k (suc n) low = elim (ℕ_discrete (f n) k) [
  | yes e ↦ at_rank n (omega arith) e
  | no behind ↦ elim (find f k n (λ r h. low r (omega arith))) [
    | at_rank r h e ↦ at_rank r (omega arith) e
    | all_behind more ↦ all_behind (λ r h. elim (ℕ_discrete r n) [
      | yes e ↦ ground (arith, low n (omega arith), ap f e)
      | no n' ↦ more r (omega arith)
    ])
  ]
]

-- The sum of a number of each of `n` ranks.
abbrev pub sum_below : ℕ → (ℕ → ℕ) → ℕ
sum_below zero f = 0
sum_below (suc n) f = sum_below n f + f n

sum_below-le : (n : ℕ) (f g : ℕ → ℕ) → ((r : ℕ) → f r ≤ g r) → sum_below n f ≤ sum_below n g
sum_below-le zero f g h = omega arith
sum_below-le (suc n) f g h = omega (arith, sum_below-le n f g h, h n)

pub sum_below-lt :
    (n : ℕ) (f g : ℕ → ℕ) (r : ℕ)
    → ((s : ℕ) → f s ≤ g s)
    → r < n
    → f r < g r
    → sum_below n f < sum_below n g
sum_below-lt zero f g r h k l = absurd (omega arith)
sum_below-lt (suc n) f g r h k l = elim (ℕ_discrete r n) [
  | yes e ↦ ground (arith, sum_below-le n f g h, h n, ap f e, ap g e)
  | no n' ↦ omega (arith, sum_below-lt n f g r h (omega arith) l, h n)
]

pub sum_below-bound : (n b : ℕ) (f : ℕ → ℕ) → ((r : ℕ) → r < n → f r ≤ b) → sum_below n f ≤ n * b
sum_below-bound zero b f h = omega arith
sum_below-bound (suc n) b f h =
    let rest = sum_below-bound n b f (λ r k. h r (omega arith)) in
    omega (arith, rest, h n (omega arith))
