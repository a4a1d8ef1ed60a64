-- ===== src/Mpi/Ants/Tests.antt =====
-- Runs and instances of ants_simulation_25.c, on whole numbers in place of floats.
use nsdscourse.Base.{ℕ, ◌+◌, ◌-◌, ◌/◌, ◌≡◌, refl, List, [], ◌∷◌, ltb}
use nsdscourse.Mpi.Ants.{Floats, nearest, get_f1}
use nsdscourse.Mpi.Ants.Nearest.{IsNearest, get_f1-IsNearest}

abbrev whole_numbers : Floats ℕ ℕ
whole_numbers = record {
  of_int = λ n. n;
  add = λ a b. a + b;
  sub = λ a b. a - b;
  div = λ a b. a / b;
  shorter = ltb;
  scale_f1 = λ a. a / 100;
  scale_f2 = λ a. a / 83;
  zero_double = 0;
  accumulate = λ a b. a + b;
  ratio = λ a n. a / n;
}

abbrev food : List ℕ
food = 900 ∷ 400 ∷ 700 ∷ []

towards_400 : get_f1 whole_numbers 100 food ≡ 3
unfolding get_f1 nearest
towards_400 = refl

get_f1-IsNearest_example :
    (d : ℕ) × (IsNearest whole_numbers (λ n. n) 100 d food
      × (get_f1 whole_numbers 100 food ≡ whole_numbers.scale_f1 d))
get_f1-IsNearest_example =
    get_f1-IsNearest whole_numbers (λ n. n) 100 900 (400 ∷ 700 ∷ []) (λ a b. refl)
