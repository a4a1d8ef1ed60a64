-- ===== src/Mpi/LinearRoad/Tests.antt =====
-- Runs and instances of linear_road.c.
use nsdscourse.Base.{ℕ, ◌≡◌, refl, [], ◌∷◌, arith}
use nsdscourse.Mpi.Collective.Local.{local}
use nsdscourse.Mpi.LinearRoad.{
  Road, drain, flow, sweep, receive_from, iterate_ranks, simulate, empty_road,
}
use nsdscourse.Mpi.LinearRoad.Conservation.{
  IsBalanced, printed, simulate_lem, empty_road-IsBalanced,
}

abbrev always_seven : ℕ → ℕ
always_seven k = 7

-- Of five cars that all move, two stay.
half_stays : (flow always_seven 100 5 0).left ≡ 2
unfolding drain
half_stays = refl

-- Two ranks of two segments each.
abbrev short_road : Road
short_road = record {
  ranks =
      record { segments = 4 ∷ 3 ∷ []; drawn = 0 }
      ∷ record { segments = 0 ∷ 2 ∷ []; drawn = 0 }
      ∷ [];
  entered = 9;
  gone = 0;
}

iteration : iterate_ranks (λ r. always_seven) 100 short_road.ranks 9 0 ≡ record {
  ranks =
      record { segments = 9 ∷ 3 ∷ []; drawn = 5 }
      ∷ record { segments = 2 ∷ 1 ∷ []; drawn = 1 }
      ∷ [];
  entered = 16;
  gone = 1;
}
unfolding iterate_ranks receive_from sweep drain
iteration = refl

simulate_lem_example :
    IsBalanced (simulate (λ r. always_seven) 100 local 3 0 (empty_road 2)).0
    × ((simulate (λ r. always_seven) 100 local 3 0 (empty_road 2)).1
        ≡ printed (λ r. always_seven) 100 3 0 (empty_road 2))
simulate_lem_example =
    simulate_lem (λ r. always_seven) 100 local 3 0 (empty_road 2)
      (empty_road-IsBalanced 2 (omega arith) (omega arith))
