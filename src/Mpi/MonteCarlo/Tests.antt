-- ===== src/Mpi/MonteCarlo/Tests.antt =====
-- Runs and instances of monte_carlo.c.
use nsdscourse.Base.{◌≡◌, refl, List, [], ◌∷◌}
use nsdscourse.Mpi.MonteCarlo.{Point, count_hits}

abbrev near : Point
near = record { a = 3; b = 4 }

abbrev far : Point
far = record { a = 9; b = 9 }

hits : count_hits 10 0 (near ∷ far ∷ near ∷ []) ≡ 2
unfolding count_hits
hits = refl

abbrev ranks : List (List Point)
ranks = (near ∷ far ∷ []) ∷ (near ∷ near ∷ []) ∷ []
