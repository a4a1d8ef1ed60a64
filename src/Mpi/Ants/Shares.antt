-- ===== src/Mpi/Ants/Shares.antt =====
-- The ants that the ranks of ants_simulation_25.c hold.
use nsdscourse.Base.{List, [], ◌∷◌}
use nsdscourse.Mpi.Collective.{Collective}
use nsdscourse.Mpi.Ants.{Floats, move_ant}

module _ {F D : Type 0} (floats : Floats F D) where
  -- The way of one ant: towards `center`, and then towards each of the centres that are printed but the
  -- last.
  abbrev pub follow : List F → F → List F → F → F
  follow food_sources center [] pos = pos
  follow food_sources center (c ∷ printed) pos =
      follow food_sources c printed (move_ant floats food_sources center pos)
