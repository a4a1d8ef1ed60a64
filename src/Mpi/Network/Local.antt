-- ===== src/Mpi/Network/Local.antt =====
-- Messages kept in one process, to run the models and to show that the laws of `Network` can be met.
use nsdscourse.Base.{ℕ, refl, ◌&&◌, List, [], ◌∷◌, ◌++◌, drop, ◌==◌, if◌then◌else◌}
use nsdscourse.Mpi.Network.{Network}

abbrev pub local : Network
local = record {
  Flight = ℕ → ℕ → List (List ℕ);
  empty = λ s d. [];
  pending = λ f s d. f s d;
  post = λ from to m f s d. if s == from && d == to then f s d ++ (m ∷ []) else f s d;
  take_first = λ from to f s d. if s == from && d == to then drop 1 (f s d) else f s d;
  pending-empty = λ s d. refl;
  pending-post = λ from to m f s d. refl;
  pending-take_first = λ from to f s d. refl;
}
