-- ===== src/Mpi/Network.antt =====
-- Point-to-point messages of MPI, as far as the programs use them. MPI is not part of this repository:
-- the messages on their way are a parameter, with the documented behaviour as laws. A message is the
-- list of its numbers; all messages of the programs have tag 0.
pub mod Local
use nsdscourse.Base.{ℕ, ◌≡◌, ◌&&◌, List, [], ◌∷◌, ◌++◌, drop, ◌==◌, if◌then◌else◌}

pub record Network : Type 1 where
  pub Flight : Type 0
  pub empty : Flight
  -- The messages that one rank has sent to another and that are not received yet, oldest first.
  pub pending : Flight → ℕ → ℕ → List (List ℕ)
  -- A message leaves its sender.
  pub post : ℕ → ℕ → List ℕ → Flight → Flight
  -- The receiver takes the oldest message of a sender.
  pub take_first : ℕ → ℕ → Flight → Flight
  pub pending-empty : (s d : ℕ) → pending empty s d ≡ []
  -- Messages between two ranks do not overtake each other, and others are left alone.
  pub pending-post :
      (from to : ℕ) (m : List ℕ) (f : Flight) (s d : ℕ)
      → pending (post from to m f) s d
        ≡ (if s == from && d == to then pending f s d ++ (m ∷ []) else pending f s d)
  pub pending-take_first :
      (from to : ℕ) (f : Flight) (s d : ℕ)
      → pending (take_first from to f) s d
        ≡ (if s == from && d == to then drop 1 (pending f s d) else pending f s d)
