-- ===== src/Mpi/Guess.antt =====
-- MPI/NSDS_MPI_lab/guess.c: each rank guesses a number, the closest single guess wins the round and
-- leads the next one. All ranks are modelled together: a list holds one entry for each rank.
pub mod Winner
pub mod Rounds
mod Tests
use Prim.Native.Nat.{ℕ}
use mathlib.Core.Option.{map as option_map}
use nsdscourse.Base.{
  zero, suc, ◌+◌, ◌-◌, ◌%◌, ◌^◌, Bool, true, false, Option, none, some, List, [], ◌∷◌, map, ltb,
  ◌==◌, if◌then◌else◌, get_or, set,
}
use nsdscourse.Mpi.Collective.{Collective}

abbrev pub min_num : ℕ
min_num = 1

abbrev pub max_num : ℕ
max_num = 1000

-- __INT_MAX__
abbrev pub int_max : ℕ
int_max = 2 ^ 31 - 1

-- `tuple`
pub record Guess : Type 0 where
  pub source : ℕ
  pub number : ℕ

-- `select_number`; the argument is what `rand()` returned.
pub select_number : ℕ → ℕ
select_number rand = min_num + rand % (max_num - min_num + 1)

-- `abs(a - b)`
abbrev pub abs_diff : ℕ → ℕ → ℕ
abs_diff a b = if ltb a b then b - a else a - b

-- The local variables of `compute_winner`; `winner` is `none` for -1.
pub record Best : Type 0 where
  pub least : ℕ
  pub winner : Option ℕ
  pub multiple_guess : Bool

-- One round of the loop over the buffer.
pub consider : ℕ → Best → Guess → Best
consider number_to_guess b g =
    let diff = abs_diff number_to_guess g.number in
    if ltb diff b.least
    then record { least = diff; winner = some g.source; multiple_guess = false }
    else if diff == b.least
    then record b { multiple_guess = true }
    else b

pub scan : ℕ → Best → List Guess → Best
scan number_to_guess b [] = b
scan number_to_guess b (g ∷ gs) = scan number_to_guess (consider number_to_guess b g) gs

abbrev pub no_best : Best
no_best = record { least = int_max; winner = none; multiple_guess = false }

-- `none` stands for -1, no winner.
pub compute_winner : ℕ → List Guess → Option ℕ
compute_winner number_to_guess buffer =
    let b = scan number_to_guess no_best buffer in if b.multiple_guess then none else b.winner

pub update_leader : ℕ → Option ℕ → ℕ
update_leader leader none = leader
update_leader leader (some winner) = winner

pub update_leaderboard : List ℕ → Option ℕ → List ℕ
update_leaderboard board none = board
update_leaderboard board (some winner) = set board winner (get_or board winner 0 + 1)

-- What the random generators of one rank return in one round, and what its `winner` holds before it
-- is assigned.
pub record Draw : Type 0 where
  pub number : ℕ
  pub target : ℕ
  pub garbage : Option ℕ

-- The `leader` of each rank, and the leaderboard of rank 0.
pub record Game : Type 0 where
  pub leaders : List ℕ
  pub leaderboard : List ℕ

-- `tosend` of each rank, from rank `rank` on.
pub tosend_from : ℕ → List Draw → List Guess
unfolding select_number
tosend_from rank [] = []
tosend_from rank (d ∷ ds) =
    record { source = rank; number = select_number d.number } ∷ tosend_from (suc rank) ds

-- `winner` of each rank before the broadcast: a rank that takes itself for the leader computes it.
pub winners_from : ℕ → List ℕ → List Draw → List Guess → List (Option ℕ)
unfolding compute_winner select_number
winners_from rank [] ds buffer = []
winners_from rank (leader ∷ ls) [] buffer = []
winners_from rank (leader ∷ ls) (d ∷ ds) buffer =
    (if rank == leader then compute_winner (select_number d.target) buffer else d.garbage)
    ∷ winners_from (suc rank) ls ds buffer

pub update_leaders : List ℕ → List (Option ℕ) → List ℕ
unfolding update_leader
update_leaders [] ws = []
update_leaders (l ∷ ls) [] = []
update_leaders (l ∷ ls) (w ∷ ws) = update_leader l w ∷ update_leaders ls ws

-- The round as all ranks play it; the loop body of `main`.
module _ (mpi : Collective) where
  pub play_round : Game → List Draw → Option Game
  play_round g ds = elim (mpi.gather Guess g.leaders (tosend_from 0 ds)) [
    | none ↦ none
    | some buffer ↦
        option_map
          (λ ws. record {
            leaders = update_leaders g.leaders ws;
            leaderboard = update_leaderboard g.leaderboard (get_or ws 0 none);
          })
          (mpi.bcast (Option ℕ) g.leaders (winners_from 0 g.leaders ds buffer))
  ]

  -- The loop of `main`, a list of draws for each round.
  pub play : Game → List (List Draw) → Option Game
  play g [] = some g
  play g (ds ∷ rest) = elim (play_round g ds) [ none ↦ none | some g' ↦ play g' rest ]
