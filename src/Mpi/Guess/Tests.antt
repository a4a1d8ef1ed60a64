-- ===== src/Mpi/Guess/Tests.antt =====
-- Runs and instances of guess.c.
use nsdscourse.Base.{ℕ, ◌<◌, ◌≡◌, refl, ◌↔◌, none, some, List, [], ◌∷◌, arith}
use nsdscourse.Mpi.Collective.Local.{local}
use nsdscourse.Mpi.Guess.{
  Guess, Draw, abs_diff, consider, scan, compute_winner, tosend_from, winners_from, update_leaders,
  update_leaderboard, play_round, play,
}
use nsdscourse.Mpi.Guess.Winner.{IsClosest, count_at, compute_winner-some}
use nsdscourse.Mpi.Guess.Rounds.{Table, spread, table_play, play-spread}

abbrev guesses : List Guess
guesses =
    record { source = 0; number = 10 }
    ∷ record { source = 1; number = 40 }
    ∷ record { source = 2; number = 60 }
    ∷ []

abbrev draw : ℕ → ℕ → Draw
draw number target = record { number = number; target = target; garbage = none }

abbrev three_draws : List Draw
three_draws = draw 9 0 ∷ draw 39 44 ∷ draw 59 700 ∷ []

abbrev table : Table
table = record { leader = 1; board = 0 ∷ 0 ∷ 0 ∷ [] }

single_winner : compute_winner 45 guesses ≡ some 1
unfolding compute_winner scan consider
single_winner = refl

tie : compute_winner 50 guesses ≡ none
unfolding compute_winner scan consider
tie = refl

-- Rank 1 leads, chooses 45, wins with 40 and keeps the lead.
one_round :
    play local (spread 3 table) (three_draws ∷ [])
    ≡ some (record { leaders = 1 ∷ 1 ∷ 1 ∷ []; leaderboard = 0 ∷ 1 ∷ 0 ∷ [] })
unfolding play play_round tosend_from winners_from update_leaders update_leaderboard scan consider
one_round = refl

compute_winner-some_example : (compute_winner 45 guesses ≡ some 1) ↔ (
    (g : Guess) × (g.source ≡ 1)
    × IsClosest 45 guesses g
    × (count_at 45 (abs_diff 45 g.number) guesses ≡ 1))
compute_winner-some_example = compute_winner-some 45 1 guesses (omega arith)

play-spread_example :
    (play local (spread 3 table) (three_draws ∷ three_draws ∷ [])
      ≡ some (spread 3 (table_play table (three_draws ∷ three_draws ∷ []))))
    × ((table_play table (three_draws ∷ three_draws ∷ [])).leader < 3)
play-spread_example =
    play-spread local 3 table (three_draws ∷ three_draws ∷ []) (omega arith) (refl, (refl, tt))
