-- ===== src/Mpi/Guess/Rounds.antt =====
-- Rounds of guess.c: all ranks keep the same leader, and the game is the one that a single process
-- would play.
use Prim.Native.Nat.{ℕ}
use nsdscourse.Base.{
  zero, suc, ◌+◌, ◌≤◌, ◌<◌, ◌≡◌, refl, ap, inl, inr, Bool, false, Option, none, some, List, [], ◌∷◌,
  arith, ◌==◌, if◌then◌else◌, All, Among, length, get_or, get_elem?, replicate, length-set, All-imp,
  sym, ◌∙◌, Option-cases, ℕ_discrete, get_or-set_self, get_or-set_ne,
}
use nsdscourse.Mpi.Collective.{Collective}
use nsdscourse.Mpi.Guess.Winner.{InRange, compute_winner-some}
use nsdscourse.Mpi.Guess.{
  Guess, Draw, Game, select_number, compute_winner, update_leader, update_leaders,
  update_leaderboard, tosend_from, winners_from, play_round, play,
}

-- Is this the winner?
abbrev pub is_win : ℕ → Option ℕ → Bool
is_win r none = false
is_win r (some w) = w == r

-- The game as one process would keep it.
pub record Table : Type 0 where
  pub leader : ℕ
  pub board : List ℕ

-- The number that the leader chooses.
abbrev pub target_of : ℕ → List Draw → ℕ
target_of leader ds =
    select_number (get_or ds leader (record { number = 0; target = 0; garbage = none })).target

abbrev pub winner_of : Table → List Draw → Option ℕ
winner_of t ds = compute_winner (target_of t.leader ds) (tosend_from 0 ds)

-- One round: the closest single guess takes the lead and a point.
pub table_round : Table → List Draw → Table
table_round t ds = record {
  leader = update_leader t.leader (winner_of t ds);
  board = update_leaderboard t.board (winner_of t ds);
}

pub table_play : Table → List (List Draw) → Table
table_play t [] = t
table_play t (ds ∷ rest) = table_play (table_round t ds) rest

-- The state of `n` ranks that all know the leader of the table.
abbrev pub spread : ℕ → Table → Game
spread n t = record { leaders = replicate n t.leader; leaderboard = t.board }

pub length-tosend_from : (rank : ℕ) (ds : List Draw) → length (tosend_from rank ds) ≡ length ds
unfolding tosend_from
length-tosend_from rank [] = refl
length-tosend_from rank (d ∷ ds) = ap suc (length-tosend_from (suc rank) ds)

update_leaders-replicate :
    (n l : ℕ) (w : Option ℕ)
    → update_leaders (replicate n l) (replicate n w) ≡ replicate n (update_leader l w)
unfolding update_leaders
update_leaders-replicate zero l w = refl
update_leaders-replicate (suc n) l w =
    ap (λ r. update_leader l w ∷ r) (update_leaders-replicate n l w)

length-winners_from :
    (rank leader : ℕ) (ds : List Draw) (buffer : List Guess)
    → length (winners_from rank (replicate (length ds) leader) ds buffer) ≡ length ds
unfolding winners_from
length-winners_from rank leader [] buffer = refl
length-winners_from rank leader (d ∷ ds) buffer =
    ap suc (length-winners_from (suc rank) leader ds buffer)

-- Only the leader's entry matters, and it is the winner that the leader computes.
leader-winners_from :
    (rank k leader : ℕ) (ds : List Draw) (buffer : List Guess)
    → leader ≡ rank + k
    → k < length ds
    → get_elem? (winners_from rank (replicate (length ds) leader) ds buffer) k
      ≡ some (compute_winner (target_of k ds) buffer)
unfolding winners_from
leader-winners_from rank k leader [] buffer e h = absurd (omega arith)
leader-winners_from rank zero leader (d ∷ ds) buffer e h = ground arith
leader-winners_from rank (suc k) leader (d ∷ ds) buffer e h =
    leader-winners_from (suc rank) k leader ds buffer (omega arith) (omega arith)

InRange-tosend_from : (n rank : ℕ) (ds : List Draw) → n ≤ 1000 → InRange n (tosend_from rank ds)
unfolding tosend_from select_number
InRange-tosend_from n rank [] h = tt
InRange-tosend_from n rank (d ∷ ds) h = (ground arith, InRange-tosend_from n (suc rank) ds h)

-- Every source that the leader gathers is a rank.
source-tosend_from :
    (rank : ℕ) (ds : List Draw) (g : Guess)
    → Among g (tosend_from rank ds)
    → g.source < rank + length ds
unfolding tosend_from
source-tosend_from rank [] g m = absurd m
source-tosend_from rank (d ∷ ds) g (inl e) = rw e (omega arith)
source-tosend_from rank (d ∷ ds) g (inr m) = omega (arith, source-tosend_from (suc rank) ds g m)

select_number-le : (rand : ℕ) → select_number rand ≤ 1000
unfolding select_number
select_number-le rand = omega arith

-- A winner is one of the ranks.
winner_of-lt : (t : Table) (ds : List Draw) (w : ℕ) → winner_of t ds ≡ some w → w < length ds
winner_of-lt t ds w h =
    let range : InRange (target_of t.leader ds) (tosend_from 0 ds) =
      InRange-tosend_from (target_of t.leader ds) 0 ds (select_number-le _) in
    let u = (compute_winner-some (target_of t.leader ds) w (tosend_from 0 ds) range).0 h in
    omega (arith, u.1, source-tosend_from 0 ds u.0 u.2.0)

leader-table_round :
    (t : Table) (ds : List Draw) → t.leader < length ds → (table_round t ds).leader < length ds
unfolding table_round update_leader
leader-table_round t ds h = elim (Option-cases (winner_of t ds)) [
  | inl e ↦ rw e h
  | inr (w, e) ↦ rw e (winner_of-lt t ds w e)
]

module _ (mpi : Collective) where
  gathered :
      (leader : ℕ) (ds : List Draw)
      → leader < length ds
      → mpi.gather Guess (replicate (length ds) leader) (tosend_from 0 ds) ≡ some (tosend_from 0 ds)
  gathered leader ds h =
      rw (length-tosend_from 0 ds) at
        (mpi.gather_lem Guess leader (tosend_from 0 ds) (rw (length-tosend_from 0 ds) h))

  broadcast :
      (leader : ℕ) (ds : List Draw) (buffer : List Guess)
      → leader < length ds
      → mpi.bcast
          (Option ℕ)
          (replicate (length ds) leader)
          (winners_from 0 (replicate (length ds) leader) ds buffer)
        ≡ some (replicate (length ds) (compute_winner (target_of leader ds) buffer))
  broadcast leader ds buffer h = rw (length-winners_from 0 leader ds buffer) at (
      mpi.bcast_lem (Option ℕ) leader (winners_from 0 (replicate (length ds) leader) ds buffer)
        (compute_winner (target_of leader ds) buffer)
        (leader-winners_from 0 leader leader ds buffer (omega arith) h))

  get_or-replicate_zero : (n : ℕ) (w v : Option ℕ) → 0 < n → get_or (replicate n w) 0 v ≡ w
  get_or-replicate_zero zero w v h = absurd (omega arith)
  get_or-replicate_zero (suc n) w v h = refl

  play_round-spread :
      (t : Table) (ds : List Draw)
      → t.leader < length ds
      → play_round mpi (spread (length ds) t) ds ≡ some (spread (length ds) (table_round t ds))
  unfolding play_round table_round
  play_round-spread t ds h = rw (
    gathered t.leader ds h,
    play_round,
    broadcast t.leader ds (tosend_from 0 ds) h,
    update_leaders-replicate (length ds) t.leader (winner_of t ds),
    get_or-replicate_zero (length ds) (winner_of t ds) none (omega arith),
  )

  -- The ranks never disagree on the root of a collective call, and after any number of rounds all of
  -- them hold the leader, and rank 0 the leaderboard, of the game played by one process.
  pub play-spread :
      (n : ℕ) (t : Table) (rounds : List (List Draw))
      → t.leader < n
      → All (λ ds. length ds ≡ n) rounds
      → (play mpi (spread n t) rounds ≡ some (spread n (table_play t rounds)))
        × ((table_play t rounds).leader < n)
  unfolding play table_play
  play-spread n t [] h all = (refl, h)
  play-spread n t (ds ∷ rest) h all =
      rw (round, play) (play-spread n (table_round t ds) rest lead all.1)
    where
      round : play_round mpi (spread n t) ds ≡ some (spread n (table_round t ds))
      round = rw all.0 at (play_round-spread t ds (rw all.0 h))

      lead : (table_round t ds).leader < n
      lead = rw all.0 at (leader-table_round t ds (rw all.0 h))

-- The rounds that rank `r` wins.
pub wins_of : ℕ → Table → List (List Draw) → ℕ
wins_of r t [] = 0
wins_of r t (ds ∷ rest) =
    (if is_win r (winner_of t ds) then 1 else 0) + wins_of r (table_round t ds) rest

board-table_round :
    (r : ℕ) (t : Table) (ds : List Draw)
    → length ds ≡ length t.board
    → get_or (table_round t ds).board r 0
      ≡ get_or t.board r 0 + (if is_win r (winner_of t ds) then 1 else 0)
unfolding table_round update_leaderboard
board-table_round r t ds e = elim (Option-cases (winner_of t ds)) [
  | inl q ↦ rw q (omega arith)
  | inr (w, q) ↦ elim (ℕ_discrete w r) [
    | yes same ↦
        let own =
          get_or-set_self t.board w (get_or t.board w 0 + 1) 0
            (omega (arith, winner_of-lt t ds w q, e)) in
        rw (q, ← same) (ground (arith, own))
    | no other ↦ rw (q, get_or-set_ne t.board (get_or t.board w 0 + 1) 0 other) (ground arith)
  ]
]

length-board : (t : Table) (ds : List Draw) → length (table_round t ds).board ≡ length t.board
unfolding table_round update_leaderboard
length-board t ds = elim (Option-cases (winner_of t ds)) [
  | inl q ↦ rw q
  | inr (w, q) ↦ rw q (length-set t.board w _)
]

-- With a leaderboard that has an entry for each rank, the entry of a rank grows by exactly the
-- number of rounds that it wins.
pub board-table_play :
    (r : ℕ) (t : Table) (rounds : List (List Draw))
    → All (λ ds. length ds ≡ length t.board) rounds
    → get_or (table_play t rounds).board r 0 ≡ get_or t.board r 0 + wins_of r t rounds
unfolding table_play wins_of
board-table_play r t [] all = omega arith
board-table_play r t (ds ∷ rest) all = omega (
  arith,
  board-table_round r t ds all.0,
  board-table_play r (table_round t ds) rest
      (All-imp rest (λ es p. p ∙ sym (length-board t ds)) all.1),
)
