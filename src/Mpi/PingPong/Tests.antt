-- ===== src/Mpi/PingPong/Tests.antt =====
-- Runs and instances of ping_pong.c.
use nsdscourse.Base.{ℕ, ◌≡◌, refl, true, false, some, List, [], ◌∷◌, zero, suc}
use nsdscourse.Mpi.Network.Local.{local}
use nsdscourse.Mpi.Process.{Choice, Config, step, run, move}
use nsdscourse.Mpi.PingPong.{ping_pong, start}
use nsdscourse.Mpi.PingPong.Turns.{InTurn, run-InTurn, reached}

abbrev copy : ℕ → Choice
copy r = record { rank = r; peer = 0; copied = true }

abbrev wait_for : ℕ → ℕ → Choice
wait_for r q = record { rank = r; peer = q; copied = false }

-- Rank 0 sends with a copy, rank 1 receives and sends without one.
abbrev choices : List Choice
choices = copy 0 ∷ wait_for 1 0 ∷ wait_for 1 0 ∷ []

two_messages : (reached local choices).local 0 ≡ 2
unfolding run step ping_pong
two_messages = refl

run-InTurn_example : InTurn local (reached local choices)
run-InTurn_example = run-InTurn local choices

first_message : Config local ℕ
first_message =
    move local 0 1 (record (start local) { flight = local.post 0 1 (1 ∷ []) local.empty })

first_step : step local 2 ping_pong (copy 0) (reached local []) ≡ some first_message
unfolding step ping_pong run first_message
first_step = refl

-- The whole game, without a copy.
abbrev rounds : ℕ → List Choice
rounds zero = []
rounds (suc n) = wait_for 0 1 ∷ wait_for 1 0 ∷ rounds n

whole_game : (reached local (rounds 50)).local 0 ≡ 100
unfolding run step ping_pong
whole_game = refl
