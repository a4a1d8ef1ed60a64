-- ===== src/Mpi/Deadlock/Tests.antt =====
-- Runs and instances of the deadlock examples.
use nsdscourse.Base.{ℕ, ◌≡◌, refl, true, false, none, List, [], ◌∷◌}
use nsdscourse.Mpi.Network.Local.{local}
use nsdscourse.Mpi.Process.{Choice, step, run}
use nsdscourse.Mpi.Deadlock.{at_send, at_end, deadlock, swap, all_at}
use nsdscourse.Mpi.Deadlock.Stuck.{run-deadlock}
use nsdscourse.Mpi.Deadlock.Swap.{reached}

abbrev choice : ℕ → ℕ → Choice
choice r q = record { rank = r; peer = q; copied = false }

abbrev choices : List Choice
choices = choice 0 1 ∷ choice 1 0 ∷ choice 0 1 ∷ choice 1 0 ∷ choice 0 1 ∷ choice 1 0 ∷ []

run-deadlock_example :
    (run local 2 deadlock choices (all_at at_send local) ≡ all_at at_send local)
    × (step local 2 deadlock (choice 0 1) (run local 2 deadlock choices (all_at at_send local))
        ≡ none)
run-deadlock_example = run-deadlock local choices (choice 0 1)

swapped : (reached local false choices).local 0 ≡ at_end 1
unfolding run step swap
swapped = refl

swapped_any : (reached local true choices).local 1 ≡ at_end 1
unfolding run step swap
swapped_any = refl
