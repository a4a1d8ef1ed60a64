-- ===== src/Mpi/Probe/Tests.antt =====
-- Runs and instances of probe.c.
use nsdscourse.Base.{◌≡◌, refl, false, List, [], ◌∷◌}
use nsdscourse.Mpi.Network.Local.{local}
use nsdscourse.Mpi.Process.{Choice, step, run}
use nsdscourse.Mpi.Probe.{main, received}
use nsdscourse.Mpi.Probe.Count.{numbers, reached}

-- The receiver asks while the sender waits, and then the sender hands the message over.
abbrev choices : List Choice
choices =
    record { rank = 1; peer = 0; copied = false }
    ∷ record { rank = 0; peer = 1; copied = false }
    ∷ []

all_received : (reached local choices).local 1 ≡ received numbers
unfolding run step main
all_received = refl
