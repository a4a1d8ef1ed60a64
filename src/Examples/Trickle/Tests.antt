-- ===== src/Examples/Trickle/Tests.antt =====
-- Runs and instances of trickle-library.c.
use nsdscourse.Base.{◌≡◌, refl, true, false, List, [], ◌∷◌, map, arith, ◌++◌}
use nsdscourse.Examples.Trickle.{
  Node, Event, packet, woken, callback, start, run, step, tcpip_handler, trickle_tx,
}
use nsdscourse.Examples.Trickle.Versions.{as_byte, node_at, version, effects, run-version}

-- A new token from 255 on starts again at 0, and is newer than one from before.
abbrev events : List Event
events = woken true 4 ∷ packet true 250 ∷ callback false ∷ packet true 260 ∷ []

wraps : (run (map as_byte events) (node_at 255 [])).token ≡ 4
unfolding run step tcpip_handler trickle_tx
wraps = refl

run-version_example :
    run (map as_byte events) (node_at 255 [])
    ≡ node_at (version 255 events) ([] ++ effects 255 events)
run-version_example =
    run-version events 255 []
      (tt, ((omega arith, omega arith), (tt, ((omega arith, omega arith), tt))))

abbrev five : Node
five = record start { token = 5 }
