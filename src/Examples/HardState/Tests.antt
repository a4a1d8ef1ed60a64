-- ===== src/Examples/HardState/Tests.antt =====
-- A run of hard-state-client.c and hard-state-server.c in which a message is lost.
use nsdscourse.Base.{◌≡◌, refl, true, false, not, [], ◌∷◌, if◌then◌else◌}
use nsdscourse.Examples.HardState.{Round, start, run, step}
use nsdscourse.Examples.HardState.Shown.{odd_losses, run-shown}

abbrev arrived : Round
arrived = record { reachable = true; delivered = true }

abbrev lost : Round
lost = record { reachable = true; delivered = false }

-- The third message, for off, is lost, and the LED stays on.
still_lit : (run (arrived ∷ arrived ∷ lost ∷ []) start).led ≡ true
unfolding run step
still_lit = refl

run-shown_example :
    let s = run (arrived ∷ arrived ∷ lost ∷ []) start in
    s.led ≡ (if odd_losses (arrived ∷ arrived ∷ lost ∷ []) true then s.on_off else not s.on_off)
run-shown_example = run-shown (arrived ∷ arrived ∷ lost ∷ [])
