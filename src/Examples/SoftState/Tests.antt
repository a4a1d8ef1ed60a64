-- ===== src/Examples/SoftState/Tests.antt =====
-- A run of soft-state-client.c and soft-state-server.c.
use nsdscourse.Base.{
  ℕ, zero, suc, ◌≡◌, refl, true, false, none, some, List, [], ◌∷◌, ◌++◌, replicate, arith,
}
use nsdscourse.Examples.SoftState.{
  Choice, second, switches, expires, refreshes, System, start, step, run,
}
use nsdscourse.Examples.SoftState.Follows.{run-dark, run-lit}

-- Five seconds, with a refresh at their end.
abbrev blocks : ℕ → List Choice
blocks zero = []
blocks (suc n) = replicate 5 second ++ (refreshes true true ∷ blocks n)

-- The client is off for a minute, in which the server's first timer expires.
abbrev switched_on : List Choice
switched_on = blocks 6 ++ (expires ∷ blocks 6 ++ (switches ∷ blocks 2))

abbrev switched_off : List Choice
switched_off = switched_on ++ (blocks 10 ++ (switches ∷ blocks 6 ++ (expires ∷ blocks 1)))

abbrev lit : System
lit = record {
  client = record { on_off = true; switch_ctimer = 50; periodic_timer = 5 };
  server = record { led = true; state_expire_ctimer = some 30 };
}

abbrev dark : System
dark = record {
  client = record { on_off = false; switch_ctimer = 25; periodic_timer = 5 };
  server = record { led = false; state_expire_ctimer = none };
}

reached_lit : run switched_on start ≡ some lit
unfolding run step
reached_lit = refl

reached_dark : run switched_off start ≡ some dark
unfolding run step
reached_dark = refl

run-lit_example : lit.server.led ≡ true
run-lit_example = run-lit switched_on lit refl reached_lit refl (omega arith)

run-dark_example : dark.server.led ≡ false
run-dark_example = run-dark switched_off dark reached_dark refl (omega arith)
