-- ===== src/Examples/HardState/Shown.antt =====
-- What the LED of hard-state-server.c shows.
use nsdscourse.Base.{◌≡◌, refl, Bool, true, false, not, List, [], ◌∷◌, if◌then◌else◌, arith}
use nsdscourse.Examples.HardState.{System, Round, start, step, run}

-- Whether an odd number of messages has been lost since the last one that was delivered, where `odd`
-- says so for the messages before.
abbrev pub odd_losses : List Round → Bool → Bool
odd_losses [] odd = odd
odd_losses (r ∷ rs) odd =
    odd_losses rs (if r.reachable then if r.delivered then false else not odd else odd)

abbrev shown_by : Bool → System → Bool
shown_by odd s = if odd then s.on_off else not s.on_off

step-shown :
    (r : Round) (s : System) (odd : Bool)
    → s.led ≡ shown_by odd s
    → (step r s).led
      ≡ shown_by (if r.reachable then if r.delivered then false else not odd else odd) (step r s)
unfolding step
step-shown r s odd h = ground arith

run_from-shown :
    (rs : List Round) (s : System) (odd : Bool)
    → s.led ≡ shown_by odd s
    → (run rs s).led ≡ shown_by (odd_losses rs odd) (run rs s)
unfolding run
run_from-shown [] s odd h = h
run_from-shown (r ∷ rs) s odd h = run_from-shown rs (step r s) _ (step-shown r s odd h)

-- The LED shows the state that the client sent last, the opposite of its present one, exactly as long
-- as an even number of messages has been lost since the last delivered one; the start, before
-- which nothing was sent, counts as one loss.
pub run-shown :
    (rs : List Round)
    → let s = run rs start in s.led ≡ (if odd_losses rs true then s.on_off else not s.on_off)
run-shown rs = run_from-shown rs start true refl
