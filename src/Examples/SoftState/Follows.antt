-- ===== src/Examples/SoftState/Follows.antt =====
-- The LED of soft-state-server.c follows the client's state.
use nsdscourse.Base.{
  ℕ, ◌+◌, ◌<◌, ◌≤◌, ◌≡◌, ◌⊎◌, inl, inr, refl, first_of, subst, Bool, true, false, ◌&&◌, Option,
  none, some, List, [], ◌∷◌, arith,
}
use mathlib.Core.Option.{some-injective}
use nsdscourse.Examples.SoftState.{
  System, Choice, second, switches, expires, refreshes, start, step, run,
}

-- The seconds that are left of the server's state, and one more for each of them.
abbrev pub left : Option ℕ → ℕ
left none = 0
left (some k) = k + 1

-- A lit server has a running timer; while the client is off, it ends before the client's state is
-- half a minute old.
pub record IsForgetting (s : System) : Type 0 where
  pub running : (s.server.led ≡ false) ⊎ (0 < left s.server.state_expire_ctimer)
  pub bounded : left s.server.state_expire_ctimer ≤ 31
  pub off :
      (s.client.on_off ≡ true)
      ⊎ ((left s.server.state_expire_ctimer ≡ 0)
          ⊎ (left s.server.state_expire_ctimer + 29 ≤ s.client.switch_ctimer))

step-IsForgetting :
    (c : Choice) (s s' : System) → IsForgetting s → step c s ≡ some s' → IsForgetting s'
unfolding step
step-IsForgetting second s s' h e = ground arith
step-IsForgetting switches s s' h e = ground arith
step-IsForgetting expires s s' h e = ground arith
step-IsForgetting (refreshes reachable delivered) s s' h e = ground arith

-- While the client is on, its server is lit and refreshed in time, or the first refresh is still
-- to come.
pub record IsRefreshed (s : System) : Type 0 where
  pub soon : s.client.periodic_timer ≤ 5
  pub lit :
      (s.client.on_off ≡ false)
      ⊎ (((s.server.led ≡ true)
            × (s.client.periodic_timer + 26 ≤ left s.server.state_expire_ctimer))
          ⊎ (s.client.periodic_timer + 55 ≤ s.client.switch_ctimer))

-- No refresh meets an unreachable node or gets lost.
abbrev pub arrives : Choice → Bool
arrives (refreshes reachable delivered) = reachable && delivered
arrives _ = true

step-IsRefreshed :
    (c : Choice) (s s' : System)
    → arrives c ≡ true
    → IsRefreshed s
    → step c s ≡ some s'
    → IsRefreshed s'
unfolding step
step-IsRefreshed second s s' a h e = ground arith
step-IsRefreshed switches s s' a h e = ground arith
step-IsRefreshed expires s s' a h e = ground arith
step-IsRefreshed (refreshes reachable delivered) s s' a h e = ground arith

abbrev pub all_arrive : List Choice → Bool
all_arrive [] = true
all_arrive (c ∷ cs) = arrives c && all_arrive cs

run-IsForgetting :
    (cs : List Choice) (s s' : System) → IsForgetting s → run cs s ≡ some s' → IsForgetting s'
unfolding run
run-IsForgetting [] s s' h e = subst IsForgetting (some-injective s s' e) h
run-IsForgetting (c ∷ cs) s s' h e =
    let (t, first, rest) = first_of (step c s) (run cs) s' e in
    run-IsForgetting cs t s' (step-IsForgetting c s t h first) rest

run-IsRefreshed :
    (cs : List Choice) (s s' : System)
    → all_arrive cs ≡ true
    → IsRefreshed s
    → run cs s ≡ some s'
    → IsRefreshed s'
unfolding run
run-IsRefreshed [] s s' a h e = subst IsRefreshed (some-injective s s' e) h
run-IsRefreshed (c ∷ cs) s s' a h e =
    let (t, first, rest) = first_of (step c s) (run cs) s' e in
    run-IsRefreshed cs t s' (ground (arith, a)) (step-IsRefreshed c s t (ground (arith, a)) h first)
      rest

-- Whatever refreshes get lost, and whatever the order of what is due at the same time: when the client
-- has been off for more than thirty seconds, that is, with less than thirty left before it switches
-- again, the LED is off.
pub run-dark :
    (cs : List Choice) (s : System)
    → run cs start ≡ some s
    → s.client.on_off ≡ false
    → s.client.switch_ctimer < 30
    → s.server.led ≡ false
run-dark cs s e off h =
    let forgetting =
      run-IsForgetting cs start s
        (record { running = inl refl; bounded = omega arith; off = inr (inr (omega arith)) }) e in
    ground arith

-- If no refresh gets lost: when the client has been on for more than five seconds, the LED is on.
pub run-lit :
    (cs : List Choice) (s : System)
    → all_arrive cs ≡ true
    → run cs start ≡ some s
    → s.client.on_off ≡ true
    → s.client.switch_ctimer < 55
    → s.server.led ≡ true
run-lit cs s a e on h =
    let refreshed =
      run-IsRefreshed cs start s a (record { soon = omega arith; lit = inl refl }) e in
    ground arith
