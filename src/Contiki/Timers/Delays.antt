-- ===== src/Contiki/Timers/Delays.antt =====
-- The times that the callbacks of timers.c set.
use nsdscourse.Base.{ℕ, ◌+◌, ◌-◌, ◌*◌, ◌/◌, ◌^◌, ◌<◌, ◌≤◌, ◌≡◌, true, false, [], ◌∷◌, ◌++◌, arith}
use nsdscourse.Contiki.Timers.{
  ctimer, rtimer, rtimer_callback, Timers, Clocks, set_times, ctimer_callback,
}

-- While the clock's seconds and two seconds' ticks fit the counter: a callback that finds `flag` at 0
-- sets the callback timer two seconds ahead.
pub ctimer_callback-fresh :
    (clock_second rtimer_second : ℕ) (k : Clocks) (t : Timers)
    → k.clock_now / clock_second + 2 * clock_second < 2 ^ 32
    → t.flag ≡ false
    → ((ctimer_callback clock_second rtimer_second k t).settings
        ≡ t.settings ++ (ctimer (2 * clock_second) ∷ []))
      × ((ctimer_callback clock_second rtimer_second k t).flag ≡ true)
unfolding ctimer_callback set_times
ctimer_callback-fresh clock_second rtimer_second k t h e = ground arith

-- A callback that finds `flag` at 1 takes the old `ctime`. If the clock has passed it in the
-- meantime, the subtraction wraps, and the delay is longer than 2 ^ 31 ticks.
pub ctimer_callback-wraps :
    (clock_second rtimer_second late : ℕ) (k : Clocks) (t : Timers)
    → t.flag ≡ true
    → t.ctime + late ≡ k.clock_now / clock_second
    → 0 < late
    → late < 2 ^ 31
    → ((ctimer_callback clock_second rtimer_second k t).settings
        ≡ t.settings ++ (ctimer (2 ^ 32 - late) ∷ []))
      × (2 ^ 31 < 2 ^ 32 - late)
unfolding ctimer_callback
ctimer_callback-wraps clock_second rtimer_second late k t e h p q = ground arith

-- While the times fit the counters and the clock has not passed the time that is set: from `flag` at
-- 0 the real-time timer's callback and then the callback timer's set both timers to the times of
-- the first of the two callbacks, and leave `flag` at 0 again.
pub rtimer_callback-ctimer_callback :
    (clock_second rtimer_second : ℕ) (k k' : Clocks) (t : Timers)
    → k.rtimer_now + 2 * rtimer_second < 2 ^ 32
    → k.clock_now / clock_second + 2 * clock_second < 2 ^ 32
    → k'.clock_now / clock_second ≤ k.clock_now / clock_second + 2 * clock_second
    → t.flag ≡ false
    → let t' =
        ctimer_callback clock_second rtimer_second k'
          (rtimer_callback clock_second rtimer_second k t) in
      (t'.settings
        ≡ (t.settings ++ (rtimer (k.rtimer_now + 2 * rtimer_second) ∷ []))
          ++ (ctimer (k.clock_now / clock_second + 2 * clock_second - k'.clock_now / clock_second)
              ∷ []))
      × (t'.flag ≡ false)
unfolding ctimer_callback rtimer_callback set_times
rtimer_callback-ctimer_callback clock_second rtimer_second k k' t h p q e = ground arith
