-- ===== src/Contiki/Timers.antt =====
-- Contiki-NG/lab/es2/timers.c: a real-time timer and a callback timer that set each other's times
-- through the shared variables `rtime`, `ctime` and `flag`. The clocks are Contiki-NG's: their values
-- are arguments. `unsigned long` and `rtimer_clock_t` have 32 bits.
pub mod Delays
mod Tests
use nsdscourse.Base.{
  ℕ, ◌+◌, ◌-◌, ◌*◌, ◌/◌, ◌%◌, ◌^◌, Bool, true, false, List, [], ◌∷◌, ◌++◌, if◌then◌else◌,
}

-- What is set: the delay of the callback timer, or the absolute time of the real-time timer.
pub data Setting : Type 0 where
  ctimer rtimer : ℕ → Setting

-- `flag` is 0 or 1.
pub record Timers : Type 0 where
  pub rtime : ℕ
  pub ctime : ℕ
  pub flag : Bool
  pub settings : List Setting

-- `rtimer_arch_now()` and `clock_time()`
pub record Clocks : Type 0 where
  pub rtimer_now : ℕ
  pub clock_now : ℕ

module _ (clock_second rtimer_second : ℕ) where
  -- `rtime = …; ctime = …;` with an interval of 2.
  pub set_times : Clocks → Timers → Timers
  set_times k t = record t {
    rtime = (k.rtimer_now + 2 * rtimer_second) % 2 ^ 32;
    ctime = (k.clock_now / clock_second + 2 * clock_second) % 2 ^ 32;
  }

  -- `ctime - (clock_time() / CLOCK_SECOND)`, which wraps.
  abbrev pub ctimer_delay : Clocks → Timers → ℕ
  ctimer_delay k t = (t.ctime + 2 ^ 32 - k.clock_now / clock_second) % 2 ^ 32

  abbrev pub set_ctimer : Clocks → Timers → Timers
  set_ctimer k t = record t { settings = t.settings ++ (ctimer (ctimer_delay k t) ∷ []) }

  abbrev pub set_rtimer : Timers → Timers
  set_rtimer t = record t { settings = t.settings ++ (rtimer t.rtime ∷ []) }

  pub ctimer_callback : Clocks → Timers → Timers
  ctimer_callback k t =
      if t.flag
      then set_ctimer k (record t { flag = false })
      else record (set_ctimer k (set_times k t)) { flag = true }

  pub rtimer_callback : Clocks → Timers → Timers
  rtimer_callback k t =
      if t.flag
      then set_rtimer (record t { flag = false })
      else record (set_rtimer (set_times k t)) { flag = true }

  -- `hello_world_ctimer` up to its wait.
  pub start : Clocks → Timers
  start k =
      set_ctimer k
        (set_rtimer (set_times k (record { rtime = 0; ctime = 0; flag = false; settings = [] })))
