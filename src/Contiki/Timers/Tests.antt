-- ===== src/Contiki/Timers/Tests.antt =====
-- Instances of the callbacks of timers.c.
use nsdscourse.Base.{true, false, []}
use nsdscourse.Contiki.Timers.{Timers, Clocks}

abbrev clocks : Clocks
clocks = record { rtimer_now = 5; clock_now = 1280 }

abbrev timers : Timers
timers = record { rtime = 0; ctime = 7; flag = true; settings = [] }

abbrev idle_timers : Timers
idle_timers = record { rtime = 0; ctime = 0; flag = false; settings = [] }

abbrev later : Clocks
later = record { rtimer_now = 1900; clock_now = 1536 }
