-- ===== src/Examples/Events.antt =====
-- The two processes of examples/protothreads-events/protothreads-events.c, which post events to each
-- other, and the events of Contiki-NG that are to be delivered. The counter, an `int`, is taken not to
-- come to its bound.
pub mod Turns
mod Tests
use nsdscourse.Base.{
  ℕ, ◌+◌, Bool, true, false, Option, none, some, List, [], ◌∷◌, ◌++◌, if◌then◌else◌,
}

-- `resume` is the event that PROCESS_PAUSE posts.
pub data Event : Type 0 where
  ping_event pong_event timer resume : Event

pub data Process : Type 0 where
  ping_process pong_process : Process

-- What the processes print; the numbers are those behind the event's data, the address of the counter.
pub data Line : Type 0 where
  sent_first_ping sent_ping sent_pong unknown_event : Line
  got_ping got_pong : ℕ → Line

pub record Post : Type 0 where
  pub process : Process
  pub event : Event

pub record System : Type 0 where
  -- The ping process is at its pause.
  pub paused : Bool
  pub count : ℕ
  pub queue : List Post
  pub timer_set : Bool
  pub printed : List Line

abbrev process_post : Process → Event → System → System
process_post p e s = record s { queue = s.queue ++ (record { process = p; event = e } ∷ []) }

abbrev print : Line → System → System
print l s = record s { printed = s.printed ++ (l ∷ []) }

-- One event for the loop of the ping process, and for that of the pong process.
unfoldable pub ping_turn : Event → System → System
ping_turn pong_event s = record (print (got_pong s.count) s) { timer_set = true }
ping_turn timer s =
    print sent_ping (process_post pong_process ping_event (record s { count = s.count + 1 }))
ping_turn _ s = print unknown_event s

unfoldable pub pong_turn : Event → System → System
pong_turn ping_event s =
    let printed = print (got_ping s.count) s in
    print sent_pong (process_post ping_process pong_event (record printed { count = s.count + 1 }))
pong_turn _ s = print unknown_event s

unfoldable pub deliver : Post → System → System
deliver p s = elim p.process [
  | pong_process ↦ pong_turn p.event s
  | ping_process ↦
      if s.paused
      then print sent_first_ping
          (process_post pong_process ping_event (record s { paused = false }))
      else ping_turn p.event s
]

-- Both processes are started, the pong process first.
abbrev pub start : System
start = record {
  paused = true;
  count = 0;
  queue = record { process = ping_process; event = resume } ∷ [];
  timer_set = false;
  printed = [];
}

-- Either the first event is delivered or the timer expires, which posts an event.
pub data Choice : Type 0 where
  next_event expire : Choice

unfoldable pub step : Choice → System → Option System
step next_event s = elim s.queue [
  | [] ↦ none
  | p ∷ rest ↦ some (deliver p (record s { queue = rest }))
]
step expire s =
    if s.timer_set
    then some (process_post ping_process timer (record s { timer_set = false }))
    else none

-- `none` when a choice is not possible.
unfoldable pub run : List Choice → System → Option System
run [] s = some s
run (c ∷ cs) s = elim (step c s) [ none ↦ none | some s' ↦ run cs s' ]
