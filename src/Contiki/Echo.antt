-- ===== src/Contiki/Echo.antt =====
-- Contiki-NG/lab/es3: `udp-client.c` counts the answered requests in a row, `udp-server.c` sends a
-- request back as it came.
pub mod Streak
pub mod Bursts
mod Tests
use nsdscourse.Base.{
  ℕ, zero, suc, ◌+◌, ◌%◌, ◌^◌, Bool, true, false, ◌||◌, List, [], ◌∷◌, ◌++◌, if◌then◌else◌,
}

-- The static variables of the client (`received` is 0 or 1), whether `periodic_timer` has expired,
-- how many posted events are on their way to the process, and the counts that it has sent.
pub record Client : Type 0 where
  pub count : ℕ
  pub received : Bool
  pub expired : Bool
  pub waiting : ℕ
  pub sent : List ℕ

-- `if (!received) count = 0; else count++;` on an `unsigned`.
abbrev pub next_count : Bool → ℕ → ℕ
next_count received count = if received then (count + 1) % 2 ^ 32 else 0

-- The process handles an event: its condition, and on success one round of the loop. `reachable`
-- says that the root can be reached and its address is known.
unfoldable pub client_wakes : Bool → Client → Client
client_wakes reachable c =
    if c.expired || c.received
    then if reachable
      then record c {
        count = next_count c.received c.count;
        received = false;
        expired = false;
        sent = c.sent ++ (next_count c.received c.count ∷ []);
      }
      else record c { expired = false }
    else c

-- `udp_rx_callback` of the client: the number in the answer is only logged. `posted` says that
-- `process_post` has put its event in the queue, which fails without notice when that is full.
unfoldable pub client_receives : Bool → Client → Client
client_receives posted c = record c {
  received = true;
  waiting = if posted then c.waiting + 1 else c.waiting;
}

-- The timer expires, once until it is set again: its event is in the queue then.
unfoldable pub client_times_out : Client → Client
client_times_out c = if c.expired then c else record c { expired = true; waiting = c.waiting + 1 }

-- The scheduler takes the next event from the queue, if there is one.
abbrev pub deliver_next : ℕ → Bool → Client → Client
deliver_next zero reachable c = c
deliver_next (suc waiting) reachable c = client_wakes reachable (record c { waiting = waiting })

-- `udp_rx_callback` of the server: the number that is sent back.
pub server_answers : ℕ → ℕ
server_answers count = count

-- What happens to the client: an answer with whether its event could be posted, the timer, and an
-- event that is handled with whether the root is reachable then.
pub data Event : Type 0 where
  answer : Bool → Event
  timeout : Event
  deliver : Bool → Event

unfoldable pub step : Client → Event → Client
step c (answer posted) = client_receives posted c
step c timeout = client_times_out c
step c (deliver reachable) = deliver_next c.waiting reachable c

unfoldable pub run : Client → List Event → Client
run c [] = c
run c (e ∷ es) = run (step c e) es

abbrev pub start : Client
start = record { count = 0; received = false; expired = false; waiting = 0; sent = [] }
