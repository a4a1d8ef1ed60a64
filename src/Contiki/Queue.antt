-- ===== src/Contiki/Queue.antt =====
-- Contiki-NG/lab/es1/es1.c: a producer and a consumer, two protothreads of one node, over a queue of
-- ten cells. A protothread runs when an event reaches it, up to its next wait. The scheduler and
-- the timers are not part of the repository: a run is any sequence of expiries and deliveries, and
-- posted events are delivered in the order of posting.
pub mod Fifo
pub mod Wakeup
mod Tests
use nsdscourse.Base.{
  ℕ, zero, suc, ◌+◌, ◌-◌, ◌%◌, Bool, true, false, ◌&&◌, List, [], ◌∷◌, ◌++◌, ltb, if◌then◌else◌,
  get_or, set, replicate,
}

-- `tuple`
pub record Cells : Type 0 where
  pub queue : List ℕ
  pub num_el : ℕ

-- `queue.queue[queue.numEl++] = newData`
pub put : ℕ → Cells → Cells
put new_data t = record { queue = set t.queue t.num_el new_data; num_el = t.num_el + 1 }

-- `rounds` rounds of the loop `queue.queue[i] = queue.queue[i + 1]` from `i` on.
pub shift : ℕ → ℕ → List ℕ → List ℕ
shift zero i q = q
shift (suc rounds) i q = shift rounds (suc i) (set q i (get_or q (suc i) 0))

-- `popped = queue.queue[0]`, and the cells behind it move up.
abbrev pub popped_of : Cells → ℕ
popped_of t = get_or t.queue 0 0

pub pop : Cells → Cells
pop t = record { queue = shift (t.num_el - 1) 0 t.queue; num_el = t.num_el - 1 }

-- The events that one process posts to the other.
pub data Post : Type 0 where
  added popped : Post

-- The two processes. A timer that has expired stays so until it is set again. `waiting` holds the
-- events that are posted and not yet delivered, and the last two fields are what was printed.
pub record System : Type 0 where
  pub cells : Cells
  pub producer_expired : Bool
  pub consumer_started : Bool
  pub consumer_expired : Bool
  pub waiting : List Post
  pub log_added : List ℕ
  pub log_popped : List ℕ

abbrev pub capacity : ℕ
capacity = 10

-- `producer` when an event reaches it: its condition, and on success one round of its loop.
pub producer : ℕ → System → System
producer rand s =
    if s.producer_expired && ltb s.cells.num_el capacity
    then record s {
      cells = put (rand % 10) s.cells;
      producer_expired = false;
      waiting = s.waiting ++ (added ∷ []);
      log_added = s.log_added ++ (rand % 10 ∷ []);
    }
    else s

-- `consumer` when an event reaches it: its first event starts it, the others lead to the condition.
pub consumer : System → System
consumer s =
    if s.consumer_started
    then if s.consumer_expired && ltb 0 s.cells.num_el
      then record s {
        cells = pop s.cells;
        consumer_expired = false;
        waiting = s.waiting ++ (popped ∷ []);
        log_popped = s.log_popped ++ (popped_of s.cells ∷ []);
      }
      else s
    else record s { consumer_started = true; consumer_expired = false }

-- What the scheduler does next.
pub data Event : Type 0 where
  producer_timer consumer_timer deliver : Event

deliver_first : List Post → ℕ → System → System
deliver_first [] rand s = s
deliver_first (added ∷ rest) rand s = consumer (record s { waiting = rest })
deliver_first (popped ∷ rest) rand s = producer rand (record s { waiting = rest })

-- One event; `rand` is what `rand()` returns if the producer calls it.
pub step : System → Event → ℕ → System
step s producer_timer rand = producer rand (record s { producer_expired = true })
step s consumer_timer rand =
    if s.consumer_started then consumer (record s { consumer_expired = true }) else s
step s deliver rand = deliver_first s.waiting rand s

pub run : System → List (Event × ℕ) → System
run s [] = s
run s ((e, rand) ∷ rest) = run (step s e rand) rest

-- After `queue.numEl = 0`, with whatever the cells hold.
abbrev pub start : List ℕ → System
start queue = record {
  cells = record { queue = queue; num_el = 0 };
  producer_expired = false;
  consumer_started = false;
  consumer_expired = false;
  waiting = [];
  log_added = [];
  log_popped = [];
}
