-- ===== src/Examples/Trickle.antt =====
-- The nodes of examples/libs/trickle-library/trickle-library.c: a token of one byte that all nodes are
-- to agree on, spread by a trickle timer.
pub mod Versions
mod Tests
use nsdscourse.Base.{
  ℕ, ◌+◌, ◌-◌, ◌%◌, Bool, true, false, ◌&&◌, List, [], ◌∷◌, ◌++◌, ltb, ◌==◌, if◌then◌else◌,
}

-- The calls of the trickle library and of the timers, and the sending of the token.
pub data Call : Type 0 where
  trickle_timer_config trickle_timer_set etimer_set : Call
  trickle_timer_consistency trickle_timer_inconsistency trickle_timer_reset_event : Call
  uip_udp_packet_send : ℕ → Call

pub record Node : Type 0 where
  pub token : ℕ
  pub calls : List Call

abbrev call : Call → Node → Node
call c n = record n { calls = n.calls ++ (c ∷ []) }

-- The difference of the bytes is negative as a `signed char`.
abbrev pub is_newer : ℕ → ℕ → Bool
is_newer theirs ours = ltb 127 ((ours + 256 - theirs) % 256)

-- `newdata` says that there is a packet, and `theirs` is its first byte.
unfoldable pub tcpip_handler : Bool → ℕ → Node → Node
tcpip_handler newdata theirs n =
    if newdata
    then if n.token == theirs
      then call trickle_timer_consistency n
      else call trickle_timer_inconsistency
          (record n { token = if is_newer theirs n.token then theirs else n.token })
    else n

unfoldable pub trickle_tx : Bool → Node → Node
trickle_tx suppress n = if suppress then n else call (uip_udp_packet_send n.token) n

-- What the node does next: its process wakes up for a packet or for something else, when its timer may
-- have expired, with a random number at hand; or the trickle timer calls back.
pub data Event : Type 0 where
  packet : Bool → ℕ → Event
  woken : Bool → ℕ → Event
  callback : Bool → Event

-- The start of the process, up to its first wait.
abbrev pub start : Node
start = record { token = 0; calls = trickle_timer_config ∷ trickle_timer_set ∷ etimer_set ∷ [] }

abbrev generate : ℕ → Node → Node
generate random n =
    if random % 2 == 0
    then call trickle_timer_reset_event (record n { token = (n.token + 1) % 256 })
    else n

unfoldable pub step : Event → Node → Node
step (packet newdata theirs) n = tcpip_handler newdata theirs n
step (woken expired random) n = if expired then call etimer_set (generate random n) else n
step (callback suppress) n = trickle_tx suppress n

unfoldable pub run : List Event → Node → Node
run [] n = n
run (e ∷ es) n = run es (step e n)
