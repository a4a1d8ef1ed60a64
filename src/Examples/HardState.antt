-- ===== src/Examples/HardState.antt =====
-- The client and the server of examples/soft-hard-state/hard-state-client.c and hard-state-server.c:
-- the client sends its state once, and the server keeps it.
pub mod Shown
mod Tests
use nsdscourse.Base.{Bool, true, false, not, ◌&&◌, Option, none, some, List, [], ◌∷◌, if◌then◌else◌}

-- `on_off` of the client, and the red LED of the server.
pub record System : Type 0 where
  pub on_off : Bool
  pub led : Bool

abbrev pub start : System
start = record { on_off = false; led = false }

-- When the client's timer has expired: what it sends if the root can be reached, and its state then.
abbrev pub switch_state : Bool → Bool → Option Bool × Bool
switch_state reachable on_off = if reachable then (some on_off, not on_off) else (none, on_off)

abbrev pub udp_rx_callback : Bool → Bool → Bool
udp_rx_callback on_off led = if on_off then true else false

-- One wait of the client: whether the root can be reached, and whether a message is delivered.
pub record Round : Type 0 where
  pub reachable : Bool
  pub delivered : Bool

abbrev pub received : Bool → Option Bool → Bool → Bool
received delivered none led = led
received delivered (some on_off) led = if delivered then udp_rx_callback on_off led else led

unfoldable pub step : Round → System → System
step r s =
    let (sent, on_off) = switch_state r.reachable s.on_off in
    record { on_off = on_off; led = received r.delivered sent s.led }

unfoldable pub run : List Round → System → System
run [] s = s
run (r ∷ rs) s = run rs (step r s)
