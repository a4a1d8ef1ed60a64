-- ===== src/Examples/SoftState.antt =====
-- The client and the server of examples/soft-hard-state/soft-state-client.c and soft-state-server.c:
-- the client refreshes a state that the server forgets after a while. Time is counted in seconds.
pub mod Follows
mod Tests
use nsdscourse.Base.{
  ℕ, zero, suc, Bool, true, false, not, ◌&&◌, ◌||◌, ◌-◌, Option, none, some, List, [], ◌∷◌,
  if◌then◌else◌, ◌==◌,
}

abbrev pub refresh_interval : ℕ
refresh_interval = 5

abbrev pub switch_interval : ℕ
switch_interval = 60

abbrev pub expire_interval : ℕ
expire_interval = 30

-- The state and the two timers of the client, with the seconds that are left of them.
pub record Client : Type 0 where
  pub on_off : Bool
  pub switch_ctimer : ℕ
  pub periodic_timer : ℕ

-- The red LED of the server, and its timer, which may be at its end.
pub record Server : Type 0 where
  pub led : Bool
  pub state_expire_ctimer : Option ℕ

-- The timers are set when the processes start, and the LED is off.
abbrev pub client_start : Client
client_start = record {
  on_off = false;
  switch_ctimer = switch_interval;
  periodic_timer = refresh_interval;
}

abbrev pub server_start : Server
server_start = record { led = false; state_expire_ctimer = some expire_interval }

-- The callback of the client's timer.
abbrev pub switch_state : Client → Client
switch_state c = record c { on_off = not c.on_off; switch_ctimer = switch_interval }

-- The loop of the client: whether it sends, and its next wait.
abbrev pub refresh : Bool → Client → Bool × Client
refresh reachable c = (reachable && c.on_off, record c { periodic_timer = refresh_interval })

-- The callback of the server's timer.
abbrev pub expire_state : Server → Server
expire_state s = record s { led = false; state_expire_ctimer = none }

abbrev pub udp_rx_callback : Server → Server
udp_rx_callback s = record s { led = true; state_expire_ctimer = some expire_interval }

-- A second passes, or what is due happens: the client's state switches, the client wakes up for a
-- refresh, with the node reachable or not and a message delivered or lost, or the server's state
-- expires.
pub data Choice : Type 0 where
  second switches expires : Choice
  refreshes : Bool → Bool → Choice

pub record System : Type 0 where
  pub client : Client
  pub server : Server

abbrev pub start : System
start = record { client = client_start; server = server_start }

abbrev refreshed : Bool → Bool → System → System
refreshed reachable delivered s =
    let (sent, c) = refresh reachable s.client in
    record { client = c; server = if sent && delivered then udp_rx_callback s.server else s.server }

abbrev is_due : Option ℕ → Bool
is_due none = false
is_due (some seconds) = seconds == 0

abbrev count_down : Option ℕ → Option ℕ
count_down none = none
count_down (some seconds) = some (seconds - 1)

-- Time goes on when nothing is due.
abbrev something_due : System → Bool
something_due s =
    (s.client.switch_ctimer == 0)
    || (s.client.periodic_timer == 0)
    || is_due s.server.state_expire_ctimer

abbrev second_passed : System → System
second_passed s = record {
  client = record s.client {
    switch_ctimer = s.client.switch_ctimer - 1;
    periodic_timer = s.client.periodic_timer - 1;
  };
  server = record s.server { state_expire_ctimer = count_down s.server.state_expire_ctimer };
}

unfoldable pub step : Choice → System → Option System
step second s = if something_due s then none else some (second_passed s)
step switches s =
    if s.client.switch_ctimer == 0 then some (record s { client = switch_state s.client }) else none
step expires s =
    if is_due s.server.state_expire_ctimer
    then some (record s { server = expire_state s.server })
    else none
step (refreshes reachable delivered) s =
    if s.client.periodic_timer == 0 then some (refreshed reachable delivered s) else none

-- `none` when a choice is not possible.
unfoldable pub run : List Choice → System → Option System
run [] s = some s
run (c ∷ cs) s = elim (step c s) [ none ↦ none | some s' ↦ run cs s' ]
