-- ===== src/Contiki/Mqtt/Machine.antt =====
-- The state machine of mqtt-demo.c: `mqtt_event`, `connect_to_broker`, `subscribe`, `state_machine`
-- and the loop of `mqtt_demo_process`.
pub mod Reach
pub mod Protocol
mod Tests
use nsdscourse.Base.{
  ℕ, ◌+◌, ◌*◌, ◌/◌, ◌%◌, ◌^◌, Bool, true, false, ◌||◌, ◌&&◌, Option, none, some, List, [], ◌∷◌,
  ◌++◌, min, ltb, ◌==◌, if◌then◌else◌,
}
use nsdscourse.Contiki.Mqtt.Config.{Config, init_config, config_fits}

-- The values of `state`. STATE_NEWCONFIG is never assigned.
pub data State : Type 0 where
  init registered connecting connected publishing disconnected config_error error : State

-- What the code asks of the MQTT engine, and the two engine events that change the connection.
pub data Trace : Type 0 where
  mqtt_register mqtt_set_username_password : Trace
  mqtt_connect mqtt_subscribe mqtt_publish mqtt_disconnect : Trace
  became_connected became_disconnected : Trace

-- `timer` is the interval that `publish_periodic_timer` is set to, while it runs; `stable_set` says
-- that `connection_life` was set.
pub record Client : Type 0 where
  pub state : State
  pub connect_attempt : ℕ
  pub seq_nr_value : ℕ
  pub timer : Option ℕ
  pub stable_set : Bool
  pub trace : List Trace

-- What the system answers while the state machine runs: a global address, the timer
-- `connection_life` over, and `mqtt_ready(&conn) && conn.out_buffer_sent`.
pub record Answers : Type 0 where
  pub has_global : Bool
  pub life_expired : Bool
  pub ready : Bool

-- RECONNECT_ATTEMPTS and RETRY_FOREVER
abbrev pub reconnect_attempts : ℕ
reconnect_attempts = 0xff

abbrev pub retry_forever : ℕ
retry_forever = 0xff

-- The events that the MQTT engine reports.
pub data MqttEvent : Type 0 where
  connected_event disconnected_event publish_event suback unsuback puback other_event : MqttEvent

pub mqtt_event : MqttEvent → Client → Client
mqtt_event connected_event c = record c {
  stable_set = true;
  state = connected;
  trace = c.trace ++ (became_connected ∷ []);
}
mqtt_event disconnected_event c = record c {
  state = disconnected;
  trace = c.trace ++ (became_disconnected ∷ []);
}
mqtt_event _ c = c

-- The events of the process: the timer fires, if it runs, or the engine reports something, which
-- it does only to a client that has registered.
pub data Event : Type 0 where
  timer_fires : Answers → Event
  mqtt : MqttEvent → Event

abbrev pub has_registered : State → Bool
has_registered init = false
has_registered config_error = false
has_registered _ = true

module _ (clock_second : ℕ) where
  abbrev pub state_machine_periodic : ℕ
  state_machine_periodic = clock_second / 2

  abbrev pub net_connect_periodic : ℕ
  net_connect_periodic = clock_second / 4

  abbrev pub reconnect_interval : ℕ
  reconnect_interval = clock_second * 2

  abbrev pub pub_interval : ℕ
  pub_interval = 10 * clock_second

  -- `connect_to_broker`
  pub connect_to_broker : Client → Client
  connect_to_broker c = record c { state = connecting; trace = c.trace ++ (mqtt_connect ∷ []) }

  -- `case STATE_REGISTERED`
  pub run_registered : Answers → Client → Client
  run_registered a c = record (if a.has_global then connect_to_broker c else c) {
    timer = some net_connect_periodic;
  }

  -- `case STATE_INIT`, which runs on into the next case.
  pub run_init : Answers → Client → Client
  run_init a c = run_registered a (record c {
    connect_attempt = 1;
    state = registered;
    trace = c.trace ++ (mqtt_register ∷ mqtt_set_username_password ∷ []);
  })

  -- `subscribe` or `publish`, as the state says.
  pub talk : State → Client → Client
  talk connected c = record c { state = publishing; trace = c.trace ++ (mqtt_subscribe ∷ []) }
  talk _ c = record c {
    seq_nr_value = (c.seq_nr_value + 1) % 2 ^ 16;
    trace = c.trace ++ (mqtt_publish ∷ []);
  }

  -- `case STATE_CONNECTED` and `case STATE_PUBLISHING`
  pub run_connected : Answers → Client → Client
  run_connected a c =
      let c' = if a.life_expired then record c { connect_attempt = 0 } else c in
      if a.ready
      then record (talk c.state c') { timer = some pub_interval }
      else record c' { timer = some state_machine_periodic }

  -- `connect_attempt < 3 ? RECONNECT_INTERVAL << connect_attempt : RECONNECT_INTERVAL << 3`
  abbrev pub backoff : ℕ → ℕ
  backoff connect_attempt =
      if ltb connect_attempt 3
      then reconnect_interval * 2 ^ connect_attempt
      else reconnect_interval * 2 ^ 3

  pub retry : ℕ → Client → Client
  retry attempt c = record c {
    connect_attempt = attempt;
    timer = some (backoff attempt);
    state = registered;
    trace = c.trace ++ (mqtt_disconnect ∷ []);
  }

  -- `case STATE_DISCONNECTED`; the counter is a `uint8_t`.
  pub run_disconnected : Client → Client
  run_disconnected c =
      if ltb c.connect_attempt reconnect_attempts || reconnect_attempts == retry_forever
      then retry ((c.connect_attempt + 1) % 256) c
      else record c { state = error; timer = some state_machine_periodic }

  dispatch : State → Answers → Client → Client
  dispatch init a c = run_init a c
  dispatch registered a c = run_registered a c
  dispatch connecting a c = record c { timer = some state_machine_periodic }
  dispatch connected a c = run_connected a c
  dispatch publishing a c = run_connected a c
  dispatch disconnected a c = run_disconnected c
  dispatch config_error a c = c
  dispatch error a c = c

  pub state_machine : Answers → Client → Client
  state_machine a c = dispatch c.state a c

  -- `update_config` after `init_config`, on the link address of the node.
  pub start : List ℕ → Client
  start u8 = record {
    state = if config_fits (init_config clock_second) u8 then init else config_error;
    connect_attempt = 0;
    seq_nr_value = 0;
    timer = if config_fits (init_config clock_second) u8 then some 0 else none;
    stable_set = false;
    trace = [];
  }

  fire : Option ℕ → Answers → Client → Client
  fire none a c = c
  fire (some interval) a c = state_machine a (record c { timer = none })

  pub step : Client → Event → Client
  step c (timer_fires a) = fire c.timer a c
  step c (mqtt e) = if has_registered c.state then mqtt_event e c else c

  pub run : Client → List Event → Client
  run c [] = c
  run c (e ∷ es) = run (step c e) es
