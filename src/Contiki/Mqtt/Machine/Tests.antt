-- ===== src/Contiki/Mqtt/Machine/Tests.antt =====
-- Runs and instances of mqtt-demo.c's state machine.
use nsdscourse.Base.{ℕ, ◌≡◌, refl, List, [], ◌∷◌, true, false, replicate}
use nsdscourse.Contiki.Mqtt.Text.{hex_byte}
use nsdscourse.Contiki.Mqtt.Config.{config_fits, init_config}
use nsdscourse.Contiki.Mqtt.Machine.{
  Answers, connected_event, disconnected_event, mqtt_event, connect_to_broker, run_registered,
  run_init, run_connected, run_disconnected, retry, talk, dispatch, state_machine, start, fire,
  step, run, Event, timer_fires, mqtt, mqtt_register, mqtt_set_username_password, mqtt_connect,
  mqtt_subscribe, mqtt_publish, mqtt_disconnect, became_connected, became_disconnected,
}
use nsdscourse.Contiki.Mqtt.Machine.Reach.{IsAlive, run-IsAlive}
use nsdscourse.Contiki.Mqtt.Machine.Protocol.{IsOrdered, run-IsOrdered}

abbrev all_well : Answers
all_well = record { has_global = true; life_expired = false; ready = true }

abbrev address : List ℕ
address = replicate 8 1

-- The client connects, subscribes, publishes once and loses the link.
abbrev session : List Event
session =
    timer_fires all_well
    ∷ mqtt connected_event
    ∷ timer_fires all_well
    ∷ timer_fires all_well
    ∷ mqtt disconnected_event
    ∷ timer_fires all_well
    ∷ []

session_calls :
    (run 128 (start 128 address) session).trace
    ≡ mqtt_register ∷ mqtt_set_username_password ∷ mqtt_connect ∷ became_connected ∷ mqtt_subscribe
      ∷ mqtt_publish ∷ became_disconnected ∷ mqtt_disconnect ∷ []
unfolding run step fire state_machine dispatch run_init run_registered run_connected
    run_disconnected retry connect_to_broker talk mqtt_event start config_fits init_config hex_byte
session_calls = refl

run-IsAlive_example : IsAlive 128 (run 128 (start 128 address) session)
run-IsAlive_example = run-IsAlive 128 address session

run-IsOrdered_example : IsOrdered (run 128 (start 128 address) session)
run-IsOrdered_example = run-IsOrdered 128 address session
