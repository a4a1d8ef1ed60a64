-- ===== src/Contiki/Mqtt.antt =====
-- Contiki-NG/lab/es4/mqtt-demo.c: a node that publishes random numbers to an MQTT broker. The MQTT
-- engine, the network stack, timers and LEDs belong to Contiki-NG: what they tell the code is an
-- argument, and what the code asks of them is written to a trace.
pub mod Text
pub mod Address
pub mod Config
pub mod Message
pub mod Handler
pub mod Machine
mod Tests
