-- ===== src/Contiki.antt =====
-- The Contiki-NG programs.
pub mod Queue
pub mod Ring
pub mod Sensor
pub mod Echo
pub mod Timers
pub mod Mqtt
