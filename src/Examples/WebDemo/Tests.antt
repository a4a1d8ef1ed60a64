-- ===== src/Examples/WebDemo/Tests.antt =====
-- Runs and instances of the web server of the CC26xx demo.
mod Forms
mod Connections
mod Sensors
mod Readings
mod Mqtt
