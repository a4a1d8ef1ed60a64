-- ===== src/Examples/WebDemo.antt =====
-- The web server of examples/platform-specific/cc26xx/cc26xx-web-demo: httpd-simple.c, and the handlers of
-- the forms that cc26xx-web-demo.c registers with it.
pub mod Escape
pub mod Form
pub mod Server
pub mod Output
pub mod Sensors
pub mod Readings
pub mod Mqtt
mod Tests
