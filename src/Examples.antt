-- ===== src/Examples.antt =====
-- Programs of Contiki-NG/examples.
pub mod SixTop
pub mod Trickle
pub mod Events
pub mod SoftState
pub mod HardState
pub mod Texts
pub mod SerialProtocol
pub mod LargeUpdate
pub mod WebDemo
