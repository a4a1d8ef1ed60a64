-- ===== src/Mpi.antt =====
-- The MPI programs.
pub mod Collective
pub mod Network
pub mod Process
pub mod PingPong
pub mod Deadlock
pub mod Probe
pub mod Ring
pub mod Guess
pub mod LinearRoad
pub mod Filter
pub mod Average
pub mod MonteCarlo
pub mod Ants
pub mod CharCount
