-- ===== src/Examples/SixTop.antt =====
-- Contiki-NG/examples/6tisch/sixtop/sf-simple.c, a scheduling function: it asks a neighbour for links in
-- the schedule of time slots, and answers such requests. The schedule, the packet format and the
-- transactions belong to Contiki-NG and are parameters. A packet holds less than 64 cells, so that
-- the index of a loop over them does not wrap, and whole ones.
pub mod Library
pub mod Cells
pub mod Answers
pub mod Requests
mod Tests
