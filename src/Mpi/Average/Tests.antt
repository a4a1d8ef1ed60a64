-- ===== src/Mpi/Average/Tests.antt =====
-- Instances for average.c.
