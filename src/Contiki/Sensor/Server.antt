-- ===== src/Contiki/Sensor/Server.antt =====
-- The readings that udp-server.c averages.
use nsdscourse.Base.{◌≡◌, refl, List, [], ◌∷◌, ◌++◌, arith, length, drop, replicate}
use nsdscourse.Contiki.Ring.{
  Readings, add_reading, add_readings, window, IsValid, window-add_readings,
}
use nsdscourse.Contiki.Sensor.{FloatOps, udp_rx_callback, server_start, serve}

module _ {F : Type 0} (ops : FloatOps F) where
  serve-add_readings : (r : Readings F) (xs : List F) → (serve ops r xs).0 ≡ add_readings xs r
  unfolding serve udp_rx_callback add_readings
  serve-add_readings r [] = refl
  serve-add_readings r (x ∷ xs) = serve-add_readings (add_reading x r) xs

  -- After any number of packets the server's array holds the last ten readings, in the order of
  -- arrival from `next_reading` on, with zeros for those that have not come yet, and no packet was
  -- written outside of it.
  pub serve_lem :
      (xs : List F)
      → let r = (serve ops (server_start ops) xs).0 in
        (window r ≡ drop (length xs) (replicate 10 ops.zero_float ++ xs)) × IsValid r
  unfolding server_start
  serve_lem xs =
      rw (serve-add_readings (server_start ops) xs)
        (window-add_readings xs (server_start ops) (record { cells = refl; within = omega arith }))
