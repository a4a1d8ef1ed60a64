-- ===== src/Contiki/Sensor/Tests.antt =====
-- Runs and instances of the sensor client and server.
use Prim.Native.Nat.{min}
use nsdscourse.Base.{ℕ, ◌+◌, ◌/◌, ◌≡◌, refl, false, [], ◌∷◌, ◌++◌, arith, length, sum, ◌==◌}
use nsdscourse.Contiki.Ring.{add_reading}
use nsdscourse.Contiki.Sensor.{
  temperature, average, get_temperature, client_start, on_timer, offline, flush, add_up, cleared,
  FloatOps,
}
use nsdscourse.Contiki.Sensor.Average.{temperatures, last_ten, average_lem}
use mathlib.Core.Bool.{true}

-- Two times without connection: the second average still counts the readings of the first.
two_gaps :
    (on_timer true 0 (offline (4 ∷ []) (on_timer true 0 (offline (0 ∷ []) client_start)))).sent
    ≡ average 30 1 ∷ temperature 30 ∷ average 40 2 ∷ temperature 30 ∷ []
unfolding on_timer offline flush add_up get_temperature add_reading
two_gaps = refl

average_lem_example :
    let ts = temperatures (4 ∷ 3 ∷ []) in
    let c' = on_timer true 1 (offline (4 ∷ 3 ∷ []) client_start) in
    (c'.sent
      ≡ ([] ++ (average (0 + sum (last_ten ts)) (0 + min 10 (length ts)) ∷ []))
        ++ (temperature (get_temperature 1) ∷ []))
    × (c'.sum ≡ 0 + sum (last_ten ts))
    × (c'.number ≡ 0 + min 10 (length ts))
    × (c'.disconnected ≡ false)
    × (c'.buffer.readings ≡ cleared)
average_lem_example =
    average_lem 4 (3 ∷ []) 1 0 client_start refl (omega arith) (omega arith) (omega arith)

-- Whole numbers in place of floats.
abbrev whole_numbers : FloatOps ℕ
whole_numbers = record {
  zero_float = 0;
  is_zero = λ x. x == 0;
  add = λ x y. x + y;
  div = λ x n. x / n;
}
