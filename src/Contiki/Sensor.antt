-- ===== src/Contiki/Sensor.antt =====
-- Contiki-NG/NSDS-contiking-eval-23: `udp-client.c`, which sends temperatures and, after a time
-- without a connection, an average, and `udp-server.c`, which averages what it receives. Routing,
-- timers and UDP belong to Contiki-NG. A `float` that holds a temperature is that whole number; an
-- average is kept as its two parts.
pub mod Average
pub mod Server
mod Tests
use nsdscourse.Base.{
  ℕ, zero, suc, ◌+◌, ◌%◌, ◌^◌, Bool, true, false, List, [], ◌∷◌, ◌++◌, get_or, replicate, ltb, ◌==◌,
  if◌then◌else◌,
}
use nsdscourse.Contiki.Ring.{Readings, max_readings, add_reading}

-- `unsigned`
abbrev pub unsigned_max : ℕ
unsigned_max = 2 ^ 32

-- `fake_temps[random_rand() % FAKE_TEMPS]`
pub get_temperature : ℕ → ℕ
get_temperature rand = get_or (30 ∷ 25 ∷ 20 ∷ 15 ∷ 10 ∷ []) (rand % 5) 0

-- What the client sends: a temperature, or the average `sum / number`.
pub data Packet : Type 0 where
  temperature : ℕ → Packet
  average : (sum number : ℕ) → Packet

-- The static variables of the client, and what it has sent.
pub record Client : Type 0 where
  pub buffer : Readings ℕ
  pub disconnected : Bool
  pub sum : ℕ
  pub number : ℕ
  pub sent : List Packet

-- The loop that adds up the readings that are not 0.
pub add_up : ℕ → ℕ → List ℕ → ℕ × ℕ
add_up total number [] = (total, number)
add_up total number (x ∷ xs) =
    add_up (if x == 0 then total else (total + x) % unsigned_max)
      (if x == 0 then number else (number + 1) % unsigned_max) xs

abbrev pub cleared : List ℕ
cleared = replicate max_readings 0

-- `if (disconnected)`: the static variables `sum` and `no` (`number` here) go on from their last values.
pub flush : Client → Client
flush c =
    let (total, number) = add_up c.sum c.number c.buffer.readings in
    record c {
      sum = total;
      number = number;
      sent = c.sent ++ (average total number ∷ []);
      disconnected = false;
      buffer = record { readings = cleared; next_reading = c.buffer.next_reading };
    }

-- The periodic timer has expired; `reachable` says that the root can be reached and its address is
-- known.
pub on_timer : Bool → ℕ → Client → Client
on_timer true rand c =
    let c' = if c.disconnected then flush c else c in
    record c' { sent = c'.sent ++ (temperature (get_temperature rand) ∷ []) }
on_timer false rand c = record c {
  disconnected = true;
  buffer = add_reading (get_temperature rand) c.buffer;
}

abbrev pub client_start : Client
client_start = record {
  buffer = record { readings = cleared; next_reading = 0 };
  disconnected = false;
  sum = 0;
  number = 0;
  sent = [];
}

-- A time without connection: a round of the timer for each value of `rand`.
pub offline : List ℕ → Client → Client
offline [] c = c
offline (rand ∷ rands) c = offline rands (on_timer false rand c)

-- Operations of `float` as the server uses them.
pub record FloatOps (F : Type 0) : Type 0 where
  pub zero_float : F
  pub is_zero : F → Bool
  pub add : F → F → F
  pub div : F → ℕ → F

module _ {F : Type 0} (ops : FloatOps F) where
  -- The loop of `udp_rx_callback` that adds up the readings that are not 0.
  pub add_floats : F → ℕ → List F → F × ℕ
  add_floats total number [] = (total, number)
  add_floats total number (x ∷ xs) =
      add_floats (if ops.is_zero x then total else ops.add total x)
        (if ops.is_zero x then number else number + 1) xs

  -- `udp_rx_callback`: the reading goes into the array, and the average of the array is logged.
  pub udp_rx_callback : F → Readings F → Readings F × F
  udp_rx_callback reading r =
      let r' = add_reading reading r in
      let (total, number) = add_floats ops.zero_float 0 r'.readings in (r', ops.div total number)

  -- The server after `PROCESS_BEGIN`.
  pub server_start : Readings F
  server_start = record { readings = replicate max_readings ops.zero_float; next_reading = 0 }

  -- The averages that are logged as the readings come in.
  pub serve : Readings F → List F → Readings F × List F
  serve r [] = (r, [])
  serve r (x ∷ xs) =
      let (r', a) = udp_rx_callback x r in let (r'', as') = serve r' xs in (r'', a ∷ as')
