-- ===== src/Contiki/Sensor/Average.antt =====
-- The averages that udp-client.c sends.
use Prim.Native.Nat.{min}
use nsdscourse.Base.{
  ℕ, zero, suc, ◌+◌, ◌-◌, ◌*◌, ◌%◌, ◌≤◌, ◌<◌, ◌≡◌, refl, ap, ap₂, sym, ◌∙◌, true, false, List, [],
  ◌∷◌, ◌++◌, map, arith, length, take, drop, replicate, take-append-drop, ◌==◌, if◌then◌else◌, sum,
  sum-append, get_or,
}
use nsdscourse.Contiki.Ring.{Readings, add_readings, window, IsValid, window-add_readings}
use nsdscourse.Contiki.Sensor.{
  unsigned_max, get_temperature, temperature, average, Client, add_up, cleared, flush, on_timer,
  offline,
}

-- How many of the readings are not 0.
abbrev pub nonzero : List ℕ → ℕ
nonzero [] = 0
nonzero (x ∷ xs) = (if x == 0 then 0 else 1) + nonzero xs

nonzero-append : (xs ys : List ℕ) → nonzero (xs ++ ys) ≡ nonzero xs + nonzero ys
nonzero-append [] ys = omega arith
nonzero-append (x ∷ xs) ys = omega (arith, nonzero-append xs ys)

add_up_lem :
    (total number : ℕ) (xs : List ℕ)
    → total + sum xs < unsigned_max
    → number + nonzero xs < unsigned_max
    → add_up total number xs ≡ (total + sum xs, number + nonzero xs)
unfolding add_up
add_up_lem total number [] h k = ground arith
add_up_lem total number (x ∷ xs) h k = ground (
  arith,
  add_up_lem (if x == 0 then total else (total + x) % unsigned_max)
      (if x == 0 then number else (number + 1) % unsigned_max) xs,
)

-- The last ten readings, or all if there are fewer.
abbrev pub last_ten : List ℕ → List ℕ
last_ten ts = drop (length ts - 10) ts

drop-replicate :
    (k m : ℕ) (ts : List ℕ) → drop k (replicate m 0 ++ ts) ≡ replicate (m - k) 0 ++ drop (k - m) ts
drop-replicate zero m ts =
    let a : m - 0 ≡ m = omega arith in let b : 0 - m ≡ 0 = omega arith in rw (a, b)
drop-replicate (suc k) zero ts =
    let a : 0 - suc k ≡ 0 = omega arith in let b : suc k - 0 ≡ suc k = omega arith in rw (a, b)
drop-replicate (suc k) (suc m) ts =
    let a : suc m - suc k ≡ m - k = omega arith in
    let b : suc k - suc m ≡ k - m = omega arith in rw (a, b) (drop-replicate k m ts)

sum-zeros : (m : ℕ) (ts : List ℕ) → sum (replicate m 0 ++ ts) ≡ sum ts
sum-zeros zero ts = refl
sum-zeros (suc m) ts = omega (arith, sum-zeros m ts)

nonzero-zeros : (m : ℕ) (ts : List ℕ) → nonzero (replicate m 0 ++ ts) ≡ nonzero ts
nonzero-zeros zero ts = refl
nonzero-zeros (suc m) ts = omega (arith, nonzero-zeros m ts)

-- Summing up does not depend on where the array begins.
window-sums :
    (r : Readings ℕ) → (sum (window r) ≡ sum r.readings) × (nonzero (window r) ≡ nonzero r.readings)
window-sums r =
    let n = r.next_reading in
    let xs = r.readings in
    let whole = take-append-drop n xs in
    (
      omega (
        arith,
        sum-append (drop n xs) (take n xs),
        sum-append (take n xs) (drop n xs),
        ap sum whole,
      ),
      omega (
        arith,
        nonzero-append (drop n xs) (take n xs),
        nonzero-append (take n xs) (drop n xs),
        ap nonzero whole,
      ),
    )

fake_bounds :
    (i : ℕ)
    → i < 5
    → (10 ≤ get_or (30 ∷ 25 ∷ 20 ∷ 15 ∷ 10 ∷ []) i 0)
      × (get_or (30 ∷ 25 ∷ 20 ∷ 15 ∷ 10 ∷ []) i 0 ≤ 30)
fake_bounds zero h = omega arith
fake_bounds (suc zero) h = omega arith
fake_bounds (suc (suc zero)) h = omega arith
fake_bounds (suc (suc (suc zero))) h = omega arith
fake_bounds (suc (suc (suc (suc zero)))) h = omega arith
fake_bounds (suc (suc (suc (suc (suc i))))) h = absurd (omega arith)

-- The fake temperatures lie between 10 and 30.
get_temperature_bounds : (rand : ℕ) → (10 ≤ get_temperature rand) × (get_temperature rand ≤ 30)
unfolding get_temperature
get_temperature_bounds rand = fake_bounds (rand % 5) (omega arith)

abbrev pub temperatures : List ℕ → List ℕ
temperatures rands = map get_temperature rands

-- Of `k` temperatures from a place on, all count, and each adds 30 at most.
drop-temperatures :
    (k : ℕ) (rands : List ℕ)
    → (nonzero (drop k (temperatures rands)) ≡ length (temperatures rands) - k)
      × (sum (drop k (temperatures rands)) ≤ 30 * (length (temperatures rands) - k))
drop-temperatures zero [] = omega arith
drop-temperatures (suc k) [] = omega arith
drop-temperatures zero (r ∷ rands) =
    ground (arith, drop-temperatures zero rands, get_temperature_bounds r)
drop-temperatures (suc k) (r ∷ rands) = omega (arith, drop-temperatures k rands)

rotate-cleared : (n : ℕ) → n < 10 → drop n cleared ++ take n cleared ≡ cleared
rotate-cleared zero h = refl
rotate-cleared (suc zero) h = refl
rotate-cleared (suc (suc zero)) h = refl
rotate-cleared (suc (suc (suc zero))) h = refl
rotate-cleared (suc (suc (suc (suc zero)))) h = refl
rotate-cleared (suc (suc (suc (suc (suc zero))))) h = refl
rotate-cleared (suc (suc (suc (suc (suc (suc zero)))))) h = refl
rotate-cleared (suc (suc (suc (suc (suc (suc (suc zero))))))) h = refl
rotate-cleared (suc (suc (suc (suc (suc (suc (suc (suc zero)))))))) h = refl
rotate-cleared (suc (suc (suc (suc (suc (suc (suc (suc (suc zero))))))))) h = refl
rotate-cleared (suc (suc (suc (suc (suc (suc (suc (suc (suc (suc n)))))))))) h =
    absurd (omega arith)

-- The client's array before the first reading that goes to cell `n`.
abbrev pub cleared_from : ℕ → Readings ℕ
cleared_from n = record { readings = cleared; next_reading = n }

-- What a time without connection leaves in the array, from a cleared one.
array_sums :
    (rands : List ℕ) (n : ℕ)
    → n < 10
    → let r = add_readings (temperatures rands) (cleared_from n) in
      (sum r.readings ≡ sum (last_ten (temperatures rands)))
      × (nonzero r.readings ≡ min 10 (length (temperatures rands)))
      × IsValid r
array_sums rands n h =
    let ts = temperatures rands in
    let w = window-add_readings ts (cleared_from n) (record { cells = refl; within = h }) in
    let shape : window (add_readings ts (cleared_from n))
        ≡ replicate (10 - length ts) 0 ++ drop (length ts - 10) ts =
      w.0
      ∙ ap (λ v. drop (length ts) (v ++ ts)) (rotate-cleared n h)
      ∙ drop-replicate (length ts) 10 ts in
    let sums = window-sums (add_readings ts (cleared_from n)) in
    let late = drop-temperatures (length ts - 10) rands in
    (
      sym sums.0 ∙ ap sum shape ∙ sum-zeros (10 - length ts) (drop (length ts - 10) ts),
      omega (
        arith,
        sums.1,
        ap nonzero shape,
        nonzero-zeros (10 - length ts) (drop (length ts - 10) ts),
        late.0,
      ),
      w.1,
    )

offline_lem :
    (rand : ℕ) (rands : List ℕ) (c : Client)
    → offline (rand ∷ rands) c ≡ record c {
      disconnected = true;
      buffer = add_readings (temperatures (rand ∷ rands)) c.buffer;
    }
unfolding offline on_timer add_readings
offline_lem rand [] c = refl
offline_lem rand (r ∷ rands) c = offline_lem r rands (on_timer false rand c)

-- A client with a cleared array loses the connection for some rounds and finds it again. It then
-- sends one average, and behind it the new temperature; the average's sum and number are those of
-- the last ten readings (of all, if there are fewer), each on top of the sum and the number of the
-- averages sent before. The array is cleared again. The bounds say that the `unsigned` counters do
-- not overflow.
pub average_lem :
    (rand : ℕ) (rands : List ℕ) (now n : ℕ) (c : Client)
    → c.buffer ≡ cleared_from n
    → n < 10
    → c.sum + 300 < unsigned_max
    → c.number + 10 < unsigned_max
    → let ts = temperatures (rand ∷ rands) in
      let c' = on_timer true now (offline (rand ∷ rands) c) in
      (c'.sent
        ≡ (c.sent ++ (average (c.sum + sum (last_ten ts)) (c.number + min 10 (length ts)) ∷ []))
          ++ (temperature (get_temperature now) ∷ []))
      × (c'.sum ≡ c.sum + sum (last_ten ts))
      × (c'.number ≡ c.number + min 10 (length ts))
      × (c'.disconnected ≡ false)
      × (c'.buffer.readings ≡ cleared)
unfolding on_timer flush
average_lem rand rands now n c e h k m =
    let ts = temperatures (rand ∷ rands) in
    let r = add_readings ts (cleared_from n) in
    let sums = array_sums (rand ∷ rands) n h in
    let late = drop-temperatures (length ts - 10) (rand ∷ rands) in
    let added : add_up c.sum c.number r.readings
        ≡ (c.sum + sum (last_ten ts), c.number + min 10 (length ts)) =
      add_up_lem c.sum c.number r.readings (omega (arith, sums.0, late.1)) (omega (arith, sums.1))
      ∙ ap₂ (λ (a b : ℕ). (let p : ℕ × ℕ = (c.sum + a, c.number + b) in p)) sums.0 sums.1 in
    rw (offline_lem rand rands c, e, added) (refl, refl, refl, refl, refl)
