-- ===== src/Examples/WebDemo/Readings.antt =====
-- The readings of the sensors in cc26xx-web-demo.c. What a driver returns is an argument, with `none` for
-- CC26XX_SENSOR_READING_ERROR; what is asked of the drivers and the timers is kept as a list.
pub mod Written
use nsdscourse.Base.{
  ℕ, suc, ◌+◌, ◌-◌, ◌*◌, ◌/◌, ◌%◌, Bool, true, false, ◌&&◌, ◌||◌, Option, none, some, List, [], ◌∷◌,
  ◌++◌, take, ltb, ◌==◌, if◌then◌else◌,
}
use nsdscourse.Contiki.Mqtt.Text.{decimal}
use nsdscourse.Examples.WebDemo.Server.{ℤ, pos, negsuc}

-- The fields of a reading that a new value changes.
pub record Sample : Type 0 where
  pub publish : Bool
  pub raw : ℤ
  pub last : ℤ
  pub changed : Bool
  pub converted : List ℕ

abbrev pub same_int : ℤ → ℤ → Bool
same_int (pos n) (pos m) = n == m
same_int (negsuc n) (negsuc m) = n == m
same_int (pos n) (negsuc m) = false
same_int (negsuc n) (pos m) = false

-- Division in C, towards zero.
abbrev pub minus_of : ℕ → ℤ
minus_of n = if n == 0 then pos 0 else negsuc (n - 1)

abbrev pub quotient : ℤ → ℕ → ℤ
quotient (pos n) m = pos (n / m)
quotient (negsuc n) m = minus_of (suc n / m)

abbrev pub remainder : ℤ → ℕ → ℤ
remainder (pos n) m = pos (n % m)
remainder (negsuc n) m = minus_of (suc n % m)

-- `%d`, of a number of at most ten digits.
abbrev pub int_text : ℤ → List ℕ
int_text (pos n) = decimal 9 n
int_text (negsuc n) = b'-' ∷ decimal 9 (suc n)

-- `%02d`
abbrev pub two_digits : ℤ → List ℕ
two_digits (pos n) = if ltb n 10 then b'0' ∷ decimal 9 n else decimal 9 n
two_digits (negsuc n) = b'-' ∷ decimal 9 (suc n)

-- `%03d`
abbrev pub three_digits : ℤ → List ℕ
three_digits (pos n) =
    if ltb n 10
    then b'0' ∷ b'0' ∷ decimal 9 n
    else if ltb n 100
    then b'0' ∷ decimal 9 n
    else decimal 9 n
three_digits (negsuc n) =
    if ltb (suc n) 10 then b'-' ∷ b'0' ∷ decimal 9 (suc n) else b'-' ∷ decimal 9 (suc n)

-- CC26XX_WEB_DEMO_CONVERTED_LEN, of which snprintf uses one for the final zero.
abbrev pub converted_len : ℕ
converted_len = 12

abbrev pub shown : List ℕ → List ℕ
shown text = take (converted_len - 1) text

abbrev pub hundredths : ℤ → List ℕ
hundredths value =
    shown (int_text (quotient value 100) ++ (b'.' ∷ two_digits (remainder value 100)))

abbrev pub thousandths : ℤ → List ℕ
thousandths value =
    shown (int_text (quotient value 1000) ++ (b'.' ∷ three_digits (remainder value 1000)))

unfoldable pub compare_and_update : Sample → Sample
compare_and_update s =
    if same_int s.last s.raw
    then record s { changed = false }
    else record s { last = s.raw; changed = true }

unfoldable pub print_mpu_reading : ℤ → List ℕ
print_mpu_reading (pos n) = decimal 9 (n / 100) ++ (b'.' ∷ two_digits (pos (n % 100)))
print_mpu_reading (negsuc n) =
    b'-' ∷ (decimal 9 (suc n / 100) ++ (b'.' ∷ two_digits (pos (suc n % 100))))

-- A value that is there, compared with the one before and shown.
abbrev pub measure : (ℤ → List ℕ) → ℤ → Sample → Sample
measure show value s = record (compare_and_update (record s { raw = value })) {
  converted = show value;
}

abbrev pub measure_published : (ℤ → List ℕ) → Option ℤ → Sample → Sample
measure_published show none s = s
measure_published show (some value) s = if s.publish then measure show value s else s

-- The sensors of the board and their timers.
pub data Device : Type 0 where
  batmon bmp tmp opt hdc mpu : Device

-- A timer is set to a delay; for the function that reads a sensor or starts it.
pub data Action : Type 0 where
  activate deactivate : Device → Action
  configure_mpu : Bool → Bool → Action
  set_timer : Device → ℕ → Action

pub record Board : Type 0 where
  pub batmon_temp : Sample
  pub batmon_volt : Sample
  pub bmp_pres : Sample
  pub bmp_temp : Sample
  pub tmp_amb : Sample
  pub tmp_obj : Sample
  pub light : Sample
  pub hdc_temp : Sample
  pub hdc_hum : Sample
  pub mpu_gyro : List Sample
  pub mpu_acc : List Sample
  pub actions : List Action

abbrev pub and_then : Board → List Action → Board
and_then b more = record b { actions = b.actions ++ more }

-- `(value * 125) >> 5`, which rounds down.
abbrev pub volt_of : ℤ → ℤ
volt_of (pos n) = pos (n * 125 / 32)
volt_of (negsuc n) = negsuc ((suc n * 125 - 1) / 32)

-- The readings of the battery monitor are not compared.
abbrev pub measure_batmon : (ℤ → List ℕ) → Option ℤ → Sample → Sample
measure_batmon show none s = s
measure_batmon show (some value) s =
    if s.publish then record s { raw = value; converted = shown (show value) } else s

unfoldable pub get_batmon_reading : Option ℤ → Option ℤ → ℕ → Board → Board
get_batmon_reading temp volt next b =
    and_then
      (record b {
        batmon_temp = measure_batmon int_text temp b.batmon_temp;
        batmon_volt = measure_batmon (λ value. int_text (volt_of value)) volt b.batmon_volt;
      })
      (set_timer batmon next ∷ [])

unfoldable pub get_bmp_reading : Option ℤ → Option ℤ → ℕ → Board → Board
get_bmp_reading pres temp next b =
    and_then
      (record b {
        bmp_pres = measure_published hundredths pres b.bmp_pres;
        bmp_temp = measure_published hundredths temp b.bmp_temp;
      })
      (deactivate bmp ∷ set_timer bmp next ∷ [])

-- `all` says that the reading of both values did not fail; the function goes on if it did.
unfoldable pub get_tmp_reading : Bool → ℤ → ℤ → ℕ → Board → Board
get_tmp_reading all amb obj next b =
    let failed = if all then [] else deactivate tmp ∷ set_timer tmp next ∷ [] in
    let first = if b.tmp_amb.publish || b.tmp_obj.publish then failed else [] in
    and_then
      (record b {
        tmp_amb = measure_published thousandths (some amb) b.tmp_amb;
        tmp_obj = measure_published thousandths (some obj) b.tmp_obj;
      })
      (first ++ (deactivate tmp ∷ set_timer tmp next ∷ []))

unfoldable pub get_hdc_reading : Option ℤ → Option ℤ → ℕ → Board → Board
get_hdc_reading temp hum next b =
    and_then
      (record b {
        hdc_temp = measure_published hundredths temp b.hdc_temp;
        hdc_hum = measure_published hundredths hum b.hdc_hum;
      })
      (deactivate hdc ∷ set_timer hdc next ∷ [])

-- Whether the reading is published is not asked.
abbrev pub measure_light : Option ℤ → Sample → Sample
measure_light none s = s
measure_light (some value) s = measure hundredths value s

unfoldable pub get_light_reading : Option ℤ → ℕ → Board → Board
get_light_reading value next b =
    and_then (record b { light = measure_light value b.light }) (set_timer opt next ∷ [])

-- One of the six readings of the motion sensor: a failed reading leaves the value before, which is
-- compared and shown all the same.
abbrev pub new_raw : Option ℤ → Sample → Sample
new_raw none s = s
new_raw (some value) s = record s { raw = value }

abbrev pub measure_mpu : Option ℤ → Sample → Sample
measure_mpu value s =
    let s' = new_raw value s in
    if s.publish then record (compare_and_update s') { converted = print_mpu_reading s'.raw } else s

-- For each reading its value; without a value for it, a reading stays.
abbrev pub measure_axes : List (Option ℤ) → List Sample → List Sample
measure_axes [] ss = ss
measure_axes (v ∷ vs) [] = []
measure_axes (v ∷ vs) (s ∷ ss) = measure_mpu v s ∷ measure_axes vs ss

unfoldable pub get_mpu_reading : List (Option ℤ) → List (Option ℤ) → ℕ → Board → Board
get_mpu_reading gyro acc next b =
    and_then
      (record b { mpu_gyro = measure_axes gyro b.mpu_gyro; mpu_acc = measure_axes acc b.mpu_acc })
      (deactivate mpu ∷ set_timer mpu next ∷ [])

-- The init functions of the devices, which are asked for values if one of their readings is
-- published, and else tried again after a second.
abbrev pub start_device : Device → Bool → ℕ → Board → Board
start_device device wanted clock_second b =
    and_then b ((if wanted then activate device else set_timer device clock_second) ∷ [])

abbrev pub any_published : List Sample → Bool
any_published [] = false
any_published (s ∷ ss) = s.publish || any_published ss

abbrev pub init_tmp_reading : ℕ → Board → Board
init_tmp_reading clock_second b =
    start_device tmp (b.tmp_amb.publish || b.tmp_obj.publish) clock_second b

abbrev pub init_bmp_reading : ℕ → Board → Board
init_bmp_reading clock_second b =
    start_device bmp (b.bmp_pres.publish || b.bmp_temp.publish) clock_second b

abbrev pub init_hdc_reading : ℕ → Board → Board
init_hdc_reading clock_second b =
    start_device hdc (b.hdc_hum.publish || b.hdc_temp.publish) clock_second b

abbrev pub init_light_reading : ℕ → Board → Board
init_light_reading clock_second b = start_device opt b.light.publish clock_second b

-- The motion sensor is configured for the kinds of readings that are published.
abbrev pub init_mpu_reading : ℕ → Board → Board
init_mpu_reading clock_second b =
    let acc = any_published b.mpu_acc in
    let gyro = any_published b.mpu_gyro in
    and_then b ((if acc || gyro then configure_mpu acc gyro else set_timer mpu clock_second) ∷ [])
