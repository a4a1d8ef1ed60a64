-- ===== src/Examples/WebDemo/Sensors.antt =====
-- The sensors of cc26xx-web-demo.c: which of them are published, the handlers of the forms that change
-- this, and the configuration that is kept in flash memory.
pub mod Bits
pub mod Saved
pub mod Handlers
pub mod Switched
use nsdscourse.Base.{
  ℕ, zero, suc, ◌+◌, ◌-◌, ◌*◌, ◌/◌, ◌%◌, Bool, true, false, ◌&&◌, ◌||◌, Option, none, some, List,
  [], ◌∷◌, length, map, leb, ltb, ◌==◌, if◌then◌else◌,
}
use nsdscourse.Contiki.Mqtt.Text.{codes}
use nsdscourse.Examples.WebDemo.Form.{Handler, Answer, ok, unknown, refused}
use nsdscourse.Examples.WebDemo.Server.{ℤ, pos, negsuc, starts_with}
use nsdscourse.Examples.WebDemo.Server.Events.{begins_with}

-- The fields of a reading that change or are looked up.
pub record Reading : Type 0 where
  pub type : ℕ
  pub form_field : List ℕ
  pub publish : Bool
  pub converted : List ℕ

-- `others` are the configurations of the MQTT client and of the network UART.
pub record Config (O : Type 0) : Type 0 where
  pub magic : ℕ
  pub len : ℕ
  pub sensors_bitmap : ℕ
  pub def_rt_ping_interval : ℕ
  pub others : O

-- The external flash memory F at the offset of the configuration: its operations return whether they
-- succeeded.
pub record Flash (O F : Type 0) : Type 0 where
  pub opened : F → Bool
  pub erase : F → Bool × F
  pub write : Config O → F → Bool × F
  pub read : F → Option (Config O)

-- `sensor_list`, the running configuration and the memory.
pub record Demo (O F : Type 0) : Type 0 where
  pub readings : List Reading
  pub config : Config O
  pub flash : F

-- `bitmap |= 1 << n` and `bitmap & (1 << n)`, digit by digit.
unfoldable pub set_bit : ℕ → ℕ → ℕ
set_bit bitmap zero = if bitmap % 2 == 1 then bitmap else bitmap + 1
set_bit bitmap (suc n) = bitmap % 2 + 2 * set_bit (bitmap / 2) n

unfoldable pub has_bit : ℕ → ℕ → Bool
has_bit bitmap zero = bitmap % 2 == 1
has_bit bitmap (suc n) = has_bit (bitmap / 2) n

abbrev pub config_magic : ℕ
config_magic = 0xCC265002

-- The loop of save_config over the readings.
unfoldable pub bitmap_of : List Reading → ℕ → ℕ
bitmap_of [] bitmap = bitmap
bitmap_of (r ∷ rs) bitmap = bitmap_of rs (if r.publish then set_bit bitmap r.type else bitmap)

abbrev pub not_available : List ℕ
not_available = codes "\"N/A\""

-- The loop of load_config over the readings.
abbrev pub load_reading : ℕ → Reading → Reading
load_reading bitmap r =
    if has_bit bitmap r.type
    then record r { publish = true }
    else record r { publish = false; converted = not_available }

-- `size` is sizeof(cc26xx_web_demo_config_t).
abbrev pub saved_config : {O F : Type 0} → ℕ → Demo O F → Config O
saved_config size d = record d.config {
  magic = config_magic;
  len = size;
  sensors_bitmap = bitmap_of d.readings 0;
}

module _ {O F : Type 0} (size : ℕ) (flash : Flash O F) where
  abbrev pub write_config : F → Demo O F → Demo O F
  write_config erased d = record d {
    config = saved_config size d;
    flash = (flash.write (saved_config size d) erased).1;
  }

  unfoldable pub save_config : Demo O F → Demo O F
  save_config d =
      let (rv, erased) = flash.erase d.flash in
      if flash.opened d.flash
      then (if rv then write_config erased d else record d { flash = erased })
      else d

  abbrev pub loaded : Config O → Demo O F → Demo O F
  loaded tmp_cfg d =
      let config =
        if tmp_cfg.magic == config_magic && tmp_cfg.len == size then tmp_cfg else d.config in
      record d { config = config; readings = map (load_reading config.sensors_bitmap) d.readings }

  unfoldable pub load_config : Demo O F → Demo O F
  load_config d =
      if flash.opened d.flash
      then elim (flash.read d.flash) [ none ↦ d | some tmp_cfg ↦ loaded tmp_cfg d ]
      else d
