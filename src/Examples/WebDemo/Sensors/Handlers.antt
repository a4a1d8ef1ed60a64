-- ===== src/Examples/WebDemo/Sensors/Handlers.antt =====
-- The handlers of cc26xx-web-demo.c for the pairs of a form, in the order in which they are registered,
-- with cc26xx_web_demo_restore_defaults.
use nsdscourse.Base.{
  ℕ, ◌*◌, Bool, true, false, ◌&&◌, ◌||◌, Option, none, some, List, [], ◌∷◌, length, map, ltb, ◌==◌,
  if◌then◌else◌,
}
use nsdscourse.Contiki.Mqtt.Text.{codes}
use nsdscourse.Examples.WebDemo.Form.{Handler, Answer, ok, unknown, refused}
use nsdscourse.Examples.WebDemo.Server.{ℤ, pos, negsuc, starts_with}
use nsdscourse.Examples.WebDemo.Server.Events.{begins_with}
use nsdscourse.Examples.WebDemo.Sensors.{Reading, Flash, Demo, save_config, not_available}

-- A name without regard to case.
abbrev pub is_named : List ℕ → List ℕ → ℕ → Bool
is_named name key key_len = (key_len == length name) && starts_with key name

abbrev pub is_field : Reading → List ℕ → ℕ → Bool
is_field r key key_len = (key_len == length r.form_field) && begins_with r.form_field key

abbrev pub switch : Bool → Reading → Reading
switch true r = record r { publish = true }
switch false r = record r { publish = false; converted = not_available }

-- What a number asks of a sensor.
abbrev pub switch_of : ℤ → Option Bool
switch_of (negsuc n) = none
switch_of (pos n) = if n == 0 then some false else if n == 1 then some true else none

-- The loop over the readings: the answer, and the readings behind it.
unfoldable pub switch_readings : List Reading → List ℕ → ℕ → ℤ → Answer × List Reading
switch_readings [] key key_len rv = (unknown, [])
switch_readings (r ∷ rs) key key_len rv =
    let (answer, behind) = switch_readings rs key key_len rv in
    if is_field r key key_len
    then elim (switch_of rv) [ none ↦ (refused, r ∷ rs) | some on ↦ (ok, switch on r ∷ rs) ]
    else (answer, r ∷ behind)

abbrev pub ping_interval_min : ℕ
ping_interval_min = 5

abbrev pub ping_interval_max : ℕ
ping_interval_max = 86400

abbrev pub interval_of : ℤ → Option ℕ
interval_of (negsuc n) = none
interval_of (pos n) = if ltb n ping_interval_min || ltb ping_interval_max n then none else some n

-- `defaults` is what the other processes make of their configurations for the event to load defaults.
module _ {O F : Type 0} (size clock_second : ℕ) (flash : Flash O F) (defaults : O → O)
    (atoi : List ℕ → ℤ) where
  unfoldable pub restore_defaults : Demo O F → Demo O F
  restore_defaults d = save_config size flash (record d {
    readings = map (switch true) d.readings;
    config = record d.config { others = defaults d.config.others };
  })

  unfoldable pub sensor_readings_handler : Handler (Demo O F)
  sensor_readings_handler d key key_len val =
      let (answer, readings) = switch_readings d.readings key key_len (atoi val) in
      (answer, record d { readings = readings })

  unfoldable pub defaults_post_handler : Handler (Demo O F)
  defaults_post_handler d key key_len val =
      if is_named (codes "defaults") key key_len then (ok, restore_defaults d) else (unknown, d)

  unfoldable pub ping_interval_post_handler : Handler (Demo O F)
  ping_interval_post_handler d key key_len val =
      if is_named (codes "ping_interval") key key_len
      then elim (interval_of (atoi val)) [
        | none ↦ (refused, d)
        | some rv ↦
            (ok, record d { config = record d.config { def_rt_ping_interval = rv * clock_second } })
      ]
      else (unknown, d)

  abbrev pub other_handlers : List (Option (Handler (Demo O F)))
  other_handlers = some defaults_post_handler ∷ some ping_interval_post_handler ∷ []

  abbrev pub post_handlers : List (Option (Handler (Demo O F)))
  post_handlers = some sensor_readings_handler ∷ other_handlers
