-- ===== src/Examples/WebDemo/Tests/Sensors.antt =====
-- Runs and instances of the sensors of the CC26xx web demo, and of a form that is sent for them.
use nsdscourse.Base.{
  ℕ, ◌≡◌, refl, Bool, true, false, Option, none, some, List, [], ◌∷◌, length, get_or, map,
  if◌then◌else◌, ◌==◌, arith,
}
use nsdscourse.Contiki.Mqtt.Text.{codes}
use nsdscourse.Examples.WebDemo.Escape.RoundTrip.{escape}
use nsdscourse.Examples.WebDemo.Form.{more, Handler, zeros}
use nsdscourse.Examples.WebDemo.Form.Pairs.{IsPair, body, post_all}
use nsdscourse.Examples.WebDemo.Server.{ℤ, pos, Shared}
use nsdscourse.Examples.WebDemo.Server.Events.{fresh}
use nsdscourse.Examples.WebDemo.Server.Post.{reads}
use nsdscourse.Examples.WebDemo.Server.Submit.{Submitted, announced, unlocked, reads-Submitted}
use nsdscourse.Examples.WebDemo.Sensors.{Reading, Config, Flash, Demo, save_config, load_config}
use nsdscourse.Examples.WebDemo.Sensors.Saved.{load_config-save_config}
use nsdscourse.Examples.WebDemo.Sensors.Handlers.{post_handlers}
use nsdscourse.Examples.WebDemo.Sensors.Switched.{
  setting, set_by, form_fields, AllDifferent, post_all-set_by,
}

-- atoi on the numbers of one digit.
abbrev atoi : List ℕ → ℤ
atoi text = pos (if get_or text 0 0 == b'1' then 1 else 0)

abbrev batmon_temp : Reading
batmon_temp = record {
  type = 0;
  form_field = codes "batmon_temp";
  publish = true;
  converted = codes "21";
}

abbrev opt : Reading
opt = record { type = 8; form_field = codes "light"; publish = false; converted = [] }

-- A memory that always works.
abbrev flash : Flash ℕ (Option (Config ℕ))
flash = record {
  opened = λ f. true;
  erase = λ f. (true, none);
  write = λ c f. (true, some c);
  read = λ f. f;
}

abbrev demo : Demo ℕ (Option (Config ℕ))
demo = record {
  readings = batmon_temp ∷ opt ∷ [];
  config = record { magic = 0; len = 0; sensors_bitmap = 0; def_rt_ping_interval = 30; others = 7 };
  flash = none;
}

-- All sensors are published after a restart, until the configuration is loaded.
abbrev restarted : Demo ℕ (Option (Config ℕ))
restarted = record demo {
  readings = batmon_temp ∷ record opt { publish = true } ∷ [];
  flash = (save_config 100 flash demo).flash;
}

load_config-save_config_example :
    ((load_config 100 flash restarted).config ≡ (save_config 100 flash demo).config)
    × (map (λ r. r.publish) (load_config 100 flash restarted).readings
        ≡ map (λ r. r.publish) demo.readings)
load_config-save_config_example =
    load_config-save_config 100 flash demo restarted (λ c f e. refl) refl refl refl refl refl refl
      ((λ e. ground (arith, e), tt), (tt, tt))

abbrev wanted : List (List ℕ × Bool)
wanted = (batmon_temp.form_field, false) ∷ (opt.form_field, true) ∷ []

abbrev hdc : Reading
hdc = record { type = 5; form_field = codes "hdc_hum"; publish = true; converted = codes "40" }

abbrev three : Demo ℕ (Option (Config ℕ))
three = record demo { readings = batmon_temp ∷ hdc ∷ opt ∷ [] }

-- The last sensor, the first one, and the last one again.
abbrev three_fields : List (List ℕ × Bool)
three_fields =
    (opt.form_field, false) ∷ (batmon_temp.form_field, false) ∷ (opt.form_field, true) ∷ []

different : AllDifferent (form_fields three.readings)
different = (
  ((λ e. ground (arith, e)), ((λ e. ground (arith, e)), tt)),
  (((λ e. ground (arith, e)), tt), (tt, tt)),
)

post_all-set_by_example :
    post_all (post_handlers 100 128 flash (λ o. o) atoi) (map setting three_fields) three
    ≡ some (record three { readings = map (set_by three_fields) three.readings })
post_all-set_by_example =
    post_all-set_by 100 128 flash (λ o. o) atoi three_fields three refl refl different
      (refl, (refl, (refl, tt)))

-- A connection and what it shares when a POST request begins.
abbrev sh : Shared (Demo ℕ (Option (Config ℕ)))
sh = record {
  lock = none;
  parser = record {
    state = more;
    key = zeros;
    key_len = 0;
    val = zeros;
    val_len = 0;
    config_ok = false;
    config = demo;
  };
  posted = 0;
}

abbrev handlers : List (Option (Handler (Demo ℕ (Option (Config ℕ)))))
handlers = post_handlers 100 128 flash (λ o. o) atoi

abbrev form_parts : List (List ℕ)
form_parts = codes "_temp=0&li" ∷ codes "ght=1" ∷ []

batmon_temp-IsPair : IsPair (setting (batmon_temp.form_field, false))
unfolding escape
batmon_temp-IsPair = record {
  name_fits = omega arith;
  name_text = refl;
  name_inner =
      (refl, (refl, (refl, (refl, (refl, (refl, (refl, (refl, (refl, (refl, (refl, tt)))))))))));
  text_fits = omega arith;
  text_text = refl;
  text_bytes = (omega arith, tt);
}

opt-IsPair : IsPair (setting (opt.form_field, true))
unfolding escape
opt-IsPair = record {
  name_fits = omega arith;
  name_text = refl;
  name_inner = (refl, (refl, (refl, (refl, (refl, tt)))));
  text_fits = omega arith;
  text_text = refl;
  text_bytes = (omega arith, tt);
}

reads-Submitted_example : Submitted [] fresh sh (post_all handlers (map setting wanted) demo) (
    reads atoi handlers 1
      (codes "\r\n" ∷ codes "batmon" ∷ form_parts)
      (announced
        (length
          (body (setting (batmon_temp.form_field, false)) (setting (opt.form_field, true) ∷ [])))
        fresh)
      (unlocked sh))
unfolding body escape
reads-Submitted_example =
    reads-Submitted atoi handlers 1 (codes "\r\n") (codes "batmon") form_parts
      (setting (batmon_temp.form_field, false)) (setting (opt.form_field, true) ∷ []) [] fresh sh
      refl refl (refl, (refl, tt)) (omega arith) (batmon_temp-IsPair, (opt-IsPair, tt)) refl
