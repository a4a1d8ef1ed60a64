-- ===== src/Examples/WebDemo/Tests/Mqtt.antt =====
-- Runs and instances of the handlers of the MQTT client of the CC26xx web demo.
use nsdscourse.Base.{
  ℕ, ◌≡◌, refl, false, none, some, List, [], ◌∷◌, replicate, get_or, drop, ◌==◌, if◌then◌else◌, ◌*◌,
  arith,
}
use nsdscourse.Contiki.Mqtt.Text.{codes}
use nsdscourse.Examples.Texts.{string}
use nsdscourse.Examples.WebDemo.Escape.{unescape}
use nsdscourse.Examples.WebDemo.Form.{
  init, zeros, ok, parse_post_request_chunk, parse_char, finish_pair, run_handlers,
}
use nsdscourse.Examples.WebDemo.Server.{ℤ, pos, starts_with}
use nsdscourse.Examples.WebDemo.Server.Events.{
  Server, Event, connected, received, ended, appcall, appcalls,
}
use nsdscourse.Examples.WebDemo.Server.Input.{handle_input}
use nsdscourse.Examples.WebDemo.Readings.Written.{number}
use nsdscourse.Examples.WebDemo.Mqtt.{
  Settings, copied, cmd_type_post_handler, register_http_post_handlers,
}
use nsdscourse.Examples.WebDemo.Mqtt.Formed.{IsSettings, appcalls-IsSettings}

abbrev settings : Settings
settings = record {
  org_id = copied 32 (codes "quickstart");
  type_id = copied 32 (codes "cc26xx");
  auth_token = replicate 32 0;
  event_type_id = copied 32 (codes "status");
  broker_ip = copied 64 (codes "fd00::1");
  cmd_type = copied 8 (codes "+");
  pub_interval = 30 * 128;
  broker_port = 1883;
  is_newconfig = false;
  disconnects = 0;
}

-- A text of the length of the array is accepted, and has no final zero there.
full_cmd_type :
    ((cmd_type_post_handler settings (codes "cmd_type") 8 (codes "12345678")).0 ≡ ok)
    × ((cmd_type_post_handler settings (codes "cmd_type") 8 (codes "12345678")).1.cmd_type
        ≡ codes "12345678")
unfolding starts_with
full_cmd_type = (refl, refl)

-- atoi on atois, with a blank in front of them or not.
abbrev atoi : List ℕ → ℤ
atoi text = pos (number 0 (if get_or text 0 0 == b' ' then drop 1 text else text)).0

abbrev server : Server Settings
server = record {
  conns = none ∷ none ∷ [];
  shared = record {
    lock = none;
    parser = record {
      state = init;
      key = zeros;
      key_len = 0;
      val = zeros;
      val_len = 0;
      config_ok = false;
      config = settings;
    };
    posted = 0;
  };
}

abbrev sent : List Event
sent =
    connected (some 0)
    ∷ received 0 (codes "POST ")
    ∷ received 0 (codes "/mqtt.html ")
    ∷ received 0 (codes "HTTP/1.1\r\n")
    ∷ received 0 (codes "Content-Length: 16\r\n")
    ∷ received 0 (codes "\r\n")
    ∷ received 0 (codes "broker_port=8883")
    ∷ ended 0
    ∷ []

port_sent :
    (appcalls atoi
      (register_http_post_handlers 128 atoi)
      sent
      server).shared.parser.config.broker_port
    ≡ 8883
unfolding appcall handle_input starts_with string number parse_post_request_chunk parse_char
    finish_pair run_handlers unescape
port_sent = refl

settings-IsSettings : IsSettings 128 settings
settings-IsSettings = record {
  org_id_size = refl;
  type_id_size = refl;
  auth_token_size = refl;
  event_type_id_size = refl;
  broker_ip_size = refl;
  cmd_type_size = refl;
  interval_least = omega arith;
  interval_most = omega arith;
  port_least = omega arith;
  port_most = omega arith;
}

appcalls-IsSettings_example :
    IsSettings 128
      (appcalls atoi (register_http_post_handlers 128 atoi) sent server).shared.parser.config
appcalls-IsSettings_example = appcalls-IsSettings 128 atoi sent server settings-IsSettings
