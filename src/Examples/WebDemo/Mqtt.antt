-- ===== src/Examples/WebDemo/Mqtt.antt =====
-- The handlers of mqtt-client.c for the pairs of a form, which change the configuration of the client.
pub mod Formed
use nsdscourse.Base.{
  ℕ, ◌+◌, ◌-◌, ◌*◌, Bool, true, false, ◌&&◌, ◌||◌, Option, none, some, List, [], ◌∷◌, ◌++◌, length,
  replicate, ltb, if◌then◌else◌,
}
use nsdscourse.Contiki.Mqtt.Text.{codes}
use nsdscourse.Examples.WebDemo.Form.{Handler, Answer, ok, unknown, refused}
use nsdscourse.Examples.WebDemo.Server.{ℤ, pos, negsuc}
use nsdscourse.Examples.WebDemo.Sensors.Handlers.{is_named}

-- mqtt_client_config_t, whether the client is in the state for a new configuration, and how often it has
-- stopped its timer and disconnected for one.
pub record Settings : Type 0 where
  pub org_id : List ℕ
  pub type_id : List ℕ
  pub auth_token : List ℕ
  pub event_type_id : List ℕ
  pub broker_ip : List ℕ
  pub cmd_type : List ℕ
  pub pub_interval : ℕ
  pub broker_port : ℕ
  pub is_newconfig : Bool
  pub disconnects : ℕ

-- The lengths of the arrays of the identifiers and of the type of the command and the address.
abbrev pub id_len : ℕ
id_len = 32

abbrev pub cmd_type_len : ℕ
cmd_type_len = 8

abbrev pub ip_addr_str_len : ℕ
ip_addr_str_len = 64

abbrev pub new_net_config : Settings → Settings
new_net_config conf =
    if conf.is_newconfig
    then conf
    else record conf { is_newconfig = true; disconnects = conf.disconnects + 1 }

-- memset and memcpy, for a value that is not longer than the array.
abbrev pub copied : ℕ → List ℕ → List ℕ
copied size val = val ++ replicate (size - length val) 0

-- The handlers of the texts differ in the name, the length and the field.
abbrev pub text_post_handler : List ℕ → ℕ → (List ℕ → Settings → Settings) → Handler Settings
text_post_handler name size store conf key key_len val =
    if is_named name key key_len
    then (if ltb size (length val)
        then (refused, new_net_config conf)
        else (ok, new_net_config (store (copied size val) conf)))
    else (unknown, conf)

abbrev pub org_id_post_handler : Handler Settings
org_id_post_handler =
    text_post_handler (codes "org_id") id_len (λ array conf. record conf { org_id = array })

abbrev pub type_id_post_handler : Handler Settings
type_id_post_handler =
    text_post_handler (codes "type_id") id_len (λ array conf. record conf { type_id = array })

abbrev pub event_type_id_post_handler : Handler Settings
event_type_id_post_handler =
    text_post_handler (codes "event_type_id") id_len
      (λ array conf. record conf { event_type_id = array })

abbrev pub cmd_type_post_handler : Handler Settings
cmd_type_post_handler =
    text_post_handler (codes "cmd_type") cmd_type_len
      (λ array conf. record conf { cmd_type = array })

abbrev pub auth_token_post_handler : Handler Settings
auth_token_post_handler =
    text_post_handler (codes "auth_token") id_len (λ array conf. record conf { auth_token = array })

abbrev pub ip_addr_post_handler : Handler Settings
ip_addr_post_handler =
    text_post_handler (codes "broker_ip") ip_addr_str_len
      (λ array conf. record conf { broker_ip = array })

abbrev pub publish_interval_min : ℕ
publish_interval_min = 5

abbrev pub publish_interval_max : ℕ
publish_interval_max = 86400

-- The number if it is neither below nor above.
abbrev pub within : ℕ → ℕ → ℤ → Option ℕ
within low high (negsuc n) = none
within low high (pos n) = if ltb n low || ltb high n then none else some n

abbrev pub interval_post_handler : ℕ → (List ℕ → ℤ) → Handler Settings
interval_post_handler clock_second atoi conf key key_len val =
    if is_named (codes "interval") key key_len
    then elim (within publish_interval_min publish_interval_max (atoi val)) [
      | none ↦ (refused, conf)
      | some rv ↦ (ok, record conf { pub_interval = rv * clock_second })
    ]
    else (unknown, conf)

abbrev pub port_post_handler : (List ℕ → ℤ) → Handler Settings
port_post_handler atoi conf key key_len val =
    if is_named (codes "broker_port") key key_len
    then elim (within 1 65535 (atoi val)) [
      | none ↦ (refused, conf)
      | some rv ↦ (ok, new_net_config (record conf { broker_port = rv }))
    ]
    else (unknown, conf)

abbrev pub reconnect_post_handler : Handler Settings
reconnect_post_handler conf key key_len val =
    if is_named (codes "reconnect") key key_len then (ok, new_net_config conf) else (unknown, conf)

-- In the order of register_http_post_handlers.
abbrev pub register_http_post_handlers : ℕ → (List ℕ → ℤ) → List (Option (Handler Settings))
register_http_post_handlers clock_second atoi =
    some org_id_post_handler
    ∷ some type_id_post_handler
    ∷ some event_type_id_post_handler
    ∷ some cmd_type_post_handler
    ∷ some auth_token_post_handler
    ∷ some (interval_post_handler clock_second atoi)
    ∷ some (port_post_handler atoi)
    ∷ some ip_addr_post_handler
    ∷ some reconnect_post_handler
    ∷ []
