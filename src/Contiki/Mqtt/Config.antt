-- ===== src/Contiki/Mqtt/Config.antt =====
-- `init_config`, the topics and the client id of mqtt-demo.c, and `update_config`, which gives up on
-- a text that does not fit its buffer. The defaults and the topics are those of mqtt-demo.c and
-- project-conf.h.
use nsdscourse.Base.{
  ℕ, ◌-◌, ◌*◌, ◌≡◌, refl, Bool, true, false, List, ◌++◌, length, take, get_or, ltb, if◌then◌else◌,
}
use nsdscourse.Contiki.Mqtt.Text.{codes, hex_byte}

-- BUFFER_SIZE
abbrev pub buffer_size : ℕ
buffer_size = 64

-- `mqtt_client_config_t`
pub record Config : Type 0 where
  pub org_id : List ℕ
  pub type_id : List ℕ
  pub auth_token : List ℕ
  pub broker_ip : List ℕ
  pub cmd_type : List ℕ
  pub pub_interval : ℕ
  pub broker_port : ℕ

-- The argument is CLOCK_SECOND.
unfoldable pub init_config : ℕ → Config
init_config clock_second = record {
  org_id = codes "mqtt-demo";
  type_id = codes "native";
  auth_token = codes "AUTHZ";
  broker_ip = codes "fd00::1";
  cmd_type = codes "+";
  pub_interval = 10 * clock_second;
  broker_port = 1883;
}

-- A text buffer that `snprintf` has filled, and whether the text fitted.
pub record Constructed : Type 0 where
  pub text : List ℕ
  pub fits : Bool

abbrev pub construct : List ℕ → Constructed
construct s = record { text = take (buffer_size - 1) s; fits = ltb (length s) buffer_size }

abbrev pub pub_topic_odd : List ℕ
pub_topic_odd = codes "iot/odd/json"

abbrev pub pub_topic_even : List ℕ
pub_topic_even = codes "iot/even/json"

abbrev pub sub_topic : List ℕ
sub_topic = codes "iot/+/json"

pub construct_pub_topic : Bool
construct_pub_topic =
    if (construct pub_topic_odd).fits then (construct pub_topic_even).fits else false

pub construct_sub_topic : Bool
construct_sub_topic = (construct sub_topic).fits

-- "d:%s:%s:%02x…" with six bytes of the link address.
abbrev pub client_id : Config → List ℕ → List ℕ
client_id conf u8 =
    codes "d:"
    ++ (conf.org_id
        ++ (codes ":"
            ++ (conf.type_id
                ++ (codes ":"
                    ++ (hex_byte (get_or u8 0 0)
                        ++ (hex_byte (get_or u8 1 0)
                            ++ (hex_byte (get_or u8 2 0)
                                ++ (hex_byte (get_or u8 5 0)
                                    ++ (hex_byte (get_or u8 6 0)
                                        ++ hex_byte (get_or u8 7 0))))))))))

pub construct_client_id : Config → List ℕ → Bool
construct_client_id conf u8 = (construct (client_id conf u8)).fits

-- Whether `update_config` leaves the client in STATE_INIT; otherwise it is in STATE_CONFIG_ERROR.
unfoldable pub config_fits : Config → List ℕ → Bool
unfolding construct_client_id construct_sub_topic construct_pub_topic
config_fits conf u8 =
    if construct_client_id conf u8
    then if construct_sub_topic then construct_pub_topic else false
    else false

-- With the default configuration every text fits, whatever the link address of the node.
pub config_fits-default :
    (clock_second : ℕ) (u8 : List ℕ) → config_fits (init_config clock_second) u8 ≡ true
unfolding config_fits init_config hex_byte
config_fits-default clock_second u8 = refl
