-- ===== src/Examples/WebDemo/Mqtt/Formed.antt =====
-- Whatever is sent to httpd-simple.c, the configuration of mqtt-client.c stays well formed.
use native.Mathlib.Nat.{mul-le-mul_right}
use nsdscourse.Base.{
  ℕ, ◌-◌, ◌*◌, ◌≤◌, ◌≡◌, refl, ap, sym, ◌∙◌, Bool, Bool-cases, inl, inr, true, false, ◌||◌, Option,
  none, some, List, length, length-append, length-replicate, replicate, ltb, if◌then◌else◌, arith,
}
use nsdscourse.Contiki.Mqtt.Text.{codes}
use nsdscourse.Examples.WebDemo.Form.{Answer, ok, refused}
use nsdscourse.Examples.WebDemo.Form.Kept.{Keeps, AllKeep}
use nsdscourse.Examples.WebDemo.Server.{ℤ, pos, negsuc}
use nsdscourse.Examples.WebDemo.Server.Events.{Server, Event, appcalls}
use nsdscourse.Examples.WebDemo.Server.Exclusive.{some_injective}
use nsdscourse.Examples.WebDemo.Server.Kept.{appcalls-Holds}
use nsdscourse.Examples.WebDemo.Sensors.Handlers.{is_named}
use nsdscourse.Examples.WebDemo.Mqtt.{
  Settings, id_len, cmd_type_len, ip_addr_str_len, new_net_config, copied, text_post_handler,
  publish_interval_min, publish_interval_max, within, interval_post_handler, port_post_handler,
  reconnect_post_handler, register_http_post_handlers,
}

-- The arrays have their lengths, and the numbers are in their ranges.
pub record IsSettings (clock_second : ℕ) (conf : Settings) : Type 0 where
  pub org_id_size : length conf.org_id ≡ id_len
  pub type_id_size : length conf.type_id ≡ id_len
  pub auth_token_size : length conf.auth_token ≡ id_len
  pub event_type_id_size : length conf.event_type_id ≡ id_len
  pub broker_ip_size : length conf.broker_ip ≡ ip_addr_str_len
  pub cmd_type_size : length conf.cmd_type ≡ cmd_type_len
  pub interval_least : publish_interval_min * clock_second ≤ conf.pub_interval
  pub interval_most : conf.pub_interval ≤ publish_interval_max * clock_second
  pub port_least : 1 ≤ conf.broker_port
  pub port_most : conf.broker_port ≤ 65535

length-copied :
    (size : ℕ) (val : List ℕ) → ltb size (length val) ≡ false → length (copied size val) ≡ size
length-copied size val h =
    let fits : length val ≤ size = ground (arith, h) in
    omega (
      arith,
      length-append val (replicate (size - length val) 0),
      length-replicate {A = ℕ} (size - length val) 0,
      fits,
    )

-- A number that is accepted is in the range.
within-range :
    (low high : ℕ) (rv : ℤ) (n : ℕ) → within low high rv ≡ some n → (low ≤ n) × (n ≤ high)
within-range low high (negsuc m) n h = ground (arith, h)
within-range low high (pos m) n h = elim (Bool-cases (ltb m low || ltb high m)) [
  | inl e ↦
      let refusal : ◌≡◌ {A = Option ℕ} none (some n) =
        ap (λ b. if b then none else some m) (sym e) ∙ h in
      ground (arith, refusal)
  | inr e ↦
      let same : m ≡ n = some_injective (ap (λ b. if b then none else some m) (sym e) ∙ h) in
      ground (arith, e, same)
]

module _ (clock_second : ℕ) where
  if-IsSettings :
      (b : Bool) (x y : Settings)
      → IsSettings clock_second x
      → IsSettings clock_second y
      → IsSettings clock_second (if b then x else y)
  if-IsSettings true x y h k = h
  if-IsSettings false x y h k = k

  new_net_config-IsSettings :
      (conf : Settings)
      → IsSettings clock_second conf
      → IsSettings clock_second (new_net_config conf)
  new_net_config-IsSettings conf h = if-IsSettings conf.is_newconfig conf _ h (record {
    org_id_size = h.org_id_size;
    type_id_size = h.type_id_size;
    auth_token_size = h.auth_token_size;
    event_type_id_size = h.event_type_id_size;
    broker_ip_size = h.broker_ip_size;
    cmd_type_size = h.cmd_type_size;
    interval_least = h.interval_least;
    interval_most = h.interval_most;
    port_least = h.port_least;
    port_most = h.port_most;
  })

  -- A text handler, whose field stays in its length.
  text_post_handler-IsSettings :
      (name : List ℕ) (size : ℕ) (store : List ℕ → Settings → Settings)
      → ((array : List ℕ) (conf : Settings)
          → length array ≡ size
          → IsSettings clock_second conf
          → IsSettings clock_second (store array conf))
      → Keeps (IsSettings clock_second) (text_post_handler name size store)
  text_post_handler-IsSettings name size store stores conf key key_len val h =
      elim (Bool-cases (is_named name key key_len)) [
        | inr e ↦ rw e h
        | inl e ↦ elim (Bool-cases (ltb size (length val))) [
          | inl long ↦ rw (e, long) (new_net_config-IsSettings conf h)
          | inr short ↦
              rw (e, short)
                (new_net_config-IsSettings (store (copied size val) conf)
                  (stores (copied size val) conf (length-copied size val short) h))
        ]
      ]

  module _ (atoi : List ℕ → ℤ) where
    interval-IsSettings :
        (rv : Option ℕ) (conf : Settings)
        → ((n : ℕ) → rv ≡ some n → (publish_interval_min ≤ n) × (n ≤ publish_interval_max))
        → IsSettings clock_second conf
        → IsSettings clock_second
            (elim rv as (λ r. Answer × Settings) [
              | none ↦ (refused, conf)
              | some n ↦ (ok, record conf { pub_interval = n * clock_second })
            ]).1
    interval-IsSettings none conf range h = h
    interval-IsSettings (some n) conf range h =
        let bounds = range n refl in
        (record {
          org_id_size = h.org_id_size;
          type_id_size = h.type_id_size;
          auth_token_size = h.auth_token_size;
          event_type_id_size = h.event_type_id_size;
          broker_ip_size = h.broker_ip_size;
          cmd_type_size = h.cmd_type_size;
          interval_least = mul-le-mul_right clock_second bounds.0;
          interval_most = mul-le-mul_right clock_second bounds.1;
          port_least = h.port_least;
          port_most = h.port_most;
        })

    interval_post_handler-IsSettings :
        Keeps (IsSettings clock_second) (interval_post_handler clock_second atoi)
    interval_post_handler-IsSettings conf key key_len val h =
        elim (Bool-cases (is_named (codes "interval") key key_len)) [
          | inl e ↦ rw e (
              interval-IsSettings (within publish_interval_min publish_interval_max (atoi val)) conf
                (within-range publish_interval_min publish_interval_max (atoi val)) h)
          | inr e ↦ rw e h
        ]

    port-IsSettings :
        (rv : Option ℕ) (conf : Settings)
        → ((n : ℕ) → rv ≡ some n → (1 ≤ n) × (n ≤ 65535))
        → IsSettings clock_second conf
        → IsSettings clock_second
            (elim rv as (λ r. Answer × Settings) [
              | none ↦ (refused, conf)
              | some n ↦ (ok, new_net_config (record conf { broker_port = n }))
            ]).1
    port-IsSettings none conf range h = h
    port-IsSettings (some n) conf range h =
        let bounds = range n refl in
        new_net_config-IsSettings (record conf { broker_port = n })
          (record {
            org_id_size = h.org_id_size;
            type_id_size = h.type_id_size;
            auth_token_size = h.auth_token_size;
            event_type_id_size = h.event_type_id_size;
            broker_ip_size = h.broker_ip_size;
            cmd_type_size = h.cmd_type_size;
            interval_least = h.interval_least;
            interval_most = h.interval_most;
            port_least = bounds.0;
            port_most = bounds.1;
          })

    port_post_handler-IsSettings : Keeps (IsSettings clock_second) (port_post_handler atoi)
    port_post_handler-IsSettings conf key key_len val h =
        elim (Bool-cases (is_named (codes "broker_port") key key_len)) [
          | inl e ↦
              rw e (
                port-IsSettings (within 1 65535 (atoi val)) conf (within-range 1 65535 (atoi val))
                  h)
          | inr e ↦ rw e h
        ]

    reconnect_post_handler-IsSettings : Keeps (IsSettings clock_second) reconnect_post_handler
    reconnect_post_handler-IsSettings conf key key_len val h =
        elim (Bool-cases (is_named (codes "reconnect") key key_len)) [
          | inl e ↦ rw e (new_net_config-IsSettings conf h)
          | inr e ↦ rw e h
        ]

    register_http_post_handlers-AllKeep :
        AllKeep (IsSettings clock_second) (register_http_post_handlers clock_second atoi)
    register_http_post_handlers-AllKeep = (
      text_post_handler-IsSettings (codes "org_id") id_len
          (λ array conf. record conf { org_id = array })
          (λ array conf a h. (record {
            org_id_size = a;
            type_id_size = h.type_id_size;
            auth_token_size = h.auth_token_size;
            event_type_id_size = h.event_type_id_size;
            broker_ip_size = h.broker_ip_size;
            cmd_type_size = h.cmd_type_size;
            interval_least = h.interval_least;
            interval_most = h.interval_most;
            port_least = h.port_least;
            port_most = h.port_most;
          })),
      (
        text_post_handler-IsSettings (codes "type_id") id_len
            (λ array conf. record conf { type_id = array })
            (λ array conf a h. (record {
              org_id_size = h.org_id_size;
              type_id_size = a;
              auth_token_size = h.auth_token_size;
              event_type_id_size = h.event_type_id_size;
              broker_ip_size = h.broker_ip_size;
              cmd_type_size = h.cmd_type_size;
              interval_least = h.interval_least;
              interval_most = h.interval_most;
              port_least = h.port_least;
              port_most = h.port_most;
            })),
        (
          text_post_handler-IsSettings (codes "event_type_id") id_len
              (λ array conf. record conf { event_type_id = array })
              (λ array conf a h. (record {
                org_id_size = h.org_id_size;
                type_id_size = h.type_id_size;
                auth_token_size = h.auth_token_size;
                event_type_id_size = a;
                broker_ip_size = h.broker_ip_size;
                cmd_type_size = h.cmd_type_size;
                interval_least = h.interval_least;
                interval_most = h.interval_most;
                port_least = h.port_least;
                port_most = h.port_most;
              })),
          (
            text_post_handler-IsSettings (codes "cmd_type") cmd_type_len
                (λ array conf. record conf { cmd_type = array })
                (λ array conf a h. (record {
                  org_id_size = h.org_id_size;
                  type_id_size = h.type_id_size;
                  auth_token_size = h.auth_token_size;
                  event_type_id_size = h.event_type_id_size;
                  broker_ip_size = h.broker_ip_size;
                  cmd_type_size = a;
                  interval_least = h.interval_least;
                  interval_most = h.interval_most;
                  port_least = h.port_least;
                  port_most = h.port_most;
                })),
            (
              text_post_handler-IsSettings (codes "auth_token") id_len
                  (λ array conf. record conf { auth_token = array })
                  (λ array conf a h. (record {
                    org_id_size = h.org_id_size;
                    type_id_size = h.type_id_size;
                    auth_token_size = a;
                    event_type_id_size = h.event_type_id_size;
                    broker_ip_size = h.broker_ip_size;
                    cmd_type_size = h.cmd_type_size;
                    interval_least = h.interval_least;
                    interval_most = h.interval_most;
                    port_least = h.port_least;
                    port_most = h.port_most;
                  })),
              (
                interval_post_handler-IsSettings,
                (
                  port_post_handler-IsSettings,
                  (
                    text_post_handler-IsSettings (codes "broker_ip") ip_addr_str_len
                        (λ array conf. record conf { broker_ip = array })
                        (λ array conf a h. (record {
                          org_id_size = h.org_id_size;
                          type_id_size = h.type_id_size;
                          auth_token_size = h.auth_token_size;
                          event_type_id_size = h.event_type_id_size;
                          broker_ip_size = a;
                          cmd_type_size = h.cmd_type_size;
                          interval_least = h.interval_least;
                          interval_most = h.interval_most;
                          port_least = h.port_least;
                          port_most = h.port_most;
                        })),
                    (reconnect_post_handler-IsSettings, tt),
                  ),
                ),
              ),
            ),
          ),
        ),
      ),
    )

    -- After any events, whatever the requests hold: the arrays of the configuration have their lengths, the
    -- interval is one of 5 to 86400 seconds and the port one of 1 to 65535, if they were before.
    pub appcalls-IsSettings :
        (es : List Event) (srv : Server Settings)
        → IsSettings clock_second srv.shared.parser.config
        → IsSettings clock_second
            (appcalls atoi
              (register_http_post_handlers clock_second atoi)
              es
              srv).shared.parser.config
    appcalls-IsSettings es srv h =
        appcalls-Holds (IsSettings clock_second) atoi
          (register_http_post_handlers clock_second atoi) register_http_post_handlers-AllKeep es srv
          h
