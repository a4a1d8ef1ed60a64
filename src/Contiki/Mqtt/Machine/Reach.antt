-- ===== src/Contiki/Mqtt/Machine/Reach.antt =====
-- The states that the MQTT client reaches, and that it is always scheduled again.
use nsdscourse.Base.{
  ℕ, zero, suc, ◌+◌, ◌*◌, ◌%◌, ◌≤◌, ◌≡◌, refl, Bool, true, false, Option, none, some, List, [], ◌∷◌,
  arith, if_intro,
}
use nsdscourse.Contiki.Mqtt.Config.{config_fits-default}
use nsdscourse.Contiki.Mqtt.Machine.{
  State, init, registered, connecting, connected, publishing, disconnected, config_error, error,
  Client, Answers, MqttEvent, connected_event, mqtt_event, connect_to_broker, run_registered,
  run_init, run_connected, run_disconnected, retry, talk, backoff, dispatch, state_machine, start,
  Event, timer_fires, mqtt, fire, has_registered, step, run,
}

-- The states that only a new configuration would leave.
abbrev pub is_fatal : State → Bool
is_fatal config_error = true
is_fatal error = true
is_fatal _ = false

-- The timer runs, and fires after `bound` ticks at most.
abbrev pub FiresWithin : ℕ → Option ℕ → Type 0
FiresWithin bound none = ⊥
FiresWithin bound (some interval) = interval ≤ bound

-- The client is in none of the two error states, and its timer runs.
pub record IsAlive (clock_second : ℕ) (c : Client) : Type 0 where
  pub sound : is_fatal c.state ≡ false
  pub scheduled : FiresWithin (16 * clock_second) c.timer

module _ (clock_second : ℕ) where
  backoff-le : (attempt : ℕ) → backoff clock_second attempt ≤ 16 * clock_second
  backoff-le zero = omega arith
  backoff-le (suc zero) = omega arith
  backoff-le (suc (suc zero)) = omega arith
  backoff-le (suc (suc (suc attempt))) = ground arith

  dispatch-IsAlive :
      (s : State) (a : Answers) (c : Client)
      → s ≡ c.state
      → is_fatal s ≡ false
      → IsAlive clock_second (dispatch clock_second s a c)
  unfolding dispatch run_init run_registered run_connected run_disconnected retry connect_to_broker
      talk
  dispatch-IsAlive init a c e h = ground arith
  dispatch-IsAlive registered a c e h = ground arith
  dispatch-IsAlive connecting a c e h = ground arith
  dispatch-IsAlive connected a c e h = ground arith
  dispatch-IsAlive publishing a c e h = ground arith
  dispatch-IsAlive disconnected a c e h = ground (arith, backoff-le ((c.connect_attempt + 1) % 256))
  dispatch-IsAlive config_error a c e h = cc
  dispatch-IsAlive error a c e h = cc

  mqtt_event-IsAlive :
      (e : MqttEvent) (c : Client) → IsAlive clock_second c → IsAlive clock_second (mqtt_event e c)
  unfolding mqtt_event
  mqtt_event-IsAlive connected_event c h = ground arith
  mqtt_event-IsAlive e c h = ground arith

  fire-IsAlive :
      (t : Option ℕ) (a : Answers) (c : Client)
      → IsAlive clock_second c
      → IsAlive clock_second (fire clock_second t a c)
  unfolding fire state_machine
  fire-IsAlive none a c h = h
  fire-IsAlive (some interval) a c h =
      dispatch-IsAlive c.state a (record c { timer = none }) refl h.sound

  step-IsAlive :
      (c : Client) (e : Event)
      → IsAlive clock_second c
      → IsAlive clock_second (step clock_second c e)
  unfolding step
  step-IsAlive c (timer_fires a) h = fire-IsAlive c.timer a c h
  step-IsAlive c (mqtt e) h =
      if_intro (IsAlive clock_second) (has_registered c.state) (mqtt_event e c) c
        (λ on. mqtt_event-IsAlive e c h) (λ off. h)

  run-keeps :
      (c : Client) (es : List Event)
      → IsAlive clock_second c
      → IsAlive clock_second (run clock_second c es)
  unfolding run
  run-keeps c [] h = h
  run-keeps c (e ∷ es) h = run-keeps (step clock_second c e) es (step-IsAlive c e h)

  start-IsAlive : (u8 : List ℕ) → IsAlive clock_second (start clock_second u8)
  unfolding start
  start-IsAlive u8 =
      rw (config_fits-default clock_second u8) (record { sound = refl; scheduled = omega arith })

  -- Whatever the system answers and the MQTT engine reports to a registered client, the client never
  -- ends in an error state, and its timer always runs and is set to sixteen seconds at most.
  pub run-IsAlive :
      (u8 : List ℕ) (es : List Event)
      → IsAlive clock_second (run clock_second (start clock_second u8) es)
  run-IsAlive u8 es = run-keeps (start clock_second u8) es (start-IsAlive u8)
