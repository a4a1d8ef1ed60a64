-- ===== src/Contiki/Mqtt/Machine/Protocol.antt =====
-- The order in which the MQTT client calls the engine.
use nsdscourse.Base.{
  ℕ, ◌≡◌, refl, true, false, Option, none, some, List, [], ◌∷◌, ◌++◌, arith, if_intro, ap, ◌∙◌,
}
use nsdscourse.Contiki.Mqtt.Config.{config_fits-default}
use nsdscourse.Contiki.Mqtt.Machine.{
  State, init, registered, connecting, connected, publishing, disconnected, config_error, error,
  Trace, mqtt_register, mqtt_set_username_password, mqtt_connect, mqtt_subscribe, mqtt_publish,
  mqtt_disconnect, became_connected, became_disconnected, Client, Answers, MqttEvent,
  connected_event, disconnected_event, mqtt_event, connect_to_broker, run_registered, run_init,
  run_connected, run_disconnected, retry, talk, dispatch, state_machine, start, Event, timer_fires,
  mqtt, fire, has_registered, step, run,
}
use nsdscourse.Contiki.Mqtt.Machine.Reach.{is_fatal}

-- A connection as the broker's side sees it.
pub data Phase : Type 0 where
  fresh ready linked subscribed : Phase

-- What may be called when: registering comes first and once, connecting and disconnecting while
-- there is no link, subscribing once on a link, and publishing only after it.
abbrev pub accept : Phase → Trace → Option Phase
accept fresh mqtt_register = some ready
accept ready mqtt_set_username_password = some ready
accept ready mqtt_connect = some ready
accept ready mqtt_disconnect = some ready
accept linked mqtt_subscribe = some subscribed
accept subscribed mqtt_publish = some subscribed
accept ready became_connected = some linked
accept linked became_connected = some linked
accept subscribed became_connected = some linked
accept ready became_disconnected = some ready
accept linked became_disconnected = some ready
accept subscribed became_disconnected = some ready
accept _ _ = none

abbrev pub accept_all : Option Phase → List Trace → Option Phase
accept_all p [] = p
accept_all none (t ∷ ts) = none
accept_all (some p) (t ∷ ts) = accept_all (accept p t) ts

accept_all-append :
    (p : Option Phase) (ts us : List Trace)
    → accept_all p (ts ++ us) ≡ accept_all (accept_all p ts) us
accept_all-append p [] us = refl
accept_all-append none (t ∷ ts) [] = refl
accept_all-append none (t ∷ ts) (u ∷ us) = refl
accept_all-append (some p) (t ∷ ts) us = accept_all-append (accept p t) ts us

abbrev pub phase_of : State → Phase
phase_of init = fresh
phase_of config_error = fresh
phase_of connected = linked
phase_of publishing = subscribed
phase_of _ = ready

-- The calls so far are in order, and the state tells the phase that they lead to.
pub record IsOrdered (c : Client) : Type 0 where
  pub sound : is_fatal c.state ≡ false
  pub order : accept_all (some fresh) c.trace ≡ some (phase_of c.state)

-- The trace goes on from the phase `p`.
goes_on :
    (c : Client) (p : Phase) (us : List Trace)
    → accept_all (some fresh) c.trace ≡ some p
    → accept_all (some fresh) (c.trace ++ us) ≡ accept_all (some p) us
goes_on c p us h = accept_all-append (some fresh) c.trace us ∙ ap (λ q. accept_all q us) h

module _ (clock_second : ℕ) where
  dispatch-IsOrdered :
      (s : State) (a : Answers) (c : Client)
      → s ≡ c.state
      → IsOrdered c
      → IsOrdered (dispatch clock_second s a c)
  unfolding dispatch run_init run_registered run_connected run_disconnected retry connect_to_broker
      talk
  dispatch-IsOrdered init a c e h =
      let both = mqtt_register ∷ mqtt_set_username_password ∷ [] in
      let c' : Client = record c { trace = c.trace ++ both } in
      ground (arith, goes_on c fresh both, goes_on c' ready (mqtt_connect ∷ []))
  dispatch-IsOrdered registered a c e h = ground (arith, goes_on c ready (mqtt_connect ∷ []))
  dispatch-IsOrdered connecting a c e h = ground arith
  dispatch-IsOrdered connected a c e h = ground (arith, goes_on c linked (mqtt_subscribe ∷ []))
  dispatch-IsOrdered publishing a c e h = ground (arith, goes_on c subscribed (mqtt_publish ∷ []))
  dispatch-IsOrdered disconnected a c e h = ground (arith, goes_on c ready (mqtt_disconnect ∷ []))
  dispatch-IsOrdered config_error a c e h = ground arith
  dispatch-IsOrdered error a c e h = ground arith

  fire-IsOrdered :
      (t : Option ℕ) (a : Answers) (c : Client) → IsOrdered c → IsOrdered (fire clock_second t a c)
  unfolding fire state_machine
  fire-IsOrdered none a c h = h
  fire-IsOrdered (some interval) a c h =
      dispatch-IsOrdered c.state a (record c { timer = none }) refl
        (record { sound = h.sound; order = h.order })

mqtt_event-IsOrdered :
    (e : MqttEvent) (c : Client)
    → has_registered c.state ≡ true
    → IsOrdered c
    → IsOrdered (mqtt_event e c)
unfolding mqtt_event
mqtt_event-IsOrdered connected_event c r h =
    ground (arith, goes_on c (phase_of c.state) (became_connected ∷ []))
mqtt_event-IsOrdered disconnected_event c r h =
    ground (arith, goes_on c (phase_of c.state) (became_disconnected ∷ []))
mqtt_event-IsOrdered e c r h = h

module _ (clock_second : ℕ) where
  step-IsOrdered : (c : Client) (e : Event) → IsOrdered c → IsOrdered (step clock_second c e)
  unfolding step
  step-IsOrdered c (timer_fires a) h = fire-IsOrdered clock_second c.timer a c h
  step-IsOrdered c (mqtt e) h =
      if_intro IsOrdered (has_registered c.state) (mqtt_event e c) c
        (λ on. mqtt_event-IsOrdered e c on h) (λ off. h)

  run-keeps : (c : Client) (es : List Event) → IsOrdered c → IsOrdered (run clock_second c es)
  unfolding run
  run-keeps c [] h = h
  run-keeps c (e ∷ es) h = run-keeps (step clock_second c e) es (step-IsOrdered c e h)

  start-IsOrdered : (u8 : List ℕ) → IsOrdered (start clock_second u8)
  unfolding start
  start-IsOrdered u8 =
      rw (config_fits-default clock_second u8) (record { sound = refl; order = refl })

  -- Whatever the system answers and the MQTT engine reports to a registered client, the calls of the
  -- engine are in order:
  -- the client registers first and once, connects only while there is no link, subscribes once on
  -- each link, and publishes only on a link on which it has subscribed.
  pub run-IsOrdered :
      (u8 : List ℕ) (es : List Event) → IsOrdered (run clock_second (start clock_second u8) es)
  run-IsOrdered u8 es = run-keeps (start clock_second u8) es (start-IsOrdered u8)
