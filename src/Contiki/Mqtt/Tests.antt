-- ===== src/Contiki/Mqtt/Tests.antt =====
-- Instances for the messages of mqtt-demo.c.
use nsdscourse.Base.{◌≡◌, refl, some, none, true}
use nsdscourse.Contiki.Mqtt.Handler.{same, pub_handler}
use nsdscourse.Contiki.Mqtt.Text.{codes, decimal}
use nsdscourse.Contiki.Mqtt.Config.{pub_topic_even}
use nsdscourse.Contiki.Mqtt.Message.{Message, publish, whole}

abbrev message : Message
message = record { topic = pub_topic_even; payload = whole 42 (codes "fd00::1") }

even_message : publish 42 (codes "fd00::1") ≡ some message
unfolding publish decimal
even_message = refl

even_topic_accepted : pub_handler pub_topic_even ≡ some true
unfolding pub_handler same
even_topic_accepted = refl

short_topic : pub_handler (codes "iot") ≡ none
unfolding pub_handler
short_topic = refl
