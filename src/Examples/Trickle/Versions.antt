-- ===== src/Examples/Trickle/Versions.antt =====
-- The tokens of trickle-library.c as the last bytes of versions without a bound.
use nsdscourse.Base.{
  ℕ, ◌+◌, ◌-◌, ◌%◌, ◌<◌, ◌≡◌, ap, ◌∙◌, true, List, [], ◌∷◌, ◌++◌, map, append_assoc, append-nil,
  sym, ltb, ◌==◌, if◌then◌else◌, arith,
}
use nsdscourse.Examples.Trickle.{
  Call, trickle_timer_consistency, trickle_timer_inconsistency, trickle_timer_reset_event,
  etimer_set, uip_udp_packet_send, Node, is_newer, tcpip_handler, trickle_tx, Event, packet, woken,
  callback, step, run,
}

abbrev pub later : ℕ → ℕ → ℕ
later v w = if ltb v w then w else v

-- The version of a node behind an event. The byte of a packet is here the version it was sent with.
abbrev pub next : ℕ → Event → ℕ
next v (packet newdata w) = if newdata then later v w else v
next v (woken expired random) = if expired then if random % 2 == 0 then v + 1 else v else v
next v (callback suppress) = v

-- The calls that the event leads to.
abbrev pub effect : ℕ → Event → List Call
effect v (packet newdata w) =
    if newdata
    then (if v == w then trickle_timer_consistency else trickle_timer_inconsistency) ∷ []
    else []
effect v (woken expired random) =
    if expired
    then if random % 2 == 0 then trickle_timer_reset_event ∷ etimer_set ∷ [] else etimer_set ∷ []
    else []
effect v (callback suppress) = if suppress then [] else uip_udp_packet_send (v % 256) ∷ []

abbrev pub as_byte : Event → Event
as_byte (packet newdata w) = packet newdata (w % 256)
as_byte (woken expired random) = woken expired random
as_byte (callback suppress) = callback suppress

-- A packet's version is less than 128 versions away.
abbrev pub IsClose : ℕ → Event → Type 0
IsClose v (packet newdata w) = (v < w + 128) × (w < v + 128)
IsClose v (woken expired random) = Unit
IsClose v (callback suppress) = Unit

is_newer-close : (v w : ℕ) → v < w + 128 → w < v + 128 → is_newer (w % 256) (v % 256) ≡ ltb v w
is_newer-close v w h k = ground arith

same-close : (v w : ℕ) → v < w + 128 → w < v + 128 → (v % 256 == w % 256) ≡ (v == w)
same-close v w h k = ground arith

-- A node with the last byte of a version.
abbrev pub node_at : ℕ → List Call → Node
node_at v calls = record { token = v % 256; calls = calls }

step-next :
    (v : ℕ) (calls : List Call) (e : Event)
    → IsClose v e
    → step (as_byte e) (node_at v calls) ≡ node_at (next v e) (calls ++ effect v e)
unfolding step tcpip_handler trickle_tx
step-next v calls (packet newdata w) h =
    ground (arith, is_newer-close v w h.0 h.1, same-close v w h.0 h.1, append-nil calls)
step-next v calls (woken expired random) h =
    let two : (calls ++ (trickle_timer_reset_event ∷ [])) ++ (etimer_set ∷ [])
        ≡ calls ++ (trickle_timer_reset_event ∷ etimer_set ∷ []) =
      append_assoc calls (trickle_timer_reset_event ∷ []) (etimer_set ∷ []) in
    ground (arith, append-nil calls, two)
step-next v calls (callback suppress) h = ground (arith, append-nil calls)

abbrev pub version : ℕ → List Event → ℕ
version v [] = v
version v (e ∷ es) = version (next v e) es

abbrev pub effects : ℕ → List Event → List Call
effects v [] = []
effects v (e ∷ es) = effect v e ++ effects (next v e) es

abbrev pub AreClose : ℕ → List Event → Type 0
AreClose v [] = Unit
AreClose v (e ∷ es) = IsClose v e × AreClose (next v e) es

-- As long as the packets come from versions less than 128 away from the node's own: the token is the
-- last byte of a version that a packet raises to the larger one and a new token raises by one; the
-- trickle timer hears of a consistency exactly on equal versions, and of an inconsistency on different
-- ones.
pub run-version :
    (es : List Event) (v : ℕ) (calls : List Call)
    → AreClose v es
    → run (map as_byte es) (node_at v calls) ≡ node_at (version v es) (calls ++ effects v es)
unfolding run
run-version [] v calls h = ap (node_at v) (sym (append-nil calls))
run-version (e ∷ es) v calls h =
    ap (run (map as_byte es)) (step-next v calls e h.0)
    ∙ run-version es (next v e) (calls ++ effect v e) h.1
    ∙ ap (node_at (version (next v e) es)) (append_assoc calls (effect v e) (effects (next v e) es))

-- Two nodes that each receive the other's token agree then, unless their tokens are 128 apart: each of
-- them then takes the other's for the newer one, so that they change places.
pub tcpip_handler-exchange :
    (a b : Node)
    → a.token < 256
    → b.token < 256
    → let a' = tcpip_handler true b.token a in
      let b' = tcpip_handler true a.token b in
      if (a.token + 256 - b.token) % 256 == 128
      then (a'.token ≡ b.token) × (b'.token ≡ a.token)
      else a'.token ≡ b'.token
unfolding tcpip_handler
tcpip_handler-exchange a b h k = ground arith
