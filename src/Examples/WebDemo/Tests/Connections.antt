-- ===== src/Examples/WebDemo/Tests/Connections.antt =====
-- Runs and instances of the connections of the CC26xx web demo.
use nsdscourse.Base.{
  ℕ, zero, suc, ◌-◌, ap, ◌≡◌, refl, true, false, Option, none, some, List, [], ◌∷◌, ◌++◌, get_or,
  replicate, arith,
}
use nsdscourse.Contiki.Mqtt.Text.{codes}
use nsdscourse.Examples.Texts.{string}
use nsdscourse.Examples.WebDemo.Form.{Parser, init, Handler, zeros}
use nsdscourse.Examples.WebDemo.Server.{
  ℤ, pos, starts_with, Connection, Shared, header, post, code_ok,
}
use nsdscourse.Examples.WebDemo.Server.Input.{handle_input}
use nsdscourse.Examples.WebDemo.Server.Events.{
  Server, Event, connected, received, ended, fresh, unavailable, handle_output, appcall, appcalls,
}
use nsdscourse.Examples.WebDemo.Server.Exclusive.{
  some_injective, IsServer, ReadsBody, appcalls-exclusive,
}
use nsdscourse.Examples.WebDemo.Server.Held.{IsHeld, appcalls-IsHeld, handle_input-unavailable}
use nsdscourse.Examples.WebDemo.Server.Lock.{is_body}
use nsdscourse.Examples.WebDemo.Output.{Output, enqueue_chunk, IsStream, enqueue_chunk-IsStream}

-- A length of one digit behind the blank.
abbrev digit : List ℕ → ℤ
digit text = pos (get_or text 1 0 - b'0')

abbrev none_to_handle : List (Option (Handler ℕ))
none_to_handle = []

abbrev parser : Parser ℕ
parser = record {
  state = init;
  key = zeros;
  key_len = 0;
  val = zeros;
  val_len = 0;
  config_ok = false;
  config = 0;
}

abbrev unused : Shared ℕ
unused = record { lock = none; parser = parser; posted = 0 }

abbrev posting : List Event
posting =
    connected (some 1)
    ∷ received 1 (codes "POST ")
    ∷ received 1 (codes "/config.html ")
    ∷ received 1 (codes "HTTP/1.1\r\n")
    ∷ received 1 (codes "Content-Length: 3\r\n")
    ∷ received 1 (codes "\r\n")
    ∷ []

abbrev reading_body : Server ℕ
reading_body =
    appcalls digit none_to_handle posting (record { conns = replicate 2 none; shared = unused })

reading_body-ReadsBody : ReadsBody 1 reading_body
unfolding appcall handle_input starts_with string
reading_body-ReadsBody = record { conn = _; there = refl; reads = refl }

appcalls-exclusive_example : ◌≡◌ {A = ℕ} 1 1
appcalls-exclusive_example =
    appcalls-exclusive digit none_to_handle posting unused 1 1 reading_body-ReadsBody
      reading_body-ReadsBody

abbrev holding : Connection
holding = record fresh {
  point = header;
  request_type = some post;
  return_code = code_ok;
  content_length = pos 3;
}

-- Slot 0 has ended while it read a body, and still holds the lock.
abbrev stale : Server ℕ
stale = record { conns = none ∷ some holding ∷ []; shared = record unused { lock = some 0 } }

stale-IsServer : IsServer stale
stale-IsServer zero r = refl
stale-IsServer (suc zero) r =
    ground (arith, ap (λ (c : Connection). is_body c.point) (some_injective r.there), r.reads)
stale-IsServer (suc (suc i)) r = ground (arith, r.there)

appcalls-IsHeld_example :
    IsHeld 0 stale (appcalls digit none_to_handle (received 1 (codes "\r\n") ∷ ended 1 ∷ []) stale)
appcalls-IsHeld_example =
    appcalls-IsHeld digit none_to_handle 0 (received 1 (codes "\r\n") ∷ ended 1 ∷ []) stale
      (λ e. ground (arith, e), (λ e. ground (arith, e), tt)) stale-IsServer refl

handle_input-unavailable_example :
    (handle_output [] (handle_input digit none_to_handle 1 (codes "\r\n") holding stale.shared).0
      ≡ some unavailable)
    × ((handle_input digit none_to_handle 1 (codes "\r\n") holding stale.shared).1.lock ≡ some 0)
handle_input-unavailable_example =
    handle_input-unavailable digit none_to_handle 0 1 (codes "\r\n") [] holding stale.shared
      (λ e. ground (arith, e)) refl refl refl refl refl refl

abbrev three_bytes : Output
three_bytes = record { buf = codes "ab"; sends = codes "xyzw" ∷ [] }

enqueue_chunk-IsStream_example :
    IsStream 4 (enqueue_chunk 4 true (codes "cdef") three_bytes) (codes "xyzwab" ++ codes "cdef")
    × (true ≡ true → (enqueue_chunk 4 true (codes "cdef") three_bytes).buf ≡ [])
enqueue_chunk-IsStream_example =
    enqueue_chunk-IsStream 4 true (codes "cdef") three_bytes (codes "xyzwab") (omega arith)
      (record { whole = refl; room = omega arith; fits = (omega arith, tt) })
