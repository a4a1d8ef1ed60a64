-- ===== src/Examples/WebDemo/Server/Events.antt =====
-- handle_output, as the answer it chooses, get_script and appcall of httpd-simple.c.
use nsdscourse.Base.{
  ℕ, ◌+◌, Bool, true, false, ◌&&◌, Option, none, some, List, [], ◌∷◌, drop, get_or, set, ◌==◌,
  if◌then◌else◌,
}
use nsdscourse.Examples.Texts.{string}
use nsdscourse.Examples.WebDemo.Form.{Handler}
use nsdscourse.Examples.WebDemo.Server.{
  ℤ, pos, get, post, ReturnCode, code_ok, code_nf, code_su, code_br, code_lr, code_tl, method,
  Connection, Shared,
}
use nsdscourse.Examples.WebDemo.Server.Input.{handle_input}

-- The answers: 302 with the path that the form was sent to, 411, 413, 503, 400, 404, or a page.
pub data Answer : Type 0 where
  found : List ℕ → Answer
  length_required too_large unavailable bad_request not_found : Answer
  page : ℕ → Answer

-- strncmp of the C library over the length of the second text: the first begins with it.
unfoldable pub begins_with : List ℕ → List ℕ → Bool
begins_with name [] = true
begins_with [] (c ∷ text) = false
begins_with (d ∷ name) (c ∷ text) = (d == c) && begins_with name text

-- The number of the page whose file name the name begins with, from a number on.
unfoldable pub get_script : List ℕ → List (List ℕ) → ℕ → Option ℕ
get_script name [] n = none
get_script name (filename ∷ pages) n =
    let rest = get_script name pages (n + 1) in if begins_with name filename then some n else rest

abbrev pub answer_post : ReturnCode → List ℕ → Answer
answer_post code_ok filename = found filename
answer_post code_lr filename = length_required
answer_post code_tl filename = too_large
answer_post code_su filename = unavailable
answer_post code_br filename = bad_request
answer_post code_nf filename = bad_request

abbrev pub answer_get : Option ℕ → Answer
answer_get none = not_found
answer_get (some n) = page n

-- A request of another type gets no answer.
abbrev pub handle_output : List (List ℕ) → Connection → Option Answer
handle_output pages c = elim c.request_type [
  | none ↦ none
  | some type ↦ elim type [
    | post ↦ some (answer_post c.return_code c.filename)
    | get ↦ some (answer_get (get_script (drop 1 (string c.filename)) pages 0))
  ]
]

-- CONNS
abbrev pub conns_size : ℕ
conns_size = 2

-- The pool of connections, whose free blocks are `none`, with what the connections share.
pub record Server (S : Type 0) : Type 0 where
  pub conns : List (Option Connection)
  pub shared : Shared S

-- A new connection, with the block that the pool gives it if it has one; a completed read of a
-- connection; its end, which appcall learns when the connection is closed, aborted or timed out, or
-- makes when its timer has expired.
pub data Event : Type 0 where
  connected : Option ℕ → Event
  received : ℕ → List ℕ → Event
  ended : ℕ → Event

-- A block is cleared when it is freed.
abbrev pub fresh : Connection
fresh = record {
  point = method;
  request_type = none;
  filename = [];
  content_length = pos 0;
  return_code = code_ok;
}

module _ {S : Type 0} (atoi : List ℕ → ℤ) (handlers : List (Option (Handler S))) where
  abbrev pub receive : ℕ → List ℕ → Option Connection → Server S → Server S
  receive slot input none srv = srv
  receive slot input (some c) srv =
      let (c', sh) = handle_input atoi handlers slot input c srv.shared in
      record { conns = set srv.conns slot (some c'); shared = sh }

  unfoldable pub appcall : Event → Server S → Server S
  appcall (connected none) srv = srv
  appcall (connected (some slot)) srv = record srv { conns = set srv.conns slot (some fresh) }
  appcall (received slot input) srv = receive slot input (get_or srv.conns slot none) srv
  appcall (ended slot) srv = record srv { conns = set srv.conns slot none }

  abbrev pub appcalls : List Event → Server S → Server S
  appcalls [] srv = srv
  appcalls (e ∷ es) srv = appcalls es (appcall e srv)
