-- ===== src/Examples/WebDemo/Server/Kept.antt =====
-- What all handlers keep of their state holds after any events of httpd-simple.c.
use nsdscourse.Base.{
  ℕ, Bool-cases, inl, inr, ◌&&◌, Option, none, some, List, [], ◌∷◌, length, get_or, ◌==◌,
}
use nsdscourse.Examples.WebDemo.Form.{Handler}
use nsdscourse.Examples.WebDemo.Form.Kept.{AllKeep, parse_post_request_chunk-keeps}
use nsdscourse.Examples.WebDemo.Server.{
  ℤ, minus, is_zero, exceeds, Point, method, get_path, post_path, rest_of_line, header, body,
  output, exited, Connection, Shared, is_ok, is_held, lock_obtain, while_body, check_length,
  begin_body,
}
use nsdscourse.Examples.WebDemo.Server.Input.{parse_body, input_at, handle_input}
use nsdscourse.Examples.WebDemo.Server.Events.{
  Server, Event, connected, received, ended, receive, appcall, appcalls,
}

module _ {S : Type 0} (P : S → Type 0) where
  abbrev pub Holds : Shared S → Type 0
  Holds sh = P sh.parser.config

  while_body-Holds :
      (slot : ℕ) (c : Connection) (sh : Shared S) → Holds sh → Holds (while_body slot c sh).1
  while_body-Holds slot c sh h =
      elim (Bool-cases
        (exceeds c.content_length 0 && (is_held slot sh.lock && is_ok c.return_code))) [
          | inl e ↦ rw e h
          | inr e ↦ rw e h
        ]

  begin_body-Holds :
      (slot : ℕ) (c : Connection) (sh : Shared S) → Holds sh → Holds (begin_body slot c sh).1
  begin_body-Holds slot c sh h = elim (Bool-cases (is_ok c.return_code)) [
    | inl e ↦ elim (Bool-cases (is_held slot (lock_obtain slot sh.lock))) [
      | inl l ↦ rw (e, l) h
      | inr l ↦ rw (e, l) h
    ]
    | inr e ↦ rw e h
  ]

  module _ (atoi : List ℕ → ℤ) (handlers : List (Option (Handler S)))
      (keep : AllKeep P handlers) where
    input_at-Holds :
        (p : Point) (slot : ℕ) (input : List ℕ) (c : Connection) (sh : Shared S)
        → Holds sh
        → Holds (input_at atoi handlers p slot input c sh).1
    input_at-Holds method slot input c sh h = h
    input_at-Holds get_path slot input c sh h = h
    input_at-Holds post_path slot input c sh h = h
    input_at-Holds rest_of_line slot input c sh h = h
    input_at-Holds header slot input c sh h = elim (Bool-cases (length input == 2)) [
      | inl l ↦
          let (c', sh') = begin_body slot (check_length c) sh in
          rw l (while_body-Holds slot c' sh' (begin_body-Holds slot (check_length c) sh h))
      | inr l ↦ rw l h
    ]
    input_at-Holds body slot input c sh h =
        let (c', sh') = parse_body handlers input c sh in
        let last = is_zero (minus c.content_length (length input)) in
        while_body-Holds slot c' sh'
          (parse_post_request_chunk-keeps P handlers keep input last sh.parser h)
    input_at-Holds output slot input c sh h = h
    input_at-Holds exited slot input c sh h = h

    receive-Holds :
        (slot : ℕ) (input : List ℕ) (v : Option Connection) (srv : Server S)
        → Holds srv.shared
        → Holds (receive atoi handlers slot input v srv).shared
    unfolding handle_input
    receive-Holds slot input none srv h = h
    receive-Holds slot input (some c) srv h = input_at-Holds c.point slot input c srv.shared h

    appcall-Holds :
        (e : Event) (srv : Server S) → Holds srv.shared → Holds (appcall atoi handlers e srv).shared
    unfolding appcall
    appcall-Holds (connected none) srv h = h
    appcall-Holds (connected (some slot)) srv h = h
    appcall-Holds (received slot input) srv h =
        receive-Holds slot input (get_or srv.conns slot none) srv h
    appcall-Holds (ended slot) srv h = h

    -- What every handler keeps of the state holds after any events.
    pub appcalls-Holds :
        (es : List Event) (srv : Server S)
        → Holds srv.shared
        → Holds (appcalls atoi handlers es srv).shared
    appcalls-Holds [] srv h = h
    appcalls-Holds (e ∷ es) srv h = appcalls-Holds es _ (appcall-Holds e srv h)
