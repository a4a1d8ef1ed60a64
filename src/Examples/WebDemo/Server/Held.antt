-- ===== src/Examples/WebDemo/Server/Held.antt =====
-- What a held lock of httpd-simple.c means for the events of the other connections.
use nsdscourse.Base.{
  ℕ, ◌≡◌, ◌≢◌, refl, ap, sym, ◌∙◌, subst, Bool-cases, inl, inr, false, Option, none, some, List, [],
  ◌∷◌, get_or, get_or-set_ne, length, ◌==◌, if◌then◌else◌, All,
}
use nsdscourse.Examples.WebDemo.Form.{Handler}
use nsdscourse.Examples.WebDemo.Server.{
  ℤ, exceeds, content_length_max, post, code_ok, header, Connection, Shared, end_headers,
}
use nsdscourse.Examples.WebDemo.Server.Input.{read_header, input_at, handle_input}
use nsdscourse.Examples.WebDemo.Server.Events.{
  Server, Event, connected, received, ended, unavailable, handle_output, receive, appcall, appcalls,
}
use nsdscourse.Examples.WebDemo.Server.Lock.{is_body, is_held-ne, form}
use nsdscourse.Examples.WebDemo.Server.Exclusive.{
  IsServer, slot_of, some_injective, handle_input-Keeps, appcall-IsServer,
}

-- The slot holds the lock in both servers, with the same connection, or none, and what has been parsed.
pub record IsHeld {S : Type 0} (slot : ℕ) (srv srv' : Server S) : Type 0 where
  pub lock : srv'.shared.lock ≡ some slot
  pub conn : get_or srv'.conns slot none ≡ get_or srv.conns slot none
  pub parsed : form srv'.shared.parser ≡ form srv.shared.parser

module _ {S : Type 0} (atoi : List ℕ → ℤ) (handlers : List (Option (Handler S))) (j : ℕ) where
  receive-IsHeld :
      (i : ℕ) (input : List ℕ) (v : Option Connection) (srv : Server S)
      → get_or srv.conns i none ≡ v
      → i ≢ j
      → IsServer srv
      → srv.shared.lock ≡ some j
      → IsHeld j srv (receive atoi handlers i input v srv)
  receive-IsHeld i input none srv e ne h l = record { lock = l; conn = refl; parsed = refl }
  receive-IsHeld i input (some c) srv e ne h l = elim (Bool-cases (is_body c.point)) [
    | inl b ↦
        absurd (ne (some_injective (sym (h i (record { conn = c; there = e; reads = b })) ∙ l)))
    | inr b ↦
        let keeps = handle_input-Keeps atoi handlers i j input c srv.shared ne l b in
        record { lock = keeps.lock; conn = get_or-set_ne srv.conns _ none ne; parsed = keeps.form }
  ]

  appcall-IsHeld :
      (e : Event) (srv : Server S)
      → slot_of e ≢ some j
      → IsServer srv
      → srv.shared.lock ≡ some j
      → IsHeld j srv (appcall atoi handlers e srv)
  unfolding appcall
  appcall-IsHeld (connected none) srv ne h l = record { lock = l; conn = refl; parsed = refl }
  appcall-IsHeld (connected (some i)) srv ne h l = record {
    lock = l;
    conn = get_or-set_ne srv.conns _ none (λ k. ne (ap some k));
    parsed = refl;
  }
  appcall-IsHeld (received i input) srv ne h l =
      receive-IsHeld i input (get_or srv.conns i none) srv refl (λ k. ne (ap some k)) h l
  appcall-IsHeld (ended i) srv ne h l = record {
    lock = l;
    conn = get_or-set_ne srv.conns _ none (λ k. ne (ap some k));
    parsed = refl;
  }

  -- While a slot holds the lock and only the connection that holds it reads a body, any events of the
  -- other slots leave the lock, what the slot holds, a connection or none, and all of the parser but its
  -- flag for a new configuration.
  pub appcalls-IsHeld :
      (es : List Event) (srv : Server S)
      → All (λ e. slot_of e ≢ some j) es
      → IsServer srv
      → srv.shared.lock ≡ some j
      → IsHeld j srv (appcalls atoi handlers es srv)
  appcalls-IsHeld [] srv ne h l = record { lock = l; conn = refl; parsed = refl }
  appcalls-IsHeld (e ∷ es) srv ne h l =
      let one = appcall-IsHeld e srv ne.0 h l in
      let rest = appcalls-IsHeld es _ ne.1 (appcall-IsServer atoi handlers e srv h) one.lock in
      record { lock = rest.lock; conn = rest.conn ∙ one.conn; parsed = rest.parsed ∙ one.parsed }

  abbrev IsUnavailable : List (List ℕ) → Connection × Shared S → Type 0
  IsUnavailable pages r = (handle_output pages r.0 ≡ some unavailable) × (r.1.lock ≡ some j)

  end_headers-IsUnavailable :
      (i : ℕ) (pages : List (List ℕ)) (c : Connection) (sh : Shared S)
      → i ≢ j
      → exceeds c.content_length content_length_max ≡ false
      → IsUnavailable pages (
          end_headers i
            (record c { request_type = some post; return_code = code_ok })
            (record sh { lock = some j }))
  end_headers-IsUnavailable i pages c sh ne x = elim (Bool-cases (exceeds c.content_length 0)) [
    | inl e ↦ rw (x, is_held-ne i j ne, e, is_held-ne i j ne) (refl, refl)
    | inr e ↦ rw (x, is_held-ne i j ne, e, is_held-ne i j ne) (refl, refl)
  ]

  -- The end of the headers of a POST request with an acceptable length, on a slot other than the one that
  -- the lock is with, is answered with 503; the lock stays.
  pub handle_input-unavailable :
      (i : ℕ) (input : List ℕ) (pages : List (List ℕ)) (c : Connection) (sh : Shared S)
      → i ≢ j
      → sh.lock ≡ some j
      → c.point ≡ header
      → c.request_type ≡ some post
      → length input ≡ 2
      → c.return_code ≡ code_ok
      → exceeds c.content_length content_length_max ≡ false
      → (handle_output pages (handle_input atoi handlers i input c sh).0 ≡ some unavailable)
        × ((handle_input atoi handlers i input c sh).1.lock ≡ some j)
  unfolding handle_input
  handle_input-unavailable i input pages c sh ne l p t n k x =
      subst (λ q. IsUnavailable pages (input_at atoi handlers q i input c sh)) (sym p)
        (subst
          (λ m.
            IsUnavailable pages
              (if m == 2 then end_headers i c sh else (read_header atoi input c, sh)))
          (sym n)
          (subst (λ d. IsUnavailable pages (end_headers i (record c { request_type = d }) sh))
            (sym t)
            (subst
              (λ d.
                IsUnavailable pages
                  (end_headers i (record c { request_type = some post; return_code = d }) sh))
              (sym k)
              (subst
                (λ d. IsUnavailable pages (
                  end_headers i (record c { request_type = some post; return_code = code_ok })
                    (record sh { lock = d })))
                (sym l) (end_headers-IsUnavailable i pages c sh ne x)))))
