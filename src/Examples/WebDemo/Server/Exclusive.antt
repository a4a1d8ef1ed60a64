-- ===== src/Examples/WebDemo/Server/Exclusive.antt =====
-- The connections of httpd-simple.c share one parser: which of them may use it, over all the events
-- that appcall handles.
use nsdscourse.Base.{
  ℕ, zero, suc, ◌≡◌, ◌≢◌, ◌⊎◌, refl, ap, sym, ◌∙◌, subst, Bool-cases, inl, inr, true, false, Option,
  none, some, List, [], ◌∷◌, get_or, get_or-set_ne, get_or-replicate, replicate, set, arith, ◌==◌,
}
use nsdscourse.Examples.WebDemo.Form.{Handler}
use nsdscourse.Examples.WebDemo.Server.{ℤ, Connection, Shared}
use nsdscourse.Examples.WebDemo.Server.Input.{input_at, handle_input}
use nsdscourse.Examples.WebDemo.Server.Events.{
  Server, Event, connected, received, ended, fresh, conns_size, receive, appcall, appcalls,
}
use nsdscourse.Examples.WebDemo.Server.Lock.{is_body, Keeps, Owns, input_at-Keeps, input_at-Owns}

-- The connection of a slot reads a body.
pub record ReadsBody {S : Type 0} (slot : ℕ) (srv : Server S) : Type 0 where
  pub conn : Connection
  pub there : get_or srv.conns slot none ≡ some conn
  pub reads : is_body conn.point ≡ true

-- Whoever reads a body holds the lock.
abbrev pub IsServer : {S : Type 0} → Server S → Type 0
IsServer srv = (slot : ℕ) → ReadsBody slot srv → srv.shared.lock ≡ some slot

abbrev pub slot_of : Event → Option ℕ
slot_of (connected slot) = slot
slot_of (received slot input) = some slot
slot_of (ended slot) = some slot

pub same_slot : (i j : ℕ) → (i ≡ j) ⊎ (i ≢ j)
same_slot i j = elim (Bool-cases (i == j)) [
  | inl e ↦ inl (ground (arith, e))
  | inr e ↦ inr (λ h. ground (arith, e, h))
]

get_or-set-some :
    {A : Type 0} (xs : List (Option A)) (i : ℕ) (v : Option A) {a : A}
    → get_or (set xs i v) i none ≡ some a
    → v ≡ some a
get_or-set-some [] i v h = ground (arith, h)
get_or-set-some (x ∷ xs) zero v h = h
get_or-set-some (x ∷ xs) (suc i) v h = get_or-set-some xs i v h

abbrev value_or : {A : Type 0} → A → Option A → A
value_or a none = a
value_or a (some b) = b

pub some_injective : {A : Type 0} {a b : A} → some a ≡ some b → a ≡ b
some_injective {a = a} h = ap (value_or a) h

module _ {S : Type 0} (atoi : List ℕ → ℤ) (handlers : List (Option (Handler S))) where
  pub handle_input-Keeps :
      (i j : ℕ) (input : List ℕ) (c : Connection) (sh : Shared S)
      → i ≢ j
      → sh.lock ≡ some j
      → is_body c.point ≡ false
      → Keeps j sh (handle_input atoi handlers i input c sh)
  unfolding handle_input
  handle_input-Keeps i j input c sh h l b =
      subst
        (λ (k : Option ℕ).
          Keeps j sh (input_at atoi handlers c.point i input c (record sh { lock = k })))
        (sym l) (input_at-Keeps i j h atoi handlers c.point input c sh refl b)

  handle_input-Owns :
      (i : ℕ) (input : List ℕ) (c : Connection) (sh : Shared S)
      → Owns i (handle_input atoi handlers i input c sh)
  unfolding handle_input
  handle_input-Owns i input c sh = input_at-Owns i atoi handlers c.point input c sh refl

  -- A step of a slot other than the one that reads a body.
  receive-IsServer :
      (i : ℕ) (input : List ℕ) (v : Option Connection) (srv : Server S)
      → get_or srv.conns i none ≡ v
      → IsServer srv
      → IsServer (receive atoi handlers i input v srv)
  receive-IsServer i input none srv e h = h
  receive-IsServer i input (some c) srv e h = λ j r. elim (same_slot i j) [
    | inl same ↦
        let now = some (handle_input atoi handlers i input c srv.shared).0 in
        let there =
          subst (λ k. get_or (set srv.conns i now) k none ≡ some r.conn) (sym same) r.there in
        let here = some_injective (get_or-set-some srv.conns i now there) in
        handle_input-Owns i input c srv.shared
          (ap (λ (d : Connection). is_body d.point) here ∙ r.reads)
        ∙ ap some same
    | inr ne ↦
        let now = some (handle_input atoi handlers i input c srv.shared).0 in
        let before = sym (get_or-set_ne srv.conns now none ne) ∙ r.there in
        let locked = h j (record { conn = r.conn; there = before; reads = r.reads }) in
        elim (Bool-cases (is_body c.point)) [
          | inl b ↦
              absurd (
                ne
                  (some_injective (sym (h i (record { conn = c; there = e; reads = b })) ∙ locked)))
          | inr b ↦ (handle_input-Keeps i j input c srv.shared ne locked b).lock
        ]
  ]

  set-IsServer :
      (i : ℕ) (v : Option Connection) (srv : Server S)
      → ((c : Connection) → v ≡ some c → is_body c.point ≡ false)
      → IsServer srv
      → IsServer (record srv { conns = set srv.conns i v })
  set-IsServer i v srv b h = λ j r. elim (same_slot i j) [
    | inl same ↦
        let there =
          subst (λ k. get_or (set srv.conns i v) k none ≡ some r.conn) (sym same) r.there in
        ground (arith, b r.conn (get_or-set-some srv.conns i v there), r.reads)
    | inr ne ↦
        let before = sym (get_or-set_ne srv.conns v none ne) ∙ r.there in
        h j (record { conn = r.conn; there = before; reads = r.reads })
  ]

  -- Every event keeps it so that only the connection that holds the lock reads a body.
  pub appcall-IsServer :
      (e : Event) (srv : Server S) → IsServer srv → IsServer (appcall atoi handlers e srv)
  unfolding appcall
  appcall-IsServer (connected none) srv h = h
  appcall-IsServer (connected (some i)) srv h =
      set-IsServer i (some fresh) srv
        (λ c e. ap (λ (d : Connection). is_body d.point) (sym (some_injective e))) h
  appcall-IsServer (received i input) srv h =
      receive-IsServer i input (get_or srv.conns i none) srv refl h
  appcall-IsServer (ended i) srv h = set-IsServer i none srv (λ c e. ground (arith, e)) h

  appcalls-IsServer :
      (es : List Event) (srv : Server S) → IsServer srv → IsServer (appcalls atoi handlers es srv)
  appcalls-IsServer [] srv h = h
  appcalls-IsServer (e ∷ es) srv h = appcalls-IsServer es _ (appcall-IsServer e srv h)

  initial-IsServer :
      (n : ℕ) (sh : Shared S) → IsServer (record { conns = replicate n none; shared = sh })
  initial-IsServer n sh slot r = ground (arith, sym r.there ∙ get_or-replicate n slot none)

  -- After any events, from a server without connections on: two connections that are reading a body are
  -- the same one.
  pub appcalls-exclusive :
      (es : List Event) (sh : Shared S) (i j : ℕ)
      → ReadsBody i
          (appcalls atoi handlers es (record { conns = replicate conns_size none; shared = sh }))
      → ReadsBody j
          (appcalls atoi handlers es (record { conns = replicate conns_size none; shared = sh }))
      → i ≡ j
  appcalls-exclusive es sh i j a b =
      let h = appcalls-IsServer es _ (initial-IsServer conns_size sh) in
      some_injective (sym (h i a) ∙ h j b)
