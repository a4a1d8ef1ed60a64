-- ===== src/Examples/WebDemo/Form/Kept.antt =====
-- What all handlers keep of their state, parse_post_request_chunk of httpd-simple.c keeps.
use nsdscourse.Base.{
  ℕ, ◌+◌, Bool, Bool-cases, inl, inr, true, false, Option, none, some, List, [], ◌∷◌, set, leb,
  ◌==◌, if◌then◌else◌,
}
use nsdscourse.Examples.Texts.{string}
use nsdscourse.Examples.WebDemo.Escape.{url_unescape}
use nsdscourse.Examples.WebDemo.Form.{
  Parser, State, init, more, reading_key, reading_val, error, Handler, Answer, ok, unknown, refused,
  run_handlers, answered, finish_pair, clear, read_key, read_val, parse_in, parse_char,
  parse_post_request_chunk, parse_post_buf_sizes, parse_post_max_pos,
}

-- A handler keeps a property of its state.
abbrev pub Keeps : {S : Type 0} → (S → Type 0) → Handler S → Type 0
Keeps P handle =
    (s : _) (key : List ℕ) (key_len : ℕ) (val : List ℕ) → P s → P (handle s key key_len val).1

abbrev pub AllKeep : {S : Type 0} → (S → Type 0) → List (Option (Handler S)) → Type 0
AllKeep P [] = Unit
AllKeep P (none ∷ hs) = AllKeep P hs
AllKeep P (some h ∷ hs) = Keeps P h × AllKeep P hs

module _ {S : Type 0} (P : S → Type 0) where
  run_handlers-keeps :
      (hs : List (Option (Handler S))) (finish : Answer) (key : List ℕ) (key_len : ℕ) (val : List ℕ)
      (s : S)
      → AllKeep P hs
      → P s
      → P (run_handlers hs finish key key_len val s).1
  unfolding run_handlers
  run_handlers-keeps [] finish key key_len val s h p = p
  run_handlers-keeps (none ∷ hs) ok key key_len val s h p = p
  run_handlers-keeps (none ∷ hs) refused key key_len val s h p = p
  run_handlers-keeps (none ∷ hs) unknown key key_len val s h p =
      run_handlers-keeps hs unknown key key_len val s h p
  run_handlers-keeps (some handle ∷ hs) finish key key_len val s h p =
      after (handle s key key_len val) (h.0 s key key_len val p)
        (λ s'. run_handlers-keeps hs unknown key key_len val s' h.1)
    where
      Rest : S → Type 0
      Rest s' = P s' → P (run_handlers hs unknown key key_len val s').1

      after :
          (r : Answer × S)
          → P r.1
          → ((s' : S) → Rest s')
          → P
              (elim r.0 as (λ a. Answer × S) [
                | ok ↦ (ok, r.1)
                | refused ↦ (refused, r.1)
                | unknown ↦ run_handlers hs unknown key key_len val r.1
              ]).1
      after (ok, s) p rest = p
      after (refused, s) p rest = p
      after (unknown, s) p rest = rest s p

  answered-keeps : (a : Answer) (p : Parser S) → P p.config → P (answered a p).config
  answered-keeps ok p h = h
  answered-keeps unknown p h = h
  answered-keeps refused p h = h

  read_key-keeps : (c : ℕ) (p : Parser S) → P p.config → P (read_key c p).config
  read_key-keeps c p h = elim (Bool-cases (c == b'=')) [
    | inl e ↦ rw e h
    | inr e ↦ elim (Bool-cases (c == b'&')) [
      | inl a ↦ rw (e, a) h
      | inr a ↦ elim (Bool-cases (leb p.key_len parse_post_max_pos)) [
        | inl l ↦ rw (e, a, l) h
        | inr l ↦ rw (e, a, l) h
      ]
    ]
  ]

  module _ (handlers : List (Option (Handler S))) (keep : AllKeep P handlers) where
    finish_pair-keeps : (p : Parser S) → P p.config → P (finish_pair handlers p).config
    unfolding finish_pair
    finish_pair-keeps p h =
        let escaped = string (url_unescape p.val p.val_len parse_post_buf_sizes).0 in
        answered-keeps (run_handlers handlers ok (string p.key) p.key_len escaped p.config).0 _
          (run_handlers-keeps handlers ok (string p.key) p.key_len escaped p.config keep h)

    longer-keeps :
        (last : Bool) (p : Parser S)
        → P p.config
        → P (if last then finish_pair handlers p else p).config
    longer-keeps true p h = finish_pair-keeps p h
    longer-keeps false p h = h

    read_val-keeps :
        (c : ℕ) (last : Bool) (p : Parser S) → P p.config → P (read_val handlers c last p).config
    read_val-keeps c last p h = elim (Bool-cases (c == b'&')) [
      | inl a ↦ rw a (finish_pair-keeps p h)
      | inr a ↦ elim (Bool-cases (c == b'=')) [
        | inl e ↦ rw (a, e) h
        | inr e ↦ elim (Bool-cases (leb p.val_len parse_post_max_pos)) [
          | inl l ↦
              rw (a, e, l)
                (longer-keeps last
                  (record p { val = set p.val p.val_len c; val_len = p.val_len + 1 }) h)
          | inr l ↦ rw (a, e, l) h
        ]
      ]
    ]

    parse_in-keeps :
        (s : State) (c : ℕ) (last : Bool) (p : Parser S)
        → P p.config
        → P (parse_in handlers s c last p).config
    parse_in-keeps init c last p h = read_key-keeps c (clear p) h
    parse_in-keeps more c last p h = read_key-keeps c (clear p) h
    parse_in-keeps reading_key c last p h = read_key-keeps c p h
    parse_in-keeps reading_val c last p h = read_val-keeps c last p h
    parse_in-keeps error c last p h = h

    pub parse_post_request_chunk-keeps :
        (cs : List ℕ) (last_chunk : Bool) (p : Parser S)
        → P p.config
        → P (parse_post_request_chunk handlers cs last_chunk p).config
    unfolding parse_post_request_chunk parse_char
    parse_post_request_chunk-keeps [] last_chunk p h = h
    parse_post_request_chunk-keeps (c ∷ cs) last_chunk p h =
        parse_post_request_chunk-keeps cs last_chunk _ (parse_in-keeps p.state c _ p h)
