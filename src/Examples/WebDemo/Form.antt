-- ===== src/Examples/WebDemo/Form.antt =====
-- parse_post_request_chunk of httpd-simple.c: a body of pairs `key=value`, which come in chunks, one
-- character after the other. The handlers of the pairs share a state, such as the configuration.
pub mod Bounds
pub mod Chunks
pub mod Pairs
pub mod Read
pub mod Run
pub mod Refused
pub mod Parsed
pub mod Kept
use nsdscourse.Base.{
  ℕ, zero, suc, ◌+◌, ◌-◌, Bool, true, false, ◌&&◌, Option, none, some, List, [], ◌∷◌, ◌++◌, leb,
  ◌==◌, if◌then◌else◌, length, set, replicate,
}
use nsdscourse.Examples.Texts.{string}
use nsdscourse.Examples.WebDemo.Escape.{url_unescape}

abbrev pub parse_post_buf_sizes : ℕ
parse_post_buf_sizes = 64

abbrev pub parse_post_max_pos : ℕ
parse_post_max_pos = parse_post_buf_sizes - 2

pub data State : Type 0 where
  init more reading_key reading_val error : State

-- HTTPD_SIMPLE_POST_HANDLER_OK, _UNKNOWN and _ERROR
pub data Answer : Type 0 where
  ok unknown refused : Answer

-- A handler gets the key and the value, each up to its first zero, with the length of the key.
abbrev pub Handler : Type 0 → Type 0
Handler S = S → List ℕ → ℕ → List ℕ → Answer × S

-- The static variables of the parser, `config_ok`, and the state of the handlers.
pub record Parser (S : Type 0) : Type 0 where
  pub state : State
  pub key : List ℕ
  pub key_len : ℕ
  pub val : List ℕ
  pub val_len : ℕ
  pub config_ok : Bool
  pub config : S

abbrev pub zeros : List ℕ
zeros = replicate parse_post_buf_sizes 0

-- Whether no character is left.
abbrev pub is_end : List ℕ → Bool
is_end [] = true
is_end (c ∷ cs) = false

module _ {S : Type 0} where
  -- The loop over the handlers, which goes on behind the answer that a pair is unknown; `finish` is the
  -- answer for a handler that is not there.
  unfoldable pub run_handlers :
      List (Option (Handler S)) → Answer → List ℕ → ℕ → List ℕ → S → Answer × S
  run_handlers [] finish key key_len val s = (unknown, s)
  run_handlers (h ∷ hs) finish key key_len val s =
      let (finish', s') : Answer × S = elim h [
        | none ↦ (finish, s)
        | some handle ↦ handle s key key_len val
      ] in
      elim finish' [
        | ok ↦ (ok, s')
        | refused ↦ (refused, s')
        | unknown ↦ run_handlers hs unknown key key_len val s'
      ]

  abbrev pub answered : Answer → Parser S → Parser S
  answered ok p = record p { state = more; config_ok = true }
  answered refused p = record p { state = error }
  answered unknown p = p

  abbrev pub clear : Parser S → Parser S
  clear p = record p { state = reading_key; key = zeros; key_len = 0; val = zeros; val_len = 0 }

  abbrev pub read_key : ℕ → Parser S → Parser S
  read_key c p =
      if c == b'='
      then record p { state = reading_val }
      else if c == b'&'
      then record p { state = error }
      else if leb p.key_len parse_post_max_pos
      then record p { key = set p.key p.key_len c; key_len = p.key_len + 1 }
      else record p { state = error }

module _ {S : Type 0} (handlers : List (Option (Handler S))) where
  -- A pair has been read. The loop starts with 1 for `finish`, which is also the answer for accepted.
  unfoldable pub finish_pair : Parser S → Parser S
  finish_pair p =
      let escaped = string (url_unescape p.val p.val_len parse_post_buf_sizes).0 in
      let (answer, s) = run_handlers handlers ok (string p.key) p.key_len escaped p.config in
      answered answer (record p { val_len = length escaped; config = s })

  -- `last` says that this is the last character of the last chunk.
  abbrev pub read_val : ℕ → Bool → Parser S → Parser S
  read_val c last p =
      let longer = record p { val = set p.val p.val_len c; val_len = p.val_len + 1 } in
      if c == b'&'
      then finish_pair p
      else if c == b'='
      then record p { state = error }
      else if leb p.val_len parse_post_max_pos
      then (if last then finish_pair longer else longer)
      else record p { state = error }

  -- The switch over the state.
  abbrev pub parse_in : State → ℕ → Bool → Parser S → Parser S
  parse_in init c last p = read_key c (clear p)
  parse_in more c last p = read_key c (clear p)
  parse_in reading_key c last p = read_key c p
  parse_in reading_val c last p = read_val c last p
  parse_in error c last p = p

  unfoldable pub parse_char : ℕ → Bool → Parser S → Parser S
  parse_char c last p = parse_in p.state c last p

  unfoldable pub parse_post_request_chunk : List ℕ → Bool → Parser S → Parser S
  parse_post_request_chunk [] last_chunk p = p
  parse_post_request_chunk (c ∷ cs) last_chunk p =
      parse_post_request_chunk cs last_chunk (parse_char c (last_chunk && is_end cs) p)
