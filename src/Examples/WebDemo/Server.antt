-- ===== src/Examples/WebDemo/Server.antt =====
-- The connections of httpd-simple.c: handle_input, which reads a request, the lock of the parser of
-- bodies, and appcall, which hands the events of the network to the connections. Every completed read
-- of a protosocket is one call, with the text that was read.
pub mod Input
pub mod Events
pub mod Lock
pub mod Exclusive
pub mod Held
pub mod Post
pub mod Submit
pub mod Kept
use nsdscourse.Base.{
  ℕ, suc, ◌+◌, ◌-◌, Bool, true, false, not, ◌&&◌, Option, none, some, List, [], ◌∷◌, ◌++◌, take,
  drop, length, replicate, get_or, set, leb, ltb, ◌==◌, if◌then◌else◌,
}
use nsdscourse.Examples.Texts.{string}
use nsdscourse.Examples.WebDemo.Escape.{to_lower}
use nsdscourse.Examples.WebDemo.Form.{
  Parser, State, init, more, reading_key, reading_val, error, Handler, parse_post_request_chunk,
}

-- An `int` of C.
pub data ℤ : Type 0 where
  pos : ℕ → ℤ
  negsuc : ℕ → ℤ

abbrev pub minus : ℤ → ℕ → ℤ
minus (pos n) m = if leb m n then pos (n - m) else negsuc (m - n - 1)
minus (negsuc n) m = negsuc (n + m)

abbrev pub is_zero : ℤ → Bool
is_zero (pos n) = n == 0
is_zero (negsuc n) = false

abbrev pub exceeds : ℤ → ℕ → Bool
exceeds (pos n) m = ltb m n
exceeds (negsuc n) m = false

-- strncasecmp of the C library against a text: it ends with the text.
unfoldable pub starts_with : List ℕ → List ℕ → Bool
starts_with input [] = true
starts_with [] (c ∷ text) = false
starts_with (d ∷ input) (c ∷ text) = (to_lower d == to_lower c) && starts_with input text

abbrev pub content_length_max : ℕ
content_length_max = 256

-- HTTPD_PATHLEN
abbrev pub path_length : ℕ
path_length = 16

-- strncpy into an array of a length.
abbrev pub strncpy : List ℕ → ℕ → List ℕ
strncpy text n = take n (string text ++ replicate n 0)

pub data RequestType : Type 0 where
  get post : RequestType

pub data ReturnCode : Type 0 where
  code_ok code_nf code_su code_br code_lr code_tl : ReturnCode

-- Where handle_input waits for a read: for the method, the path of a GET or POST, the rest of the
-- request line, a header, a part of the body, or, with the answer on its way, for anything; or it has
-- closed the connection.
pub data Point : Type 0 where
  method get_path post_path rest_of_line header body output exited : Point

-- The fields of `struct httpd_state` that handle_input uses.
pub record Connection : Type 0 where
  pub point : Point
  pub request_type : Option RequestType
  pub filename : List ℕ
  pub content_length : ℤ
  pub return_code : ReturnCode

-- What the connections share: the slot that `lock` points to, the parser, and how many times the event
-- for a new configuration was posted.
pub record Shared (S : Type 0) : Type 0 where
  pub lock : Option ℕ
  pub parser : Parser S
  pub posted : ℕ

abbrev pub is_ok : ReturnCode → Bool
is_ok code_ok = true
is_ok _ = false

abbrev pub is_more : State → Bool
is_more more = true
is_more _ = false

abbrev pub is_error : State → Bool
is_error error = true
is_error _ = false

abbrev pub is_held : ℕ → Option ℕ → Bool
is_held slot none = false
is_held slot (some other) = other == slot

abbrev pub lock_obtain : ℕ → Option ℕ → Option ℕ
lock_obtain slot none = some slot
lock_obtain slot (some other) = some other

abbrev pub lock_release : ℕ → Option ℕ → Option ℕ
lock_release slot lock = if is_held slot lock then none else lock

abbrev pub check_length : Connection → Connection
check_length c =
    if exceeds c.content_length content_length_max
    then record c { content_length = pos 0; return_code = code_tl }
    else c

module _ {S : Type 0} where
  -- Behind the loop over the body.
  abbrev pub end_post : ℕ → Connection → Shared S → Connection × Shared S
  end_post slot c sh =
      let half = is_ok c.return_code && not (is_more sh.parser.state) in
      (
        record c { return_code = if half then code_br else c.return_code; point = output },
        record sh {
          lock = lock_release slot sh.lock;
          parser = record sh.parser { config_ok = false };
          posted = if sh.parser.config_ok then sh.posted + 1 else sh.posted;
        },
      )

  -- The loop over the body waits for a read or ends.
  abbrev pub while_body : ℕ → Connection → Shared S → Connection × Shared S
  while_body slot c sh =
      if exceeds c.content_length 0 && (is_held slot sh.lock && is_ok c.return_code)
      then (record c { point = body }, sh)
      else end_post slot c sh

  abbrev pub begin_body : ℕ → Connection → Shared S → Connection × Shared S
  begin_body slot c sh =
      let lock = lock_obtain slot sh.lock in
      if is_ok c.return_code
      then (if is_held slot lock
          then (c, record sh { lock = lock; parser = record sh.parser { state = init } })
          else (record c { return_code = code_su }, record sh { lock = lock }))
      else (c, sh)

  -- All headers have been read.
  abbrev pub end_headers : ℕ → Connection → Shared S → Connection × Shared S
  end_headers slot c sh =
      let (c', sh') = begin_body slot (check_length c) sh in while_body slot c' sh'
