-- ===== src/Examples/WebDemo/Server/Input.antt =====
-- handle_input of httpd-simple.c, what handle_output answers, and appcall.
use nsdscourse.Base.{
  ℕ, ◌-◌, not, ◌&&◌, Option, some, List, take, drop, length, get_or, ltb, ◌==◌, if◌then◌else◌,
}
use nsdscourse.Contiki.Mqtt.Text.{codes}
use nsdscourse.Examples.Texts.{string}
use nsdscourse.Examples.WebDemo.Form.{Handler, parse_post_request_chunk}
use nsdscourse.Examples.WebDemo.Server.{
  ℤ, pos, minus, is_zero, starts_with, strncpy, path_length, get, post, code_ok, code_br, code_lr,
  Point, method, get_path, post_path, rest_of_line, header, body, output, exited, Connection,
  Shared, is_error, while_body, end_headers,
}

abbrev pub http_get : List ℕ
http_get = codes "GET "

abbrev pub http_post : List ℕ
http_post = codes "POST "

abbrev pub http_index_html : List ℕ
http_index_html = codes "/index.html"

abbrev pub content_length_name : List ℕ
content_length_name = codes "Content-Length:"

-- A path, less its last character, which is the space behind it.
abbrev pub path_of : List ℕ → List ℕ
path_of input = strncpy (take (length input - 1) input) path_length

abbrev pub read_header : (List ℕ → ℤ) → List ℕ → Connection → Connection
read_header atoi input c =
    if ltb 14 (length input) && starts_with input content_length_name
    then record c { content_length = atoi (string (drop 15 input)); return_code = code_ok }
    else c

abbrev pub read_method : List ℕ → Connection → Connection
read_method input c =
    if starts_with input http_get
    then record c { request_type = some get; point = get_path }
    else if starts_with input http_post
    then record c { request_type = some post; point = post_path }
    else record c { point = exited }

abbrev pub read_get_path : List ℕ → Connection → Connection
read_get_path input c =
    if not (get_or input 0 0 == b'/')
    then record c { point = exited }
    else if get_or input 1 0 == b' '
    then record c { filename = strncpy http_index_html path_length; point = output }
    else record c { filename = path_of input; point = output }

abbrev pub read_post_path : List ℕ → Connection → Connection
read_post_path input c =
    if not (get_or input 0 0 == b'/')
    then record c { point = exited }
    else record c { filename = path_of input; point = rest_of_line }

module _ {S : Type 0} (handlers : List (Option (Handler S))) where
  abbrev pub parse_body : List ℕ → Connection → Shared S → Connection × Shared S
  parse_body input c sh =
      let left = minus c.content_length (length input) in
      let parser = parse_post_request_chunk handlers input (is_zero left) sh.parser in
      let code = if is_error parser.state then code_br else c.return_code in
      (record c { content_length = left; return_code = code }, record sh { parser = parser })

  abbrev pub read_body : ℕ → List ℕ → Connection → Shared S → Connection × Shared S
  read_body slot input c sh = let (c', sh') = parse_body input c sh in while_body slot c' sh'

module _ {S : Type 0} (atoi : List ℕ → ℤ) (handlers : List (Option (Handler S))) where
  -- From one read to the next; the loop over the headers looks at the rest of the request line as well.
  abbrev pub input_at : Point → ℕ → List ℕ → Connection → Shared S → Connection × Shared S
  input_at method slot input c sh = (read_method input c, sh)
  input_at get_path slot input c sh = (read_get_path input c, sh)
  input_at post_path slot input c sh = (read_post_path input c, sh)
  input_at rest_of_line slot input c sh = (
    read_header atoi input
        (record c { content_length = pos 0; return_code = code_lr; point = header }),
    sh,
  )
  input_at header slot input c sh =
      if length input == 2 then end_headers slot c sh else (read_header atoi input c, sh)
  input_at body slot input c sh = read_body handlers slot input c sh
  input_at output slot input c sh = (c, sh)
  input_at exited slot input c sh = (c, sh)

  unfoldable pub handle_input : ℕ → List ℕ → Connection → Shared S → Connection × Shared S
  handle_input slot input c sh = input_at c.point slot input c sh
