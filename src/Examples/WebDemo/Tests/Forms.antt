-- ===== src/Examples/WebDemo/Tests/Forms.antt =====
-- Runs and instances of the parser of forms of the CC26xx web demo.
use nsdscourse.Base.{
  ℕ, ◌+◌, ◌≡◌, refl, true, false, Option, some, List, [], ◌∷◌, ◌++◌, length, get_or, if◌then◌else◌,
  ◌==◌, arith,
}
use nsdscourse.Contiki.Mqtt.Text.{codes}
use nsdscourse.Examples.Texts.{string}
use nsdscourse.Examples.WebDemo.Escape.{unescape, url_unescape}
use nsdscourse.Examples.WebDemo.Escape.RoundTrip.{escape, url_unescape-escape}
use nsdscourse.Examples.WebDemo.Form.{
  Parser, init, ok, unknown, Handler, zeros, run_handlers, finish_pair, parse_char,
  parse_post_request_chunk,
}
use nsdscourse.Examples.WebDemo.Form.Chunks.{parse_chunks, parse_chunks-concat}
use nsdscourse.Examples.WebDemo.Form.Bounds.{IsWithin, parse_post_request_chunk-IsWithin}

abbrev sign : List ℕ
sign = codes "a+b c"

sign_escaped : escape sign ≡ codes "a%2Bb+c"
unfolding escape
sign_escaped = refl

url_unescape-escape_example :
    url_unescape (escape sign ++ codes "&x") (length (escape sign)) 64 ≡ (sign, true)
url_unescape-escape_example =
    url_unescape-escape sign (codes "&x") 64
      (omega arith, (omega arith, (omega arith, (omega arith, (omega arith, tt))))) (omega arith)

-- A handler that counts the pairs with a known key.
abbrev count : Handler ℕ
count n key key_len val = if get_or key 0 0 == b'a' then (ok, n + 1) else (unknown, n)

abbrev counting : List (Option (Handler ℕ))
counting = some count ∷ []

abbrev start : Parser ℕ
start = record {
  state = init;
  key = zeros;
  key_len = 0;
  val = zeros;
  val_len = 0;
  config_ok = false;
  config = 0;
}

two_pairs : (parse_post_request_chunk counting (codes "a=1&ab=%41") true start).config ≡ 2
unfolding parse_post_request_chunk parse_char finish_pair run_handlers unescape string
two_pairs = refl

-- The last pair of a body is not read to its end if its value is empty.
empty_last_value : (parse_post_request_chunk counting (codes "a=1&ab=") true start).config ≡ 1
unfolding parse_post_request_chunk parse_char finish_pair run_handlers unescape string
empty_last_value = refl

parse_chunks-concat_example :
    parse_chunks counting (codes "a=1&a" ∷ codes "b=2" ∷ []) start
    ≡ parse_post_request_chunk counting (codes "a=1&ab=2") true start
parse_chunks-concat_example =
    parse_chunks-concat counting (codes "a=1&a" ∷ codes "b=2" ∷ []) start (refl, (refl, tt))

start-IsWithin : IsWithin start
start-IsWithin = (
  record { size = refl; fits = omega arith; ends = refl },
  record { size = refl; fits = omega arith; ends = refl },
)

parse_post_request_chunk-IsWithin_example :
    IsWithin (parse_post_request_chunk counting (codes "a=1&ab=2") true start)
parse_post_request_chunk-IsWithin_example =
    parse_post_request_chunk-IsWithin counting (codes "a=1&ab=2") true start start-IsWithin
