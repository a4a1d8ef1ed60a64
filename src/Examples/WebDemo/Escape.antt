-- ===== src/Examples/WebDemo/Escape.antt =====
-- url_unescape of httpd-simple.c. Characters are bytes, and a source is its memory from the position
-- that is read on.
pub mod RoundTrip
use nsdscourse.Base.{
  ℕ, zero, suc, ◌+◌, ◌-◌, ◌*◌, ◌%◌, Bool, true, false, ◌&&◌, ◌||◌, List, [], ◌∷◌, leb, ltb, ◌==◌,
  if◌then◌else◌, get_or, drop,
}

-- isxdigit and isdigit of the C library.
abbrev pub is_digit : ℕ → Bool
is_digit c = leb b'0' c && leb c b'9'

abbrev pub is_xdigit : ℕ → Bool
is_xdigit c = is_digit c || ((leb b'A' c && leb c b'F') || (leb b'a' c && leb c b'f'))

-- tolower of the C library.
abbrev pub to_lower : ℕ → ℕ
to_lower c = if leb b'A' c && leb c b'Z' then c + 32 else c

-- HEX_TO_INT
abbrev pub hex_to_int : ℕ → ℕ
hex_to_int x = if is_digit x then x - b'0' else x - b'W'

abbrev pub is_escape : ℕ → List ℕ → Bool
is_escape c src = (c == b'%') && (is_xdigit (get_or src 0 0) && is_xdigit (get_or src 1 0))

-- The characters of an escape behind the first.
abbrev pub skip : ℕ → List ℕ → ℕ
skip c src = if is_escape c src then 2 else 0

-- What is written for a character.
abbrev pub unescaped : ℕ → List ℕ → ℕ
unescaped c src =
    if is_escape c src
    then (hex_to_int (to_lower (get_or src 0 0)) * 16 + hex_to_int (to_lower (get_or src 1 0)))
      % 256
    else if c == b'+'
    then b' '
    else c

-- The loop with `left` for `srclen - i` and `room` for `dstlen - 1 - j`: what is written from `dst[j]`
-- on, before the final zero, and whether `i` ends at `srclen`.
unfoldable pub unescape : ℕ → List ℕ → ℕ → List ℕ × Bool
unescape zero src left = ([], left == 0)
unescape (suc room) [] left = ([], left == 0)
unescape (suc room) (c ∷ src) zero = ([], true)
unescape (suc room) (c ∷ src) (suc left) =
    let skipped = skip c src in
    let (behind, whole) = unescape room (drop skipped src) (left - skipped) in
    (unescaped c src ∷ behind, leb skipped left && whole)

abbrev pub url_unescape : List ℕ → ℕ → ℕ → List ℕ × Bool
url_unescape src srclen dstlen = unescape (dstlen - 1) src srclen
