-- ===== src/Examples/WebDemo/Escape/RoundTrip.antt =====
-- What a browser makes of a text, and that url_unescape of httpd-simple.c takes it back.
use nsdscourse.Base.{
  ℕ, zero, suc, ◌+◌, ◌-◌, ◌/◌, ◌%◌, ◌<◌, ◌≤◌, ◌≡◌, refl, ap, Bool, true, ◌&&◌, ◌||◌, Bool-cases,
  inl, inr, List, [], ◌∷◌, ◌++◌, length, leb, ltb, ◌==◌, if◌then◌else◌, arith, All,
}
use nsdscourse.Examples.WebDemo.Escape.{
  is_xdigit, to_lower, hex_to_int, skip, unescaped, unescape, url_unescape,
}

-- The digits of application/x-www-form-urlencoded are upper-case.
abbrev pub escape_digit : ℕ → ℕ
escape_digit d = if ltb d 10 then b'0' + d else b'A' + d - 10

-- Characters that are sent as they are.
abbrev pub is_plain : ℕ → Bool
is_plain c =
    (leb b'0' c && leb c b'9')
    || ((leb b'A' c && leb c b'Z')
        || ((leb b'a' c && leb c b'z')
            || ((c == b'*') || ((c == b'-') || ((c == b'.') || (c == b'_'))))))

abbrev pub escape_char : ℕ → List ℕ
escape_char c =
    if c == b' '
    then b'+' ∷ []
    else if is_plain c
    then c ∷ []
    else b'%' ∷ escape_digit (c / 16) ∷ escape_digit (c % 16) ∷ []

unfoldable pub escape : List ℕ → List ℕ
escape [] = []
escape (c ∷ cs) = escape_char c ++ escape cs

is_xdigit-escape_digit : (d : ℕ) → d < 16 → is_xdigit (escape_digit d) ≡ true
is_xdigit-escape_digit d h = ground arith

hex_to_int-escape_digit : (d : ℕ) → d < 16 → hex_to_int (to_lower (escape_digit d)) ≡ d
hex_to_int-escape_digit d h = ground arith

minus_zero : (n : ℕ) → n - 0 ≡ n
minus_zero n = omega arith

minus_two : (n : ℕ) → suc (suc n) - 2 ≡ n
minus_two n = omega arith

-- One character that stands for itself, and one escape.
unescape-char :
    (c : ℕ) (src : List ℕ) (left room : ℕ)
    → skip c src ≡ 0
    → unescape (suc room) (c ∷ src) (suc left)
      ≡ (unescaped c src ∷ (unescape room src left).0, (unescape room src left).1)
unfolding unescape
unescape-char c src left room h = rw (h, minus_zero left) (ground arith)

unescape_escape :
    (a b : ℕ) (src : List ℕ) (left room : ℕ)
    → is_xdigit a ≡ true
    → is_xdigit b ≡ true
    → unescape (suc room) (b'%' ∷ a ∷ b ∷ src) (suc (suc (suc left)))
      ≡ (unescaped b'%' (a ∷ b ∷ src) ∷ (unescape room src left).0, (unescape room src left).1)
unfolding unescape
unescape_escape a b src left room h k = rw (h, k, minus_two left) (ground (arith, h, k))

unescaped_escape :
    (c : ℕ) (src : List ℕ)
    → c < 256
    → unescaped b'%' (escape_digit (c / 16) ∷ escape_digit (c % 16) ∷ src) ≡ c
unescaped_escape c src h =
    rw
      (
        is_xdigit-escape_digit (c / 16) (omega arith),
        is_xdigit-escape_digit (c % 16) (omega arith),
        hex_to_int-escape_digit (c / 16) (omega arith),
        hex_to_int-escape_digit (c % 16) (omega arith),
      )
      (omega arith)

unescape-escape :
    (text rest : List ℕ) (room : ℕ)
    → All (λ c. c < 256) text
    → length text ≤ room
    → unescape room (escape text ++ rest) (length (escape text)) ≡ (text, true)
unfolding unescape escape
unescape-escape [] rest zero h fits = refl
unescape-escape [] [] (suc room) h fits = refl
unescape-escape [] (c ∷ rest) (suc room) h fits = refl
unescape-escape (c ∷ cs) rest zero h fits = ground arith
unescape-escape (c ∷ cs) rest (suc room) h fits =
    let ih = unescape-escape cs rest room h.1 (omega arith) in
    let src = escape cs ++ rest in
    let left = length (escape cs) in
    elim (Bool-cases (c == b' ')) [
      | inl blank ↦ rw (blank, unescape-char b'+' src left room (ground arith), ih) (ground arith)
      | inr char ↦ elim (Bool-cases (is_plain c)) [
        | inl plain ↦
            rw (char, plain, unescape-char c src left room (ground arith), ih) (ground arith)
        | inr other ↦
            let high = escape_digit (c / 16) in
            let low = escape_digit (c % 16) in
            let high_x = is_xdigit-escape_digit (c / 16) (omega arith) in
            let low_x = is_xdigit-escape_digit (c % 16) (omega arith) in
            let step = unescape_escape high low src left room high_x low_x in
            let value = unescaped_escape c src h.0 in
            rw (char, other, step, ih) (ap (λ (x : ℕ). (x ∷ cs, true)) value)
      ]
    ]

-- A text of bytes that fits the buffer with its final zero is what url_unescape writes for its escaped
-- form, whatever stands behind that form in memory, and the form is read to its end.
pub url_unescape-escape :
    (text rest : List ℕ) (dstlen : ℕ)
    → All (λ c. c < 256) text
    → length text < dstlen
    → url_unescape (escape text ++ rest) (length (escape text)) dstlen ≡ (text, true)
url_unescape-escape text rest dstlen h fits = unescape-escape text rest (dstlen - 1) h (omega arith)
