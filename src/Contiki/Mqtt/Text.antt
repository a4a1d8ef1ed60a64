-- ===== src/Contiki/Mqtt/Text.antt =====
-- C strings as lists of character codes, and the conversions of `snprintf` that mqtt-demo.c uses.
use Prim.Native.Char.{code}
use Prim.Native.String.{String}
use nsdscourse.Base.{
  ℕ, zero, suc, ◌+◌, ◌/◌, ◌%◌, ◌≤◌, ◌<◌, ◌≡◌, List, [], ◌∷◌, ◌++◌, arith, length, length-append,
  ltb, ◌==◌, if◌then◌else◌,
}

abbrev pub codes : String → List ℕ
codes String.[] = []
codes (String.◌∷◌ c s) = code c ∷ codes s

-- A hexadecimal digit, in lower case.
unfoldable pub hex_digit : ℕ → ℕ
hex_digit d = if ltb d 10 then 48 + d else 87 + d

-- `%x` of a 16-bit number: no leading zeros.
unfoldable pub hex : ℕ → List ℕ
hex a =
    if ltb a 16
    then hex_digit a ∷ []
    else if ltb a 256
    then hex_digit (a / 16) ∷ hex_digit (a % 16) ∷ []
    else if ltb a 4096
    then hex_digit (a / 256) ∷ hex_digit (a / 16 % 16) ∷ hex_digit (a % 16) ∷ []
    else hex_digit (a / 4096)
      ∷ hex_digit (a / 256 % 16)
      ∷ hex_digit (a / 16 % 16)
      ∷ hex_digit (a % 16)
      ∷ []

-- `%02x` of a byte.
unfoldable pub hex_byte : ℕ → List ℕ
hex_byte b = hex_digit (b / 16) ∷ hex_digit (b % 16) ∷ []

-- `%d` of a number that has at most `suc places` digits.
unfoldable pub decimal : ℕ → ℕ → List ℕ
decimal zero n = (48 + n % 10) ∷ []
decimal (suc places) n =
    let front = decimal places (n / 10) in
    if ltb n 10 then (48 + n) ∷ [] else front ++ ((48 + n % 10) ∷ [])

-- How often a character stands in a text.
abbrev pub count_char : ℕ → List ℕ → ℕ
count_char c [] = 0
count_char c (x ∷ xs) = (if x == c then 1 else 0) + count_char c xs

pub count_char-append :
    (c : ℕ) (xs ys : List ℕ) → count_char c (xs ++ ys) ≡ count_char c xs + count_char c ys
count_char-append c [] ys = omega arith
count_char-append c (x ∷ xs) ys = omega (arith, count_char-append c xs ys)

-- A hexadecimal number has one to four digits.
pub length-hex : (a : ℕ) → (1 ≤ length (hex a)) × (length (hex a) ≤ 4)
unfolding hex
length-hex a = ground arith

pub length-decimal : (places n : ℕ) → length (decimal places n) ≤ suc places
unfolding decimal
length-decimal zero n = omega arith
length-decimal (suc places) n = ground (
  arith,
  length-decimal places (n / 10),
  length-append (decimal places (n / 10)) ((48 + n % 10) ∷ []),
)

hex_digit-le : (d : ℕ) → d < 16 → hex_digit d ≤ 102
unfolding hex_digit
hex_digit-le d h = ground arith

-- Neither kind of digit is a brace.
pub count_char-hex : (c a : ℕ) → 122 < c → a < 65536 → count_char c (hex a) ≡ 0
unfolding hex
count_char-hex c a h k = ground (
  arith,
  hex_digit-le a,
  hex_digit-le (a / 16),
  hex_digit-le (a / 256),
  hex_digit-le (a / 4096) (omega arith),
  hex_digit-le (a % 16) (omega arith),
  hex_digit-le (a / 16 % 16) (omega arith),
  hex_digit-le (a / 256 % 16) (omega arith),
)

pub count_char-decimal : (c places n : ℕ) → 122 < c → count_char c (decimal places n) ≡ 0
unfolding decimal
count_char-decimal c zero n h = ground arith
count_char-decimal c (suc places) n h = ground (
  arith,
  count_char-decimal c places (n / 10) h,
  count_char-append c (decimal places (n / 10)) ((48 + n % 10) ∷ []),
)
