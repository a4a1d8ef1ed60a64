-- ===== src/Examples/WebDemo/Readings/Written.antt =====
-- What print_mpu_reading of cc26xx-web-demo.c writes, read again as a number of hundredths.
use nsdscourse.Base.{
  ℕ, zero, suc, ◌+◌, ◌-◌, ◌*◌, ◌/◌, ◌%◌, ◌^◌, ◌<◌, ◌≤◌, ◌≡◌, refl, ap, sym, ◌∙◌, Bool-cases, inl,
  inr, true, false, ◌&&◌, List, [], ◌∷◌, ◌++◌, append_assoc, append-nil, drop, get_or, leb, ltb,
  ◌==◌, if◌then◌else◌, arith,
}
use nsdscourse.Contiki.Mqtt.Text.{decimal}
use nsdscourse.Examples.WebDemo.Escape.{is_digit}
use nsdscourse.Examples.WebDemo.Server.{ℤ, pos, negsuc}
use nsdscourse.Examples.WebDemo.Readings.{two_digits, minus_of, print_mpu_reading}

-- A number behind the digits that have been read, and the text behind it.
unfoldable pub number : ℕ → List ℕ → ℕ × List ℕ
number n [] = (n, [])
number n (c ∷ cs) =
    let longer = number (n * 10 + (c - 48)) cs in if is_digit c then longer else (n, c ∷ cs)

unfoldable pub unsigned : List ℕ → ℕ
unsigned text = let (whole, behind) = number 0 text in whole * 100 + (number 0 (drop 1 behind)).0

-- A text such as `-1.50`.
abbrev pub read_hundredths : List ℕ → ℤ
read_hundredths text =
    if get_or text 0 0 == b'-' then minus_of (unsigned (drop 1 text)) else pos (unsigned text)

-- The numbers of at most `suc places` digits.
unfoldable limit : ℕ → ℕ
limit zero = 10
limit (suc places) = 10 * limit places

number-digit : (n d : ℕ) (cs : List ℕ) → d < 10 → number n ((48 + d) ∷ cs) ≡ number (n * 10 + d) cs
unfolding number
number-digit n d cs h =
    let digit : (leb 48 (48 + d) && leb (48 + d) 57) ≡ true = ground (arith, h) in
    let value : 48 + d - 48 ≡ d = omega arith in rw (digit, value) refl

number-decimal :
    (places n : ℕ) (rest : List ℕ)
    → n < limit places
    → number 0 (decimal places n ++ rest) ≡ number n rest
unfolding decimal limit
number-decimal zero n rest h =
    let value : 0 * 10 + n % 10 ≡ n = omega (arith, h) in
    number-digit 0 (n % 10) rest (omega arith) ∙ ap (λ m. number m rest) value
number-decimal (suc places) n rest h = elim (Bool-cases (ltb n 10)) [
  | inl small ↦
      let value : 0 * 10 + n ≡ n = omega arith in
      rw small (number-digit 0 n rest (ground (arith, small)) ∙ ap (λ m. number m rest) value)
  | inr large ↦
      let value : n / 10 * 10 + n % 10 ≡ n = omega arith in
      rw large (
        ap (number 0) (append_assoc (decimal places (n / 10)) ((48 + n % 10) ∷ []) rest)
        ∙ number-decimal places (n / 10) ((48 + n % 10) ∷ rest) (omega (arith, h))
        ∙ number-digit (n / 10) (n % 10) rest (omega arith)
        ∙ ap (λ m. number m rest) value)
]

head-decimal : (places n : ℕ) (rest : List ℕ) → 48 ≤ get_or (decimal places n ++ rest) 0 0
unfolding decimal
head-decimal zero n rest = omega arith
head-decimal (suc places) n rest = elim (Bool-cases (ltb n 10)) [
  | inl small ↦ rw small (omega arith)
  | inr large ↦
      rw (large, append_assoc (decimal places (n / 10)) ((48 + n % 10) ∷ []) rest)
        (head-decimal places (n / 10) ((48 + n % 10) ∷ rest))
]

number-end : (n : ℕ) → number n [] ≡ (n, [])
unfolding number
number-end n = refl

number-dot : (n : ℕ) (cs : List ℕ) → number n (b'.' ∷ cs) ≡ (n, b'.' ∷ cs)
unfolding number
number-dot n cs = refl

below-limit : (n : ℕ) → n < 10 ^ 10 → n < limit 9
unfolding limit
below-limit n h = h

number-two_digits : (k : ℕ) → k < 100 → (number 0 (two_digits (pos k))).0 ≡ k
number-two_digits k h = elim (Bool-cases (ltb k 10)) [
  | inl small ↦
      rw small (ap (λ (r : ℕ × List ℕ). r.0) (number-digit 0 0 (decimal 9 k) (omega arith)) ∙ plain)
  | inr large ↦ rw large plain
]
  where
    plain : (number 0 (decimal 9 k)).0 ≡ k
    plain =
        ap (λ d. (number 0 d).0) (sym (append-nil (decimal 9 k)))
        ∙ ap (λ (r : ℕ × List ℕ). r.0)
            (number-decimal 9 k [] (below-limit k (omega (arith, h))) ∙ number-end k)

unsigned-hundredths :
    (n : ℕ)
    → n < 10 ^ 10
    → unsigned (decimal 9 (n / 100) ++ (b'.' ∷ two_digits (pos (n % 100)))) ≡ n
unfolding unsigned
unsigned-hundredths n h =
    let part = two_digits (pos (n % 100)) in
    let whole =
      number-decimal 9 (n / 100) (b'.' ∷ part) (below-limit (n / 100) (omega (arith, h)))
      ∙ number-dot (n / 100) part in
    let value : n / 100 * 100 + n % 100 ≡ n = omega arith in
    ap (λ (r : ℕ × List ℕ). r.0 * 100 + (number 0 (drop 1 r.1)).0) whole
    ∙ ap (λ k. n / 100 * 100 + k) (number-two_digits (n % 100) (omega arith))
    ∙ value

-- The numbers of an `int`.
abbrev pub IsInt : ℤ → Type 0
IsInt (pos n) = n < 2 ^ 31
IsInt (negsuc n) = n < 2 ^ 31 - 1

-- The text of a reading of the motion sensor, read as a sign, a whole number, a point and the hundredths, is
-- the reading, for each `int` but the least.
pub print_mpu_reading-read : (r : ℤ) → IsInt r → read_hundredths (print_mpu_reading r) ≡ r
unfolding print_mpu_reading
print_mpu_reading-read (pos n) h =
    let text = print_mpu_reading (pos n) in
    let digit : (get_or text 0 0 == b'-') ≡ false =
      ground (arith, head-decimal 9 (n / 100) (b'.' ∷ two_digits (pos (n % 100)))) in
    ap (λ b. if b then minus_of (unsigned (drop 1 text)) else pos (unsigned text)) digit
    ∙ ap pos (unsigned-hundredths n (omega (arith, h)))
print_mpu_reading-read (negsuc n) h =
    let suc-zero : (suc n == 0) ≡ false = ground arith in
    let minus_one : suc n - 1 ≡ n = omega arith in
    ap minus_of (unsigned-hundredths (suc n) (omega (arith, h)))
    ∙ ap (λ b. if b then pos 0 else negsuc (suc n - 1)) suc-zero
    ∙ ap negsuc minus_one
