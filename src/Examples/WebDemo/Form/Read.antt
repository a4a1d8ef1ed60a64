-- ===== src/Examples/WebDemo/Form/Read.antt =====
-- How parse_post_request_chunk of httpd-simple.c reads the key and the value of one pair.
use nsdscourse.Base.{
  ℕ, suc, ◌+◌, ◌-◌, ◌/◌, ◌%◌, ◌<◌, ◌≤◌, ◌≡◌, refl, ap, ap₂, sym, ◌∙◌, Bool, Bool-cases, true, false,
  Option, List, [], ◌∷◌, ◌++◌, append_assoc, length, length-append, length-snoc, set, replicate,
  leb, ◌==◌, if◌then◌else◌, arith, All, All-append, inl, inr,
}
use nsdscourse.Examples.Texts.{string, is_text, string-text, set-append}
use nsdscourse.Examples.WebDemo.Escape.RoundTrip.{escape, escape_char, is_plain, escape_digit}
use nsdscourse.Examples.WebDemo.Form.{
  Parser, reading_key, reading_val, Handler, read_key, read_val, finish_pair,
}
use nsdscourse.Examples.WebDemo.Form.Pairs.{is_inner}

-- A text in a buffer, with zeros behind it.
abbrev pub padded : List ℕ → List ℕ
padded cs = cs ++ replicate (64 - length cs) 0

room_above : (n : ℕ) → n < 64 → 64 - n ≡ suc (64 - (n + 1))
room_above n h = omega arith

set-padded :
    (cs : List ℕ) (c : ℕ) → length cs < 64 → set (padded cs) (length cs) c ≡ padded (cs ++ (c ∷ []))
set-padded cs c h =
    ap (λ n. set (cs ++ replicate n 0) (length cs) c) (room_above (length cs) h)
    ∙ set-append cs (replicate (64 - (length cs + 1)) 0) 0 c
    ∙ sym (append_assoc cs (c ∷ []) (replicate (64 - (length cs + 1)) 0))
    ∙ ap (λ n. (cs ++ (c ∷ [])) ++ replicate (64 - n) 0) (sym (length-snoc cs c))

pub string-padded : (cs : List ℕ) → length cs < 64 → is_text cs ≡ true → string (padded cs) ≡ cs
string-padded cs h k =
    ap (λ n. string (cs ++ replicate n 0)) (room_above (length cs) h)
    ∙ string-text cs (replicate (64 - (length cs + 1)) 0) k

pub string_text : (cs : List ℕ) → is_text cs ≡ true → string cs ≡ cs
unfolding string
string_text [] h = refl
string_text (c ∷ cs) h = ground (arith, string_text cs)

is_inner-escape_digit : (d : ℕ) → d < 16 → is_inner (escape_digit d) ≡ true
is_inner-escape_digit d h = ground arith

is_inner-plain : (c : ℕ) → is_plain c ≡ true → is_inner c ≡ true
is_inner-plain c h = ground (arith, h)

is_inner-escape_char : (c : ℕ) → c < 256 → All (λ d. is_inner d ≡ true) (escape_char c)
is_inner-escape_char c h =
    let high = is_inner-escape_digit (c / 16) (omega arith) in
    let low = is_inner-escape_digit (c % 16) (omega arith) in
    elim (Bool-cases (c == b' ')) [
      | inl blank ↦ rw blank (refl, tt)
      | inr char ↦ elim (Bool-cases (is_plain c)) [
        | inl plain ↦ rw (char, plain) (is_inner-plain c plain, tt)
        | inr other ↦ rw (char, other) (refl, (high, (low, tt)))
      ]
    ]

pub is_inner-escape :
    (cs : List ℕ) → All (λ c. c < 256) cs → All (λ d. is_inner d ≡ true) (escape cs)
unfolding escape
is_inner-escape [] h = tt
is_inner-escape (c ∷ cs) h =
    All-append _ (escape_char c) (escape cs) (is_inner-escape_char c h.0) (is_inner-escape cs h.1)

length-escape_char : (c : ℕ) → 1 ≤ length (escape_char c)
length-escape_char c = ground arith

pub length-escape : (cs : List ℕ) → length cs ≤ length (escape cs)
unfolding escape
length-escape [] = omega arith
length-escape (c ∷ cs) =
    omega (arith, length-append (escape_char c) (escape cs), length-escape_char c, length-escape cs)

-- The parser with a key, or with a key and a value, in its buffers.
module _ {S : Type 0} where
  abbrev pub in_key : List ℕ → Parser S → Parser S
  in_key k p = record p {
    state = reading_key;
    key = padded k;
    key_len = length k;
    val = padded [];
    val_len = 0;
  }

  abbrev pub in_val : List ℕ → List ℕ → Parser S → Parser S
  in_val k v p = record p {
    state = reading_val;
    key = padded k;
    key_len = length k;
    val = padded v;
    val_len = length v;
  }

  pub read_key-inner :
      (k : List ℕ) (c : ℕ) (p : Parser S)
      → length k < 63
      → is_inner c ≡ true
      → read_key c (in_key k p) ≡ in_key (k ++ (c ∷ [])) p
  read_key-inner k c p h i =
      let not_equal : (c == b'=') ≡ false = ground (arith, i) in
      let not_amp : (c == b'&') ≡ false = ground (arith, i) in
      let fits : leb (length k) 62 ≡ true = ground (arith, h) in
      rw (not_equal, not_amp, fits)
        (ap₂ (λ (buffer : List ℕ) (used : ℕ). record (in_key k p) { key = buffer; key_len = used })
          (set-padded k c (omega (arith, h))) (sym (length-snoc k c)))

module _ {S : Type 0} (handlers : List (Option (Handler S))) where
  pub read_val-inner :
      (k v : List ℕ) (c : ℕ) (last : Bool) (p : Parser S)
      → length v < 63
      → is_inner c ≡ true
      → read_val handlers c last (in_val k v p) ≡ (
          if last
          then finish_pair handlers (in_val k (v ++ (c ∷ [])) p)
          else in_val k (v ++ (c ∷ [])) p)
  read_val-inner k v c last p h i =
      let not_equal : (c == b'=') ≡ false = ground (arith, i) in
      let not_amp : (c == b'&') ≡ false = ground (arith, i) in
      let fits : leb (length v) 62 ≡ true = ground (arith, h) in
      let longer =
        ap₂ (λ (buffer : List ℕ) (used : ℕ). record (in_val k v p) { val = buffer; val_len = used })
          (set-padded v c (omega (arith, h))) (sym (length-snoc v c)) in
      rw (not_amp, not_equal, fits) (ap (λ q. if last then finish_pair handlers q else q) longer)
