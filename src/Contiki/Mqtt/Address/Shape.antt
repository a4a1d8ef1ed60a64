-- ===== src/Contiki/Mqtt/Address/Shape.antt =====
-- The loop of `ipaddr_sprintf` when the buffer is large enough: nothing is cut off.
use nsdscourse.Base.{
  ℕ, zero, suc, ◌+◌, ◌-◌, ◌*◌, ◌≤◌, ◌<◌, ◌≡◌, refl, ap, ◌∙◌, Bool, true, false, List, [], ◌∷◌, ◌++◌,
  append_assoc, append-nil, arith, length, length-append, take,
}
use nsdscourse.Contiki.Mqtt.Text.{codes, hex, length-hex}
use nsdscourse.Contiki.Mqtt.Address.{
  Buffer, print, Zeros, not_yet, inside, past, print_zero, print_separator, after_group,
  print_groups,
}

-- The buffer holds just the text, and `s` is put behind it.
abbrev pub behind : Buffer → List ℕ → Buffer
behind b s = record { text = b.text ++ s; len = b.len + length s }

abbrev pub IsTight : Buffer → Type 0
IsTight b = b.len ≡ length b.text

take-all : (n : ℕ) (s : List ℕ) → length s ≤ n → take n s ≡ s
take-all zero [] h = refl
take-all zero (x ∷ s) h = absurd (omega arith)
take-all (suc n) [] h = refl
take-all (suc n) (x ∷ s) h = ap (λ r. x ∷ r) (take-all n s (omega arith))

-- What fits is not cut off.
print-behind :
    (buf_len : ℕ) (b : Buffer) (s : List ℕ)
    → IsTight b
    → b.len + length s < buf_len
    → buf_len ≤ 256
    → print buf_len b s ≡ behind b s
unfolding print
print-behind buf_len b s t h k =
    ground
      (arith, take-all b.len b.text (omega arith), take-all (buf_len - b.len - 1) s (omega arith))

abbrev pub separator : Zeros → Bool → List ℕ
separator inside first = []
separator _ true = []
separator _ false = codes ":"

-- The text that the loop prints when nothing is cut off.
abbrev pub printed : Zeros → Bool → List ℕ → List ℕ
printed f first [] = []
printed not_yet first (zero ∷ gs) = codes "::" ++ printed inside false gs
printed inside first (zero ∷ gs) = printed inside false gs
printed f first (a ∷ gs) = (separator f first ++ hex a) ++ printed (after_group f) false gs

-- The room that `::` may still take.
abbrev pub spare : Zeros → ℕ
spare not_yet = 2
spare _ = 0

IsTight-behind : (b : Buffer) (s : List ℕ) → IsTight b → IsTight (behind b s)
IsTight-behind b s t = omega (arith, length-append b.text s)

behind-behind : (b : Buffer) (s r : List ℕ) → behind (behind b s) r ≡ behind b (s ++ r)
behind-behind b s r = ground (arith, append_assoc b.text s r, length-append s r)

length-separator : (f : Zeros) (first : Bool) → length (separator f first) ≤ 1
length-separator inside first = omega arith
length-separator not_yet true = omega arith
length-separator not_yet false = omega arith
length-separator past true = omega arith
length-separator past false = omega arith

length-group : (f : Zeros) (first : Bool) (a : ℕ) → length (separator f first ++ hex a) ≤ 5
length-group f first a =
    omega (arith, length-append (separator f first) (hex a), length-separator f first, length-hex a)

module _ (buf_len : ℕ) (small : buf_len ≤ 256) where
  separator-behind :
      (b : Buffer) (f : Zeros) (first : Bool)
      → IsTight b
      → b.len + 1 < buf_len
      → print_separator buf_len b f first ≡ behind b (separator f first)
  unfolding print_separator
  separator-behind b inside first t h = ground (arith, append-nil b.text)
  separator-behind b not_yet true t h = ground (arith, append-nil b.text)
  separator-behind b past true t h = ground (arith, append-nil b.text)
  separator-behind b not_yet false t h = print-behind buf_len b (codes ":") t h small
  separator-behind b past false t h = print-behind buf_len b (codes ":") t h small

  group-behind :
      (b : Buffer) (f : Zeros) (first : Bool) (a : ℕ)
      → IsTight b
      → b.len + 5 < buf_len
      → print buf_len (print_separator buf_len b f first) (hex a)
        ≡ behind b (separator f first ++ hex a)
  group-behind b f first a t h = rw (separator-behind b f first t (omega arith)) (
      print-behind buf_len (behind b (separator f first)) (hex a)
        (IsTight-behind b (separator f first) t)
        (omega (arith, length-separator f first, length-hex a)) small
      ∙ behind-behind b (separator f first) (hex a))

  -- A step of the proof below: a piece `s` is printed, and the rest `r` follows.
  glue :
      (b : Buffer) (s r : List ℕ) (result : Buffer → Buffer) (b' : Buffer)
      → b' ≡ behind b s
      → result (behind b s) ≡ behind (behind b s) r
      → result b' ≡ behind b (s ++ r)
  glue b s r result b' e h = ap result e ∙ h ∙ behind-behind b s r

  pub print_groups-printed :
      (b : Buffer) (f : Zeros) (first : Bool) (gs : List ℕ)
      → IsTight b
      → b.len + 5 * length gs + spare f < buf_len
      → print_groups buf_len b f first gs ≡ behind b (printed f first gs)
  unfolding print_groups print_zero
  print_groups-printed b f first [] t h = ground (arith, append-nil b.text)
  print_groups-printed b not_yet first (zero ∷ gs) t h =
      let colons = codes "::" in
      glue b colons (printed inside false gs) (λ c. print_groups buf_len c inside false gs)
        (print buf_len b colons) (print-behind buf_len b colons t (omega arith) small)
        (print_groups-printed (behind b colons) inside false gs (IsTight-behind b colons t)
          (omega arith))
  print_groups-printed b inside first (zero ∷ gs) t h =
      print_groups-printed b inside false gs t (omega arith)
  print_groups-printed b past first (zero ∷ gs) t h =
      let s = separator past first ++ hex 0 in
      glue b s (printed past false gs) (λ c. print_groups buf_len c past false gs) _
        (group-behind b past first 0 t (omega arith))
        (print_groups-printed (behind b s) past false gs (IsTight-behind b s t)
          (omega (arith, length-group past first 0)))
  print_groups-printed b not_yet first (suc a ∷ gs) t h =
      let s = separator not_yet first ++ hex (suc a) in
      glue b s (printed not_yet false gs) (λ c. print_groups buf_len c not_yet false gs) _
        (group-behind b not_yet first (suc a) t (omega arith))
        (print_groups-printed (behind b s) not_yet false gs (IsTight-behind b s t)
          (omega (arith, length-group not_yet first (suc a))))
  print_groups-printed b inside first (suc a ∷ gs) t h =
      let s = separator inside first ++ hex (suc a) in
      glue b s (printed past false gs) (λ c. print_groups buf_len c past false gs) _
        (group-behind b inside first (suc a) t (omega arith))
        (print_groups-printed (behind b s) past false gs (IsTight-behind b s t)
          (omega (arith, length-group inside first (suc a))))
  print_groups-printed b past first (suc a ∷ gs) t h =
      let s = separator past first ++ hex (suc a) in
      glue b s (printed past false gs) (λ c. print_groups buf_len c past false gs) _
        (group-behind b past first (suc a) t (omega arith))
        (print_groups-printed (behind b s) past false gs (IsTight-behind b s t)
          (omega (arith, length-group past first (suc a))))
