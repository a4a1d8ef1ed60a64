-- ===== src/Examples/WebDemo/Form/Bounds.antt =====
-- parse_post_request_chunk of httpd-simple.c stays within its buffers.
use nsdscourse.Base.{
  ℕ, zero, suc, ◌+◌, ◌-◌, ◌<◌, ◌≤◌, ◌≡◌, refl, ◌∙◌, Bool, Bool-cases, inl, inr, true, false, Option,
  List, [], ◌∷◌, length, length-set, get_or, get_or-set_ne, set, leb, ◌==◌, if◌then◌else◌, arith,
  drop,
}
use nsdscourse.Examples.Texts.{string}
use nsdscourse.Examples.WebDemo.Escape.{unescape, url_unescape, skip}
use nsdscourse.Examples.WebDemo.Form.{
  Parser, State, init, more, reading_key, reading_val, error, Answer, ok, unknown, refused, Handler,
  zeros, parse_post_buf_sizes, parse_post_max_pos, run_handlers, finish_pair, answered, read_key,
  read_val, clear, parse_in, parse_char, parse_post_request_chunk,
}

length-unescape : (room : ℕ) (src : List ℕ) (left : ℕ) → length (unescape room src left).0 ≤ room
unfolding unescape
length-unescape zero src left = omega arith
length-unescape (suc room) [] left = omega arith
length-unescape (suc room) (c ∷ src) zero = omega arith
length-unescape (suc room) (c ∷ src) (suc left) =
    omega (arith, length-unescape room (drop (skip c src) src) (left - skip c src))

length-string : (cs : List ℕ) → length (string cs) ≤ length cs
unfolding string
length-string [] = omega arith
length-string (c ∷ cs) = ground (arith, length-string cs)

-- A buffer and a length that leaves its last byte free, which is the final zero.
pub record IsBuffer (buffer : List ℕ) (used : ℕ) : Type 0 where
  pub size : length buffer ≡ parse_post_buf_sizes
  pub fits : used < parse_post_buf_sizes
  pub ends : get_or buffer 63 0 ≡ 0

abbrev pub IsWithin : {S : Type 0} → Parser S → Type 0
IsWithin p = IsBuffer p.key p.key_len × IsBuffer p.val p.val_len

zeros-IsBuffer : IsBuffer zeros 0
zeros-IsBuffer = record { size = refl; fits = omega arith; ends = refl }

put-IsBuffer :
    (buffer : List ℕ) (used c : ℕ)
    → used ≤ parse_post_max_pos
    → IsBuffer buffer used
    → IsBuffer (set buffer used c) (used + 1)
put-IsBuffer buffer used c h b = record {
  size = length-set buffer used c ∙ b.size;
  fits = omega (arith, h);
  ends = get_or-set_ne buffer c 0 (λ e. omega (arith, e, h)) ∙ b.ends;
}

shorten-IsBuffer :
    (buffer : List ℕ) (used n : ℕ)
    → n < parse_post_buf_sizes
    → IsBuffer buffer used
    → IsBuffer buffer n
shorten-IsBuffer buffer used n h b = record { size = b.size; fits = h; ends = b.ends }

module _ {S : Type 0} where
  answered-IsWithin : (a : Answer) (p : Parser S) → IsWithin p → IsWithin (answered a p)
  answered-IsWithin ok p h = h
  answered-IsWithin unknown p h = h
  answered-IsWithin refused p h = h

  read_key-IsWithin : (c : ℕ) (p : Parser S) → IsWithin p → IsWithin (read_key c p)
  read_key-IsWithin c p h = elim (Bool-cases (c == b'=')) [
    | inl e ↦ rw e h
    | inr e ↦ elim (Bool-cases (c == b'&')) [
      | inl a ↦ rw (e, a) h
      | inr a ↦ elim (Bool-cases (leb p.key_len parse_post_max_pos)) [
        | inl l ↦ rw (e, a, l) (put-IsBuffer p.key p.key_len c (ground (arith, l)) h.0, h.1)
        | inr l ↦ rw (e, a, l) h
      ]
    ]
  ]

module _ {S : Type 0} (handlers : List (Option (Handler S))) where
  finish_pair-IsWithin : (p : Parser S) → IsWithin p → IsWithin (finish_pair handlers p)
  unfolding finish_pair
  finish_pair-IsWithin p h =
      let unescaped = (url_unescape p.val p.val_len parse_post_buf_sizes).0 in
      let fits = length-unescape (parse_post_buf_sizes - 1) p.val p.val_len in
      let short = length-string unescaped in
      let escaped = string unescaped in
      let (answer, s) = run_handlers handlers ok (string p.key) p.key_len escaped p.config in
      answered-IsWithin answer _
        (h.0, shorten-IsBuffer p.val p.val_len (length escaped) (omega (arith, fits, short)) h.1)

  longer-IsWithin :
      (c : ℕ) (last : Bool) (p : Parser S)
      → IsWithin p
      → IsWithin (if last then finish_pair handlers p else p)
  longer-IsWithin c true p h = finish_pair-IsWithin p h
  longer-IsWithin c false p h = h

  read_val-IsWithin :
      (c : ℕ) (last : Bool) (p : Parser S) → IsWithin p → IsWithin (read_val handlers c last p)
  read_val-IsWithin c last p h = elim (Bool-cases (c == b'&')) [
    | inl a ↦ rw a (finish_pair-IsWithin p h)
    | inr a ↦ elim (Bool-cases (c == b'=')) [
      | inl e ↦ rw (a, e) h
      | inr e ↦ elim (Bool-cases (leb p.val_len parse_post_max_pos)) [
        | inl l ↦
            rw (a, e, l)
              (longer-IsWithin c last _
                (h.0, put-IsBuffer p.val p.val_len c (ground (arith, l)) h.1))
        | inr l ↦ rw (a, e, l) h
      ]
    ]
  ]

  parse_in-IsWithin :
      (s : State) (c : ℕ) (last : Bool) (p : Parser S)
      → IsWithin p
      → IsWithin (parse_in handlers s c last p)
  parse_in-IsWithin init c last p h = read_key-IsWithin c (clear p) (zeros-IsBuffer, zeros-IsBuffer)
  parse_in-IsWithin more c last p h = read_key-IsWithin c (clear p) (zeros-IsBuffer, zeros-IsBuffer)
  parse_in-IsWithin reading_key c last p h = read_key-IsWithin c p h
  parse_in-IsWithin reading_val c last p h = read_val-IsWithin c last p h
  parse_in-IsWithin error c last p h = h

  parse_char-IsWithin :
      (c : ℕ) (last : Bool) (p : Parser S) → IsWithin p → IsWithin (parse_char handlers c last p)
  unfolding parse_char
  parse_char-IsWithin c last p h = parse_in-IsWithin p.state c last p h

  -- Whatever the body, its chunks and the handlers are: from a parser within its buffers both lengths
  -- stay below the sizes of the buffers, and both buffers keep their final zero.
  pub parse_post_request_chunk-IsWithin :
      (cs : List ℕ) (last_chunk : Bool) (p : Parser S)
      → IsWithin p
      → IsWithin (parse_post_request_chunk handlers cs last_chunk p)
  unfolding parse_post_request_chunk
  parse_post_request_chunk-IsWithin [] last_chunk p h = h
  parse_post_request_chunk-IsWithin (c ∷ cs) last_chunk p h =
      parse_post_request_chunk-IsWithin cs last_chunk _ (parse_char-IsWithin c _ p h)
