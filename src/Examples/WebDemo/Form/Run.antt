-- ===== src/Examples/WebDemo/Form/Run.antt =====
-- parse_post_request_chunk of httpd-simple.c over the characters of one pair.
use nsdscourse.Base.{
  ℕ, ◌+◌, ◌-◌, ◌<◌, ◌≡◌, ◌⊎◌, inl, inr, refl, ap, ap₂, sym, ◌∙◌, Bool, true, false, ◌&&◌, replicate,
  Option, List, [], ◌∷◌, ◌++◌, append_assoc, append-nil, length, length-snoc, arith, All,
}
use nsdscourse.Examples.Texts.{string}
use nsdscourse.Examples.WebDemo.Escape.RoundTrip.{escape, url_unescape-escape}
use nsdscourse.Examples.WebDemo.Form.{
  Parser, init, more, reading_val, ok, Handler, run_handlers, answered, finish_pair, parse_in,
  parse_char, is_end, parse_post_request_chunk,
}
use nsdscourse.Examples.WebDemo.Form.Chunks.{is_end-append, and-false, is_filled}
use nsdscourse.Examples.WebDemo.Form.Pairs.{is_inner, Pair, IsPair}
use nsdscourse.Examples.WebDemo.Form.Read.{
  in_key, in_val, read_key-inner, read_val-inner, string-padded, string_text, length-escape,
}

-- No pair is being read.
abbrev pub IsReady : {S : Type 0} → Parser S → Type 0
IsReady p = (p.state ≡ init) ⊎ (p.state ≡ more)

module _ {S : Type 0} (handlers : List (Option (Handler S))) where
  -- The first character of a pair is read with both buffers cleared.
  pub chunk-ready :
      (c : ℕ) (cs : List ℕ) (last : Bool) (p : Parser S)
      → IsReady p
      → parse_post_request_chunk handlers (c ∷ cs) last p
        ≡ parse_post_request_chunk handlers (c ∷ cs) last (in_key [] p)
  unfolding parse_post_request_chunk parse_char
  chunk-ready c cs last p (inl e) =
      ap
        (λ s.
          parse_post_request_chunk handlers cs last (parse_in handlers s c (last && is_end cs) p))
        e
  chunk-ready c cs last p (inr e) =
      ap
        (λ s.
          parse_post_request_chunk handlers cs last (parse_in handlers s c (last && is_end cs) p))
        e

  pub chunk-key :
      (k cs : List ℕ) (y : ℕ) (ys : List ℕ) (last : Bool) (p : Parser S)
      → All (λ c. is_inner c ≡ true) cs
      → length k + length cs < 64
      → parse_post_request_chunk handlers (cs ++ (y ∷ ys)) last (in_key k p)
        ≡ parse_post_request_chunk handlers (y ∷ ys) last (in_key (k ++ cs) p)
  unfolding parse_post_request_chunk parse_char
  chunk-key k [] y ys last p h fits =
      ap (λ l. parse_post_request_chunk handlers (y ∷ ys) last (in_key l p)) (sym (append-nil k))
  chunk-key k (c ∷ cs) y ys last p h fits =
      ap (parse_post_request_chunk handlers (cs ++ (y ∷ ys)) last)
        (read_key-inner k c p (omega (arith, fits)) h.0)
      ∙ chunk-key (k ++ (c ∷ [])) cs y ys last p h.1 (omega (arith, fits, length-snoc k c))
      ∙ ap (λ l. parse_post_request_chunk handlers (y ∷ ys) last (in_key l p))
          (append_assoc k (c ∷ []) cs)

  pub chunk-equal :
      (k cs : List ℕ) (last : Bool) (p : Parser S)
      → parse_post_request_chunk handlers (b'=' ∷ cs) last (in_key k p)
        ≡ parse_post_request_chunk handlers cs last (in_val k [] p)
  unfolding parse_post_request_chunk parse_char
  chunk-equal k cs last p = refl

  pub chunk-val :
      (k v cs : List ℕ) (y : ℕ) (ys : List ℕ) (last : Bool) (p : Parser S)
      → All (λ c. is_inner c ≡ true) cs
      → length v + length cs < 64
      → parse_post_request_chunk handlers (cs ++ (y ∷ ys)) last (in_val k v p)
        ≡ parse_post_request_chunk handlers (y ∷ ys) last (in_val k (v ++ cs) p)
  unfolding parse_post_request_chunk parse_char
  chunk-val k v [] y ys last p h fits =
      ap (λ l. parse_post_request_chunk handlers (y ∷ ys) last (in_val k l p)) (sym (append-nil v))
  chunk-val k v (c ∷ cs) y ys last p h fits =
      ap
        (λ b.
          parse_post_request_chunk handlers (cs ++ (y ∷ ys)) last
            (parse_in handlers reading_val c b (in_val k v p)))
        (ap (λ b. last && b) (is_end-append cs y ys) ∙ and-false last)
      ∙ ap (parse_post_request_chunk handlers (cs ++ (y ∷ ys)) last)
          (read_val-inner handlers k v c false p (omega (arith, fits)) h.0)
      ∙ chunk-val k (v ++ (c ∷ [])) cs y ys last p h.1 (omega (arith, fits, length-snoc v c))
      ∙ ap (λ l. parse_post_request_chunk handlers (y ∷ ys) last (in_val k l p))
          (append_assoc v (c ∷ []) cs)

  pub chunk-amp :
      (k v cs : List ℕ) (last : Bool) (p : Parser S)
      → parse_post_request_chunk handlers (b'&' ∷ cs) last (in_val k v p)
        ≡ parse_post_request_chunk handlers cs last (finish_pair handlers (in_val k v p))
  unfolding parse_post_request_chunk parse_char
  chunk-amp k v cs last p = refl

  -- The last characters of a body end its last pair.
  pub chunk-last :
      (k v cs : List ℕ) (p : Parser S)
      → All (λ c. is_inner c ≡ true) cs
      → length v + length cs < 64
      → is_filled cs ≡ true
      → parse_post_request_chunk handlers cs true (in_val k v p)
        ≡ finish_pair handlers (in_val k (v ++ cs) p)
  unfolding parse_post_request_chunk parse_char
  chunk-last k v [] p h fits f = ground (arith, f)
  chunk-last k v (c ∷ []) p h fits f =
      read_val-inner handlers k v c true p (omega (arith, fits)) h.0
  chunk-last k v (c ∷ d ∷ cs) p h fits f =
      ap (parse_post_request_chunk handlers (d ∷ cs) true)
        (read_val-inner handlers k v c false p (omega (arith, fits)) h.0)
      ∙ chunk-last k (v ++ (c ∷ [])) (d ∷ cs) p h.1 (omega (arith, fits, length-snoc v c)) refl
      ∙ ap (λ l. finish_pair handlers (in_val k l p)) (append_assoc v (c ∷ []) (d ∷ cs))

  -- The end of a pair hands its key and the text of its value to the handlers.
  pub finish_pair-pair :
      (x : Pair) (p : Parser S)
      → IsPair x
      → finish_pair handlers (in_val x.name (escape x.text) p) ≡ (
          let (answer, s) = run_handlers handlers ok x.name (length x.name) x.text p.config in
          answered answer
            (record (in_val x.name (escape x.text) p) { val_len = length x.text; config = s }))
  unfolding finish_pair
  finish_pair-pair x p h =
      let sent = escape x.text in
      let finish : List ℕ → List ℕ → Parser S = λ name text.
        let (answer, s) = run_handlers handlers ok name (length x.name) text p.config in
        answered answer (record (in_val x.name sent p) { val_len = length text; config = s }) in
      let fits : length x.text < 64 = omega (arith, length-escape x.text, h.text_fits) in
      let whole =
        url_unescape-escape x.text (replicate (64 - length sent) 0) 64 h.text_bytes fits in
      ap₂ finish (string-padded x.name h.name_fits h.name_text)
        (ap (λ r. string r.0) whole ∙ string_text x.text h.text_text)
