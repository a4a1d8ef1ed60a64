-- ===== src/Examples/WebDemo/Form/Parsed.antt =====
-- What parse_post_request_chunk of httpd-simple.c makes of a body of pairs.
use nsdscourse.Base.{
  ℕ, ◌≡◌, ◌≢◌, inl, inr, refl, ap, sym, ◌∙◌, subst, Bool, true, false, Option, none, some, List, [],
  ◌∷◌, ◌++◌, length, arith, All,
}
use nsdscourse.Examples.WebDemo.Escape.RoundTrip.{escape}
use nsdscourse.Examples.WebDemo.Form.{
  Parser, State, more, reading_val, error, ok, unknown, refused, Answer, Handler, run_handlers,
  answered, finish_pair, parse_post_request_chunk,
}
use nsdscourse.Examples.WebDemo.Form.Chunks.{is_filled}
use nsdscourse.Examples.WebDemo.Form.Pairs.{Pair, IsPair, body, last_text, post_all}
use nsdscourse.Examples.WebDemo.Form.Read.{in_key, in_val, is_inner-escape}
use nsdscourse.Examples.WebDemo.Form.Run.{
  IsReady, chunk-ready, chunk-key, chunk-equal, chunk-val, chunk-amp, chunk-last, finish_pair-pair,
}
use nsdscourse.Examples.WebDemo.Form.Refused.{IsStuck, chunk_stuck}

-- The parser where a body ends, for what the handlers make of its pairs: all accepted, or not.
abbrev pub Outcome : {S : Type 0} → Option S → Parser S → Type 0
Outcome (some s) q = (q.state ≡ more) × ((q.config ≡ s) × (q.config_ok ≡ true))
Outcome none q = q.state ≢ more

escape-filled : (cs : List ℕ) → is_filled cs ≡ true → is_filled (escape cs) ≡ true
unfolding escape
escape-filled [] h = h
escape-filled (c ∷ cs) h = ground (arith)

is_more : State → Bool
is_more more = true
is_more _ = false

reading_val-more : {s : State} → s ≡ reading_val → s ≢ more
unfolding is_more
reading_val-more h k = absurd (ground (arith, ap is_more (sym h ∙ k)))

error-more : {s : State} → s ≡ error → s ≢ more
unfolding is_more
error-more h k = absurd (ground (arith, ap is_more (sym h ∙ k)))

module _ {S : Type 0} (handlers : List (Option (Handler S))) where
  abbrev sent : Pair → Parser S → Parser S
  sent x p = finish_pair handlers (in_val x.name (escape x.text) p)

  -- Up to the value of a pair.
  chunk-name :
      (x : Pair) (cs : List ℕ) (last : Bool) (p : Parser S)
      → IsPair x
      → IsReady p
      → parse_post_request_chunk handlers (x.name ++ (b'=' ∷ cs)) last p
        ≡ parse_post_request_chunk handlers cs last (in_val x.name [] p)
  chunk-name x cs last p h r =
      ready x.name
      ∙ chunk-key handlers [] x.name b'=' cs last p h.name_inner (omega (arith, h.name_fits))
      ∙ chunk-equal handlers x.name cs last p
    where
      ready :
          (k : List ℕ)
          → parse_post_request_chunk handlers (k ++ (b'=' ∷ cs)) last p
            ≡ parse_post_request_chunk handlers (k ++ (b'=' ∷ cs)) last (in_key [] p)
      ready [] = chunk-ready handlers b'=' cs last p r
      ready (c ∷ k) = chunk-ready handlers c (k ++ (b'=' ∷ cs)) last p r

  chunk-pair :
      (x : Pair) (cs : List ℕ) (last : Bool) (p : Parser S)
      → IsPair x
      → IsReady p
      → parse_post_request_chunk handlers (x.name ++ (b'=' ∷ (escape x.text ++ (b'&' ∷ cs)))) last p
        ≡ parse_post_request_chunk handlers cs last (sent x p)
  chunk-pair x cs last p h r =
      chunk-name x (escape x.text ++ (b'&' ∷ cs)) last p h r
      ∙ chunk-val handlers x.name [] (escape x.text) b'&' cs last p
          (is_inner-escape x.text h.text_bytes) (omega (arith, h.text_fits))
      ∙ chunk-amp handlers x.name (escape x.text) cs last p

  chunk-last_pair :
      (x : Pair) (p : Parser S)
      → IsPair x
      → is_filled x.text ≡ true
      → IsReady p
      → parse_post_request_chunk handlers (x.name ++ (b'=' ∷ escape x.text)) true p ≡ sent x p
  chunk-last_pair x p h f r =
      chunk-name x (escape x.text) true p h r
      ∙ chunk-last handlers x.name [] (escape x.text) p (is_inner-escape x.text h.text_bytes)
          (omega (arith, h.text_fits)) (escape-filled x.text f)

  body_stuck :
      (x : Pair) (xs : List Pair) (p : Parser S)
      → IsPair x
      → IsStuck p
      → (parse_post_request_chunk handlers (body x xs) true p).state ≢ more
  unfolding body
  body_stuck x [] p h st =
      error-more (chunk_stuck handlers x.name (escape x.text) true p h.name_inner st)
  body_stuck x (y ∷ xs) p h st =
      error-more
        (chunk_stuck handlers x.name (escape x.text ++ (b'&' ∷ body y xs)) true p h.name_inner st)

  -- The pairs from the second on.
  abbrev Rest : List Pair → (Parser S → Parser S) → Type 0
  Rest xs run =
      ((q : Parser S)
        → q.state ≡ more
        → q.config_ok ≡ true
        → Outcome (post_all handlers xs q.config) (run q))
      × ((q : Parser S) → IsStuck q → (run q).state ≢ more)

  post_all-step :
      (xs : List Pair) (run : Parser S → Parser S) (r : Answer × S) (q : Parser S)
      → Rest xs run
      → q.state ≡ reading_val
      → Outcome
          (elim r.0 [ ok ↦ post_all handlers xs r.1 | unknown ↦ none | refused ↦ none ])
          (run (answered r.0 (record q { config = r.1 })))
  post_all-step xs run (ok, s) q h e = h.0 _ refl refl
  post_all-step xs run (unknown, s) q h e = h.1 _ (inl e)
  post_all-step xs run (refused, s) q h e = h.1 _ (inr refl)

  sent-Outcome :
      (x : Pair) (xs : List Pair) (run : Parser S → Parser S) (p : Parser S)
      → IsPair x
      → Rest xs run
      → Outcome (post_all handlers (x ∷ xs) p.config) (run (sent x p))
  unfolding post_all
  sent-Outcome x xs run p h rest =
      let handled = run_handlers handlers ok x.name (length x.name) x.text p.config in
      let read = record (in_val x.name (escape x.text) p) { val_len = length x.text } in
      subst (λ q. Outcome (post_all handlers (x ∷ xs) p.config) (run q))
        (sym (finish_pair-pair handlers x p h)) (post_all-step xs run handled read rest refl)

  no_pairs : Rest [] (λ q. q)
  unfolding post_all
  no_pairs = (
    λ q e f. (e, (refl, f)),
    λ q st. elim st [ inl e ↦ reading_val-more e | inr e ↦ error-more e ],
  )

  -- From a parser that reads no pair, the body of some pairs, sent as one chunk, ends in the state for
  -- the next pair exactly if the handlers accept every pair with its own key and text in turn; then the
  -- state of the handlers is the one they leave and the flag for a new configuration is set. The keys and
  -- the escaped values fit their buffers, the texts are bytes without a zero, the keys have no `=` and no
  -- `&`, and the last text is not empty.
  pub parse_post_request_chunk-pairs :
      (x : Pair) (xs : List Pair) (p : Parser S)
      → All IsPair (x ∷ xs)
      → is_filled (last_text x xs) ≡ true
      → IsReady p
      → Outcome
          (post_all handlers (x ∷ xs) p.config)
          (parse_post_request_chunk handlers (body x xs) true p)
  unfolding body
  parse_post_request_chunk-pairs x [] p h f r =
      subst (Outcome (post_all handlers (x ∷ []) p.config)) (sym (chunk-last_pair x p h.0 f r))
        (sent-Outcome x [] (λ q. q) p h.0 no_pairs)
  parse_post_request_chunk-pairs x (y ∷ xs) p h f r =
      let run = parse_post_request_chunk handlers (body y xs) true in
      subst (Outcome (post_all handlers (x ∷ y ∷ xs) p.config))
        (sym (chunk-pair x (body y xs) true p h.0 r))
        (sent-Outcome x (y ∷ xs) run p h.0 (
          λ q e g. parse_post_request_chunk-pairs y xs q h.1 f (inr e),
          λ q st. body_stuck y xs q h.1.0 st,
        ))
