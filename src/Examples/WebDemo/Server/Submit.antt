-- ===== src/Examples/WebDemo/Server/Submit.antt =====
-- A form that is sent to httpd-simple.c: the pairs of the body, the parser, the connection and the
-- handlers together.
use nsdscourse.Base.{
  ℕ, ◌+◌, ◌≤◌, ◌<◌, ◌≡◌, ◌≢◌, refl, ap, sym, ◌∙◌, subst, true, false, Option, none, some, List, [],
  ◌∷◌, ◌++◌, length, length-append, concat, ltb, ◌==◌, if◌then◌else◌, arith, All, inl,
}
use nsdscourse.Examples.WebDemo.Escape.RoundTrip.{escape}
use nsdscourse.Examples.WebDemo.Form.{
  Parser, State, init, more, reading_key, reading_val, error, Handler, parse_post_request_chunk,
}
use nsdscourse.Examples.WebDemo.Form.Chunks.{is_filled}
use nsdscourse.Examples.WebDemo.Form.Pairs.{Pair, IsPair, body, last_text, post_all}
use nsdscourse.Examples.WebDemo.Form.Parsed.{Outcome, parse_post_request_chunk-pairs}
use nsdscourse.Examples.WebDemo.Server.{
  ℤ, pos, content_length_max, post, ReturnCode, code_ok, code_br, header, Connection, Shared,
  end_headers,
}
use nsdscourse.Examples.WebDemo.Server.Input.{read_header, handle_input}
use nsdscourse.Examples.WebDemo.Server.Events.{found, bad_request, handle_output}
use nsdscourse.Examples.WebDemo.Server.Post.{
  IsDone, is_held_self, parsed_code, waiting, held, reads, reads-IsDone,
}

-- The end of a request for what the handlers make of its pairs.
abbrev pub Submitted :
    {S : Type 0} → List (List ℕ) → Connection → Shared S → Option S → Connection × Shared S → Type 0
Submitted pages c sh (some s) r =
    (handle_output pages r.0 ≡ some (found c.filename))
    × ((r.1.lock ≡ none) × ((r.1.parser.config ≡ s) × (r.1.posted ≡ sh.posted + 1)))
Submitted pages c sh none r = (handle_output pages r.0 ≡ some bad_request) × (r.1.lock ≡ none)

-- A POST request whose headers have been read up to the blank line.
abbrev pub announced : ℕ → Connection → Connection
announced n c = record c {
  point = header;
  request_type = some post;
  content_length = pos n;
  return_code = code_ok;
}

abbrev pub unlocked : {S : Type 0} → Shared S → Shared S
unlocked sh = record sh { lock = none }

handle_output-post :
    (pages : List (List ℕ)) (c : Connection) (code : ReturnCode) (filename : List ℕ)
    → c.request_type ≡ some post
    → c.return_code ≡ code
    → c.filename ≡ filename
    → handle_output pages c
      ≡ handle_output pages
          (record c { request_type = some post; return_code = code; filename = filename })
handle_output-post pages c code filename t k f =
    ap (λ d. handle_output pages (record c { request_type = d })) t
    ∙ ap (λ d. handle_output pages (record c { request_type = some post; return_code = d })) k
    ∙ ap
        (λ d.
          handle_output pages
            (record c { request_type = some post; return_code = code; filename = d }))
        f

not_more : (s : State) → s ≢ more → parsed_code s ≡ code_br
not_more init h = refl
not_more more h = absurd (h refl)
not_more reading_key h = refl
not_more reading_val h = refl
not_more error h = refl

IsDone-Submitted :
    {S : Type 0} (pages : List (List ℕ)) (n : ℕ) (c : Connection) (sh : Shared S) (q : Parser S)
    (r : Connection × Shared S) (m : Option S)
    → Outcome m q
    → IsDone (announced n c) sh q r
    → Submitted pages c sh m r
IsDone-Submitted pages n c sh q r (some s) o d =
    let ended = d.code ∙ ap parsed_code o.0 in
    let posted = d.posted ∙ ap (λ b. if b then sh.posted + 1 else sh.posted) o.1.1 in
    (
      handle_output-post pages r.0 code_ok c.filename d.type ended d.filename,
      (d.lock, (d.config ∙ o.1.0, posted)),
    )
IsDone-Submitted pages n c sh q r none o d = (
  handle_output-post pages r.0 code_br c.filename d.type (d.code ∙ not_more q.state o) d.filename,
  d.lock,
)

length-body : (x : Pair) (xs : List Pair) → 0 < length (body x xs)
unfolding body
length-body x [] = omega (arith, length-append x.name (b'=' ∷ escape x.text))
length-body x (y ∷ xs) =
    omega (arith, length-append x.name (b'=' ∷ (escape x.text ++ (b'&' ∷ body y xs))))

module _ {S : Type 0} (atoi : List ℕ → ℤ) (handlers : List (Option (Handler S))) (slot : ℕ) where
  handle_input-announced :
      (n : ℕ) (blank : List ℕ) (c : Connection) (sh : Shared S)
      → 0 < n
      → n ≤ content_length_max
      → length blank ≡ 2
      → handle_input atoi handlers slot blank (announced n c) (unlocked sh)
        ≡ (waiting n (announced n c), held slot sh (record sh.parser { state = init }))
  unfolding handle_input
  handle_input-announced n blank c sh h k b =
      let small : ltb content_length_max n ≡ false = ground (arith, k) in
      let positive : ltb 0 n ≡ true = ground (arith, h) in
      ap
        (λ l.
          if l == 2
          then end_headers slot (announced n c) (unlocked sh)
          else (read_header atoi blank (announced n c), unlocked sh))
        b
      ∙ rw (small, is_held_self slot, positive, is_held_self slot) refl

  -- A form that a browser sends while the lock is free, with its length in a header and its body in any
  -- parts but empty ones behind the first, is handed pair by pair to the handlers: if they accept each, the
  -- answer is the redirection to the path of the request, the state of the handlers is the one they leave
  -- and one event for a new configuration is posted; if not, the answer is 400. The lock is free again
  -- either way. The body has at most 256 characters, its keys and escaped values fit the buffers, the
  -- texts are bytes without a zero, the keys have no `=` and no `&`, and the last text is not empty.
  pub reads-Submitted :
      (blank b : List ℕ) (bs : List (List ℕ)) (x : Pair) (xs : List Pair) (pages : List (List ℕ))
      (c : Connection) (sh : Shared S)
      → length blank ≡ 2
      → concat (b ∷ bs) ≡ body x xs
      → All (λ d. is_filled d ≡ true) bs
      → length (body x xs) ≤ content_length_max
      → All IsPair (x ∷ xs)
      → is_filled (last_text x xs) ≡ true
      → Submitted pages c sh (post_all handlers (x ∷ xs) sh.parser.config) (
          reads atoi handlers slot
            (blank ∷ b ∷ bs)
            (announced (length (body x xs)) c)
            (unlocked sh))
  reads-Submitted blank b bs x xs pages c sh e parts filled small pairs last =
      let n = length (body x xs) in
      let p = record sh.parser { state = init } in
      let start = handle_input-announced n blank c sh (length-body x xs) small e in
      let accepted = post_all handlers (x ∷ xs) sh.parser.config in
      let outcome = parse_post_request_chunk-pairs handlers x xs p pairs last (inl refl) in
      let outcome' =
        subst (λ d. Outcome accepted (parse_post_request_chunk handlers d true p)) (sym parts)
          outcome in
      let done =
        reads-IsDone atoi handlers slot b bs n (announced n c) sh p filled
          (ap length (sym parts)) in
      subst
        (λ (r : Connection × Shared S).
          Submitted pages c sh accepted (reads atoi handlers slot (b ∷ bs) r.0 r.1))
        (sym start) (IsDone-Submitted pages n c sh _ _ accepted outcome' done)
