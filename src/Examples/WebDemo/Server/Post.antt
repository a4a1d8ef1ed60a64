-- ===== src/Examples/WebDemo/Server/Post.antt =====
-- The body of a POST request of httpd-simple.c, from the end of the headers to the answer.
use nsdscourse.Base.{
  ℕ, suc, ◌+◌, ◌-◌, ◌≡◌, refl, ap, sym, ◌∙◌, subst, Bool, Bool-cases, inl, inr, true, false, not,
  ◌&&◌, Option, none, some, List, [], ◌∷◌, ◌++◌, length, length-append, concat, append-nil, leb,
  ltb, ◌==◌, if◌then◌else◌, arith, All,
}
use nsdscourse.Examples.WebDemo.Form.{
  Parser, State, init, more, reading_key, reading_val, error, Handler, parse_post_request_chunk,
}
use nsdscourse.Examples.WebDemo.Form.Chunks.{is_filled, parse_chunk-append}
use nsdscourse.Examples.WebDemo.Form.Refused.{chunk-error}
use nsdscourse.Examples.WebDemo.Server.{
  ℤ, pos, minus, is_zero, ReturnCode, code_ok, code_br, body, output, Connection, Shared, is_ok,
  is_more, is_error, is_held, end_post, while_body,
}
use nsdscourse.Examples.WebDemo.Server.Input.{input_at, handle_input}

abbrev pub parsed_code : State → ReturnCode
parsed_code s = if is_more s then code_ok else code_br

-- The connection and what it shares when the parser that a body leads to is known.
pub record IsDone {S : Type 0} (c : Connection) (sh : Shared S) (q : Parser S)
    (r : Connection × Shared S) : Type 0 where
  pub point : r.0.point ≡ output
  pub code : r.0.return_code ≡ parsed_code q.state
  pub filename : r.0.filename ≡ c.filename
  pub type : r.0.request_type ≡ c.request_type
  pub lock : r.1.lock ≡ none
  pub config : r.1.parser.config ≡ q.config
  pub posted : r.1.posted ≡ (if q.config_ok then sh.posted + 1 else sh.posted)

pub is_held_self : (i : ℕ) → is_held i (some i) ≡ true
is_held_self i = ground arith

final_code :
    (s : State)
    → (let code = if is_error s then code_br else code_ok in
        if is_ok code && not (is_more s) then code_br else code)
      ≡ parsed_code s
final_code init = refl
final_code more = refl
final_code reading_key = refl
final_code reading_val = refl
final_code error = refl

module _ {S : Type 0} (slot : ℕ) where
  abbrev pub parsed : ℕ → Connection → Parser S → Connection
  parsed n c p = record c {
    content_length = pos n;
    return_code = if is_error p.state then code_br else code_ok;
  }

  abbrev pub held : Shared S → Parser S → Shared S
  held sh p = record sh { lock = some slot; parser = p }

  end_post-IsDone :
      (n : ℕ) (c : Connection) (sh : Shared S) (p : Parser S)
      → IsDone c sh p (end_post slot (parsed n c p) (held sh p))
  end_post-IsDone n c sh p = rw (is_held_self slot) (record {
    point = refl;
    code = final_code p.state;
    filename = refl;
    type = refl;
    lock = refl;
    config = refl;
    posted = refl;
  })

suc-zero : (m : ℕ) → (suc m == 0) ≡ false
suc-zero m = ground arith

pub minus-add : (m n : ℕ) → minus (pos (m + n)) m ≡ pos n
minus-add m n = rw (leb-add m n) (ap pos (add-sub m n))
  where
    leb-add : (m n : ℕ) → leb m (m + n) ≡ true
    leb-add m n = ground arith

    add-sub : (m n : ℕ) → m + n - m ≡ n
    add-sub m n = omega arith

abbrev pub waiting : ℕ → Connection → Connection
waiting n c = record c { point = body; content_length = pos n; return_code = code_ok }

module _ {S : Type 0} (slot : ℕ) where
  while-error :
      (m : ℕ) (c : Connection) (sh : Shared S) (q : Parser S)
      → is_error q.state ≡ true
      → while_body slot (parsed slot (suc m) (waiting (suc m) c) q) (held slot sh q)
        ≡ end_post slot (parsed slot (suc m) c q) (held slot sh q)
  while-error m c sh q e =
      let positive : ltb 0 (suc m) ≡ true = ground arith in rw (e, positive, is_held_self slot) refl

  while-more :
      (m : ℕ) (c : Connection) (sh : Shared S) (q : Parser S)
      → is_error q.state ≡ false
      → while_body slot (parsed slot (suc m) (waiting (suc m) c) q) (held slot sh q)
        ≡ (waiting (suc m) c, held slot sh q)
  while-more m c sh q e =
      let positive : ltb 0 (suc m) ≡ true = ground arith in rw (e, positive, is_held_self slot) refl

module _ {S : Type 0} (atoi : List ℕ → ℤ) (handlers : List (Option (Handler S))) (slot : ℕ) where
  -- The reads of one connection, one after the other.
  abbrev pub reads : List (List ℕ) → Connection → Shared S → Connection × Shared S
  reads [] c sh = (c, sh)
  reads (b ∷ bs) c sh = let (c', sh') = handle_input atoi handlers slot b c sh in reads bs c' sh'

  reads-output :
      (bs : List (List ℕ)) (c : Connection) (sh : Shared S)
      → c.point ≡ output
      → reads bs c sh ≡ (c, sh)
  unfolding handle_input
  reads-output [] c sh e = refl
  reads-output (b ∷ bs) c sh e =
      ap (λ p. let (c', sh') = input_at atoi handlers p slot b c sh in reads bs c' sh') e
      ∙ reads-output bs c sh e

  input-body :
      (b : List ℕ) (m : ℕ) (c : Connection) (sh : Shared S) (p : Parser S)
      → handle_input atoi handlers slot b (waiting (length b + m) c) (held slot sh p) ≡ (
          let q = parse_post_request_chunk handlers b (m == 0) p in
          while_body slot (parsed slot m (waiting m c) q) (held slot sh q))
  unfolding handle_input
  input-body b m c sh p = ap after (minus-add (length b) m)
    where
      after : ℤ → Connection × Shared S
      after l =
          let q = parse_post_request_chunk handlers b (is_zero l) p in
          while_body slot
            (record (waiting m c) {
              content_length = l;
              return_code = if is_error q.state then code_br else code_ok;
            })
            (held slot sh q)

  -- The last part of a body.
  input-last :
      (b : List ℕ) (c : Connection) (sh : Shared S) (p : Parser S)
      → IsDone c sh
          (parse_post_request_chunk handlers b true p)
          (handle_input atoi handlers slot b (waiting (length b + 0) c) (held slot sh p))
  input-last b c sh p =
      subst (IsDone c sh (parse_post_request_chunk handlers b true p)) (sym (input-body b 0 c sh p))
        (end_post-IsDone slot 0 c sh (parse_post_request_chunk handlers b true p))

  abbrev run_at : List ℕ → ℕ → Connection → Shared S → Parser S → Bool → Connection × Shared S
  run_at b m c sh p last =
      let q = parse_post_request_chunk handlers b last p in
      while_body slot (parsed slot (suc m) (waiting (suc m) c) q) (held slot sh q)

  -- A part behind which more is to come: an error ends the loop, else it waits.
  input-error :
      (b : List ℕ) (m : ℕ) (c : Connection) (sh : Shared S) (p : Parser S)
      → is_error (parse_post_request_chunk handlers b false p).state ≡ true
      → handle_input atoi handlers slot b (waiting (length b + suc m) c) (held slot sh p)
        ≡ end_post slot
            (parsed slot (suc m) c (parse_post_request_chunk handlers b false p))
            (held slot sh (parse_post_request_chunk handlers b false p))
  input-error b m c sh p e =
      input-body b (suc m) c sh p
      ∙ ap (run_at b m c sh p) (suc-zero m)
      ∙ while-error slot m c sh (parse_post_request_chunk handlers b false p) e

  input-more :
      (b : List ℕ) (m : ℕ) (c : Connection) (sh : Shared S) (p : Parser S)
      → is_error (parse_post_request_chunk handlers b false p).state ≡ false
      → handle_input atoi handlers slot b (waiting (length b + suc m) c) (held slot sh p)
        ≡ (waiting (suc m) c, held slot sh (parse_post_request_chunk handlers b false p))
  input-more b m c sh p e =
      input-body b (suc m) c sh p
      ∙ ap (run_at b m c sh p) (suc-zero m)
      ∙ while-more slot m c sh (parse_post_request_chunk handlers b false p) e

  -- The parser that a whole body leads to.
  abbrev pub whole : List (List ℕ) → Parser S → Parser S
  whole bs p = parse_post_request_chunk handlers (concat bs) true p

  is_error-error : (s : State) → is_error s ≡ true → s ≡ error
  is_error-error init h = ground (arith, h)
  is_error-error more h = ground (arith, h)
  is_error-error reading_key h = ground (arith, h)
  is_error-error reading_val h = ground (arith, h)
  is_error-error error h = refl

  error-IsDone :
      (b : List ℕ) (bs : List (List ℕ)) (m : ℕ) (c : Connection) (sh : Shared S) (p : Parser S)
      → is_error (parse_post_request_chunk handlers b false p).state ≡ true
      → IsDone c sh
          (whole bs (parse_post_request_chunk handlers b false p))
          (reads (b ∷ bs) (waiting (length b + suc m) c) (held slot sh p))
  error-IsDone b bs m c sh p e =
      let q = parse_post_request_chunk handlers b false p in
      let ended = end_post slot (parsed slot (suc m) c q) (held slot sh q) in
      subst (λ (r : Connection × Shared S). IsDone c sh (whole bs q) (reads bs r.0 r.1))
        (sym (input-error b m c sh p e))
        (subst (λ w. IsDone c sh w (reads bs ended.0 ended.1))
          (sym (chunk-error handlers (concat bs) true q (is_error-error q.state e)))
          (subst (IsDone c sh q) (sym (reads-output bs ended.0 ended.1 refl))
            (end_post-IsDone slot (suc m) c sh q)))

  -- The parts of a body, none of them empty, that together have the announced length, are parsed as the
  -- whole body: the code of the answer, the state of the handlers and the event for a new configuration
  -- are those of the whole, and the lock is free again.
  pub reads-IsDone :
      (b : List ℕ) (bs : List (List ℕ)) (n : ℕ) (c : Connection) (sh : Shared S) (p : Parser S)
      → All (λ d. is_filled d ≡ true) bs
      → n ≡ length (concat (b ∷ bs))
      → IsDone c sh (whole (b ∷ bs) p) (reads (b ∷ bs) (waiting n c) (held slot sh p))
  reads-IsDone b [] n c sh p h e =
      subst (λ k. IsDone c sh (whole (b ∷ []) p) (reads (b ∷ []) (waiting k c) (held slot sh p)))
        (sym (e ∙ length-append b []))
        (subst
          (λ d.
            IsDone c sh (parse_post_request_chunk handlers d true p)
              (reads (b ∷ []) (waiting (length b + 0) c) (held slot sh p)))
          (sym (append-nil b)) (input-last b c sh p))
  reads-IsDone b ([] ∷ bs) n c sh p h e = ground (arith, h)
  reads-IsDone b ((x ∷ xs) ∷ bs) n c sh p h e =
      let m = length (xs ++ concat bs) in
      let q = parse_post_request_chunk handlers b false p in
      let parsed_on = parse_chunk-append handlers b x (xs ++ concat bs) true p in
      subst
        (λ k.
          IsDone c sh (whole (b ∷ (x ∷ xs) ∷ bs) p)
            (reads (b ∷ (x ∷ xs) ∷ bs) (waiting k c) (held slot sh p)))
        (sym (e ∙ length-append b (x ∷ (xs ++ concat bs))))
        (subst
          (λ w.
            IsDone c sh w
              (reads (b ∷ (x ∷ xs) ∷ bs) (waiting (length b + suc m) c) (held slot sh p)))
          (sym parsed_on)
          (elim (Bool-cases (is_error q.state)) [
            | inl wrong ↦ error-IsDone b ((x ∷ xs) ∷ bs) m c sh p wrong
            | inr right ↦
                subst
                  (λ (r : Connection × Shared S).
                    IsDone c sh (whole ((x ∷ xs) ∷ bs) q) (reads ((x ∷ xs) ∷ bs) r.0 r.1))
                  (sym (input-more b m c sh p right))
                  (reads-IsDone (x ∷ xs) bs (suc m) c sh q h.1 refl)
          ]))
