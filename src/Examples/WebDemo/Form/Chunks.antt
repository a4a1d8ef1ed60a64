-- ===== src/Examples/WebDemo/Form/Chunks.antt =====
-- The chunks in which a body comes do not matter to parse_post_request_chunk of httpd-simple.c.
use nsdscourse.Base.{
  ◌≡◌, refl, ap, sym, append-nil, ◌∙◌, ℕ, Bool, true, false, ◌&&◌, Option, List, [], ◌∷◌, ◌++◌,
  concat, All, arith,
}
use nsdscourse.Examples.WebDemo.Form.{Parser, Handler, is_end, parse_char, parse_post_request_chunk}

pub is_end-append : (xs : List ℕ) (y : ℕ) (ys : List ℕ) → is_end (xs ++ (y ∷ ys)) ≡ false
is_end-append [] y ys = refl
is_end-append (x ∷ xs) y ys = refl

pub and-false : (b : Bool) → (b && false) ≡ false
and-false b = ground arith

abbrev pub is_filled : List ℕ → Bool
is_filled [] = false
is_filled (c ∷ cs) = true

module _ {S : Type 0} (handlers : List (Option (Handler S))) where
  pub parse_chunk-append :
      (xs : List ℕ) (y : ℕ) (ys : List ℕ) (last : Bool) (p : Parser S)
      → parse_post_request_chunk handlers (xs ++ (y ∷ ys)) last p
        ≡ parse_post_request_chunk handlers
            (y ∷ ys)
            last
            (parse_post_request_chunk handlers xs false p)
  unfolding parse_post_request_chunk
  parse_chunk-append [] y ys last p = refl
  parse_chunk-append (x ∷ xs) y ys last p =
      ap
        (λ b.
          parse_post_request_chunk handlers (xs ++ (y ∷ ys)) last
            (parse_char handlers x (last && b) p))
        (is_end-append xs y ys)
      ∙ ap
          (λ b. parse_post_request_chunk handlers (xs ++ (y ∷ ys)) last (parse_char handlers x b p))
          (and-false last)
      ∙ parse_chunk-append xs y ys last (parse_char handlers x false p)

  -- The chunks of a body, the last of them with the flag that says so.
  unfoldable pub parse_chunks : List (List ℕ) → Parser S → Parser S
  parse_chunks [] p = p
  parse_chunks (c ∷ []) p = parse_post_request_chunk handlers c true p
  parse_chunks (c ∷ d ∷ cs) p = parse_chunks (d ∷ cs) (parse_post_request_chunk handlers c false p)

  empty-chunk : (p : Parser S) → p ≡ parse_post_request_chunk handlers [] true p
  unfolding parse_post_request_chunk
  empty-chunk p = refl

  -- A body that comes in chunks, none of them empty, is parsed as if it came as a whole.
  pub parse_chunks-concat :
      (cs : List (List ℕ)) (p : Parser S)
      → All (λ c. is_filled c ≡ true) cs
      → parse_chunks cs p ≡ parse_post_request_chunk handlers (concat cs) true p
  unfolding parse_chunks
  parse_chunks-concat [] p h = empty-chunk p
  parse_chunks-concat (c ∷ []) p h =
      ap (λ xs. parse_post_request_chunk handlers xs true p) (sym (append-nil c))
  parse_chunks-concat (c ∷ [] ∷ cs) p h = ground (arith, h)
  parse_chunks-concat (c ∷ (x ∷ xs) ∷ cs) p h =
      parse_chunks-concat ((x ∷ xs) ∷ cs) _ h.1
      ∙ sym (parse_chunk-append c x (xs ++ concat cs) true p)
