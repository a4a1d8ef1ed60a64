-- ===== src/Examples/WebDemo/Form/Refused.antt =====
-- What parse_post_request_chunk of httpd-simple.c does behind a pair that no handler accepts.
use nsdscourse.Base.{
  ℕ, ◌≡◌, ◌⊎◌, inl, inr, refl, ap, sym, ◌∙◌, subst, Bool, Bool-cases, true, false, ◌&&◌, Option,
  List, [], ◌∷◌, ◌++◌, arith, All, leb, ◌==◌,
}
use nsdscourse.Examples.WebDemo.Form.{
  Parser, State, reading_val, error, Handler, read_val, parse_in, parse_char, is_end,
  parse_post_request_chunk,
}
use nsdscourse.Examples.WebDemo.Form.Chunks.{is_end-append, and-false}
use nsdscourse.Examples.WebDemo.Form.Pairs.{is_inner}

-- The pair before was not accepted.
abbrev pub IsStuck : {S : Type 0} → Parser S → Type 0
IsStuck p = (p.state ≡ reading_val) ⊎ (p.state ≡ error)

module _ {S : Type 0} (handlers : List (Option (Handler S))) where
  -- Behind an error nothing is read.
  pub chunk-error :
      (cs : List ℕ) (last : Bool) (p : Parser S)
      → p.state ≡ error
      → parse_post_request_chunk handlers cs last p ≡ p
  unfolding parse_post_request_chunk parse_char
  chunk-error [] last p e = refl
  chunk-error (c ∷ cs) last p e =
      ap
        (λ s.
          parse_post_request_chunk handlers cs last (parse_in handlers s c (last && is_end cs) p))
        e
      ∙ chunk-error cs last p e

  read_val-inner-IsStuck :
      (c : ℕ) (p : Parser S)
      → is_inner c ≡ true
      → p.state ≡ reading_val
      → IsStuck (read_val handlers c false p)
  read_val-inner-IsStuck c p i e =
      let not_equal : (c == b'=') ≡ false = ground (arith, i) in
      let not_amp : (c == b'&') ≡ false = ground (arith, i) in
      elim (Bool-cases (leb p.val_len 62)) [
        | inl l ↦ rw (not_amp, not_equal, l) (inl e)
        | inr l ↦ rw (not_amp, not_equal, l) (inr refl)
      ]

  pub parse_in-IsStuck :
      (s : State) (c : ℕ) (p : Parser S)
      → (s ≡ reading_val) ⊎ (s ≡ error)
      → p.state ≡ s
      → is_inner c ≡ true
      → IsStuck (parse_in handlers s c false p)
  parse_in-IsStuck s c p (inl e) h i =
      subst (λ t. IsStuck (parse_in handlers t c false p)) (sym e)
        (read_val-inner-IsStuck c p i (h ∙ e))
  parse_in-IsStuck s c p (inr e) h i =
      subst (λ t. IsStuck (parse_in handlers t c false p)) (sym e) (inr (h ∙ e))

  parse_in-equal :
      (s : State) (last : Bool) (p : Parser S)
      → (s ≡ reading_val) ⊎ (s ≡ error)
      → p.state ≡ s
      → (parse_in handlers s b'=' last p).state ≡ error
  parse_in-equal s last p (inl e) h = ap (λ t. (parse_in handlers t b'=' last p).state) e
  parse_in-equal s last p (inr e) h = ap (λ t. (parse_in handlers t b'=' last p).state) e ∙ h ∙ e

  -- The next pair ends in an error.
  pub chunk_stuck :
      (cs ys : List ℕ) (last : Bool) (p : Parser S)
      → All (λ c. is_inner c ≡ true) cs
      → IsStuck p
      → (parse_post_request_chunk handlers (cs ++ (b'=' ∷ ys)) last p).state ≡ error
  unfolding parse_post_request_chunk parse_char
  chunk_stuck [] ys last p h st =
      let equal = parse_in-equal p.state (last && is_end ys) p st refl in
      ap (λ (q : Parser S). q.state) (chunk-error ys last _ equal) ∙ equal
  chunk_stuck (c ∷ cs) ys last p h st =
      ap
        (λ b.
          (parse_post_request_chunk handlers (cs ++ (b'=' ∷ ys)) last
            (parse_in handlers p.state c b p)).state)
        (ap (λ b. last && b) (is_end-append cs b'=' ys) ∙ and-false last)
      ∙ chunk_stuck cs ys last _ h.1 (parse_in-IsStuck p.state c p st refl h.0)
