-- ===== src/Examples/WebDemo/Output.antt =====
-- enqueue_chunk of httpd-simple.c, which fills a buffer with the chunks of a page and sends it when it
-- is full. A chunk is the text that its format stands for; it has to fit `tmp_buf`, whose size is one
-- more than that of the buffer, with its final zero.
pub mod Page
use nsdscourse.Base.{
  ℕ, ◌+◌, ◌-◌, ◌≤◌, ◌<◌, ◌≡◌, refl, ap, sym, ◌∙◌, subst, Bool, Bool-cases, inl, inr, true, false,
  ◌&&◌, List, [], ◌∷◌, ◌++◌, append_assoc, append-nil, length, length-append, length-eq-zero,
  length-drop, length-take, take, drop, take-append-drop, concat, ltb, if◌then◌else◌, arith, All,
  All-append,
}

-- `buf[0]` to `buf[blen - 1]`, and what PSOCK_SEND was called with.
pub record Output : Type 0 where
  pub buf : List ℕ
  pub sends : List (List ℕ)

abbrev pub send_buf : Output → Output
send_buf o = record { buf = []; sends = o.sends ++ (o.buf ∷ []) }

-- HTTPD_SIMPLE_MAIN_BUF_SIZE is `size`.
module _ (size : ℕ) where
  abbrev pub copy_chunk : List ℕ → Output → Output
  copy_chunk text o =
      let copied = size - length o.buf in
      if ltb (length o.buf + length text) size
      then record o { buf = o.buf ++ text }
      else record { buf = drop copied text; sends = o.sends ++ ((o.buf ++ take copied text) ∷ []) }

  unfoldable pub enqueue_chunk : Bool → List ℕ → Output → Output
  enqueue_chunk immediate text o =
      let o' = copy_chunk text o in if immediate && ltb 0 (length o'.buf) then send_buf o' else o'

  -- What was sent and what waits is the text, no send is larger than the buffer, and there is room.
  pub record IsStream (o : Output) (text : List ℕ) : Type 0 where
    pub whole : concat o.sends ++ o.buf ≡ text
    pub room : length o.buf < size
    pub fits : All (λ sent. length sent ≤ size) o.sends

  concat-snoc : (xss : List (List ℕ)) (xs : List ℕ) → concat (xss ++ (xs ∷ [])) ≡ concat xss ++ xs
  concat-snoc [] xs = append-nil xs
  concat-snoc (ys ∷ xss) xs =
      ap (λ zs. ys ++ zs) (concat-snoc xss xs) ∙ sym (append_assoc ys (concat xss) xs)

  copy_chunk-IsStream :
      (text : List ℕ) (o : Output) (before : List ℕ)
      → length text ≤ size
      → IsStream o before
      → IsStream (copy_chunk text o) (before ++ text)
  copy_chunk-IsStream text o before h s =
      elim (Bool-cases (ltb (length o.buf + length text) size)) [
        | inl small ↦ rw small (record {
          whole = sym (append_assoc (concat o.sends) o.buf text) ∙ ap (λ d. d ++ text) s.whole;
          room = ground (arith, small, length-append o.buf text);
          fits = s.fits;
        })
        | inr large ↦
            let copied = size - length o.buf in
            rw large (record {
              whole =
                  split (concat o.sends) o.buf copied text o.sends refl
                  ∙ ap (λ d. d ++ text) s.whole;
              room = omega (arith, length-drop copied text, s.room, h);
              fits = All-append _ o.sends _ s.fits (
                omega (
                  arith,
                  length-append o.buf (take copied text),
                  length-take copied text,
                  s.room,
                ),
                tt,
              );
            })
      ]
    where
      split :
          (sent buf : List ℕ) (k : ℕ) (text : List ℕ) (sends : List (List ℕ))
          → concat sends ≡ sent
          → concat (sends ++ ((buf ++ take k text) ∷ [])) ++ drop k text ≡ (sent ++ buf) ++ text
      split sent buf k text sends e =
          ap (λ d. d ++ drop k text)
            (concat-snoc sends (buf ++ take k text) ∙ ap (λ d. d ++ (buf ++ take k text)) e)
          ∙ append_assoc sent (buf ++ take k text) (drop k text)
          ∙ ap (λ d. sent ++ d)
              (append_assoc buf (take k text) (drop k text)
                ∙ ap (λ d. buf ++ d) (take-append-drop k text))
          ∙ sym (append_assoc sent buf text)

  send_buf-IsStream :
      (o : Output) (text : List ℕ) → 0 < size → IsStream o text → IsStream (send_buf o) text
  send_buf-IsStream o text h s = record {
    whole = append-nil _ ∙ concat-snoc o.sends o.buf ∙ s.whole;
    room = h;
    fits = All-append _ o.sends _ s.fits (omega (arith, s.room), tt);
  }

  -- A chunk that fits `tmp_buf` goes behind the text that was sent and waits, in order and once, and no
  -- send is larger than the buffer; a chunk that is to go out at once leaves nothing to wait.
  pub enqueue_chunk-IsStream :
      (immediate : Bool) (text : List ℕ) (o : Output) (before : List ℕ)
      → length text ≤ size
      → IsStream o before
      → IsStream (enqueue_chunk immediate text o) (before ++ text)
        × (immediate ≡ true → (enqueue_chunk immediate text o).buf ≡ [])
  unfolding enqueue_chunk
  enqueue_chunk-IsStream false text o before h s =
      (copy_chunk-IsStream text o before h s, λ e. ground (arith, e))
  enqueue_chunk-IsStream true text o before h s =
      let copied = copy_chunk-IsStream text o before h s in
      elim (Bool-cases (ltb 0 (length (copy_chunk text o).buf))) [
        | inl waits ↦ rw waits (
          send_buf-IsStream (copy_chunk text o) (before ++ text) (omega (arith, s.room)) copied,
          λ e. refl,
        )
        | inr empty ↦ rw empty (copied, λ e. length-eq-zero _ (ground (arith, empty)))
      ]
