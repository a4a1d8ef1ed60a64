-- ===== src/Examples/SerialProtocol/Words.antt =====
-- The words of a line.
use nsdscourse.Base.{
  ℕ, ◌+◌, ◌-◌, ◌≡◌, refl, ap, sym, ◌∙◌, Bool, true, ◌&&◌, not, some, List, [], ◌∷◌, ◌++◌,
  append_assoc, length, length-append, ◌==◌, drop, set, arith,
}
use nsdscourse.Examples.SerialProtocol.{find_from, find_next_sep}
use nsdscourse.Examples.Texts.{string, is_text, string-text, drop-append, set-append}

-- A text without a zero or a blank.
abbrev pub is_word : List ℕ → Bool
is_word [] = true
is_word (c ∷ cs) = not (c == 0) && not (c == b' ') && is_word cs

pub is_word-is_text : (cs : List ℕ) → is_word cs ≡ true → is_text cs ≡ true
is_word-is_text [] h = refl
is_word-is_text (c ∷ cs) h = ground (arith, is_word-is_text cs)

find_from-word :
    (word rest : List ℕ) (pos : ℕ)
    → is_word word ≡ true
    → find_from (word ++ (b' ' ∷ rest)) b' ' pos ≡ some (pos + length word + 1)
unfolding find_from
find_from-word [] rest pos h = ground arith
find_from-word (c ∷ cs) rest pos h = ground (arith, find_from-word cs rest (pos + 1))

-- A word behind `pre` is found by the blank behind it.
pub find_next_sep-word :
    (pre word rest : List ℕ)
    → is_word word ≡ true
    → find_next_sep (pre ++ (word ++ (b' ' ∷ rest))) b' ' (length pre)
      ≡ some (length (pre ++ (word ++ (b' ' ∷ []))))
find_next_sep-word pre word rest h =
    ap (λ xs. find_from xs b' ' (length pre)) (drop-append pre (word ++ (b' ' ∷ rest)))
    ∙ find_from-word word rest (length pre) h
    ∙ ap some {x = length pre + length word + 1} {y = length (pre ++ (word ++ (b' ' ∷ [])))}
        (grind (arith, length-append))

-- A zero at the blank behind the word: the word is the text at its place then, and the rest follows.
pub set-word :
    (pre word rest : List ℕ)
    → let end = length (pre ++ (word ++ (b' ' ∷ []))) in
      set (pre ++ (word ++ (b' ' ∷ rest))) (end - 1) 0 ≡ pre ++ (word ++ (0 ∷ rest))
set-word pre word rest =
    ap (λ i. set (pre ++ (word ++ (b' ' ∷ rest))) i 0)
      {x = length (pre ++ (word ++ (b' ' ∷ []))) - 1} {y = length (pre ++ word)}
      (grind (arith, length-append))
    ∙ ap (λ xs. set xs (length (pre ++ word)) 0) (sym (append_assoc pre word (b' ' ∷ rest)))
    ∙ set-append (pre ++ word) rest b' ' 0
    ∙ append_assoc pre word (0 ∷ rest)

pub string-word :
    (pre word rest : List ℕ)
    → is_text word ≡ true
    → string (drop (length pre) (pre ++ (word ++ (0 ∷ rest)))) ≡ word
string-word pre word rest h =
    ap string (drop-append pre (word ++ (0 ∷ rest))) ∙ string-text word rest h

pub ended :
    (pre word rest : List ℕ) → pre ++ (word ++ (0 ∷ rest)) ≡ (pre ++ (word ++ (0 ∷ []))) ++ rest
ended pre word rest =
    ap (λ xs. pre ++ xs) (sym (append_assoc word (0 ∷ []) rest))
    ∙ sym (append_assoc pre (word ++ (0 ∷ [])) rest)

pub length-ended :
    (pre word : List ℕ) → length (pre ++ (word ++ (b' ' ∷ []))) ≡ length (pre ++ (word ++ (0 ∷ [])))
length-ended pre word = grind (arith, length-append)

-- What follows the word.
pub drop-word :
    (pre word rest : List ℕ)
    → drop (length (pre ++ (word ++ (b' ' ∷ [])))) (pre ++ (word ++ (0 ∷ rest))) ≡ rest
drop-word pre word rest =
    ap (λ i. drop i (pre ++ (word ++ (0 ∷ rest)))) (length-ended pre word)
    ∙ ap (λ xs. drop (length (pre ++ (word ++ (0 ∷ [])))) xs) (ended pre word rest)
    ∙ drop-append (pre ++ (word ++ (0 ∷ []))) rest
