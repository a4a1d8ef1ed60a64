-- ===== src/Examples/WebDemo/Form/Pairs.antt =====
-- Bodies of parse_post_request_chunk of httpd-simple.c that are made of pairs: what a browser sends for
-- a form, read to the end.
use nsdscourse.Base.{
  ℕ, ◌<◌, ◌≡◌, Bool, true, ◌&&◌, not, Option, none, some, List, [], ◌∷◌, ◌++◌, length, All, ◌==◌,
}
use nsdscourse.Examples.Texts.{is_text}
use nsdscourse.Examples.WebDemo.Escape.RoundTrip.{escape}
use nsdscourse.Examples.WebDemo.Form.{Handler, ok, unknown, refused, run_handlers}

-- A key, as it is sent, and the text of its value.
pub record Pair : Type 0 where
  pub name : List ℕ
  pub text : List ℕ

abbrev pub is_inner : ℕ → Bool
is_inner c = not (c == b'=') && not (c == b'&')

-- The key and the escaped value fit the buffers with their final zeros.
pub record IsPair (x : Pair) : Type 0 where
  pub name_fits : length x.name < 64
  pub name_text : is_text x.name ≡ true
  pub name_inner : All (λ c. is_inner c ≡ true) x.name
  pub text_fits : length (escape x.text) < 64
  pub text_text : is_text x.text ≡ true
  pub text_bytes : All (λ c. c < 256) x.text

unfoldable pub body : Pair → List Pair → List ℕ
body x [] = x.name ++ (b'=' ∷ escape x.text)
body x (y ∷ xs) = x.name ++ (b'=' ∷ (escape x.text ++ (b'&' ∷ body y xs)))

abbrev pub last_text : Pair → List Pair → List ℕ
last_text x [] = x.text
last_text x (y ∷ xs) = last_text y xs

-- The state of the handlers after the pairs, if they accept each of them.
module _ {S : Type 0} (handlers : List (Option (Handler S))) where
  unfoldable pub post_all : List Pair → S → Option S
  post_all [] s = some s
  post_all (x ∷ xs) s =
      let (answer, s') = run_handlers handlers ok x.name (length x.name) x.text s in
      elim answer [ ok ↦ post_all xs s' | unknown ↦ none | refused ↦ none ]
