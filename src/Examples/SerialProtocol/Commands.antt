-- ===== src/Examples/SerialProtocol/Commands.antt =====
-- What the commands of serial-protocol.c lead to.
use nsdscourse.Base.{
  ℕ, ◌-◌, ◌≡◌, refl, ap, sym, ◌∙◌, true, Option, none, some, List, [], ◌∷◌, ◌++◌, append_assoc,
  length, set, arith,
}
use nsdscourse.Examples.SerialProtocol.{
  Action, not_valid_ip, set_value, get_value, prompt, find_next_sep, convert, set_at, get_at,
  with_address, serial_protocol_input,
}
use nsdscourse.Examples.Texts.{string, is_text, string-text}
use nsdscourse.Examples.SerialProtocol.Words.{
  is_word, is_word-is_text, find_next_sep-word, set-word, string-word, ended, length-ended,
  drop-word,
}

module _ {A : Type 0} (addrconv : List ℕ → Option A) where
  set_at-words :
      (pre uri value rest : List ℕ) (ipaddr : Option A)
      → is_word uri ≡ true
      → is_text value ≡ true
      → set_at addrconv (pre ++ (uri ++ (b' ' ∷ (value ++ (0 ∷ rest))))) (length pre) ipaddr
        ≡ convert addrconv ipaddr ++ (set_value ipaddr uri value ∷ prompt ∷ [])
  set_at-words pre uri value rest ipaddr h k =
      let found = find_next_sep-word pre uri (value ++ (0 ∷ rest)) h in
      let cut = set-word pre uri (value ++ (0 ∷ rest)) in
      let here = string-word pre uri (value ++ (0 ∷ rest)) (is_word-is_text uri h) in
      let behind = ap string (drop-word pre uri (value ++ (0 ∷ rest))) ∙ string-text value rest k in
      rw (set_at, found, cut, here, behind) refl

  get_at_text :
      (pre uri rest : List ℕ) (ipaddr : Option A)
      → is_text uri ≡ true
      → get_at addrconv (pre ++ (uri ++ (0 ∷ rest))) (length pre) ipaddr
        ≡ convert addrconv ipaddr ++ (get_value ipaddr uri ∷ prompt ∷ [])
  get_at_text pre uri rest ipaddr h = rw (get_at, string-word pre uri rest h) refl

  -- The line up to the end of the address.
  abbrev head : List ℕ → List ℕ → List ℕ
  head word ip = (word ++ (b' ' ∷ [])) ++ (ip ++ (0 ∷ []))

  with_address-words :
      (word ip rest : List ℕ) (command : List ℕ → ℕ → Option A → List (Action A))
      → is_word word ≡ true
      → is_word ip ≡ true
      → with_address addrconv (word ++ (b' ' ∷ (ip ++ (b' ' ∷ rest)))) command
        ≡ command (head word ip ++ rest) (length (head word ip)) (addrconv ip)
  with_address-words word ip rest command h k =
      let pre = word ++ (b' ' ∷ []) in
      let split = sym (append_assoc word (b' ' ∷ []) (ip ++ (b' ' ∷ rest))) in
      let first = find_next_sep-word [] word (ip ++ (b' ' ∷ rest)) h in
      let end = length (pre ++ (ip ++ (b' ' ∷ []))) in
      let second =
        ap (λ xs. find_next_sep xs b' ' (length pre)) split ∙ find_next_sep-word pre ip rest k in
      let cut = ap (λ xs. set xs (end - 1) 0) split ∙ set-word pre ip rest in
      let here = string-word pre ip rest (is_word-is_text ip k) in
      rw (with_address, first, second, cut, here) (rw (ended pre ip rest, length-ended pre ip) refl)

  -- A line that starts with `s`, with an address, a URI and a value behind the first three blanks, sets
  -- that value under that URI at the address that the text converts to. The value goes up to the
  -- end of the line, with its blanks. If the text is no address, that is said, and the value is
  -- set all the same.
  pub serial_protocol_input-set :
      (word ip uri value rest : List ℕ)
      → is_word word ≡ true
      → is_word ip ≡ true
      → is_word uri ≡ true
      → is_text value ≡ true
      → serial_protocol_input addrconv
          (b's' ∷ word ++ (b' ' ∷ (ip ++ (b' ' ∷ (uri ++ (b' ' ∷ (value ++ (0 ∷ rest))))))))
        ≡ (elim (addrconv ip) [
          | none ↦ not_valid_ip ∷ set_value none uri value ∷ prompt ∷ []
          | some a ↦ set_value (some a) uri value ∷ prompt ∷ []
        ])
  unfolding serial_protocol_input
  serial_protocol_input-set word ip uri value rest h k l m =
      with_address-words (b's' ∷ word) ip (uri ++ (b' ' ∷ (value ++ (0 ∷ rest)))) (set_at addrconv)
        (ground (arith, h)) k
      ∙ set_at-words (head (b's' ∷ word) ip) uri value rest (addrconv ip) l m
      ∙ ground arith

  -- A line that starts with `g`, with an address and a URI behind the first two blanks, gets the value
  -- under that URI in the same way.
  pub serial_protocol_input-get :
      (word ip uri rest : List ℕ)
      → is_word word ≡ true
      → is_word ip ≡ true
      → is_text uri ≡ true
      → serial_protocol_input addrconv
          (b'g' ∷ word ++ (b' ' ∷ (ip ++ (b' ' ∷ (uri ++ (0 ∷ rest))))))
        ≡ (elim (addrconv ip) [
          | none ↦ not_valid_ip ∷ get_value none uri ∷ prompt ∷ []
          | some a ↦ get_value (some a) uri ∷ prompt ∷ []
        ])
  unfolding serial_protocol_input
  serial_protocol_input-get word ip uri rest h k l =
      with_address-words (b'g' ∷ word) ip (uri ++ (0 ∷ rest)) (get_at addrconv) (ground (arith, h))
        k
      ∙ get_at_text (head (b'g' ∷ word) ip) uri rest (addrconv ip) l
      ∙ ground arith
