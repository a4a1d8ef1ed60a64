-- ===== src/Examples/SerialProtocol/Tests.antt =====
-- Lines for serial-protocol.c.
use nsdscourse.Base.{ℕ, ◌+◌, ◌*◌, ◌≡◌, refl, Option, none, some, List, [], ◌∷◌}
use nsdscourse.Examples.SerialProtocol.{
  set_value, get_value, not_valid_ip, unknown_command, prompt, serial_protocol_input, find_from,
}
use nsdscourse.Examples.Texts.{string}
use nsdscourse.Examples.SerialProtocol.Commands.{
  serial_protocol_input-set, serial_protocol_input-get,
}

-- An address is a text of two characters.
abbrev addrconv : List ℕ → Option ℕ
addrconv (a ∷ b ∷ []) = some (a + 256 * b)
addrconv _ = none

-- An address and no URI: nothing is done and no prompt is printed.
no_uri : serial_protocol_input addrconv (b's' ∷ b' ' ∷ 1 ∷ 1 ∷ 0 ∷ []) ≡ []
unfolding serial_protocol_input find_from string
no_uri = refl

not_known : serial_protocol_input addrconv (b'x' ∷ 0 ∷ []) ≡ unknown_command ∷ prompt ∷ []
unfolding serial_protocol_input find_from string
not_known = refl

serial_protocol_input-set_example :
    serial_protocol_input addrconv
      (b's' ∷ b'e' ∷ b't' ∷ b' ' ∷ 1 ∷ 1 ∷ b' ' ∷ b'/' ∷ b'3' ∷ b' ' ∷ b'o' ∷ b' ' ∷ b'n' ∷ 0 ∷ [])
    ≡ set_value (some 257) (b'/' ∷ b'3' ∷ []) (b'o' ∷ b' ' ∷ b'n' ∷ []) ∷ prompt ∷ []
serial_protocol_input-set_example =
    serial_protocol_input-set addrconv (b'e' ∷ b't' ∷ []) (1 ∷ 1 ∷ []) (b'/' ∷ b'3' ∷ [])
      (b'o' ∷ b' ' ∷ b'n' ∷ []) [] refl refl refl refl

serial_protocol_input-get_example :
    serial_protocol_input addrconv (b'g' ∷ b' ' ∷ 1 ∷ b' ' ∷ b'/' ∷ 0 ∷ 7 ∷ [])
    ≡ not_valid_ip ∷ get_value none (b'/' ∷ []) ∷ prompt ∷ []
serial_protocol_input-get_example =
    serial_protocol_input-get addrconv [] (1 ∷ []) (b'/' ∷ []) (7 ∷ []) refl refl refl
