-- ===== src/Examples/SerialProtocol.antt =====
-- The commands of examples/lwm2m-ipso-objects/serial-protocol.c. The input is the memory of a line, with
-- the zero that ends it; characters are their codes. The conversion of addresses is the argument
-- `addrconv`; what it leaves behind when it fails is not known, `none`.
pub mod Words
pub mod Commands
mod Tests
use nsdscourse.Base.{
  ℕ, zero, suc, ◌+◌, ◌-◌, Bool, true, false, Option, none, some, List, [], ◌∷◌, ◌++◌, ◌==◌,
  if◌then◌else◌, drop, set,
}
use nsdscourse.Examples.Texts.{string}

-- The loop of find_next_sep from the position `pos` on, which `str` begins at.
unfoldable pub find_from : List ℕ → ℕ → ℕ → Option ℕ
find_from [] sep pos = none
find_from (c ∷ str) sep pos =
    let rest = find_from str sep (pos + 1) in
    if c == 0 then none else if c == sep then some (pos + 1) else rest

-- The position behind the separator, or `none` for -1.
abbrev pub find_next_sep : List ℕ → ℕ → ℕ → Option ℕ
find_next_sep str sep pos = find_from (drop pos str) sep pos

-- What a command does, and what is printed.
pub data Action (A : Type 0) : Type 0 where
  print_node_list not_valid_ip unknown_command prompt : Action A
  set_value : Option A → List ℕ → List ℕ → Action A
  get_value : Option A → List ℕ → Action A

module _ {A : Type 0} (addrconv : List ℕ → Option A) where
  -- The conversion of the address, with the message when it fails.
  abbrev pub convert : Option A → List (Action A)
  convert none = not_valid_ip ∷ []
  convert (some a) = []

  -- The command `s` behind its address, which ends before `pos`.
  abbrev pub set_at : List ℕ → ℕ → Option A → List (Action A)
  set_at line pos ipaddr = elim (find_next_sep line b' ' pos) [
    | none ↦ convert ipaddr
    | some end ↦
        let line' = set line (end - 1) 0 in
        convert ipaddr
        ++ (set_value ipaddr (string (drop pos line')) (string (drop end line')) ∷ prompt ∷ [])
  ]

  -- The command `g` behind its address.
  abbrev pub get_at : List ℕ → ℕ → Option A → List (Action A)
  get_at line pos ipaddr =
      convert ipaddr ++ (get_value ipaddr (string (drop pos line)) ∷ prompt ∷ [])

  -- The address of both commands, and what follows it.
  abbrev pub with_address : List ℕ → (List ℕ → ℕ → Option A → List (Action A)) → List (Action A)
  with_address line command = elim (find_next_sep line b' ' 0) [
    | none ↦ prompt ∷ []
    | some start ↦ elim (find_next_sep line b' ' start) [
      | none ↦ []
      | some pos ↦
          let line' = set line (pos - 1) 0 in
          command line' pos (addrconv (string (drop start line')))
    ]
  ]

  abbrev execute : ℕ → List ℕ → List (Action A)
  execute cmd line =
      if cmd == b'l'
      then print_node_list ∷ prompt ∷ []
      else if cmd == b's'
      then with_address line set_at
      else if cmd == b'g'
      then with_address line get_at
      else if cmd == 0
      then prompt ∷ []
      else unknown_command ∷ prompt ∷ []

  unfoldable pub serial_protocol_input : List ℕ → List (Action A)
  serial_protocol_input [] = []
  serial_protocol_input (cmd ∷ rest) = execute cmd (cmd ∷ rest)
