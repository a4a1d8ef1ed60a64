-- ===== src/Contiki/Mqtt/Address/Tests.antt =====
-- Runs and instances of `ipaddr_sprintf`.
use nsdscourse.Base.{ℕ, ◌≡◌, refl, List, [], ◌∷◌, ◌++◌, length, arith}
use nsdscourse.Contiki.Mqtt.Text.{codes, hex, hex_digit}
use nsdscourse.Contiki.Mqtt.Address.{
  print, print_zero, print_separator, print_groups, groups_of, ipaddr_sprintf,
}
use nsdscourse.Contiki.Mqtt.Address.Written.{join, ipaddr_sprintf-zeros}

-- fd00::302:304:506:708
abbrev node : List ℕ
node = 0xfd ∷ 0 ∷ 0 ∷ 0 ∷ 0 ∷ 0 ∷ 0 ∷ 0 ∷ 3 ∷ 2 ∷ 3 ∷ 4 ∷ 5 ∷ 6 ∷ 7 ∷ 8 ∷ []

node_text : (ipaddr_sprintf 64 node).text ≡ codes "fd00::302:304:506:708"
unfolding ipaddr_sprintf print_groups print_zero print_separator print groups_of hex hex_digit
node_text = refl

ipaddr_sprintf-zeros_example :
    ((ipaddr_sprintf 64 node).text
      ≡ join (0xfd00 ∷ []) ++ (codes "::" ++ join (0x302 ∷ 0x304 ∷ 0x506 ∷ 0x708 ∷ [])))
    × ((ipaddr_sprintf 64 node).len
        ≡ length (join (0xfd00 ∷ []) ++ (codes "::" ++ join (0x302 ∷ 0x304 ∷ 0x506 ∷ 0x708 ∷ []))))
unfolding groups_of
ipaddr_sprintf-zeros_example =
    ipaddr_sprintf-zeros node (0xfd00 ∷ []) 2 (0x302 ∷ 0x304 ∷ 0x506 ∷ 0x708 ∷ []) refl refl
      (omega arith) (omega arith)

abbrev full : List ℕ
full = 1 ∷ 2 ∷ 3 ∷ 4 ∷ 5 ∷ 6 ∷ 7 ∷ 8 ∷ 9 ∷ 10 ∷ 11 ∷ 12 ∷ 13 ∷ 14 ∷ 15 ∷ 16 ∷ []
