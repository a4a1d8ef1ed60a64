-- ===== src/Examples/SixTop/Answers/Removal.antt =====
-- What the delete transaction of sf-simple.c removes.
use nsdscourse.Base.{
  ℕ, ◌<◌, ◌≤◌, ◌≡◌, ◌≢◌, refl, true, false, ◌||◌, none, some, List, [], ◌∷◌, ◌++◌, length, drop,
  ltb, ◌==◌, if◌then◌else◌, arith,
}
use nsdscourse.Examples.SixTop.Library.{Tsch, Packets, Peers, delete, request, response}
use nsdscourse.Examples.SixTop.Cells.{
  Cell, bytes_of, cells_of, is_free, no_timeslot, remove_links_to_schedule,
}
use nsdscourse.Examples.SixTop.Cells.Links.{
  bytes_of_all, AreWords, cells_of-bytes_of_all, link_at-remove_links,
}
use nsdscourse.Examples.SixTop.Answers.{
  Node, delete_response_sent, zeros, collect_used, answer_delete, request_input,
  response_sent_callback, respond,
}

-- A response's body is its cell list.
pub record AreLists (pkt : Packets) : Type 0 where
  pub set_first :
      (cell_list body : List ℕ)
      → length cell_list ≤ length body
      → pkt.set_cell_list (response true) cell_list 0 body
        ≡ some (cell_list ++ drop (length cell_list) body)
  pub get_all : (body : List ℕ) → pkt.get_cell_list (response true) body ≡ some body

module _ (tsch : Tsch) (pkt : Packets) (plain : AreLists pkt) where
  open tsch use {Slotframe, link_at}

  used_two :
      (f : Slotframe) (c d : Cell)
      → is_free tsch f c.timeslot_offset ≡ false
      → is_free tsch f d.timeslot_offset ≡ false
      → collect_used tsch pkt f (c ∷ d ∷ []) 0 zeros ≡ (8, bytes_of d ++ drop 4 zeros)
  unfolding collect_used
  used_two f c d h k =
      rw
        (
          h,
          k,
          plain.set_first (bytes_of c) zeros (omega arith),
          plain.set_first (bytes_of d) (bytes_of c ++ drop 4 zeros) (omega arith),
        )
        refl

  abbrev zero_cell : Cell
  zero_cell = record { timeslot_offset = 0; channel_offset = 0 }

  two_cells :
      (c d : Cell) → AreWords (c ∷ d ∷ []) → cells_of (bytes_of_all (c ∷ d ∷ [])) ≡ c ∷ d ∷ []
  unfolding cells_of
  two_cells c d words = cells_of-bytes_of_all (c ∷ d ∷ []) [] words

  request_input-two_used :
      (body : List ℕ) (num_cells : ℕ) (c d : Cell) (f : Slotframe) (n : Node Slotframe)
      (peer_addr : ℕ)
      → pkt.get_num_cells (request delete) body ≡ some num_cells
      → pkt.get_cell_list (request delete) body ≡ some (bytes_of_all (c ∷ d ∷ []))
      → AreWords (c ∷ d ∷ [])
      → n.slotframe ≡ some f
      → ltb 0 num_cells ≡ true
      → is_free tsch f c.timeslot_offset ≡ false
      → is_free tsch f d.timeslot_offset ≡ false
      → request_input tsch pkt delete body peer_addr n
        ≡ respond tsch pkt (bytes_of d ++ drop 4 zeros) 8 peer_addr delete_response_sent n
  unfolding request_input answer_delete
  request_input-two_used body num_cells c d f n peer_addr e e' words ef h uc ud =
      rw (e, e', ef, two_cells c d words, used_two f c d uc ud, h) refl

  -- A delete request for two cells that are both in use, answered and then carried out by the callback:
  -- the link of the second cell goes, and with it whatever link is in time slot 0, and every other
  -- link stays, that of the first cell too unless it is in one of these slots.
  pub delete-second_only :
      (body : List ℕ) (num_cells : ℕ) (c d : Cell) (f : Slotframe) (n : Node Slotframe)
      (peers : Peers) (peer_addr t : ℕ)
      → pkt.get_num_cells (request delete) body ≡ some num_cells
      → pkt.get_cell_list (request delete) body ≡ some (bytes_of_all (c ∷ d ∷ []))
      → AreWords (c ∷ d ∷ [])
      → n.slotframe ≡ some f
      → 0 < num_cells
      → is_free tsch f c.timeslot_offset ≡ false
      → is_free tsch f d.timeslot_offset ≡ false
      → peers.is_neighbour peer_addr ≡ true
      → t ≢ no_timeslot
      → (g : Slotframe) × ((response_sent_callback tsch pkt delete peers true 8 peer_addr
            (request_input tsch pkt delete body peer_addr n)).slotframe
          ≡ some g)
        × (link_at g t ≡ (if (t == d.timeslot_offset) || (t == 0) then none else link_at f t))
  unfolding response_sent_callback
  delete-second_only body num_cells c d f n peers peer_addr t e e' words ef h uc ud nb ne =
      let cs = d ∷ zero_cell ∷ [] in
      let answered =
        request_input-two_used body num_cells c d f n peer_addr e e' words ef (ground arith) uc
          ud in
      let read = two_cells d zero_cell (words.1.0, ((omega arith, omega arith), tt)) in
      (
        remove_links_to_schedule tsch cs f,
        rw (answered, nb, plain.get_all, ef, read) refl,
        ground (arith, link_at-remove_links tsch cs f t ne),
      )
