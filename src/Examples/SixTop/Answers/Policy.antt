-- ===== src/Examples/SixTop/Answers/Policy.antt =====
-- When sf-simple.c accepts an add request.
use nsdscourse.Base.{
  ℕ, ◌+◌, ◌*◌, ◌≤◌, ◌<◌, ◌≡◌, ◌∙◌, true, some, List, [], ◌∷◌, ◌++◌, length, take, min, ltb, leb,
  if◌then◌else◌, arith, Bool-cases, inl, inr,
}
use nsdscourse.Examples.SixTop.Library.{Tsch, Packets, add, request, response}
use nsdscourse.Examples.SixTop.Cells.{Cell, cells_of, is_free}
use nsdscourse.Examples.SixTop.Answers.{
  Node, add_response_sent, zeros, collect_free, write_cell, answer_add, request_input,
}

module _ (tsch : Tsch) where
  open tsch use {Slotframe}

  -- How many of the cells are free.
  abbrev pub count_free : Slotframe → List Cell → ℕ
  count_free f [] = 0
  count_free f (c ∷ cs) = (if is_free tsch f c.timeslot_offset then 1 else 0) + count_free f cs

module _ (tsch : Tsch) (pkt : Packets) where
  open tsch use {Slotframe}

  collect_free-count :
      (f : Slotframe) (num_cells : ℕ) (cs : List Cell) (k : ℕ) (storage : List ℕ)
      → k ≤ num_cells
      → (collect_free tsch pkt f num_cells cs k storage).0
        ≡ min (k + count_free tsch f cs) num_cells
  unfolding collect_free
  collect_free-count f num_cells [] k storage h = ground arith
  collect_free-count f num_cells (c ∷ cs) k storage h = elim (Bool-cases (ltb k num_cells)) [
    | inl more ↦ elim (Bool-cases (is_free tsch f c.timeslot_offset)) [
      | inl free ↦
          rw (more, free)
            (collect_free-count f num_cells cs (k + 1) (write_cell tsch pkt c k storage)
                (ground arith)
              ∙ omega arith)
      | inr used ↦ rw (more, used) (collect_free-count f num_cells cs k storage h ∙ omega arith)
    ]
    | inr full ↦ rw full (ground arith)
  ]

  -- An add request for cells, on a node with a slotframe, is accepted if and only if at least as many
  -- of the listed cells are free as it asks for: then one response is sent, with four bytes for each
  -- cell, to the node that asked; otherwise nothing is sent. The schedule stays as it is.
  pub request_input-add :
      (body : List ℕ) (peer_addr num_cells : ℕ) (cell_list : List ℕ) (f : Slotframe)
      (n : Node Slotframe)
      → pkt.get_num_cells (request add) body ≡ some num_cells
      → pkt.get_cell_list (request add) body ≡ some cell_list
      → n.slotframe ≡ some f
      → 0 < num_cells
      → 0 < length cell_list
      → let n' = request_input tsch pkt add body peer_addr n in
        (n'.sent ≡ (
          if leb num_cells (count_free tsch f (cells_of cell_list))
          then n.sent
            ++ (record {
              kind = response true;
              body = take (4 * num_cells) n'.res_storage;
              peer_addr = peer_addr;
              callback = add_response_sent;
              arg_len = 4 * num_cells;
            }
                ∷ [])
          else n.sent))
        × (n'.slotframe ≡ some f)
  unfolding request_input answer_add
  request_input-add body peer_addr num_cells cell_list f n e e' e'' h k =
      let found = collect_free-count f num_cells (cells_of cell_list) 0 zeros (omega arith) in
      ground (arith, found)
