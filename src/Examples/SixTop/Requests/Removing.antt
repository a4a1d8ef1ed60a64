-- ===== src/Examples/SixTop/Requests/Removing.antt =====
-- What sf_simple_remove_links asks for, and a whole delete transaction for its cell.
use nsdscourse.Base.{
  ℕ, zero, suc, ◌+◌, ◌<◌, ◌≤◌, ◌≡◌, ◌≢◌, refl, ap, ◌∙◌, inl, inr, Bool, true, false, ◌&&◌, Option,
  none, some, List, [], ◌∷◌, ◌++◌, take, drop, ◌==◌, arith, Bool-cases,
}
use nsdscourse.Examples.SixTop.Library.{Link, Tsch, Packets, Peers, delete, request}
use nsdscourse.Examples.SixTop.Cells.{
  Cell, bytes_of, cells_of, is_free, no_timeslot, remove_links_to_schedule,
}
use nsdscourse.Examples.SixTop.Cells.Links.{bytes_of_all, AreWords, cells_of-bytes_of_all}
use nsdscourse.Examples.SixTop.Answers.{
  Node, nothing, delete_response_sent, zeros, collect_used, answer_delete, request_input,
  response_sent_callback, response_input, respond,
}
use nsdscourse.Examples.SixTop.Answers.Removal.{AreLists}
use nsdscourse.Examples.SixTop.Requests.{is_tx, build, find_tx, sf_simple_remove_links}

-- The link sends to the peer.
abbrev pub sends_to : ℕ → Option Link → Bool
sends_to peer_addr none = false
sends_to peer_addr (some l) = (l.addr == peer_addr) && is_tx l.link_options

abbrev pub cell_of : ℕ → Link → Cell
cell_of t l = record { timeslot_offset = t; channel_offset = l.channel_offset }

build-two :
    (write write' : List ℕ → Option (List ℕ)) (buffer buffer' buffer'' : List ℕ)
    → write buffer ≡ some buffer'
    → write' buffer' ≡ some buffer''
    → build (write ∷ write' ∷ []) buffer ≡ (true, buffer'')
unfolding build
build-two write write' buffer buffer' buffer'' e e' = rw (e, e') refl

module _ (tsch : Tsch) (default_length : ℕ) where
  open tsch use {Slotframe, link_at, remove_link}

  find_tx-lowest :
      (f : Slotframe) (peer_addr i left t : ℕ) (l : Link)
      → i ≤ t
      → t < i + left
      → link_at f t ≡ some l
      → sends_to peer_addr (some l) ≡ true
      → ((u : ℕ) → u < t → sends_to peer_addr (link_at f u) ≡ false)
      → find_tx tsch f peer_addr i left ≡ some (cell_of t l)
  unfolding find_tx
  find_tx-lowest f peer_addr i zero t l h k e s lowest = ground arith
  find_tx-lowest f peer_addr i (suc left) t l h k e s lowest = elim (Bool-cases (i == t)) [
    | inl here ↦
        let at : link_at f i ≡ some l = ap (link_at f) {x = i} {y = t} (ground arith) ∙ e in
        ground (arith, at, s)
    | inr later ↦
        let rest =
          find_tx-lowest f peer_addr (i + 1) left t l (ground arith) (ground arith) e s lowest in
        ground (arith, lowest i (ground arith), rest)
  ]

  find_tx-none :
      (f : Slotframe) (peer_addr i left : ℕ)
      → ((u : ℕ) → u < i + left → sends_to peer_addr (link_at f u) ≡ false)
      → find_tx tsch f peer_addr i left ≡ none
  unfolding find_tx
  find_tx-none f peer_addr i zero missing = refl
  find_tx-none f peer_addr i (suc left) missing =
      let rest = find_tx-none f peer_addr (i + 1) left (λ u h. missing u (omega arith)) in
      ground (arith, missing i (omega arith), rest)

  module _ (pkt : Packets) where
    -- If the lowest time slot with a link that sends to the peer is `t`, and the fields can be written,
    -- then one delete request for the cell of that link is sent to the peer, and 0 is returned; the
    -- schedule stays as it is.
    pub sf_simple_remove_links-lowest :
        (peer_addr t : ℕ) (l : Link) (f : Slotframe) (n : Node Slotframe) (counted body : List ℕ)
        → n.slotframe ≡ some f
        → t < default_length
        → link_at f t ≡ some l
        → sends_to peer_addr (some l) ≡ true
        → ((u : ℕ) → u < t → sends_to peer_addr (link_at f u) ≡ false)
        → pkt.set_num_cells (request delete) 1 zeros ≡ some counted
        → pkt.set_cell_list (request delete) (bytes_of (cell_of t l)) 0 counted ≡ some body
        → sf_simple_remove_links tsch default_length pkt peer_addr n
          ≡ some (
            true,
            record n {
              req_storage = body;
              sent =
                  n.sent
                  ++ (record {
                    kind = request delete;
                    body = take 8 body;
                    peer_addr = peer_addr;
                    callback = nothing;
                    arg_len = 0;
                  }
                      ∷ []);
            },
          )
    unfolding sf_simple_remove_links
    sf_simple_remove_links-lowest peer_addr t l f n counted body ef h e s lowest first second =
        let found =
          find_tx-lowest f peer_addr 0 default_length t l (omega arith) (omega arith) e s lowest in
        rw (ef, found, build-two _ _ zeros counted body first second) refl

    -- If no link of the schedule sends to the peer, -1 is returned and nothing changes.
    pub sf_simple_remove_links-none :
        (peer_addr : ℕ) (f : Slotframe) (n : Node Slotframe)
        → n.slotframe ≡ some f
        → ((u : ℕ) → u < default_length → sends_to peer_addr (link_at f u) ≡ false)
        → sf_simple_remove_links tsch default_length pkt peer_addr n ≡ some (false, n)
    unfolding sf_simple_remove_links
    sf_simple_remove_links-none peer_addr f n ef missing =
        rw (ef, find_tx-none f peer_addr 0 default_length (λ u h. missing u (omega arith))) refl

    one_cell : (c : Cell) → AreWords (c ∷ []) → cells_of (bytes_of_all (c ∷ [])) ≡ c ∷ []
    unfolding cells_of
    one_cell c words = cells_of-bytes_of_all (c ∷ []) [] words

    module _ (plain : AreLists pkt) where
      one_used :
          (f : Slotframe) (c : Cell)
          → is_free tsch f c.timeslot_offset ≡ false
          → collect_used tsch pkt f (c ∷ []) 0 zeros ≡ (4, bytes_of c ++ drop 4 zeros)
      unfolding collect_used
      one_used f c h = rw (h, plain.set_first (bytes_of c) zeros (omega arith)) refl

      request_input-one_used :
          (body : List ℕ) (c : Cell) (f : Slotframe) (n : Node Slotframe) (peer_addr : ℕ)
          → pkt.get_num_cells (request delete) body ≡ some 1
          → pkt.get_cell_list (request delete) body ≡ some (bytes_of c)
          → AreWords (c ∷ [])
          → n.slotframe ≡ some f
          → is_free tsch f c.timeslot_offset ≡ false
          → request_input tsch pkt delete body peer_addr n
            ≡ respond tsch pkt (bytes_of c ++ drop 4 zeros) 4 peer_addr delete_response_sent n
      unfolding request_input answer_delete
      request_input-one_used body c f n peer_addr e e' words ef h =
          rw (e, e', ef, one_cell c words, one_used f c h) refl

      remove_one :
          (c : Cell) (f : Slotframe)
          → AreWords (c ∷ [])
          → c.timeslot_offset ≢ no_timeslot
          → remove_links_to_schedule tsch (cells_of (bytes_of c)) f
            ≡ remove_link f c.timeslot_offset
      unfolding remove_links_to_schedule
      remove_one c f words ne = rw (one_cell c words) (ground arith)

      -- A delete request for one cell that is in use at `b`: `b` answers it and runs its callback after
      -- a successful output, and `a` takes in the response. Then both have removed the link in the
      -- cell's time slot and no other.
      pub delete-agreement :
          (peers peers' : Peers) (a b : ℕ) (node_a node_b : Node Slotframe) (f g : Slotframe)
          (body : List ℕ) (c : Cell)
          → node_a.slotframe ≡ some f
          → node_b.slotframe ≡ some g
          → peers.is_neighbour b ≡ true
          → peers.transaction b ≡ some delete
          → peers'.is_neighbour a ≡ true
          → pkt.get_num_cells (request delete) body ≡ some 1
          → pkt.get_cell_list (request delete) body ≡ some (bytes_of c)
          → AreWords (c ∷ [])
          → c.timeslot_offset ≢ no_timeslot
          → is_free tsch g c.timeslot_offset ≡ false
          → let answered = request_input tsch pkt delete body a node_b in
            ((response_sent_callback tsch pkt delete peers' true 4 a answered).slotframe
              ≡ some (remove_link g c.timeslot_offset))
            × ((response_input tsch pkt peers true (take 4 answered.res_storage) b node_a).slotframe
                ≡ some (remove_link f c.timeslot_offset))
      unfolding response_sent_callback response_input
      delete-agreement peers peers' a b node_a node_b f g body c ea eb na ta nb e e' words ne used =
          let answered = request_input-one_used body c g node_b a e e' words eb used in
          (
            rw (answered, nb, plain.get_all, eb, remove_one c g words ne) refl,
            rw (answered, na, ta, plain.get_all, ea, remove_one c f words ne) refl,
          )
