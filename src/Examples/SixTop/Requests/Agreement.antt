-- ===== src/Examples/SixTop/Requests/Agreement.antt =====
-- The messages of an add transaction of sf-simple.c for one link: the request, the answer with its
-- callback, and what the node that asked makes of the response.
use nsdscourse.Base.{
  ℕ, ◌+◌, ◌*◌, ◌<◌, ◌≡◌, ◌≢◌, refl, ap, subst, ◌∙◌, true, some, List, [], ◌∷◌, ◌++◌, length, take,
  drop, arith,
}
use nsdscourse.Examples.SixTop.Library.{Tsch, Packets, Peers, add, request, response, rx, tx}
use nsdscourse.Examples.SixTop.Cells.{Cell, bytes_of, is_free, no_timeslot}
use nsdscourse.Examples.SixTop.Cells.Links.{bytes_of_all, AreWords, link_of}
use nsdscourse.Examples.SixTop.Answers.{
  Output, nothing, add_response_sent, Node, zeros, response_sent_callback, response_input, input,
  respond,
}
use nsdscourse.Examples.SixTop.Answers.Removal.{AreLists}
use nsdscourse.Examples.SixTop.Requests.{build, selected, select, sf_simple_add_links}
use nsdscourse.Examples.SixTop.Requests.Selection.{select-AreCandidates}
use nsdscourse.Examples.SixTop.Requests.Adding.{
  AreRequests, length-bytes_of_all, first_free, select-channels, first_free-IsDrawn, drawn-AreWords,
  request_input-first, add_one,
}

module _ (tsch : Tsch) (default_length : ℕ) (pkt : Packets) (plain : AreLists pkt)
    (fields : AreRequests pkt) where
  open tsch use {Slotframe, add_link}

  abbrev pub request_of : ℕ → List Cell → List ℕ → Output
  request_of b cs storage = record {
    kind = request add;
    body = take (4 + length cs * 4) storage;
    peer_addr = b;
    callback = nothing;
    arg_len = 0;
  }

  abbrev pub response_of : ℕ → Cell → Output
  response_of a c = record {
    kind = response true;
    body = bytes_of c;
    peer_addr = a;
    callback = add_response_sent;
    arg_len = 4;
  }

  add_links-selected :
      (rs : List ℕ) (b : ℕ) (n : Node Slotframe) (f : Slotframe) (cs : List Cell) (storage : List ℕ)
      → n.slotframe ≡ some f
      → select tsch default_length f rs [] 1 ≡ selected cs
      → 0 < length cs
      → build
          (pkt.set_cell_options (request add)
            ∷ pkt.set_num_cells (request add) 1
            ∷ pkt.set_cell_list (request add) (bytes_of_all cs) 0
            ∷ [])
          zeros
        ≡ (true, storage)
      → sf_simple_add_links tsch default_length pkt rs b 1 n
        ≡ some (
          true,
          record n { req_storage = storage; sent = n.sent ++ (request_of b cs storage ∷ []) },
        )
  unfolding sf_simple_add_links
  add_links-selected rs b n f cs storage ef chosen pos built =
      rw (ef, chosen) (ground (arith, built))

  -- The response of `b`, and its callback.
  module _ (a : ℕ) (body : List ℕ) (cs : List Cell) (c : Cell) (g : Slotframe)
      (node_b : Node Slotframe) (peers' : Peers)
      (got : pkt.get_num_cells (request add) body ≡ some 1)
      (got_list : pkt.get_cell_list (request add) body ≡ some (bytes_of_all cs))
      (words : AreWords cs) (pos : 0 < length cs) (eb : node_b.slotframe ≡ some g)
      (first : first_free tsch g cs ≡ some c) where
    input-request :
        input tsch pkt peers' (some (request add)) body a node_b
        ≡ respond tsch pkt (bytes_of c ++ drop 4 zeros) 4 a add_response_sent node_b
    unfolding input
    input-request =
        request_input-first tsch pkt plain body cs c g node_b a got got_list words pos eb first

    callback-adds :
        AreWords (c ∷ [])
        → c.timeslot_offset ≢ no_timeslot
        → peers'.is_neighbour a ≡ true
        → (response_sent_callback tsch pkt add peers' true 4 a
            (respond tsch pkt (bytes_of c ++ drop 4 zeros) 4 a add_response_sent node_b)).slotframe
          ≡ some (add_link g (link_of tsch a rx c))
    unfolding response_sent_callback
    callback-adds word ne nb =
        rw (nb, plain.get_all, eb, add_one tsch pkt plain a rx c g word ne) refl

  -- `a` takes in the response.
  response-adds :
      (b : ℕ) (c : Cell) (f : Slotframe) (n : Node Slotframe) (peers : Peers)
      → n.slotframe ≡ some f
      → AreWords (c ∷ [])
      → c.timeslot_offset ≢ no_timeslot
      → peers.is_neighbour b ≡ true
      → peers.transaction b ≡ some add
      → (input tsch pkt peers (some (response true)) (bytes_of c) b n).slotframe
        ≡ some (add_link f (link_of tsch b tx c))
  unfolding input response_input
  response-adds b c f n peers ef word ne nb ta =
      rw (nb, ta, plain.get_all, ef, add_one tsch pkt plain b tx c f word ne) refl

  -- `a` asks its neighbour `b` for one link and the loop over random slots ends with the cells `cs`, of
  -- which `c` is the first that is free at `b`. Then one request goes to `b`; on its body `b` sends one
  -- response to `a`; behind a successful output the callback of `b` adds a link in `c` to receive from
  -- `a`, and on the body of the response `a` adds one in `c`, where it was free too, to send to `b`: if
  -- the fields of packets are read as they were written, `a` has the add transaction with `b`, and
  -- the schedule has less than 254 slots.
  pub add-agreement :
      (a b : ℕ) (rs : List ℕ) (node_a node_b : Node Slotframe) (f g : Slotframe) (cs : List Cell)
      (c : Cell) (peers peers' : Peers)
      → 0 < default_length
      → default_length < 254
      → node_a.slotframe ≡ some f
      → node_b.slotframe ≡ some g
      → select tsch default_length f rs [] 1 ≡ selected cs
      → first_free tsch g cs ≡ some c
      → peers.is_neighbour b ≡ true
      → peers.transaction b ≡ some add
      → peers'.is_neighbour a ≡ true
      → (asked : Node Slotframe) × (req : Output) × (res : Output) × (sf_simple_add_links tsch
            default_length pkt rs b 1 node_a
          ≡ some (true, asked))
        × ((asked.sent ≡ node_a.sent ++ (req ∷ [])) × (req.peer_addr ≡ b))
        × (let answered = input tsch pkt peers' (some req.kind) req.body a node_b in
            (answered.sent ≡ node_b.sent ++ (res ∷ []))
            × (res.peer_addr ≡ a)
            × (res.callback ≡ add_response_sent)
            × ((response_sent_callback tsch pkt add peers' true res.arg_len a answered).slotframe
                ≡ some (add_link g (link_of tsch a rx c))))
        × ((input tsch pkt peers (some res.kind) res.body b asked).slotframe
            ≡ some (add_link f (link_of tsch b tx c)))
        × (is_free tsch f c.timeslot_offset ≡ true)
  add-agreement a b rs node_a node_b f g cs c peers peers' pos small ea eb chosen first na ta nb =
      let (good, three) = select-AreCandidates tsch default_length f rs cs pos small chosen in
      let zero = select-channels tsch default_length f rs [] 1 cs tt chosen in
      let words = drawn-AreWords tsch default_length f cs small good zero in
      let drawn = first_free-IsDrawn tsch default_length f g cs c good zero first in
      let word : AreWords (c ∷ []) =
        ((omega (arith, drawn.below), omega (arith, drawn.channel)), tt) in
      let ne : c.timeslot_offset ≢ no_timeslot = λ e. omega (arith, drawn.below) in
      let (storage, built, got, got_list) =
        fields.built 1 (bytes_of_all cs) (omega arith) (omega (arith, length-bytes_of_all cs)) in
      let long : 0 < length cs = omega arith in
      let at =
        λ (P : ℕ → Type 0) (p : P (length (bytes_of_all cs))). subst P (length-bytes_of_all cs) p in
      let body = (request_of b cs storage).body in
      let got' = at (λ l. pkt.get_num_cells (request add) (take (4 + l) storage) ≡ some 1) got in
      let got_list' =
        at (λ l. pkt.get_cell_list (request add) (take (4 + l) storage) ≡ some (bytes_of_all cs))
          got_list in
      let answer = input-request a body cs c g node_b peers' got' got_list' words long eb first in
      let asked = record node_a {
        req_storage = storage;
        sent = node_a.sent ++ (request_of b cs storage ∷ []);
      } in
      (
        asked,
        request_of b cs storage,
        response_of a c,
        add_links-selected rs b node_a f cs storage ea chosen long built,
        (refl, refl),
        (
          ap (λ n. n.sent) answer,
          refl,
          refl,
          ap (λ n. (response_sent_callback tsch pkt add peers' true 4 a n).slotframe) answer
              ∙ callback-adds a body cs c g node_b peers' got' got_list' words long eb first word ne
                  nb,
        ),
        response-adds b c f asked peers ea word ne na ta,
        drawn.free,
      )
