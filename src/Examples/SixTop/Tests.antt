-- ===== src/Examples/SixTop/Tests.antt =====
-- A schedule, packets and nodes, and instances of the theorems about sf-simple.c.
use nsdscourse.Base.{
  ℕ, ◌+◌, ◌*◌, ◌≡◌, ◌≢◌, refl, inl, true, Option, none, some, List, [], ◌∷◌, ◌++◌, length, take,
  take-append, suc, ap, ◌∙◌, drop, ◌==◌, ◌||◌, if◌then◌else◌, arith, replicate,
}
use nsdscourse.Examples.SixTop.Library.{
  Link, Tsch, add, delete, Kind, request, response, Packets, Peers, tx, rx,
}
use nsdscourse.Examples.SixTop.Cells.{Cell, is_free, cells_of, remove_links_to_schedule}
use nsdscourse.Examples.SixTop.Cells.Links.{bytes_of_all, link_at-remove_links, names, link_of}
use nsdscourse.Examples.SixTop.Answers.{
  Node, answer_add, collect_free, zeros, request_input, response_sent_callback, input, Output,
  add_response_sent,
}
use nsdscourse.Examples.SixTop.Answers.Removal.{AreLists, delete-second_only}
use nsdscourse.Examples.SixTop.Requests.Adding.{AreRequests}
use nsdscourse.Examples.SixTop.Requests.Agreement.{add-agreement}
use nsdscourse.Examples.SixTop.Requests.{
  build, sf_simple_add_links, check, max_links, selected, unfinished, select,
}
use nsdscourse.Examples.SixTop.Requests.Selection.{cell_at, AreCandidates, select-AreCandidates}
use nsdscourse.Examples.SixTop.Requests.Trials.{select-unfinished}

abbrev Frame : Type 0
Frame = ℕ → Option Link

abbrev add_to : Frame → Link → Frame
add_to f l t = if t == l.timeslot then some l else f t

abbrev remove_from : Frame → ℕ → Frame
remove_from f t u = if u == t then none else f u

add_to_here : (f : Frame) (l : Link) → add_to f l l.timeslot ≡ some l
add_to_here f l = ground arith

add_to_elsewhere : (f : Frame) (l : Link) (t : ℕ) → t ≢ l.timeslot → add_to f l t ≡ f t
add_to_elsewhere f l t h = ground arith

remove_from_here : (f : Frame) (t : ℕ) → remove_from f t t ≡ none
remove_from_here f t = ground arith

remove_from_elsewhere : (f : Frame) (t u : ℕ) → u ≢ t → remove_from f t u ≡ f u
remove_from_elsewhere f t u h = ground arith

-- A schedule holds the link of each time slot.
abbrev tsch : Tsch
tsch = record {
  Slotframe = Frame;
  link_at = λ f t. f t;
  add_link = add_to;
  remove_link = remove_from;
  link_at-add_link = λ f l. inl (add_to_here f l);
  link_at-add_link_ne = add_to_elsewhere;
  link_at-remove_link = remove_from_here;
  link_at-remove_link_ne = remove_from_elsewhere;
}

abbrev fourth : List ℕ → Option ℕ
fourth (a ∷ b ∷ c ∷ d ∷ rest) = some d
fourth _ = none

-- A request has four bytes in front of its cells, the last of them the number of cells.
abbrev fixed_part : Kind → ℕ
fixed_part (request cmd) = 4
fixed_part (response success) = 0

abbrev pkt : Packets
pkt = record {
  get_num_cells = λ kind body. fourth body;
  get_cell_list = λ kind body. some (drop (fixed_part kind) body);
  set_cell_list = λ kind cell_list offset body.
      let at = fixed_part kind + 4 * offset in
      some (take at body ++ (cell_list ++ drop (length cell_list) (drop at body)));
  set_num_cells = λ kind num_cells body. some (take 3 body ++ (num_cells ∷ drop 4 body));
  set_cell_options = λ kind body. some (take 2 body ++ (1 ∷ drop 3 body));
}

plain : AreLists pkt
plain = record { set_first = λ cell_list body h. refl; get_all = λ body. refl }

abbrev peers : Peers
peers = record { is_neighbour = λ a. true; transaction = λ a. some add }

abbrev deleting : Peers
deleting = record { is_neighbour = λ a. true; transaction = λ a. some delete }

abbrev tx_link : ℕ → ℕ → Link
tx_link addr t = record { link_options = tx; addr = addr; timeslot = t; channel_offset = 0 }

-- Links to node 7 in the time slots 2 and 4.
abbrev frame : Frame
frame t = if t == 2 then some (tx_link 7 2) else if t == 4 then some (tx_link 7 4) else none

abbrev node : Node Frame
node = record { slotframe = some frame; res_storage = zeros; req_storage = zeros; sent = [] }

abbrev one_three : List Cell
one_three = cell_at 1 ∷ cell_at 3 ∷ []

abbrev two_four : List Cell
two_four = cell_at 2 ∷ cell_at 4 ∷ []

-- An answered add request for two cells, and one for two cells of which one is in use.
abbrev accepted : Node Frame
accepted = request_input tsch pkt add (0 ∷ 0 ∷ 1 ∷ 2 ∷ bytes_of_all one_three) 7 node

accepted_bytes : take 8 accepted.res_storage ≡ bytes_of_all one_three
unfolding request_input answer_add collect_free cells_of
accepted_bytes = refl

four_bytes :
    cells_of (1 ∷ 1 ∷ 2 ∷ 0 ∷ 9 ∷ []) ≡ record { timeslot_offset = 257; channel_offset = 2 } ∷ []
unfolding cells_of
four_bytes = refl

link_at-remove_links_example :
    remove_links_to_schedule tsch two_four frame 2 ≡ (if names 2 two_four then none else frame 2)
link_at-remove_links_example = link_at-remove_links tsch two_four frame 2 (omega arith)

abbrev asking : ℕ → List Cell → List ℕ
asking n cs = 0 ∷ 0 ∷ 1 ∷ n ∷ bytes_of_all cs

delete-second_only_example :
    (g : Frame) × ((response_sent_callback tsch pkt delete peers true 8 7
        (request_input tsch pkt delete (asking 2 two_four) 7 node)).slotframe
      ≡ some g)
    × (g 2 ≡ (if (2 == 4) || (2 == 0) then none else frame 2))
delete-second_only_example =
    delete-second_only tsch pkt plain (asking 2 two_four) 2 (cell_at 2) (cell_at 4) frame node peers
      7 2 refl refl ((omega arith, omega arith), ((omega arith, omega arith), tt)) refl
      (omega arith) refl refl refl (omega arith)

-- The first random number draws a slot in use, and the third one a slot drawn before.
abbrev draws : List ℕ
draws = 2 ∷ 8 ∷ 1 ∷ 3 ∷ 5 ∷ []

drawn_cells : select tsch 7 frame draws [] 1 ≡ selected (cell_at 1 ∷ cell_at 3 ∷ cell_at 5 ∷ [])
unfolding select check
drawn_cells = refl

select-AreCandidates_example :
    AreCandidates tsch 7 frame (cell_at 1 ∷ cell_at 3 ∷ cell_at 5 ∷ []) × (3 ≡ max_links)
select-AreCandidates_example =
    select-AreCandidates tsch 7 frame draws (cell_at 1 ∷ cell_at 3 ∷ cell_at 5 ∷ []) (omega arith)
      (omega arith) drawn_cells

select-unfinished_example : select tsch 7 frame (replicate 24 1) [] 1 ≢ unfinished
select-unfinished_example =
    select-unfinished tsch 7 frame (replicate 24 1) (omega arith) (omega arith) (omega arith)

-- The fields of an add request in this format.
abbrev request_bytes : ℕ → List ℕ → List ℕ
request_bytes num_cells cell_list =
    0 ∷ 0 ∷ 1 ∷ num_cells ∷ (cell_list ++ drop (length cell_list) (replicate 12 0))

four_more :
    (num_cells n : ℕ) (rest : List ℕ)
    → take (4 + n) (0 ∷ 0 ∷ 1 ∷ num_cells ∷ rest) ≡ 0 ∷ 0 ∷ 1 ∷ num_cells ∷ take n rest
four_more num_cells n rest = rw (four n) refl
  where
    four : (n : ℕ) → 4 + n ≡ suc (suc (suc (suc n)))
    four n = omega arith

-- The only link of this node is in time slot 1, which the draws below name first.
abbrev other_frame : Frame
other_frame t = if t == 1 then some (tx_link 9 1) else none

abbrev other_node : Node Frame
other_node = record node { slotframe = some other_frame }

fields : AreRequests pkt
unfolding build
fields = record {
  built = λ num_cells cell_list h k. (
    request_bytes num_cells cell_list,
    refl,
    ap (λ b. pkt.get_num_cells (request add) b) (four_more num_cells (length cell_list) _),
    ap (λ b. pkt.get_cell_list (request add) b) (four_more num_cells (length cell_list) _)
        ∙ ap some (take-append cell_list (drop (length cell_list) (replicate 12 0))),
  );
}

add-agreement_example :
    (asked : Node Frame) × (req : Output) × (res : Output) × (sf_simple_add_links tsch 7 pkt draws 9
        1 node
      ≡ some (true, asked))
    × ((asked.sent ≡ req ∷ []) × (req.peer_addr ≡ 9))
    × (let answered = input tsch pkt peers (some req.kind) req.body 7 other_node in
        (answered.sent ≡ res ∷ [])
        × (res.peer_addr ≡ 7)
        × (res.callback ≡ add_response_sent)
        × ((response_sent_callback tsch pkt add peers true res.arg_len 7 answered).slotframe
            ≡ some (add_to other_frame (link_of tsch 7 rx (cell_at 3)))))
    × ((input tsch pkt peers (some res.kind) res.body 9 asked).slotframe
        ≡ some (add_to frame (link_of tsch 9 tx (cell_at 3))))
    × (is_free tsch frame 3 ≡ true)
add-agreement_example =
    add-agreement tsch 7 pkt plain fields 7 9 draws node other_node frame other_frame
      (cell_at 1 ∷ cell_at 3 ∷ cell_at 5 ∷ []) (cell_at 3) peers peers (omega arith) (omega arith)
      refl refl drawn_cells refl refl refl refl
