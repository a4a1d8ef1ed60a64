-- ===== src/Examples/SixTop/Answers.antt =====
-- How sf-simple.c answers requests and takes in responses: `input` with the functions that it calls,
-- and the callbacks behind a response. The callbacks get a pointer to `res_storage`, so that they
-- read what it holds when they run.
pub mod Policy
pub mod Removal
use nsdscourse.Base.{
  ℕ, zero, ◌+◌, ◌*◌, Bool, true, false, ◌&&◌, Option, none, some, List, [], ◌∷◌, ◌++◌, length, take,
  replicate, ltb, ◌==◌, if◌then◌else◌,
}
use nsdscourse.Examples.SixTop.Library.{
  LinkOption, rx, tx, Link, Tsch, Cmd, add, delete, count, list, clear, Kind, request, response,
  Packets, Peers,
}
use nsdscourse.Examples.SixTop.Cells.{
  Cell, bytes_of, cells_of, add_links_to_schedule, remove_links_to_schedule, is_free,
}

-- The callback that a packet is sent with.
pub data Callback : Type 0 where
  nothing add_response_sent delete_response_sent : Callback

-- A call of `sixp_output`: the bytes of the body, the peer, and the callback with the length of its
-- argument.
pub record Output : Type 0 where
  pub kind : Kind
  pub body : List ℕ
  pub peer_addr : ℕ
  pub callback : Callback
  pub arg_len : ℕ

-- The static variables, the slotframe of handle 0 if there is one, and what was sent.
pub record Node (F : Type 0) : Type 0 where
  pub slotframe : Option F
  pub res_storage : List ℕ
  pub req_storage : List ℕ
  pub sent : List Output

-- 4 + SF_SIMPLE_MAX_LINKS * 4 zeros
abbrev pub zeros : List ℕ
zeros = replicate 16 0

-- The result of a write into a buffer is not looked at: a failing one changes nothing.
abbrev pub or_else : Option (List ℕ) → List ℕ → List ℕ
or_else none buffer = buffer
or_else (some b) buffer = b

abbrev pub some_cells : ℕ → List ℕ → Bool
some_cells num_cells cell_list = ltb 0 num_cells && ltb 0 (length cell_list)

module _ (tsch : Tsch) (pkt : Packets) where
  open tsch use {Slotframe, link_at}

  abbrev pub write_cell : Cell → ℕ → List ℕ → List ℕ
  write_cell c offset storage =
      or_else (pkt.set_cell_list (response true) (bytes_of c) offset storage) storage

  -- The loop of `add_req_input`: the number of free cells found, and `res_storage`.
  unfoldable pub collect_free : Slotframe → ℕ → List Cell → ℕ → List ℕ → ℕ × List ℕ
  collect_free f num_cells [] feasible_link storage = (feasible_link, storage)
  collect_free f num_cells (c ∷ cs) feasible_link storage =
      let rest = collect_free f num_cells cs in
      if ltb feasible_link num_cells
      then if is_free tsch f c.timeslot_offset
        then rest (feasible_link + 1) (write_cell c feasible_link storage)
        else rest feasible_link storage
      else (feasible_link, storage)

  -- The loop of `delete_req_input`: `res_len`, and `res_storage`; `removed_link` stays 0.
  unfoldable pub collect_used : Slotframe → List Cell → ℕ → List ℕ → ℕ × List ℕ
  collect_used f [] res_len storage = (res_len, storage)
  collect_used f (c ∷ cs) res_len storage =
      let rest = collect_used f cs in
      if is_free tsch f c.timeslot_offset
      then rest res_len storage
      else rest (res_len + 4) (write_cell c 0 storage)

  abbrev pub respond : List ℕ → ℕ → ℕ → Callback → Node Slotframe → Node Slotframe
  respond storage res_len peer_addr callback n = record n {
    res_storage = storage;
    sent =
        n.sent
        ++ (record {
          kind = response true;
          body = take res_len storage;
          peer_addr = peer_addr;
          callback = callback;
          arg_len = res_len;
        }
            ∷ []);
  }

  -- `add_req_input` behind the packet's fields.
  unfoldable pub answer_add : Slotframe → ℕ → List ℕ → ℕ → Node Slotframe → Node Slotframe
  answer_add f num_cells cell_list peer_addr n =
      let (feasible_link, storage) = collect_free f num_cells (cells_of cell_list) 0 zeros in
      if some_cells num_cells cell_list
      then if feasible_link == num_cells
        then respond storage (4 * feasible_link) peer_addr add_response_sent n
        else record n { res_storage = storage }
      else n

  -- `delete_req_input` behind the packet's fields.
  unfoldable pub answer_delete : Slotframe → ℕ → List ℕ → ℕ → Node Slotframe → Node Slotframe
  answer_delete f num_cells cell_list peer_addr n =
      let (res_len, storage) = collect_used f (cells_of cell_list) 0 zeros in
      if some_cells num_cells cell_list
      then respond storage res_len peer_addr delete_response_sent n
      else respond zeros 0 peer_addr delete_response_sent n

  abbrev answer : Cmd → Slotframe → ℕ → List ℕ → ℕ → Node Slotframe → Node Slotframe
  answer add f num_cells cell_list peer_addr n = answer_add f num_cells cell_list peer_addr n
  answer delete f num_cells cell_list peer_addr n = answer_delete f num_cells cell_list peer_addr n
  answer _ f num_cells cell_list peer_addr n = n

  abbrev parsed :
      Cmd → Option ℕ → Option (List ℕ) → Option Slotframe → ℕ → Node Slotframe → Node Slotframe
  parsed cmd (some num_cells) (some cell_list) (some f) peer_addr n =
      answer cmd f num_cells cell_list peer_addr n
  parsed cmd num_cells cell_list f peer_addr n = n

  -- `request_input`, with `add_req_input` and `delete_req_input`.
  unfoldable pub request_input : Cmd → List ℕ → ℕ → Node Slotframe → Node Slotframe
  request_input cmd body peer_addr n =
      parsed cmd (pkt.get_num_cells (request cmd) body) (pkt.get_cell_list (request cmd) body)
        n.slotframe peer_addr n

  abbrev on_slotframe : (Slotframe → Slotframe) → Node Slotframe → Node Slotframe
  on_slotframe change n = elim n.slotframe [
    | none ↦ n
    | some f ↦ record n { slotframe = some (change f) }
  ]

  abbrev schedule : Cmd → LinkOption → ℕ → Option (List ℕ) → Node Slotframe → Node Slotframe
  schedule add option peer_addr (some cell_list) n =
      on_slotframe (add_links_to_schedule tsch peer_addr option (cells_of cell_list)) n
  schedule delete option peer_addr (some cell_list) n =
      on_slotframe (remove_links_to_schedule tsch (cells_of cell_list)) n
  schedule cmd option peer_addr cell_list n = n

  -- `add_response_sent_callback` and `delete_response_sent_callback`, as `cmd` says; `success` is the
  -- status of the output.
  unfoldable pub response_sent_callback :
      Cmd → Peers → Bool → ℕ → ℕ → Node Slotframe → Node Slotframe
  response_sent_callback cmd peers success arg_len dest_addr n =
      if success && peers.is_neighbour dest_addr
      then schedule cmd rx dest_addr
          (pkt.get_cell_list (response true) (take arg_len n.res_storage)) n
      else n

  abbrev on_response : Option Cmd → List ℕ → ℕ → Node Slotframe → Node Slotframe
  on_response none body peer_addr n = n
  on_response (some cmd) body peer_addr n =
      schedule cmd tx peer_addr (pkt.get_cell_list (response true) body) n

  -- `response_input`; `success` says that the return code is SIXP_PKT_RC_SUCCESS.
  unfoldable pub response_input : Peers → Bool → List ℕ → ℕ → Node Slotframe → Node Slotframe
  response_input peers success body peer_addr n =
      if success && peers.is_neighbour peer_addr
      then on_response (peers.transaction peer_addr) body peer_addr n
      else n

  -- `input`; packets of other types are not supported.
  unfoldable pub input : Peers → Option Kind → List ℕ → ℕ → Node Slotframe → Node Slotframe
  input peers none body src_addr n = n
  input peers (some (request cmd)) body src_addr n = request_input cmd body src_addr n
  input peers (some (response success)) body src_addr n =
      response_input peers success body src_addr n
