-- ===== src/Examples/SixTop/Requests.antt =====
-- How sf-simple.c starts transactions: sf_simple_add_links and sf_simple_remove_links. The length of
-- the schedule, TSCH_SCHEDULE_DEFAULT_LENGTH, is a parameter; the counters are 8-bit numbers, and a
-- length below 256 is assumed of the loop over the schedule, which has no end otherwise.
pub mod Selection
pub mod Trials
pub mod Removing
pub mod Adding
pub mod Agreement
use nsdscourse.Base.{
  ℕ, zero, suc, ◌+◌, ◌*◌, ◌%◌, Bool, true, false, ◌&&◌, Option, none, some, List, [], ◌∷◌, ◌++◌,
  length, take, ltb, ◌==◌, if◌then◌else◌,
}
use nsdscourse.Examples.SixTop.Library.{
  LinkOption, rx, tx, other, Link, Tsch, Cmd, add, delete, Kind, request, Packets,
}
use nsdscourse.Examples.SixTop.Cells.{Cell, bytes_of, is_free}
use nsdscourse.Examples.SixTop.Cells.Links.{bytes_of_all}
use nsdscourse.Examples.SixTop.Answers.{Output, nothing, Node, zeros}

abbrev pub max_links : ℕ
max_links = 3

-- What the loop that selects cells ends with; `unfinished` when the random numbers at hand are used up.
pub data Outcome : Type 0 where
  selected : List Cell → Outcome
  gave_up unfinished : Outcome

-- The loop over the cells selected so far: `slot_check` then.
unfoldable pub check : List Cell → ℕ → ℕ → ℕ
check [] random_slot slot_check = slot_check
check (c ∷ cs) random_slot slot_check =
    let rest = check cs random_slot slot_check in
    if c.timeslot_offset == random_slot
    then (slot_check + 1) % 256
    else if length cs == 0
    then 1
    else rest

abbrev pub is_tx : LinkOption → Bool
is_tx tx = true
is_tx _ = false

-- The writes of a packet's fields, up to the first that fails: whether all succeeded, and the buffer.
unfoldable pub build : List (List ℕ → Option (List ℕ)) → List ℕ → Bool × List ℕ
build [] buffer = (true, buffer)
build (write ∷ writes) buffer = elim (write buffer) [
  | none ↦ (false, buffer)
  | some written ↦ build writes written
]

module _ (tsch : Tsch) where
  open tsch use {Slotframe, link_at}

  -- The loop over the schedule, from time slot `i` on.
  unfoldable pub find_tx : Slotframe → ℕ → ℕ → ℕ → Option Cell
  find_tx f peer_addr i zero = none
  find_tx f peer_addr i (suc left) =
      let rest = find_tx f peer_addr (i + 1) left in
      elim (link_at f i) [
        | none ↦ rest
        | some l ↦
            if (l.addr == peer_addr) && is_tx l.link_options
            then some (record { timeslot_offset = i; channel_offset = l.channel_offset })
            else rest
      ]

module _ (tsch : Tsch) (default_length : ℕ) where
  open tsch use {Slotframe, link_at}

  -- The loop that selects cells, on the results of `random_rand`.
  unfoldable pub select : Slotframe → List ℕ → List Cell → ℕ → Outcome
  select f [] cell_list slot_check = unfinished
  select f (r ∷ rs) cell_list slot_check =
      let random_slot = r % 256 % default_length in
      let checked = check cell_list random_slot slot_check in
      let longer =
        cell_list ++ (record { timeslot_offset = random_slot; channel_offset = 0 } ∷ []) in
      let rest = select f rs in
      if is_free tsch f random_slot
      then if checked == 1
        then if ltb (length longer) max_links then rest longer (checked + 1) else selected longer
        else if ltb default_length checked
        then gave_up
        else rest cell_list checked
      else rest cell_list slot_check

  module _ (pkt : Packets) where
    -- The request is sent when all its fields could be written; 0 is `true` and -1 is `false`.
    abbrev pub send :
        Cmd → ℕ → List (List ℕ → Option (List ℕ)) → ℕ → Node Slotframe → Bool × Node Slotframe
    send cmd req_len writes peer_addr n =
        let (built, storage) = build writes zeros in
        let n' = record n { req_storage = storage } in
        if built
        then (
          true,
          record n' {
            sent =
                n'.sent
                ++ (record {
                  kind = request cmd;
                  body = take req_len storage;
                  peer_addr = peer_addr;
                  callback = nothing;
                  arg_len = 0;
                }
                    ∷ []);
          },
        )
        else (false, n')

    abbrev pub request_add : ℕ → ℕ → Outcome → Node Slotframe → Option (Bool × Node Slotframe)
    request_add peer_addr num_links unfinished n = none
    request_add peer_addr num_links gave_up n = some (false, n)
    request_add peer_addr num_links (selected cell_list) n =
        if length cell_list == 0
        then some (false, n)
        else some (
            send add (4 + length cell_list * 4)
              (pkt.set_cell_options (request add)
                ∷ pkt.set_num_cells (request add) num_links
                ∷ pkt.set_cell_list (request add) (bytes_of_all cell_list) 0
                ∷ [])
              peer_addr n)

    -- `none` when the assertion that there is a slotframe fails, or the random numbers are used up.
    unfoldable pub sf_simple_add_links :
        List ℕ → ℕ → ℕ → Node Slotframe → Option (Bool × Node Slotframe)
    sf_simple_add_links rs peer_addr num_links n = elim n.slotframe [
      | none ↦ none
      | some f ↦ request_add peer_addr num_links (select f rs [] 1) n
    ]

    abbrev pub request_delete : ℕ → Option Cell → Node Slotframe → Bool × Node Slotframe
    request_delete peer_addr none n = (false, n)
    request_delete peer_addr (some cell) n =
        send delete 8
          (pkt.set_num_cells (request delete) 1
            ∷ pkt.set_cell_list (request delete) (bytes_of cell) 0
            ∷ [])
          peer_addr n

    -- `none` when the assertion that there is a slotframe fails.
    unfoldable pub sf_simple_remove_links : ℕ → Node Slotframe → Option (Bool × Node Slotframe)
    sf_simple_remove_links peer_addr n = elim n.slotframe [
      | none ↦ none
      | some f ↦ some (request_delete peer_addr (find_tx tsch f peer_addr 0 default_length) n)
    ]
