-- ===== src/Examples/SixTop/Requests/Adding.antt =====
-- The cells of an add transaction of sf-simple.c for one link, from the loop that draws them to the
-- one that is answered and scheduled.
use nsdscourse.Base.{
  ℕ, ◌+◌, ◌*◌, ◌<◌, ◌≤◌, ◌≡◌, ◌≢◌, refl, sym, ap, subst, ◌∙◌, inl, inr, true, none, some, List, [],
  ◌∷◌, ◌++◌, append-nil, length, take, drop, if◌then◌else◌, arith, Bool-cases, Option, ◌==◌, All,
  All-append, ltb,
}
use nsdscourse.Examples.SixTop.Library.{Tsch, LinkOption, Packets, add, request}
use nsdscourse.Examples.SixTop.Cells.{
  Cell, bytes_of, cells_of, is_free, no_timeslot, add_links_to_schedule,
}
use nsdscourse.Examples.SixTop.Cells.Links.{bytes_of_all, AreWords, cells_of-bytes_of_all, link_of}
use nsdscourse.Examples.SixTop.Answers.{
  Node, add_response_sent, zeros, collect_free, answer_add, request_input, respond,
}
use nsdscourse.Examples.SixTop.Answers.Removal.{AreLists}
use nsdscourse.Examples.SixTop.Requests.{build, selected, select, max_links}
use nsdscourse.Examples.SixTop.Requests.Selection.{
  AreCandidates, cell_at, drawn, checked, longer, select-used, select-listed, select-new,
}

-- The fields of an add request that has room for its cells are read as they were written.
pub record AreRequests (pkt : Packets) : Type 0 where
  pub built :
      (num_cells : ℕ) (cell_list : List ℕ)
      → num_cells < 256
      → length cell_list ≤ 12
      → (storage : List ℕ) × (build
            (pkt.set_cell_options (request add)
              ∷ pkt.set_num_cells (request add) num_cells
              ∷ pkt.set_cell_list (request add) cell_list 0
              ∷ [])
            zeros
          ≡ (true, storage))
        × (pkt.get_num_cells (request add) (take (4 + length cell_list) storage) ≡ some num_cells)
        × (pkt.get_cell_list (request add) (take (4 + length cell_list) storage) ≡ some cell_list)

pub length-bytes_of_all : (cs : List Cell) → length (bytes_of_all cs) ≡ length cs * 4
length-bytes_of_all [] = refl
length-bytes_of_all (c ∷ cs) = omega (arith, length-bytes_of_all cs)

module _ (tsch : Tsch) where
  open tsch use {Slotframe, add_link}

  -- The first of the cells that is free.
  abbrev pub first_free : Slotframe → List Cell → Option Cell
  first_free f [] = none
  first_free f (c ∷ cs) = if is_free tsch f c.timeslot_offset then some c else first_free f cs

  -- A cell that the loop of the node that asks can have drawn.
  pub record IsDrawn (default_length : ℕ) (f : Slotframe) (c : Cell) : Type 0 where
    pub below : c.timeslot_offset < default_length
    pub free : is_free tsch f c.timeslot_offset ≡ true
    pub channel : c.channel_offset ≡ 0

  module _ (default_length : ℕ) (f : Slotframe) where
    abbrev ZeroChannel : Cell → Type 0
    ZeroChannel c = c.channel_offset ≡ 0

    pub select-channels :
        (rs : List ℕ) (cell_list : List Cell) (slot_check : ℕ) (cs : List Cell)
        → All ZeroChannel cell_list
        → select tsch default_length f rs cell_list slot_check ≡ selected cs
        → All ZeroChannel cs
    unfolding select
    select-channels [] cell_list slot_check cs h e = ground arith
    select-channels (r ∷ rs) cell_list slot_check cs h e =
        let t = drawn tsch default_length f r rs cell_list slot_check in
        let next = checked tsch default_length f r rs cell_list slot_check in
        let more = longer tsch default_length f r rs cell_list slot_check in
        let h' = All-append ZeroChannel cell_list (cell_at t ∷ []) h (refl, tt) in
        elim (Bool-cases (is_free tsch f t)) [
          | inr used ↦
              select-channels rs cell_list slot_check cs h
                (sym (select-used tsch default_length f r rs cell_list slot_check used) ∙ e)
          | inl free ↦ elim (Bool-cases (next == 1)) [
            | inr listed ↦
                let e' =
                  sym (select-listed tsch default_length f r rs cell_list slot_check free listed)
                  ∙ e in
                select-channels rs cell_list next cs h (ground (arith, e'))
            | inl new ↦
                let e' =
                  sym (select-new tsch default_length f r rs cell_list slot_check free new) ∙ e in
                elim (Bool-cases (ltb (length more) max_links)) [
                  | inl short ↦ select-channels rs more (next + 1) cs h' (ground (arith, e', short))
                  | inr full ↦
                      let same : more ≡ cs = ground (arith, e', full) in
                      subst (All ZeroChannel) same h'
                ]
          ]
        ]

  pub first_free-IsDrawn :
      (default_length : ℕ) (f g : Slotframe) (cs : List Cell) (c : Cell)
      → AreCandidates tsch default_length f cs
      → All (λ c. c.channel_offset ≡ 0) cs
      → first_free g cs ≡ some c
      → IsDrawn default_length f c
  first_free-IsDrawn default_length f g [] c good zero e = cc
  first_free-IsDrawn default_length f g (d ∷ cs) c good zero e =
      elim (Bool-cases (is_free tsch g d.timeslot_offset)) [
        | inl free ↦
            let same : d ≡ c = ground (arith, e, free) in
            subst (IsDrawn default_length f) same
              (record { below = good.0.0; free = good.0.1; channel = zero.0 })
        | inr used ↦
            first_free-IsDrawn default_length f g cs c good.2 zero.1 (ground (arith, e, used))
      ]

  pub drawn-AreWords :
      (default_length : ℕ) (f : Slotframe) (cs : List Cell)
      → default_length < 254
      → AreCandidates tsch default_length f cs
      → All (λ c. c.channel_offset ≡ 0) cs
      → AreWords cs
  drawn-AreWords default_length f [] small good zero = tt
  drawn-AreWords default_length f (c ∷ cs) small good zero = (
    (omega (arith, good.0.0), omega (arith, zero.0)),
    drawn-AreWords default_length f cs small good.2 zero.1,
  )

  module _ (pkt : Packets) (plain : AreLists pkt) where
    collect_free-enough :
        (g : Slotframe) (cs : List Cell) (storage : List ℕ)
        → collect_free tsch pkt g 1 cs 1 storage ≡ (1, storage)
    unfolding collect_free
    collect_free-enough g [] storage = refl
    collect_free-enough g (c ∷ cs) storage = refl

    collect_free-first :
        (g : Slotframe) (cs : List Cell) (c : Cell)
        → first_free g cs ≡ some c
        → collect_free tsch pkt g 1 cs 0 zeros ≡ (1, bytes_of c ++ drop 4 zeros)
    unfolding collect_free
    collect_free-first g [] c e = cc
    collect_free-first g (d ∷ cs) c e = elim (Bool-cases (is_free tsch g d.timeslot_offset)) [
      | inl free ↦
          let same : d ≡ c = ground (arith, e, free) in
          let written = plain.set_first (bytes_of d) zeros (omega arith) in
          rw (free, written, collect_free-enough g cs (bytes_of d ++ drop 4 zeros))
            (ap (λ x. (1, bytes_of x ++ drop 4 zeros)) same)
      | inr used ↦ rw used (collect_free-first g cs c (ground (arith, e, used)))
    ]

    pub cells_of-all : (cs : List Cell) → AreWords cs → cells_of (bytes_of_all cs) ≡ cs
    unfolding cells_of
    cells_of-all cs words =
        ap cells_of (sym (append-nil (bytes_of_all cs)))
        ∙ cells_of-bytes_of_all cs [] words
        ∙ append-nil cs

    -- The node `b` answers.
    pub request_input-first :
        (body : List ℕ) (cs : List Cell) (c : Cell) (g : Slotframe) (n : Node Slotframe) (a : ℕ)
        → pkt.get_num_cells (request add) body ≡ some 1
        → pkt.get_cell_list (request add) body ≡ some (bytes_of_all cs)
        → AreWords cs
        → 0 < length cs
        → n.slotframe ≡ some g
        → first_free g cs ≡ some c
        → request_input tsch pkt add body a n
          ≡ respond tsch pkt (bytes_of c ++ drop 4 zeros) 4 a add_response_sent n
    unfolding request_input answer_add
    request_input-first body cs c g n a e e' words pos eb first =
        rw (e, e', eb, cells_of-all cs words, collect_free-first g cs c first)
          (ground (arith, length-bytes_of_all cs))

    pub add_one :
        (peer_addr : ℕ) (option : LinkOption) (c : Cell) (f : Slotframe)
        → AreWords (c ∷ [])
        → c.timeslot_offset ≢ no_timeslot
        → add_links_to_schedule tsch peer_addr option (cells_of (bytes_of c)) f
          ≡ add_link f (link_of tsch peer_addr option c)
    unfolding add_links_to_schedule
    add_one peer_addr option c f words ne = rw (cells_of-all (c ∷ []) words) (ground arith)
