-- ===== src/Examples/SixTop/Cells/Links.antt =====
-- What the loops of sf-simple.c over cells do to the schedule.
use nsdscourse.Base.{
  ℕ, ◌/◌, ◌%◌, ◌<◌, ◌≡◌, ◌≢◌, refl, ap, inl, inr, Bool, true, false, Option, none, some, List, [],
  ◌∷◌, ◌++◌, ◌==◌, if◌then◌else◌, arith, Bool-cases,
}
use nsdscourse.Examples.SixTop.Library.{LinkOption, Link, Tsch}
use nsdscourse.Examples.SixTop.Cells.{
  Cell, read_cell, bytes_of, cells_of, no_timeslot, add_links_to_schedule, remove_links_to_schedule,
}

-- The memory of some cells, one behind the other.
abbrev pub bytes_of_all : List Cell → List ℕ
bytes_of_all [] = []
bytes_of_all (c ∷ cs) = bytes_of c ++ bytes_of_all cs

-- Both offsets are 16-bit numbers.
abbrev pub AreWords : List Cell → Type 0
AreWords [] = Unit
AreWords (c ∷ cs) = ((c.timeslot_offset < 65536) × (c.channel_offset < 65536)) × AreWords cs

read_cell-bytes_of :
    (c : Cell)
    → c.timeslot_offset < 65536
    → c.channel_offset < 65536
    → read_cell
        (c.timeslot_offset % 256)
        (c.timeslot_offset / 256)
        (c.channel_offset % 256)
        (c.channel_offset / 256)
      ≡ c
unfolding read_cell
read_cell-bytes_of c h k = ground arith

-- Cells whose offsets are 16-bit numbers are read from their memory as they were, with any bytes that
-- are no whole cell behind them.
pub cells_of-bytes_of_all :
    (cs : List Cell) (rest : List ℕ)
    → AreWords cs
    → cells_of (bytes_of_all cs ++ rest) ≡ cs ++ cells_of rest
unfolding cells_of
cells_of-bytes_of_all [] rest h = refl
cells_of-bytes_of_all (c ∷ cs) rest h =
    rw (read_cell-bytes_of c h.0.0 h.0.1, cells_of-bytes_of_all cs rest h.1) refl

-- One of the cells is in the time slot `t`.
abbrev pub names : ℕ → List Cell → Bool
names t [] = false
names t (c ∷ cs) = if c.timeslot_offset == t then true else names t cs

-- The first cell that is valid.
abbrev pub first_valid : List Cell → Option Cell
first_valid [] = none
first_valid (c ∷ cs) = if c.timeslot_offset == no_timeslot then first_valid cs else some c

module _ (tsch : Tsch) where
  open tsch use {Slotframe, link_at, add_link, remove_link}

  -- Each valid time slot that a cell names is without a link then, and all others are as before.
  pub link_at-remove_links :
      (cs : List Cell) (f : Slotframe) (t : ℕ)
      → t ≢ no_timeslot
      → link_at (remove_links_to_schedule tsch cs f) t ≡ (if names t cs then none else link_at f t)
  unfolding remove_links_to_schedule
  link_at-remove_links [] f t h = refl
  link_at-remove_links (c ∷ cs) f t h =
      let u = c.timeslot_offset in
      ground (
        arith,
        link_at-remove_links cs f t h,
        link_at-remove_links cs (remove_link f u) t h,
        tsch.link_at-remove_link f u,
        tsch.link_at-remove_link_ne f u t,
        ap (link_at (remove_link f u)) {x = t} {y = u},
      )

  abbrev pub link_of : ℕ → LinkOption → Cell → Link
  link_of peer_addr option c = record {
    link_options = option;
    addr = peer_addr;
    timeslot = c.timeslot_offset;
    channel_offset = c.channel_offset;
  }

  pub add_links-first_valid :
      (peer_addr : ℕ) (option : LinkOption) (cs : List Cell) (f : Slotframe)
      → add_links_to_schedule tsch peer_addr option cs f
        ≡ (elim (first_valid cs) [ none ↦ f | some c ↦ add_link f (link_of peer_addr option c) ])
  unfolding add_links_to_schedule
  add_links-first_valid peer_addr option [] f = refl
  add_links-first_valid peer_addr option (c ∷ cs) f =
      elim (Bool-cases (c.timeslot_offset == no_timeslot)) [
        | inl e ↦ rw e (add_links-first_valid peer_addr option cs f)
        | inr e ↦ rw e refl
      ]
