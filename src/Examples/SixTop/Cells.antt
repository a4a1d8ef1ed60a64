-- ===== src/Examples/SixTop/Cells.antt =====
-- Cells as the packets hold them, and the loops that schedule them.
pub mod Links
use nsdscourse.Base.{
  ℕ, ◌+◌, ◌*◌, ◌/◌, ◌%◌, Bool, true, false, Option, none, some, List, [], ◌∷◌, ◌==◌, if◌then◌else◌,
}
use nsdscourse.Examples.SixTop.Library.{LinkOption, Link, Tsch}

-- `sf_simple_cell_t`
pub record Cell : Type 0 where
  pub timeslot_offset : ℕ
  pub channel_offset : ℕ

-- The first four bytes of a buffer as a cell.
pub read_cell : ℕ → ℕ → ℕ → ℕ → Cell
read_cell b0 b1 b2 b3 = record {
  timeslot_offset = (b0 + b1 * 256) % 65536;
  channel_offset = (b2 + b3 * 256) % 65536;
}

-- The memory of a cell, `(uint8_t *)&cell`, on a processor that stores the low byte first, as the
-- code takes it to be.
abbrev pub bytes_of : Cell → List ℕ
bytes_of c =
    c.timeslot_offset % 256
    ∷ c.timeslot_offset / 256
    ∷ c.channel_offset % 256
    ∷ c.channel_offset / 256
    ∷ []

-- The cells that a loop over a cell list reads.
unfoldable pub cells_of : List ℕ → List Cell
unfolding read_cell
cells_of (b0 ∷ b1 ∷ b2 ∷ b3 ∷ rest) = read_cell b0 b1 b2 b3 ∷ cells_of rest
cells_of _ = []

-- The time slot that stands for no cell.
abbrev pub no_timeslot : ℕ
no_timeslot = 0xffff

module _ (tsch : Tsch) where
  open tsch use {Slotframe, link_at, add_link, remove_link}

  -- Only the first valid cell is added.
  unfoldable pub add_links_to_schedule : ℕ → LinkOption → List Cell → Slotframe → Slotframe
  add_links_to_schedule peer_addr link_option [] f = f
  add_links_to_schedule peer_addr link_option (c ∷ cs) f =
      let rest = add_links_to_schedule peer_addr link_option cs f in
      if c.timeslot_offset == no_timeslot
      then rest
      else add_link f (record {
        link_options = link_option;
        addr = peer_addr;
        timeslot = c.timeslot_offset;
        channel_offset = c.channel_offset;
      })

  -- All cells are removed.
  unfoldable pub remove_links_to_schedule : List Cell → Slotframe → Slotframe
  remove_links_to_schedule [] f = f
  remove_links_to_schedule (c ∷ cs) f =
      remove_links_to_schedule cs
        (if c.timeslot_offset == no_timeslot then f else remove_link f c.timeslot_offset)

  abbrev pub is_free : Slotframe → ℕ → Bool
  is_free f t = elim (link_at f t) [ none ↦ true | some l ↦ false ]
