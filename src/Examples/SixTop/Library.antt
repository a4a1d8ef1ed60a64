-- ===== src/Examples/SixTop/Library.antt =====
-- What sf-simple.c calls of Contiki-NG: the schedule (tsch-schedule), the packets (sixp-pkt) and the
-- neighbours and transactions of 6top.
use nsdscourse.Base.{ℕ, ◌≡◌, ◌≢◌, ◌⊎◌, Bool, Option, none, some, List}

pub data LinkOption : Type 0 where
  rx tx other : LinkOption

-- The fields of `struct tsch_link` that the code sets or reads.
pub record Link : Type 0 where
  pub link_options : LinkOption
  pub addr : ℕ
  pub timeslot : ℕ
  pub channel_offset : ℕ

-- A slotframe of the schedule. A link takes the place of the one in its slot; `add_link` may fail, and
-- then no link is in that slot.
pub record Tsch : Type 1 where
  pub Slotframe : Type 0
  -- tsch_schedule_get_link_by_timeslot
  pub link_at : Slotframe → ℕ → Option Link
  -- tsch_schedule_add_link
  pub add_link : Slotframe → Link → Slotframe
  -- tsch_schedule_remove_link_by_timeslot
  pub remove_link : Slotframe → ℕ → Slotframe
  pub link_at-add_link :
      (f : Slotframe) (l : Link)
      → (link_at (add_link f l) l.timeslot ≡ some l) ⊎ (link_at (add_link f l) l.timeslot ≡ none)
  pub link_at-add_link_ne :
      (f : Slotframe) (l : Link) (t : ℕ) → t ≢ l.timeslot → link_at (add_link f l) t ≡ link_at f t
  pub link_at-remove_link : (f : Slotframe) (t : ℕ) → link_at (remove_link f t) t ≡ none
  pub link_at-remove_link_ne :
      (f : Slotframe) (t u : ℕ) → u ≢ t → link_at (remove_link f t) u ≡ link_at f u

pub data Cmd : Type 0 where
  add delete count list clear : Cmd

-- The type of a packet with its command or return code.
pub data Kind : Type 0 where
  request : Cmd → Kind
  response : Bool → Kind

-- The fields of a packet's body; `none` is a result other than 0. The number behind the cells of
-- `set_cell_list` is the argument `cell_offset`.
pub record Packets : Type 0 where
  pub get_num_cells : Kind → List ℕ → Option ℕ
  pub get_cell_list : Kind → List ℕ → Option (List ℕ)
  pub set_cell_list : Kind → List ℕ → ℕ → List ℕ → Option (List ℕ)
  pub set_num_cells : Kind → ℕ → List ℕ → Option (List ℕ)
  pub set_cell_options : Kind → List ℕ → Option (List ℕ)

-- sixp_nbr_find, and sixp_trans_find with sixp_trans_get_cmd
pub record Peers : Type 0 where
  pub is_neighbour : ℕ → Bool
  pub transaction : ℕ → Option Cmd
