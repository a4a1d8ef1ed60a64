-- ===== src/Examples/SixTop/Requests/Selection.antt =====
-- What the loop of sf_simple_add_links selects.
use nsdscourse.Base.{
  ℕ, ◌+◌, ◌%◌, ◌<◌, ◌≤◌, ◌≡◌, refl, sym, ◌∙◌, inl, inr, true, false, List, [], ◌∷◌, ◌++◌, length,
  length-snoc, ltb, ◌==◌, if◌then◌else◌, arith, Bool-cases,
}
use nsdscourse.Examples.SixTop.Library.{Tsch}
use nsdscourse.Examples.SixTop.Cells.{Cell, is_free}
use nsdscourse.Examples.SixTop.Cells.Links.{names}
use nsdscourse.Examples.SixTop.Requests.{max_links, Outcome, selected, gave_up, check, select}

abbrev pub cell_at : ℕ → Cell
cell_at t = record { timeslot_offset = t; channel_offset = 0 }

pub check-bounds :
    (cs : List Cell) (t slot_check : ℕ)
    → 0 < slot_check
    → slot_check < 255
    → (0 < check cs t slot_check) × (check cs t slot_check ≤ slot_check + 1)
unfolding check
check-bounds [] t slot_check h k = ground arith
check-bounds (c ∷ cs) t slot_check h k = ground (arith, check-bounds cs t slot_check h k)

check-names :
    (cs : List Cell) (t slot_check : ℕ)
    → 0 < slot_check
    → slot_check < 255
    → check cs t slot_check ≡ 1
    → names t cs ≡ false
unfolding check
check-names [] t slot_check h k e = refl
check-names (c ∷ []) t slot_check h k e = ground arith
check-names (c ∷ d ∷ cs) t slot_check h k e = ground (arith, check-names (d ∷ cs) t slot_check h k)

names-append :
    (u t : ℕ) (cs : List Cell)
    → names u (cs ++ (cell_at t ∷ [])) ≡ (if names u cs then true else t == u)
names-append u t [] = ground arith
names-append u t (c ∷ cs) = ground (arith, names-append u t cs)

module _ (tsch : Tsch) (default_length : ℕ) where
  open tsch use {Slotframe, link_at}

  -- Cells in pairwise different time slots of the schedule, all of them free.
  abbrev pub AreCandidates : Slotframe → List Cell → Type 0
  AreCandidates f [] = Unit
  AreCandidates f (c ∷ cs) =
      ((c.timeslot_offset < default_length) × (is_free tsch f c.timeslot_offset ≡ true))
      × (names c.timeslot_offset cs ≡ false)
      × AreCandidates f cs

  AreCandidates-append :
      (f : Slotframe) (cs : List Cell) (t : ℕ)
      → AreCandidates f cs
      → names t cs ≡ false
      → t < default_length
      → is_free tsch f t ≡ true
      → AreCandidates f (cs ++ (cell_at t ∷ []))
  AreCandidates-append f [] t good new h free = ((h, free), refl, tt)
  AreCandidates-append f (c ∷ cs) t good new h free = (
    good.0,
    names-append c.timeslot_offset t cs ∙ ground (arith, new, good.1),
    AreCandidates-append f cs t good.2 (ground (arith, new)) h free,
  )

  -- One round of the loop.
  module _ (f : Slotframe) (r : ℕ) (rs : List ℕ) (cell_list : List Cell) (slot_check : ℕ) where
    abbrev pub drawn : ℕ
    drawn = r % 256 % default_length

    abbrev pub checked : ℕ
    checked = check cell_list drawn slot_check

    abbrev pub longer : List Cell
    longer = cell_list ++ (cell_at drawn ∷ [])

    abbrev pub continued : Outcome
    continued = select tsch default_length f (r ∷ rs) cell_list slot_check

    pub select-used :
        is_free tsch f drawn ≡ false
        → continued ≡ select tsch default_length f rs cell_list slot_check
    unfolding select
    select-used used = rw used refl

    pub select-listed :
        is_free tsch f drawn ≡ true
        → (checked == 1) ≡ false
        → continued ≡ (
            if ltb default_length checked
            then gave_up
            else select tsch default_length f rs cell_list checked)
    unfolding select
    select-listed free listed = rw (free, listed) refl

    pub select-new :
        is_free tsch f drawn ≡ true
        → (checked == 1) ≡ true
        → continued ≡ (
            if ltb (length longer) max_links
            then select tsch default_length f rs longer (checked + 1)
            else selected longer)
    unfolding select
    select-new free new = rw (free, new) refl

  all_selected :
      (f : Slotframe) (cs longer' : List Cell)
      → AreCandidates f longer'
      → longer' ≡ cs
      → length longer' ≡ max_links
      → AreCandidates f cs × (length cs ≡ max_links)
  all_selected f cs longer' good same three = rw (sym same) (good, three)

  select_from-AreCandidates :
      (f : Slotframe) (rs : List ℕ) (cell_list : List Cell) (slot_check : ℕ) (cs : List Cell)
      → 0 < default_length
      → default_length < 254
      → AreCandidates f cell_list
      → length cell_list < max_links
      → 0 < slot_check
      → slot_check ≤ default_length + 1
      → select tsch default_length f rs cell_list slot_check ≡ selected cs
      → AreCandidates f cs × (length cs ≡ max_links)
  unfolding select
  select_from-AreCandidates f [] cell_list slot_check cs pos small good short h k e = ground arith
  select_from-AreCandidates f (r ∷ rs) cell_list slot_check cs pos small good short h k e =
      let t = r % 256 % default_length in
      let known = check-bounds cell_list t slot_check h (omega arith) in
      elim (Bool-cases (is_free tsch f t)) [
        | inr used ↦
            select_from-AreCandidates f rs cell_list slot_check cs pos small good short h k
              (sym (select-used f r rs cell_list slot_check used) ∙ e)
        | inl free ↦ elim (Bool-cases (check cell_list t slot_check == 1)) [
          | inr listed ↦
              let e' = sym (select-listed f r rs cell_list slot_check free listed) ∙ e in
              select_from-AreCandidates f rs cell_list (check cell_list t slot_check) cs pos small
                good short known.0 (ground arith) (ground arith)
          | inl new ↦
              let e' = sym (select-new f r rs cell_list slot_check free new) ∙ e in
              let fresh = check-names cell_list t slot_check h (omega arith) (ground arith) in
              let good' = AreCandidates-append f cell_list t good fresh (omega arith) free in
              let longer' = longer f r rs cell_list slot_check in
              elim (Bool-cases (ltb (length longer') max_links)) [
                | inl more ↦
                    select_from-AreCandidates f rs longer' (check cell_list t slot_check + 1) cs pos
                      small good' (ground arith) (omega arith) (ground arith) (ground arith)
                | inr full ↦
                    all_selected f cs longer' good' (ground arith)
                      (ground (arith, length-snoc cell_list (cell_at t)))
              ]
        ]
      ]

  -- The cells that the loop ends with are three, in pairwise different time slots below the length of
  -- the schedule, each without a link, whatever the random numbers are; the length is below 254.
  pub select-AreCandidates :
      (f : Slotframe) (rs : List ℕ) (cs : List Cell)
      → 0 < default_length
      → default_length < 254
      → select tsch default_length f rs [] 1 ≡ selected cs
      → AreCandidates f cs × (length cs ≡ max_links)
  select-AreCandidates f rs cs pos small e =
      select_from-AreCandidates f rs [] 1 cs pos small tt (omega arith) (omega arith) (omega arith)
        e
