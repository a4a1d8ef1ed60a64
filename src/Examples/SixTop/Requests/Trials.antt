-- ===== src/Examples/SixTop/Requests/Trials.antt =====
-- How long the loop of sf_simple_add_links runs.
use nsdscourse.Base.{
  ℕ, zero, suc, ◌+◌, ◌*◌, ◌%◌, ◌<◌, ◌≤◌, ◌≡◌, ◌≢◌, refl, sym, ◌∙◌, ◌⊎◌, inl, inr, List, [], ◌∷◌,
  ◌++◌, length, length-snoc, ltb, ◌==◌, if◌then◌else◌, arith, Bool-cases,
}
use nsdscourse.Examples.SixTop.Library.{Tsch}
use nsdscourse.Examples.SixTop.Cells.{Cell, is_free}
use nsdscourse.Examples.SixTop.Requests.{max_links, unfinished, check, select}
use nsdscourse.Examples.SixTop.Requests.Selection.{cell_at, select-used, select-listed, select-new}

-- The trials count while there are cells.
check-cases :
    (cs : List Cell) (t slot_check : ℕ)
    → (0 < length cs) ⊎ (slot_check ≡ 1)
    → slot_check < 255
    → (check cs t slot_check ≡ 1) ⊎ ((0 < length cs) × (check cs t slot_check ≡ slot_check + 1))
unfolding check
check-cases [] t slot_check h k = ground arith
check-cases (c ∷ []) t slot_check h k = ground arith
check-cases (c ∷ d ∷ cs) t slot_check h k =
    ground (arith, check-cases (d ∷ cs) t slot_check (inl (ground arith)) k)

module _ (tsch : Tsch) (default_length : ℕ) where
  open tsch use {Slotframe, link_at}

  -- How many of the random numbers draw a free slot.
  abbrev pub free_draws : Slotframe → List ℕ → ℕ
  free_draws f [] = 0
  free_draws f (r ∷ rs) =
      (if is_free tsch f (r % 256 % default_length) then 1 else 0) + free_draws f rs

  abbrev budget : ℕ → ℕ
  budget zero = 0
  budget (suc missing) = default_length + 1 + budget missing

  budget-pos :
      (missing : ℕ)
      → 0 < missing
      → (less : ℕ) × (missing ≡ less + 1) × (budget missing ≡ default_length + 1 + budget less)
  budget-pos zero h = (zero, omega arith, omega arith)
  budget-pos (suc missing) h = (missing, omega arith, refl)

  select_from-unfinished :
      (f : Slotframe) (rs : List ℕ) (cell_list : List Cell) (slot_check missing : ℕ)
      → 0 < default_length
      → default_length < 254
      → length cell_list + missing ≡ 2
      → (0 < length cell_list) ⊎ (slot_check ≡ 1)
      → 0 < slot_check
      → slot_check ≤ default_length + 1
      → budget missing + default_length + 2 ≤ free_draws f rs + slot_check
      → select tsch default_length f rs cell_list slot_check ≢ unfinished
  unfolding select
  select_from-unfinished f [] cell_list slot_check missing pos small m s h k enough = ground arith
  select_from-unfinished f (r ∷ rs) cell_list slot_check missing pos small m s h k enough =
      let t = r % 256 % default_length in
      let next = check cell_list t slot_check in
      let known = check-cases cell_list t slot_check s (omega arith) in
      elim (Bool-cases (is_free tsch f t)) [
        | inr used ↦ λ e.
            select_from-unfinished f rs cell_list slot_check missing pos small m s h k
              (ground arith)
              (sym (select-used tsch default_length f r rs cell_list slot_check used) ∙ e)
        | inl free ↦ elim (Bool-cases (next == 1)) [
          | inr listed ↦ λ e.
              let e' =
                sym (select-listed tsch default_length f r rs cell_list slot_check free listed)
                ∙ e in
              select_from-unfinished f rs cell_list next missing pos small m (ground arith)
                (ground arith) (ground arith) (ground arith) (ground arith)
          | inl new ↦ λ e.
              let e' =
                sym (select-new tsch default_length f r rs cell_list slot_check free new) ∙ e in
              let longer' = cell_list ++ (cell_at t ∷ []) in
              let grown = length-snoc cell_list (cell_at t) in
              elim (Bool-cases (ltb (length longer') max_links)) [
                | inr full ↦ ground arith
                | inl more ↦
                    let (missing', one_less, less) = budget-pos missing (ground arith) in
                    select_from-unfinished f rs longer' (next + 1) missing' pos small (omega arith)
                      (inl (omega arith)) (omega arith) (ground arith) (ground arith) (ground arith)
              ]
        ]
      ]

  -- The loop ends after three times the schedule's length plus three draws of free slots at most, with
  -- cells or by giving up; the length is below 254.
  pub select-unfinished :
      (f : Slotframe) (rs : List ℕ)
      → 0 < default_length
      → default_length < 254
      → 3 * (default_length + 1) ≤ free_draws f rs
      → select tsch default_length f rs [] 1 ≢ unfinished
  select-unfinished f rs pos small enough =
      select_from-unfinished f rs [] 1 2 pos small refl (inr refl) (omega arith) (omega arith)
        (omega arith)
