-- ===== src/Mpi/CharCount/Exchange.antt =====
-- What the owners of the letters in char_count.c end with.
use nsdscourse.Base.{
  ℕ, suc, ◌+◌, ◌-◌, ◌%◌, ◌≡◌, refl, some, List, [], ◌∷◌, arith, take, drop, inl, inr, length, sum,
  ◌==◌, if◌then◌else◌, Bool-cases,
}
use nsdscourse.Mpi.CharCount.{receive, sends_to, one_letter, exchange}

-- Enough messages for an owner: what it takes, it adds up.
record Received (p count : ℕ) (arrivals : List ℕ) : Type 0 where
  total : ℕ
  rest : List ℕ
  result : receive p count arrivals ≡ some (total, rest)
  kept : total + sum rest ≡ count + sum arrivals
  used : length rest + p ≡ length arrivals
  taken : total ≡ count + sum (take p arrivals)
  left : rest ≡ drop p arrivals

-- The counts with the messages that have arrived: each letter of `my_rank`, from letter `i` on, has the
-- messages of its turn, one from each other rank, and each other letter has none.
abbrev pub with_arrivals : ℕ → ℕ → ℕ → List ℕ → List ℕ → List ℕ
with_arrivals world_size my_rank i [] arrivals = []
with_arrivals world_size my_rank i (c ∷ cs) arrivals =
    let others = world_size - 1 in
    let rest = with_arrivals world_size my_rank (suc i) cs in
    if i % world_size == my_rank
    then (c + sum (take others arrivals)) ∷ rest (drop others arrivals)
    else c ∷ rest arrivals

-- The loop over the letters from `i` on ends, with all messages used, each count is that of its own
-- messages, and no character is lost.
pub record IsComplete (world_size my_rank i : ℕ) (cs arrivals : List ℕ) : Type 0 where
  pub counts : List ℕ
  pub result : exchange world_size my_rank i cs arrivals ≡ some (counts, [])
  pub kept : sum counts ≡ sum cs + sum arrivals
  pub letters : counts ≡ with_arrivals world_size my_rank i cs arrivals

module _ (world_size my_rank : ℕ) where
  abbrev sent : ℕ → List ℕ → List ℕ
  sent i cs = sends_to world_size my_rank i cs

-- The letters of `my_rank` with the counts of both ranks, the others with its own.
abbrev pub merged : ℕ → ℕ → List ℕ → List ℕ → List ℕ
merged my_rank i [] bs = []
merged my_rank i (a ∷ as') [] = a ∷ as'
merged my_rank i (a ∷ as') (b ∷ bs) =
    (if i % 2 == my_rank then a + b else a) ∷ merged my_rank (suc i) as' bs

-- With two ranks, where the messages of the other rank arrive in the order of sending, each owner
-- ends with the sum of both ranks' counts for each of its letters.
pub exchange-merged :
    (my_rank i : ℕ) (as' bs : List ℕ)
    → length as' ≡ length bs
    → exchange 2 my_rank i as' (sends_to 2 my_rank i bs) ≡ some (merged my_rank i as' bs, [])
unfolding exchange sends_to one_letter receive
exchange-merged my_rank i [] [] h = refl
exchange-merged my_rank i [] (b ∷ bs) h = absurd (omega arith)
exchange-merged my_rank i (a ∷ as') [] h = absurd (omega arith)
exchange-merged my_rank i (a ∷ as') (b ∷ bs) h =
    let rest = exchange-merged my_rank (suc i) as' bs (omega arith) in
    elim (Bool-cases (i % 2 == my_rank)) [
      | inl own ↦ rw (own, rest) refl
      | inr other ↦ rw (other, rest) refl
    ]
