-- ===== src/Mpi/CharCount.antt =====
-- MPI/NSDS_MPI_tutorial/src/char_count.c: each rank counts the letters of its file; then each letter
-- has an owner, to which the other ranks send their counts. `char` is signed, so that the byte 255
-- is EOF and the bytes from 128 on are negative. An access outside of `local_count` is `none`, and so
-- is a receive for which no message comes.
pub mod Letters
pub mod Exchange
mod Tests
use nsdscourse.Base.{
  ℕ, zero, suc, ◌+◌, ◌-◌, ◌%◌, Option, none, some, List, [], ◌∷◌, replicate, get_or, set, ltb, leb,
  ◌==◌, ◌&&◌, if◌then◌else◌,
}

-- num_letters
abbrev pub num_letters : ℕ
num_letters = 26

-- `local_count` before the file is read; the letter of an entry is its place.
abbrev pub no_letters : List ℕ
no_letters = replicate num_letters 0

-- `local_count[c_index].count++`
pub count_char : ℕ → List ℕ → Option (List ℕ)
count_char c local_count =
    if leb 97 c && ltb c 123
    then some (set local_count (c - 97) (get_or local_count (c - 97) 0 + 1))
    else none

abbrev and_then : {A B : Type 0} → Option A → (A → Option B) → Option B
and_then none f = none
and_then (some a) f = f a

-- The loop that reads the file.
pub count_file : List ℕ → List ℕ → Option (List ℕ)
count_file [] local_count = some local_count
count_file (c ∷ cs) local_count =
    let rest = and_then (count_char c local_count) (count_file cs) in
    if c == 255 then some local_count else rest

-- The loop of an owner: it takes the next messages as they arrive.
pub receive : ℕ → ℕ → List ℕ → Option (ℕ × List ℕ)
receive zero count arrivals = some (count, arrivals)
receive (suc p) count [] = none
receive (suc p) count (m ∷ arrivals) = receive p (count + m) arrivals

module _ (world_size : ℕ) where
  -- The counts that a rank sends to `receiver`, from letter `i` on.
  pub sends_to : ℕ → ℕ → List ℕ → List ℕ
  sends_to receiver i [] = []
  sends_to receiver i (c ∷ cs) =
      let rest = sends_to receiver (suc i) cs in
      if i % world_size == receiver then c ∷ rest else rest

  -- One letter on rank `my_rank`.
  pub one_letter : ℕ → ℕ → ℕ → List ℕ → Option (ℕ × List ℕ)
  one_letter my_rank i count arrivals =
      if i % world_size == my_rank
      then receive (world_size - 1) count arrivals
      else some (count, arrivals)

  -- The loop over the letters from `i` on: the counts after it, and the messages left.
  pub exchange : ℕ → ℕ → List ℕ → List ℕ → Option (List ℕ × List ℕ)
  exchange my_rank i [] arrivals = some ([], arrivals)
  exchange my_rank i (c ∷ cs) arrivals =
      and_then (one_letter my_rank i c arrivals)
        (λ r. and_then (exchange my_rank (suc i) cs r.1) (λ s. some (r.0 ∷ s.0, s.1)))
