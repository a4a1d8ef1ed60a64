-- ===== src/Mpi/CharCount/Tests.antt =====
-- Runs and instances of char_count.c.
use nsdscourse.Base.{ℕ, ◌≡◌, refl, some, List, [], ◌∷◌, arith, All}
use nsdscourse.Mpi.CharCount.{receive, sends_to, one_letter, exchange}
use nsdscourse.Mpi.CharCount.Letters.{IsLetter}

-- "abba"
abbrev word : List ℕ
word = 97 ∷ 98 ∷ 98 ∷ 97 ∷ []

word-IsLetter : All IsLetter word
word-IsLetter = (
  (omega arith, omega arith),
  ((omega arith, omega arith), ((omega arith, omega arith), ((omega arith, omega arith), tt))),
)

two_letters : sends_to 3 0 0 (1 ∷ 2 ∷ 3 ∷ 4 ∷ []) ≡ 1 ∷ 4 ∷ []
unfolding sends_to
two_letters = refl

-- Three ranks: the second count of a fast rank is taken for the first letter.
letters_mixed :
    exchange 3 0 0 (0 ∷ 0 ∷ 0 ∷ 0 ∷ []) (1 ∷ 40 ∷ 2 ∷ 50 ∷ []) ≡ some (41 ∷ 0 ∷ 0 ∷ 52 ∷ [], [])
unfolding exchange one_letter receive
letters_mixed = refl
