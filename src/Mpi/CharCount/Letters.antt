-- ===== src/Mpi/CharCount/Letters.antt =====
-- What char_count.c counts in a file.
use nsdscourse.Base.{
  ℕ, ◌+◌, ◌-◌, ◌≤◌, ◌<◌, ◌≡◌, refl, ◌∙◌, ap, none, some, List, [], ◌∷◌, arith, All, length,
  length-set, get_or, set, get_or-set_self, get_or-set_ne, get_or-replicate, ◌++◌, false, ◌==◌,
  if◌then◌else◌, ℕ_discrete,
}
use nsdscourse.Mpi.CharCount.{count_char, count_file, no_letters}

-- How often a byte stands in the file.
abbrev pub occurrences : ℕ → List ℕ → ℕ
occurrences c [] = 0
occurrences c (x ∷ xs) = (if x == c then 1 else 0) + occurrences c xs

-- A lower-case letter.
abbrev pub IsLetter : ℕ → Type 0
IsLetter c = (97 ≤ c) × (c < 123)

-- The counts `d` are the counts `a` and the letters of the file.
record Counted (cs : List ℕ) (a d : List ℕ) : Type 0 where
  long : length d ≡ length a
  each : (i : ℕ) → i < 26 → get_or d i 0 ≡ get_or a i 0 + occurrences (i + 97) cs

abbrev counted : ℕ → List ℕ → List ℕ
counted c a = set a (c - 97) (get_or a (c - 97) 0 + 1)

count_char-counted : (c : ℕ) (a : List ℕ) → IsLetter c → count_char c a ≡ some (counted c a)
unfolding count_char
count_char-counted c a h = ground arith

-- One more letter changes its own count.
get_or-counted :
    (c : ℕ) (a : List ℕ) (i : ℕ)
    → IsLetter c
    → length a ≡ 26
    → get_or (counted c a) i 0 ≡ get_or a i 0 + (if c == i + 97 then 1 else 0)
get_or-counted c a i h k = elim (ℕ_discrete (c - 97) i) [
  | yes e ↦ ground (
    arith,
    get_or-set_self a (c - 97) (get_or a (c - 97) 0 + 1) 0 (omega arith),
    ap (λ j. get_or (counted c a) j 0) e,
    ap (λ j. get_or a j 0) e,
  )
  | no e ↦ ground (arith, get_or-set_ne a {i = c - 97} {j = i} (get_or a (c - 97) 0 + 1) 0 e)
]

count_file-letters :
    (cs : List ℕ) (a : List ℕ)
    → All IsLetter cs
    → length a ≡ 26
    → (d : List ℕ) × ((count_file cs a ≡ some d) × Counted cs a d)
unfolding count_file
count_file-letters [] a h k = (a, (refl, record { long = refl; each = λ i l. omega arith }))
count_file-letters (c ∷ cs) a h k =
    let (d, (e, r)) = count_file-letters cs (counted c a) h.1 (length-set a (c - 97) _ ∙ k) in
    let letter : (c == 255) ≡ false = ground (arith, h.0) in
    (
      d,
      (
        rw (letter, count_char-counted c a h.0) e,
        record {
          long = r.long ∙ length-set a (c - 97) _;
          each = λ i l. omega (arith, r.each i l, get_or-counted c a i h.0 k);
        },
      ),
    )

-- A file of lower-case letters is counted in full: each entry ends with the number of times that its
-- letter stands in the file.
pub count_file_lem :
    (cs : List ℕ)
    → All IsLetter cs
    → (d : List ℕ) × ((count_file cs no_letters ≡ some d)
        × ((i : ℕ) → i < 26 → get_or d i 0 ≡ occurrences (i + 97) cs))
count_file_lem cs h =
    let (d, (e, r)) = count_file-letters cs no_letters h refl in
    (d, (e, λ i l. omega (arith, r.each i l, get_or-replicate {A = ℕ} 26 i 0)))

-- A character below the lower-case letters, such as the end of a line, makes the loop write outside
-- of the array, if letters alone stand before it.
pub count_file-outside :
    (cs : List ℕ) (c : ℕ) (rest : List ℕ) (a : List ℕ)
    → All IsLetter cs
    → c < 97
    → count_file (cs ++ (c ∷ rest)) a ≡ none
unfolding count_file count_char
count_file-outside [] c rest a h k = ground arith
count_file-outside (x ∷ cs) c rest a h k =
    ground (arith, count_file-outside cs c rest (counted x a) h.1 k)
