-- ===== src/Examples/Texts.antt =====
-- The text at an address, which the programs read up to its zero, and lists with a part in front.
use nsdscourse.Base.{
  ℕ, ◌≡◌, refl, ap, Bool, true, not, ◌&&◌, List, [], ◌∷◌, ◌++◌, length, drop, set, ◌==◌,
  if◌then◌else◌, arith,
}

unfoldable pub string : List ℕ → List ℕ
string [] = []
string (c ∷ cs) = let rest = string cs in if c == 0 then [] else c ∷ rest

-- A text without a zero.
abbrev pub is_text : List ℕ → Bool
is_text [] = true
is_text (c ∷ cs) = not (c == 0) && is_text cs

pub string-text : (cs rest : List ℕ) → is_text cs ≡ true → string (cs ++ (0 ∷ rest)) ≡ cs
unfolding string
string-text [] rest h = refl
string-text (c ∷ cs) rest h = ground (arith, string-text cs rest)

pub drop-append : (pre rest : List ℕ) → drop (length pre) (pre ++ rest) ≡ rest
drop-append [] rest = refl
drop-append (c ∷ pre) rest = drop-append pre rest

pub set-append :
    (pre rest : List ℕ) (c v : ℕ) → set (pre ++ (c ∷ rest)) (length pre) v ≡ pre ++ (v ∷ rest)
set-append [] rest c v = refl
set-append (d ∷ pre) rest c v = ap (λ xs. d ∷ xs) (set-append pre rest c v)
