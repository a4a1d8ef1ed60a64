-- ===== src/Mpi/Collective/Chunks.antt =====
-- What the blocks of a scattered array hold.
use nsdscourse.Base.{
  length-drop, ℕ, zero, suc, ◌*◌, ◌≡◌, refl, ap, List, [], ◌∷◌, arith, length, take, drop, sum,
  sum-append, map, take-append-drop,
}
use nsdscourse.Mpi.Collective.{chunks}

-- The numbers of all blocks and of the rest make up the array.
pub sum-chunks :
    (count procs : ℕ) (xs : List ℕ)
    → procs * count ≡ length xs
    → sum (map sum (chunks count procs xs)) ≡ sum xs
sum-chunks count zero [] h = refl
sum-chunks count zero (x ∷ xs) h = absurd (omega arith)
sum-chunks count (suc procs) xs h = omega (
  arith,
  sum-chunks count procs (drop count xs) (omega (arith, length-drop count xs)),
  sum-append (take count xs) (drop count xs),
  ap sum (take-append-drop count xs),
)
