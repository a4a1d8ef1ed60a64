-- ===== src/Mpi/Filter/Multiples.antt =====
-- A worker of filter.c: the array that it sends holds exactly the multiples.
use nsdscourse.Base.{
  ℕ, suc, ◌+◌, ◌%◌, ◌≡◌, refl, ap, ◌++◌, List, [], ◌∷◌, arith, ◌==◌, if◌then◌else◌, Bool-cases, inl,
  inr, length, length-snoc, length-eq-zero, set, replicate, append_assoc,
}
use nsdscourse.Mpi.Filter.{
  count_from, get_num_multiples, copy_from, get_multiples, send_filtered_results_to_master,
}

-- The multiples of `num`, in order.
abbrev pub multiples : List ℕ → ℕ → List ℕ
multiples [] num = []
multiples (x ∷ xs) num = if x % num == 0 then x ∷ multiples xs num else multiples xs num

count_from-multiples :
    (count : ℕ) (xs : List ℕ) (num : ℕ)
    → count_from count xs num ≡ count + length (multiples xs num)
unfolding count_from
count_from-multiples count [] num = omega arith
count_from-multiples count (x ∷ xs) num = elim (Bool-cases (x % num == 0)) [
  | inl e ↦ rw (e, count_from-multiples (count + 1) xs num) (omega arith)
  | inr e ↦ rw (e, count_from-multiples count xs num)
]

-- A write just behind `done` takes the first free cell.
pub set-free :
    (done : List ℕ) (room v garbage : ℕ)
    → set (done ++ replicate (suc room) garbage) (length done) v
      ≡ (done ++ (v ∷ [])) ++ replicate room garbage
set-free [] room v garbage = refl
set-free (d ∷ done) room v garbage = ap (λ r. d ∷ r) (set-free done room v garbage)

copy_from-multiples :
    (done : List ℕ) (xs : List ℕ) (num garbage : ℕ)
    → copy_from (done ++ replicate (length (multiples xs num)) garbage) (length done) xs num
      ≡ done ++ multiples xs num
unfolding copy_from
copy_from-multiples done [] num garbage = refl
copy_from-multiples done (x ∷ xs) num garbage = elim (Bool-cases (x % num == 0)) [
  | inl e ↦
      rw (e, set-free done (length (multiples xs num)) x garbage)
        (cc (
          copy_from-multiples (done ++ (x ∷ [])) xs num garbage,
          length-snoc done x,
          append_assoc done (x ∷ []) (multiples xs num),
        ))
  | inr e ↦ rw e (copy_from-multiples done xs num garbage)
]

get_num_multiples-length :
    (xs : List ℕ) (num : ℕ) → get_num_multiples xs num ≡ length (multiples xs num)
unfolding get_num_multiples
get_num_multiples-length xs num = omega (arith, count_from-multiples 0 xs num)

-- `get_num_multiples` counts the multiples, and `get_multiples`, given that count, fills its array
-- exactly with them, in order and whatever the array held before.
pub get_multiples_lem :
    (xs : List ℕ) (num garbage : ℕ)
    → (get_num_multiples xs num ≡ length (multiples xs num))
      × (get_multiples xs num (get_num_multiples xs num) garbage ≡ multiples xs num)
unfolding get_multiples
get_multiples_lem xs num garbage = (
  get_num_multiples-length xs num,
  rw (get_num_multiples-length xs num) (copy_from-multiples [] xs num garbage),
)

-- A worker announces the number of its multiples and sends them in order.
pub send_lem :
    (xs : List ℕ) (num garbage : ℕ)
    → ((send_filtered_results_to_master xs num garbage).size ≡ length (multiples xs num))
      × ((send_filtered_results_to_master xs num garbage).block ≡ multiples xs num)
unfolding send_filtered_results_to_master
send_lem xs num garbage = (
  get_num_multiples-length xs num,
  ground (arith, get_multiples_lem xs num garbage, length-eq-zero (multiples xs num)),
)

pub multiples-append :
    (xs ys : List ℕ) (num : ℕ) → multiples (xs ++ ys) num ≡ multiples xs num ++ multiples ys num
multiples-append [] ys num = refl
multiples-append (x ∷ xs) ys num = elim (Bool-cases (x % num == 0)) [
  | inl e ↦ rw (e, multiples-append xs ys num)
  | inr e ↦ rw (e, multiples-append xs ys num)
]
