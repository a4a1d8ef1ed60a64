-- ===== src/Mpi/Collective/Local.antt =====
-- Collective operations carried out in one process, to run the models and to show that the laws of
-- `Collective` can be met.
use nsdscourse.Base.{
  ℕ, ◌≡◌, refl, Option, none, some, List, [], ◌∷◌, length, get_or, get_elem?, replicate, sum,
}
use nsdscourse.Mpi.Collective.{Collective, chunks}

abbrev pub local_bcast : (A : Type 0) → List ℕ → List A → Option (List A)
local_bcast A roots values = elim (get_elem? values (get_or roots 0 0)) [
  | none ↦ none
  | some v ↦ some (replicate (length values) v)
]

pub local_bcast_lem :
    (A : Type 0) (root : ℕ) (values : List A) (v : A)
    → get_elem? values root ≡ some v
    → local_bcast A (replicate (length values) root) values ≡ some (replicate (length values) v)
local_bcast_lem A root [] v h = cc
local_bcast_lem A root (x ∷ values) v h = rw h

abbrev pub local : Collective
local = record {
  gather = λ A roots values. some values;
  bcast = local_bcast;
  scatter = λ A count procs values. chunks count procs values;
  reduce_sum = sum;
  gather_lem = λ A root values h. refl;
  bcast_lem = local_bcast_lem;
  reduce_sum_lem = λ values. refl;
  scatter_lem = λ A count procs values h. refl;
}
