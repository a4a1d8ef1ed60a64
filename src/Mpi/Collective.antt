-- ===== src/Mpi/Collective.antt =====
-- The collective operations of MPI, as far as the programs call them. MPI is not part of this
-- repository: an implementation is a parameter, with the documented behaviour as laws. A list holds
-- one entry for each rank, in rank order. `none` is an erroneous call: the ranks disagree on the
-- root.
pub mod Local
pub mod Chunks
use nsdscourse.Base.{
  zero, suc, ◌*◌, ◌≤◌, take, drop, ◌∷◌, [], ℕ, ◌<◌, ◌≡◌, Option, some, List, length, get_elem?,
  replicate, sum,
}

-- The first `procs` blocks of `count` entries.
abbrev pub chunks : {A : Type 0} → ℕ → ℕ → List A → List (List A)
chunks count zero xs = []
chunks count (suc procs) xs = take count xs ∷ chunks count procs (drop count xs)

pub record Collective : Type 1 where
  -- MPI_Gather: each rank's root argument and its contribution; the root's receive buffer.
  pub gather : (A : Type 0) → List ℕ → List A → Option (List A)
  -- MPI_Bcast: each rank's root argument and its buffer; each rank's buffer after the call.
  pub bcast : (A : Type 0) → List ℕ → List A → Option (List A)
  -- MPI_Scatter: the entries for each rank, the number of ranks and the root's send buffer; each
  -- rank's receive buffer.
  pub scatter : (A : Type 0) → ℕ → ℕ → List A → List (List A)
  -- MPI_Reduce with MPI_SUM on MPI_INT: the root's result.
  pub reduce_sum : List ℕ → ℕ
  -- The receive buffer is filled in rank order.
  pub gather_lem :
      (A : Type 0) (root : ℕ) (values : List A)
      → root < length values
      → gather A (replicate (length values) root) values ≡ some values
  -- Every rank ends with the root's value.
  pub bcast_lem :
      (A : Type 0) (root : ℕ) (values : List A) (v : A)
      → get_elem? values root ≡ some v
      → bcast A (replicate (length values) root) values ≡ some (replicate (length values) v)
  pub reduce_sum_lem : (values : List ℕ) → reduce_sum values ≡ sum values
  -- Rank `r` receives the `r`-th block.
  pub scatter_lem :
      (A : Type 0) (count procs : ℕ) (values : List A)
      → procs * count ≤ length values
      → scatter A count procs values ≡ chunks count procs values
