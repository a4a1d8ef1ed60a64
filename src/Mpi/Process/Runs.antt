-- ===== src/Mpi/Process/Runs.antt =====
-- Invariants and lengths of the runs of `Process`.
use nsdscourse.Base.{ℕ, ◌≡◌, refl, none, some, List, [], ◌∷◌}
use nsdscourse.Mpi.Network.{Network}
use nsdscourse.Mpi.Process.{Op, Choice, Config, step, run}

module _ (net : Network) {S : Type 0} (world_size : ℕ) (op : ℕ → S → Op S)
    (P : Config net S → Type 0) where
  -- What a step leaves holds in all runs.
  pub run_inv :
      ((h : Choice) (c d : Config net S) → step net world_size op h c ≡ some d → P c → P d)
      → (hs : List Choice) (c : Config net S) → P c
      → P (run net world_size op hs c)
  unfolding run
  run_inv keep [] c p = p
  run_inv keep (h ∷ hs) c p = run_inv keep hs _ (
      elim (step net world_size op h c)
          as (λ o. ((d : Config net S) → o ≡ some d → P d) → P (elim o [ none ↦ c | some d ↦ d ])) [
            | none ↦ λ k. p
            | some d ↦ λ k. k d refl
          ]
        (λ d e. keep h c d e p))
