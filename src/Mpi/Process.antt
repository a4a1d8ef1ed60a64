-- ===== src/Mpi/Process.antt =====
-- Programs that run on all ranks and send messages from rank to rank. A program is a function from
-- a rank and its variables to its next call of MPI; the calls wait for one another as MPI documents.
-- Which rank goes on next, which message an open receive takes, and whether MPI_Send copies its
-- message or waits for the receiver, is chosen anew at each step.
pub mod Runs
use nsdscourse.Base.{
  ℕ, ◌≡◌, Bool, true, false, ◌&&◌, ◌||◌, Option, none, some, List, [], ◌∷◌, length, ltb, ◌==◌,
  if◌then◌else◌,
}
use nsdscourse.Mpi.Network.{Network}

-- MPI_Send, MPI_Ssend and MPI_Isend
pub data Mode : Type 0 where
  standard synchronous immediate : Mode

-- The next call of a rank, with the variables behind it. `none` for a source is MPI_ANY_SOURCE. `wait`
-- is MPI_Wait for an MPI_Isend to that rank, and `probe` hands over the source and the count.
pub data Op (S : Type 0) : Type 0 where
  finished : Op S
  compute : S → Op S
  send : Mode → ℕ → List ℕ → S → Op S
  recv : Option ℕ → (ℕ → List ℕ → S) → Op S
  probe : (ℕ → ℕ → S) → Op S
  wait : ℕ → S → Op S

-- Who goes on: a rank, the rank that it hears of if it asks for any source, and whether a message
-- of MPI_Send is copied.
pub record Choice : Type 0 where
  pub rank : ℕ
  pub peer : ℕ
  pub copied : Bool

-- Whether a message leaves its sender at once.
abbrev pub leaves : Mode → Bool → Bool
leaves standard copied = copied
leaves synchronous copied = false
leaves immediate copied = true

abbrev pub from_source : Option ℕ → ℕ → Bool
from_source none q = true
from_source (some s) q = s == q

-- The variables of each rank, and the messages on their way.
pub record Config (net : Network) (S : Type 0) : Type 0 where
  pub local : ℕ → S
  pub flight : net.Flight

abbrev pub no_message : List (List ℕ) → Bool
no_message [] = true
no_message (m ∷ ms) = false

module _ (net : Network) {S : Type 0} where
  open net use {pending, post, take_first}

  abbrev pub move : ℕ → S → Config net S → Config net S
  move r s c = record c { local = λ q. if q == r then s else c.local q }

  -- A waiting send of `r` meets the call of its receiver `q`.
  abbrev pub meet : ℕ → ℕ → List ℕ → S → Op S → List (List ℕ) → Config net S → Option (Config net S)
  meet r q m s (recv source k) [] c =
      if from_source source r then some (move q (k r m) (move r s c)) else none
  meet r q m s o p c = none

  abbrev pub receive :
      ℕ → ℕ → (ℕ → List ℕ → S) → List (List ℕ) → Config net S → Option (Config net S)
  receive r q k [] c = none
  receive r q k (m ∷ ms) c = some (move r (k q m) (record c { flight = take_first q r c.flight }))

  -- A probe sees a message on its way, or the one that `q` is about to send to `r`.
  abbrev pub see : ℕ → ℕ → (ℕ → ℕ → S) → Op S → List (List ℕ) → Config net S → Option (Config net S)
  see r q k o (m ∷ ms) c = some (move r (k q (length m)) c)
  see r q k (send mode d m s) [] c = if d == r then some (move r (k q (length m)) c) else none
  see r q k o [] c = none

  module _ (world_size : ℕ) (op : ℕ → S → Op S) where
    abbrev pub next_op : Config net S → ℕ → Op S
    next_op c r = op r (c.local r)

    -- The call `o` of the chosen rank, if it can go on.
    abbrev pub perform : Choice → Op S → Config net S → Option (Config net S)
    perform h finished c = none
    perform h (compute s) c = some (move h.rank s c)
    perform h (send mode q m s) c =
        if leaves mode h.copied
        then some (move h.rank s (record c { flight = post h.rank q m c.flight }))
        else meet h.rank q m s (next_op c q) (pending c.flight h.rank q) c
    perform h (recv source k) c =
        if from_source source h.peer
        then receive h.rank h.peer k (pending c.flight h.peer h.rank) c
        else none
    perform h (probe k) c =
        see h.rank h.peer k (next_op c h.peer) (pending c.flight h.peer h.rank) c
    perform h (wait q s) c =
        if h.copied || no_message (pending c.flight h.rank q) then some (move h.rank s c) else none

    unfoldable pub step : Choice → Config net S → Option (Config net S)
    step h c =
        if ltb h.rank world_size && ltb h.peer world_size
        then perform h (next_op c h.rank) c
        else none

    -- A choice that cannot go on is passed over.
    unfoldable pub run : List Choice → Config net S → Config net S
    run [] c = c
    run (h ∷ hs) c = run hs (elim (step h c) [ none ↦ c | some d ↦ d ])
