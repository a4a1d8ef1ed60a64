-- ===== src/Mpi/Ring/Hops.antt =====
-- What the processes of ring.c hold in each round.
use nsdscourse.Base.{
  ℕ, ◌+◌, ◌≤◌, ◌<◌, ◌≡◌, ◌≢◌, arith, ltb, ◌==◌, if◌then◌else◌, List, [], ◌∷◌, ◌&&◌, leb, ℕ_discrete,
}
use nsdscourse.Mpi.Ring.{receiver}

-- The number of hops that rank `r` holds before round `i` of `w` ranks.
abbrev pub hops_at : ℕ → ℕ → ℕ → ℕ
hops_at w r i =
    if r == 0
    then if i == 0 then 0 else if ltb i w then 1 else w
    else if ltb i r
    then 0
    else if i == r
    then r
    else r + 1

-- The receiver is the next rank, or rank 0 behind the last one.
pub data Follows (w s d : ℕ) : Type 0 where
  next : d ≡ s + 1 → d < w → Follows w s d
  first : d ≡ 0 → s + 1 ≡ w → Follows w s d

pub receiver-Follows : (w s : ℕ) → s < w → Follows w s (receiver w s)
unfolding receiver
receiver-Follows w s h = elim (ℕ_discrete (s + 1) w) [
  | yes e ↦ first (grind arith) e
  | no n ↦ next (grind arith) (grind arith)
]

pub receiver-lt : (w s : ℕ) → s < w → receiver w s < w
receiver-lt w s h = elim (receiver-Follows w s h) [ next a b ↦ b | first a b ↦ omega arith ]

-- Two ranks do not have the same receiver.
pub receiver_inj : (w s t : ℕ) → s < w → t < w → receiver w s ≡ receiver w t → s ≡ t
receiver_inj w s t h k e = elim (receiver-Follows w s h) [
  | next a b ↦ elim (receiver-Follows w t k) [
    | next a' b' ↦ omega (arith, e)
    | first a' b' ↦ absurd (omega (arith, e))
  ]
  | first a b ↦ elim (receiver-Follows w t k) [
    | next a' b' ↦ absurd (omega (arith, e))
    | first a' b' ↦ omega (arith, e)
  ]
]

pub receiver-ne : (w s : ℕ) → 2 ≤ w → s < w → receiver w s ≢ s
receiver-ne w s h k e = elim (receiver-Follows w s k) [
  | next a b ↦ omega (arith, e)
  | first a b ↦ omega (arith, e)
]

-- The message that `s` has sent in round `s` and its receiver has not received.
abbrev pub under_way : ℕ → ℕ → ℕ → List (List ℕ)
under_way s i_sender i_receiver =
    if ltb s i_sender && leb i_receiver s then ((s + 1) ∷ []) ∷ [] else []

-- The send of rank `r`, a round without a message, and the receive of the message of round `i`.
pub hops_at-send : (w r : ℕ) → 2 ≤ w → r < w → hops_at w r (r + 1) ≡ r + 1
hops_at-send w r h k = ground arith

pub hops_at-own : (w r : ℕ) → r < w → hops_at w r r ≡ r
hops_at-own w r h = ground arith

pub hops_at-other :
    (w r i : ℕ) → r < w → i < w → r ≢ i → r ≢ receiver w i → hops_at w r (i + 1) ≡ hops_at w r i
hops_at-other w r i h k a b = elim (receiver-Follows w i k) [
  | next e l ↦ ground (arith, e)
  | first e l ↦ ground (arith, e)
]

pub hops_at-received : (w r i : ℕ) → i < w → r ≡ receiver w i → hops_at w r (i + 1) ≡ i + 1
hops_at-received w r i k e = elim (receiver-Follows w i k) [
  | next a l ↦ ground (arith, e)
  | first a l ↦ ground (arith, e)
]
