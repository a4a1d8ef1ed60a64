-- ===== src/Mpi/Guess/Winner.antt =====
-- `compute_winner` of guess.c finds the single closest guess.
use nsdscourse.Base.{
  ℕ, ◌+◌, ◌≤◌, ◌<◌, ◌≡◌, refl, ◌⊎◌, inl, inr, true, false, ◌||◌, none, some, List, [], ◌∷◌, ◌↔◌,
  ◌∙◌, sym, arith, ltb, ◌==◌, if◌then◌else◌, All, Among, All-imp, All-among, ap,
}
use nsdscourse.Mpi.Guess.{Guess, abs_diff, Best, consider, scan, no_best, compute_winner, int_max}

-- How many guesses are at distance `d` from `n`.
abbrev pub count_at : ℕ → ℕ → List Guess → ℕ
count_at n d [] = 0
count_at n d (g ∷ gs) = (if abs_diff n g.number == d then 1 else 0) + count_at n d gs

-- The guess is in the buffer, and none is closer.
abbrev pub IsClosest : ℕ → List Guess → Guess → Type 0
IsClosest n buffer g = Among g buffer × All (λ h. abs_diff n g.number ≤ abs_diff n h.number) buffer

-- The loop over `gs` has found no closer guess.
record Kept (n : ℕ) (b : Best) (gs : List Guess) (r : Best) : Type 0 where
  least : r.least ≡ b.least
  winner : r.winner ≡ b.winner
  multiple : r.multiple_guess ≡ (b.multiple_guess || ltb 0 (count_at n b.least gs))
  far : All (λ h. b.least ≤ abs_diff n h.number) gs

-- The loop over `gs` ends with the guess `best` of `gs`.
record Improved (n : ℕ) (b : Best) (gs : List Guess) (r : Best) : Type 0 where
  best : Guess
  closer : r.least < b.least
  least : r.least ≡ abs_diff n best.number
  winner : r.winner ≡ some best.source
  multiple : r.multiple_guess ≡ ltb 1 (count_at n r.least gs)
  among : Among best gs
  far : All (λ h. r.least ≤ abs_diff n h.number) gs

-- After the loop, seen from the state `b` before it.
abbrev Scanned : ℕ → Best → List Guess → Best → Type 0
Scanned n b gs r = Kept n b gs r ⊎ Improved n b gs r

module _ (n : ℕ) (b : Best) (g : Guess) (gs : List Guess) (r : Best) where
  abbrev d : ℕ
  d = abs_diff n g.number

  cons-closer :
      d < b.least
      → Scanned n (record { least = d; winner = some g.source; multiple_guess = false }) gs r
      → Scanned n b (g ∷ gs) r
  cons-closer h (inl k) = inr (record {
    best = g;
    closer = omega (arith, k.least);
    least = k.least;
    winner = k.winner;
    multiple = ground (arith, k.multiple, k.least);
    among = inl refl;
    far = (omega (arith, k.least), All-imp gs (λ a p. omega (arith, k.least, p)) k.far);
  })
  cons-closer h (inr i) = inr (record {
    best = i.best;
    closer = omega (arith, i.closer);
    least = i.least;
    winner = i.winner;
    multiple = ground (arith, i.multiple, i.closer);
    among = inr i.among;
    far = (omega (arith, i.closer), i.far);
  })

  cons-tie :
      d ≡ b.least → Scanned n (record b { multiple_guess = true }) gs r → Scanned n b (g ∷ gs) r
  cons-tie h (inl k) = inl (record {
    least = k.least;
    winner = k.winner;
    multiple = ground (arith, k.multiple);
    far = (omega arith, k.far);
  })
  cons-tie h (inr i) = inr (record {
    best = i.best;
    closer = i.closer;
    least = i.least;
    winner = i.winner;
    multiple = ground (arith, i.multiple, i.closer);
    among = inr i.among;
    far = (omega (arith, i.closer), i.far);
  })

  cons-farther : b.least < d → Scanned n b gs r → Scanned n b (g ∷ gs) r
  cons-farther h (inl k) = inl (record {
    least = k.least;
    winner = k.winner;
    multiple = ground (arith, k.multiple);
    far = (omega arith, k.far);
  })
  cons-farther h (inr i) = inr (record {
    best = i.best;
    closer = i.closer;
    least = i.least;
    winner = i.winner;
    multiple = ground (arith, i.multiple, i.closer);
    among = inr i.among;
    far = (omega (arith, i.closer), i.far);
  })

abbrev closer_best : ℕ → Guess → Best
closer_best n g = record {
  least = abs_diff n g.number;
  winner = some g.source;
  multiple_guess = false;
}

consider-cases :
    (n : ℕ) (b : Best) (g : Guess)
    → ((abs_diff n g.number < b.least) × (consider n b g ≡ closer_best n g))
      ⊎ ((abs_diff n g.number ≡ b.least) × (consider n b g ≡ record b { multiple_guess = true }))
      ⊎ ((b.least < abs_diff n g.number) × (consider n b g ≡ b))
unfolding consider
consider-cases n b g = ground arith

scan-Scanned : (n : ℕ) (b : Best) (gs : List Guess) → Scanned n b gs (scan n b gs)
unfolding scan
scan-Scanned n b [] =
    inl (record { least = refl; winner = refl; multiple = ground arith; far = tt })
scan-Scanned n b (g ∷ gs) = elim (consider-cases n b g) [
  | inl (h, e) ↦ rw e (cons-closer n b g gs _ h (scan-Scanned n (closer_best n g) gs))
  | inr (inl (h, e)) ↦
      rw e (cons-tie n b g gs _ h (scan-Scanned n (record b { multiple_guess = true }) gs))
  | inr (inr (h, e)) ↦ rw e (cons-farther n b g gs _ h (scan-Scanned n b gs))
]

-- Every guess is nearer than the value that `min` starts with.
abbrev pub InRange : ℕ → List Guess → Type 0
InRange n buffer = All (λ g. abs_diff n g.number < int_max) buffer

module _ (n : ℕ) where
  count_at_pos :
      (d : ℕ) (gs : List Guess) (g : Guess)
      → Among g gs
      → abs_diff n g.number ≡ d
      → 1 ≤ count_at n d gs
  count_at_pos d [] g m e = absurd m
  count_at_pos d (x ∷ gs) g (inl q) e =
      let here : abs_diff n x.number ≡ d = rw (← q) e in ground arith
  count_at_pos d (x ∷ gs) g (inr m) e = omega (arith, count_at_pos d gs g m e)

  count_at_unique :
      (d : ℕ) (gs : List Guess) (a b : Guess)
      → count_at n d gs ≤ 1
      → Among a gs
      → Among b gs
      → abs_diff n a.number ≡ d
      → abs_diff n b.number ≡ d
      → a ≡ b
  count_at_unique d [] a b h ma mb ea eb = absurd ma
  count_at_unique d (x ∷ gs) a b h (inl p) (inl q) ea eb = p ∙ sym q
  count_at_unique d (x ∷ gs) a b h (inl p) (inr mb) ea eb =
      let here : abs_diff n x.number ≡ d = rw (← p) ea in
      absurd (ground (arith, count_at_pos d gs b mb eb))
  count_at_unique d (x ∷ gs) a b h (inr ma) (inl q) ea eb =
      let here : abs_diff n x.number ≡ d = rw (← q) eb in
      absurd (ground (arith, count_at_pos d gs a ma ea))
  count_at_unique d (x ∷ gs) a b h (inr ma) (inr mb) ea eb =
      count_at_unique d gs a b (omega arith) ma mb ea eb

  -- What the loop leaves behind when the buffer is not empty.
  record Found (buffer : List Guess) : Type 0 where
    best : Guess
    closest : IsClosest n buffer best
    winner :
        compute_winner n buffer
        ≡ (if ltb 1 (count_at n (abs_diff n best.number) buffer) then none else some best.source)

  compute_winner-Found : (g : Guess) (gs : List Guess) → InRange n (g ∷ gs) → Found (g ∷ gs)
  unfolding compute_winner
  compute_winner-Found g gs near = elim (scan-Scanned n no_best (g ∷ gs)) [
    | inl k ↦ absurd (omega (arith, near.0, k.far.0))
    | inr i ↦ record {
      best = i.best;
      closest = (i.among, All-imp (g ∷ gs) (λ h p. omega (arith, i.least, p)) i.far);
      winner = ground (arith, i.multiple, i.winner, i.least);
    }
  ]

  module _ (buffer : List Guess) (f : Found buffer) where
    -- Two closest guesses are equally near.
    closest-eq : (g : Guess) → IsClosest n buffer g → abs_diff n f.best.number ≡ abs_diff n g.number
    closest-eq g c =
        let near : abs_diff n f.best.number ≤ abs_diff n g.number =
          All-among (λ h. abs_diff n f.best.number ≤ abs_diff n h.number) buffer f.closest.1 c.0 in
        let far : abs_diff n g.number ≤ abs_diff n f.best.number =
          All-among (λ h. abs_diff n g.number ≤ abs_diff n h.number) buffer c.1 f.closest.0 in
        omega arith

    best-single :
        (g : Guess)
        → IsClosest n buffer g
        → count_at n (abs_diff n g.number) buffer ≡ 1
        → f.best ≡ g
    best-single g c one =
        count_at_unique (abs_diff n g.number) buffer f.best g (omega arith) f.closest.0 c.0
          (closest-eq g c) refl

    Found-some :
        (w : ℕ)
        → (compute_winner n buffer ≡ some w) ↔ (
            (g : Guess) × (g.source ≡ w)
            × IsClosest n buffer g
            × (count_at n (abs_diff n g.number) buffer ≡ 1))
    Found-some w = (
      λ h. (
        f.best,
        ground (arith, f.winner),
        f.closest,
        ground (
          arith,
          f.winner,
          count_at_pos (abs_diff n f.best.number) buffer f.best f.closest.0 refl,
        ),
      ),
      λ u. ground (
        arith,
        f.winner,
        closest-eq u.0 u.2,
        ap (λ (g : Guess). g.source) (best-single u.0 u.2 u.3),
      ),
    )

    Found-none :
        (compute_winner n buffer ≡ none)
        ↔ ((g : Guess) × IsClosest n buffer g × (2 ≤ count_at n (abs_diff n g.number) buffer))
    Found-none = (
      λ h. (f.best, f.closest, ground (arith, f.winner)),
      λ u. ground (arith, f.winner, closest-eq u.0 u.1),
    )

-- `compute_winner` returns a rank exactly when that rank made the guess of the buffer that is
-- strictly nearer than all the others.
pub compute_winner-some :
    (n w : ℕ) (buffer : List Guess)
    → InRange n buffer
    → (compute_winner n buffer ≡ some w) ↔ (
        (g : Guess) × (g.source ≡ w)
        × IsClosest n buffer g
        × (count_at n (abs_diff n g.number) buffer ≡ 1))
unfolding compute_winner scan
compute_winner-some n w [] near = (λ h. cc, λ u. absurd u.2.0)
compute_winner-some n w (g ∷ gs) near = Found-some n (g ∷ gs) (compute_winner-Found n g gs near) w

-- `compute_winner` returns -1 exactly when the buffer is empty or two guesses tie for the nearest.
pub compute_winner-none :
    (n : ℕ) (buffer : List Guess)
    → InRange n buffer
    → (compute_winner n buffer ≡ none) ↔ (
        (buffer ≡ [])
        ⊎ ((g : Guess) × IsClosest n buffer g × (2 ≤ count_at n (abs_diff n g.number) buffer)))
unfolding compute_winner scan
compute_winner-none n [] near = (λ h. inl refl, λ u. refl)
compute_winner-none n (g ∷ gs) near =
    let k = Found-none n (g ∷ gs) (compute_winner-Found n g gs near) in
    (λ h. inr (k.0 h), λ u. elim u [ inl e ↦ cc | inr t ↦ k.1 t ])
