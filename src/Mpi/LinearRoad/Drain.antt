-- ===== src/Mpi/LinearRoad/Drain.antt =====
-- The loop over the cars of a segment in linear_road.c.
use nsdscourse.Base.{ℕ, zero, suc, ◌+◌, ◌*◌, ◌/◌, ◌≤◌, ◌<◌, ◌≡◌, refl, arith}
use nsdscourse.Mpi.LinearRoad.{Flow, one_car, drain, flow}

div-eq-zero : (a b : ℕ) → a < b → a / b ≡ 0
div-eq-zero a b h = grind arith

module _ (rand : ℕ → ℕ) (rand_max : ℕ) where
  -- What the loop keeps, whatever is drawn: no car appears or vanishes, a round moves one car at
  -- most, and at most half of the cars, rounded up, move.
  abbrev Keeps : ℕ → Flow → Type 0
  Keeps cars f = (f.left + f.moved ≡ cars) × (f.moved ≤ f.c) × (f.moved * 2 ≤ cars + 1)

  drain-Keeps :
      (cars fuel : ℕ) (f : Flow)
      → Keeps cars f
      → f.left ≤ f.c + fuel
      → Keeps cars (drain rand rand_max fuel f)
        × ((drain rand rand_max fuel f).left ≤ (drain rand rand_max fuel f).c)
  unfolding drain
  drain-Keeps cars zero f k h = (k, omega arith)
  drain-Keeps cars (suc fuel) f k h =
      ground (arith, drain-Keeps cars fuel (one_car rand rand_max f))

  -- The loop over a segment ends by its test within the fuel that it is given; it keeps the number of
  -- cars, and moves at most half of them, rounded up.
  pub flow_lem :
      (cars drawn : ℕ)
      → let f = flow rand rand_max cars drawn in
        (f.left ≤ f.c) × (f.left + f.moved ≡ cars) × (f.moved * 2 ≤ cars + 1)
  flow_lem cars drawn =
      let k =
        drain-Keeps cars cars (record { c = 0; left = cars; moved = 0; drawn = drawn })
          (omega arith) (omega arith) in
      (k.1, k.0.0, k.0.2)

  drain-moved :
      (fuel : ℕ) (f : Flow)
      → ((k : ℕ) → rand k < rand_max)
      → f.moved ≡ f.c
      → (drain rand rand_max fuel f).moved ≡ (drain rand rand_max fuel f).c
  unfolding drain
  drain-moved zero f low h = h
  drain-moved (suc fuel) f low h = ground (
    arith,
    drain-moved fuel (one_car rand rand_max f) low,
    div-eq-zero (rand f.drawn) rand_max (low f.drawn),
  )

  -- The division of `move_next_segment` is an integer one: as long as `rand()` stays below RAND_MAX,
  -- every car that the loop looks at moves on, and half of the cars, rounded up, leave the segment.
  pub flow-half :
      (cars drawn : ℕ)
      → ((k : ℕ) → rand k < rand_max)
      → (flow rand rand_max cars drawn).moved ≡ (cars + 1) / 2
  flow-half cars drawn low = omega (
    arith,
    flow_lem cars drawn,
    drain-moved cars (record { c = 0; left = cars; moved = 0; drawn = drawn }) low refl,
  )
