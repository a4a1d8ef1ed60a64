-- ===== src/Contiki/Ring.antt =====
-- The array of the last readings that Contiki-NG/NSDS-contiking-eval-23/udp-client.c and
-- udp-server.c share in their text: a write at `next_reading`, which goes round at MAX_READINGS.
use native.Mathlib.Numerals.{add-one}
use nsdscourse.Base.{
  ℕ, zero, suc, ◌+◌, ◌≤◌, ◌<◌, ◌≡◌, refl, ap, sym, ◌∙◌, List, [], ◌∷◌, ◌++◌, append_assoc,
  append-nil, arith, length, length-append, length-set, take, drop, set, ◌==◌, if◌then◌else◌,
  ℕ_discrete, true, false, ◌≢◌, take-append-drop,
}

-- MAX_READINGS
abbrev pub max_readings : ℕ
max_readings = 10

-- `readings` and `next_reading`
pub record Readings (A : Type 0) : Type 0 where
  pub readings : List A
  pub next_reading : ℕ

==-true : (a b : ℕ) → a ≡ b → (a == b) ≡ true
==-true a b h = ground arith

==-false : (a b : ℕ) → a ≢ b → (a == b) ≡ false
==-false a b h = ground arith

module _ {A : Type 0} where
  -- `readings[next_reading++] = x; if (next_reading == MAX_READINGS) next_reading = 0;`
  unfoldable pub add_reading : A → Readings A → Readings A
  add_reading x r = record {
    readings = set r.readings r.next_reading x;
    next_reading = if r.next_reading + 1 == max_readings then 0 else r.next_reading + 1;
  }

  unfoldable pub add_readings : List A → Readings A → Readings A
  add_readings [] r = r
  add_readings (x ∷ xs) r = add_readings xs (add_reading x r)

  -- The readings from the oldest to the newest.
  abbrev pub window : Readings A → List A
  window r = drop r.next_reading r.readings ++ take r.next_reading r.readings

  -- The write goes into the array.
  pub record IsValid (r : Readings A) : Type 0 where
    pub cells : length r.readings ≡ max_readings
    pub within : r.next_reading < max_readings

  add_reading-IsValid : (x : A) (r : Readings A) → IsValid r → IsValid (add_reading x r)
  unfolding add_reading
  add_reading-IsValid x r h = record {
    cells = length-set r.readings r.next_reading x ∙ h.cells;
    within = ground arith;
  }

  -- The list from its second element on, with `x` behind it.
  abbrev pub slide : A → List A → List A
  slide x [] = x ∷ []
  slide x (y ∷ ys) = ys ++ (x ∷ [])

  drop-slide :
      (x : A) (w xs : List A)
      → 0 < length w
      → drop (length xs) (slide x w ++ xs) ≡ drop (suc (length xs)) (w ++ (x ∷ xs))
  drop-slide x [] xs h = absurd (omega arith)
  drop-slide x (y ∷ w) xs h = ap (drop (length xs)) (append_assoc w (x ∷ []) xs)

  length-window : (n : ℕ) (xs : List A) → length (drop n xs ++ take n xs) ≡ length xs
  length-window n xs = omega (
    arith,
    length-append (drop n xs) (take n xs),
    length-append (take n xs) (drop n xs),
    ap length (take-append-drop n xs),
  )

  window-pos : (r : Readings A) → IsValid r → 0 < length (window r)
  window-pos r h = omega (arith, length-window r.next_reading r.readings, h.cells)

  -- A write inside the array, before it goes round.
  window-set :
      (x : A) (n : ℕ) (xs front : List A)
      → n < length xs
      → drop (suc n) (set xs n x) ++ (front ++ take (suc n) (set xs n x))
        ≡ slide x (drop n xs ++ (front ++ take n xs))
  window-set x n [] front h = absurd (omega arith)
  window-set x zero (y ∷ xs) front h = rw (append-nil front) (sym (append_assoc xs front (x ∷ [])))
  window-set x (suc n) (y ∷ xs) front h = cc (
    window-set x n xs (front ++ (y ∷ [])) (omega arith),
    append_assoc front (y ∷ []) (take (suc n) (set xs n x)),
    append_assoc front (y ∷ []) (take n xs),
  )

  drop-all : (n : ℕ) (xs : List A) → length xs ≤ n → drop n xs ≡ []
  drop-all zero [] h = refl
  drop-all zero (x ∷ xs) h = absurd (omega arith)
  drop-all (suc n) [] h = refl
  drop-all (suc n) (x ∷ xs) h = drop-all n xs (omega arith)

  take-all : (n : ℕ) (xs : List A) → length xs ≤ n → take n xs ≡ xs
  take-all zero [] h = refl
  take-all zero (x ∷ xs) h = absurd (omega arith)
  take-all (suc n) [] h = refl
  take-all (suc n) (x ∷ xs) h = ap (λ r. x ∷ r) (take-all n xs (omega arith))

  -- One reading pushes the oldest one out.
  window-add_reading :
      (x : A) (r : Readings A) → IsValid r → window (add_reading x r) ≡ slide x (window r)
  unfolding add_reading
  window-add_reading x r h =
      let n = r.next_reading in
      let xs = set r.readings n x in
      let long : length xs ≡ 10 = length-set r.readings n x ∙ h.cells in
      let slid = window-set x n r.readings [] (omega (arith, h.cells, h.within)) in
      elim (ℕ_discrete (n + 1) max_readings) [
        | yes e ↦
            let end : 10 ≡ suc n = omega arith in
            rw (==-true (n + 1) max_readings e, append-nil xs)
              (cc (slid, drop-all (suc n) xs (omega arith), take-all (suc n) xs (omega arith)))
        | no e ↦ rw (==-false (n + 1) max_readings e, add-one) slid
      ]

  -- The array after `xs` holds the last ten of what it held and `xs`, the oldest first at
  -- `next_reading`, and no write leaves the array.
  pub window-add_readings :
      (xs : List A) (r : Readings A)
      → IsValid r
      → (window (add_readings xs r) ≡ drop (length xs) (window r ++ xs))
        × IsValid (add_readings xs r)
  unfolding add_readings
  window-add_readings [] r h = (sym (append-nil (window r)), h)
  window-add_readings (x ∷ xs) r h =
      let rest = window-add_readings xs (add_reading x r) (add_reading-IsValid x r h) in
      (
        rest.0
            ∙ ap (λ w. drop (length xs) (w ++ xs)) (window-add_reading x r h)
            ∙ drop-slide x (window r) xs (window-pos r h),
        rest.1,
      )
