-- ===== src/Examples/WebDemo/Sensors/Switched.antt =====
-- A form that names sensors of cc26xx-web-demo.c, for the handlers together.
use mathlib.Core.List.{map-map, map-id}
use nsdscourse.Base.{
  ℕ, ◌≡◌, ◌≢◌, refl, ap, ap₂, sym, ◌∙◌, subst, Bool, ◌&&◌, ◌||◌, ◌==◌, Bool-cases, inl, inr, true,
  false, Option, none, some, List, [], ◌∷◌, length, map, if◌then◌else◌, arith, All,
}
use nsdscourse.Contiki.Mqtt.Text.{codes}
use nsdscourse.Examples.WebDemo.Form.{Answer, ok, unknown, refused, run_handlers}
use nsdscourse.Examples.WebDemo.Form.Pairs.{Pair, post_all}
use nsdscourse.Examples.WebDemo.Server.{ℤ, pos}
use nsdscourse.Examples.WebDemo.Server.Events.{begins_with}
use nsdscourse.Examples.WebDemo.Sensors.{Reading, Flash, Demo}
use nsdscourse.Examples.WebDemo.Sensors.Handlers.{
  switch, switch_of, switch_readings, sensor_readings_handler, other_handlers, post_handlers,
}

-- Two texts are the same.
abbrev pub text_eq : List ℕ → List ℕ → Bool
text_eq [] [] = true
text_eq (c ∷ k) (d ∷ f) = (c == d) && text_eq k f
text_eq _ _ = false

text_eq→eq : (k f : List ℕ) → text_eq k f ≡ true → k ≡ f
text_eq→eq [] [] h = refl
text_eq→eq [] (d ∷ f) h = cc
text_eq→eq (c ∷ k) [] h = cc
text_eq→eq (c ∷ k) (d ∷ f) h =
    let first : c ≡ d = ground (arith, h) in
    let rest = text_eq→eq k f (ground (arith, h)) in ap₂ (λ x xs. x ∷ xs) first rest

-- The test of the code, on a whole key.
begins_with-text_eq : (f k : List ℕ) → ((length k == length f) && begins_with f k) ≡ text_eq f k
unfolding begins_with
begins_with-text_eq [] [] = refl
begins_with-text_eq [] (c ∷ k) = ground arith
begins_with-text_eq (d ∷ f) [] = ground arith
begins_with-text_eq (d ∷ f) (c ∷ k) = ground (arith, begins_with-text_eq f k)

-- The fields of a form for the sensors: each names a sensor and says whether it is to be published, as
-- the radio buttons of the page send it.
abbrev pub setting : List ℕ × Bool → Pair
setting (name, on) = record { name = name; text = if on then codes "1" else codes "0" }

-- A sensor behind one field: switched if the field names it.
abbrev pub set_one : List ℕ × Bool → Reading → Reading
set_one (name, on) r = if text_eq r.form_field name then switch on r else r

-- A sensor behind all fields.
abbrev pub set_by : List (List ℕ × Bool) → Reading → Reading
set_by [] r = r
set_by (x ∷ xs) r = set_by xs (set_one x r)

abbrev pub form_fields : List Reading → List (List ℕ)
form_fields = map (λ r. r.form_field)

-- No text stands there twice.
abbrev pub AllDifferent : List (List ℕ) → Type 0
AllDifferent [] = Unit
AllDifferent (f ∷ fs) = All (λ g. g ≢ f) fs × AllDifferent fs

abbrev pub is_among : List ℕ → List (List ℕ) → Bool
is_among k [] = false
is_among k (f ∷ fs) = text_eq f k || is_among k fs

form_field-set_one : (x : List ℕ × Bool) (r : Reading) → (set_one x r).form_field ≡ r.form_field
form_field-set_one (name, true) r = ground arith
form_field-set_one (name, false) r = ground arith

form_fields-set_one :
    (x : List ℕ × Bool) (rs : List Reading) → form_fields (map (set_one x) rs) ≡ form_fields rs
form_fields-set_one x [] = refl
form_fields-set_one x (r ∷ rs) =
    ap₂ (λ f fs. f ∷ fs) (form_field-set_one x r) (form_fields-set_one x rs)

-- The sensors with other fields stay.
set_one-others :
    (name : List ℕ) (on : Bool) (rs : List Reading)
    → All (λ g. g ≢ name) (form_fields rs)
    → map (set_one (name, on)) rs ≡ rs
set_one-others name on [] h = refl
set_one-others name on (r ∷ rs) h = elim (Bool-cases (text_eq r.form_field name)) [
  | inl e ↦ absurd (h.0 (text_eq→eq r.form_field name e))
  | inr e ↦ rw e (ap (λ l. r ∷ l) (set_one-others name on rs h.1))
]

switch_readings-set_one :
    (rs : List Reading) (name : List ℕ) (rv : ℤ) (on : Bool)
    → AllDifferent (form_fields rs)
    → is_among name (form_fields rs) ≡ true
    → switch_of rv ≡ some on
    → switch_readings rs name (length name) rv ≡ (ok, map (set_one (name, on)) rs)
unfolding switch_readings
switch_readings-set_one [] name rv on different known e = cc
switch_readings-set_one (r ∷ rs) name rv on different known e =
    elim (Bool-cases (text_eq r.form_field name)) [
      | inl here ↦
          let same = text_eq→eq r.form_field name here in
          let rest =
            set_one-others name on rs
              (subst (λ t. All (λ g. g ≢ t) (form_fields rs)) same different.0) in
          rw (begins_with-text_eq r.form_field name ∙ here, here, e, rest) refl
      | inr other ↦
          let rest =
            switch_readings-set_one rs name rv on different.1 (ground (arith, known, other)) e in
          rw (begins_with-text_eq r.form_field name ∙ other, other, rest) refl
    ]

module _ {O F : Type 0} (size clock_second : ℕ) (flash : Flash O F) (defaults : O → O)
    (atoi : List ℕ → ℤ) where
  run_handlers-sensor :
      (d : Demo O F) (k val : List ℕ) (rs rs' : List Reading)
      → switch_readings rs k (length k) (atoi val) ≡ (ok, rs')
      → run_handlers
          (post_handlers size clock_second flash defaults atoi)
          ok
          k
          (length k)
          val
          (record d { readings = rs })
        ≡ (ok, record d { readings = rs' })
  unfolding run_handlers sensor_readings_handler
  run_handlers-sensor d k val rs rs' h = ap after h
    where
      after : Answer × List Reading → Answer × Demo O F
      after (answer, readings) = elim answer [
        | ok ↦ (ok, record d { readings = readings })
        | refused ↦ (refused, record d { readings = readings })
        | unknown ↦
            run_handlers (other_handlers size clock_second flash defaults atoi) unknown k (length k)
              val (record d { readings = readings })
      ]

  post_all-step :
      (d : Demo O F) (x : Pair) (xs : List Pair) (s s' : Demo O F)
      → run_handlers
          (post_handlers size clock_second flash defaults atoi)
          ok
          x.name
          (length x.name)
          x.text
          s
        ≡ (ok, s')
      → post_all (post_handlers size clock_second flash defaults atoi) (x ∷ xs) s
        ≡ post_all (post_handlers size clock_second flash defaults atoi) xs s'
  unfolding post_all
  post_all-step d x xs s s' h = ap after h
    where
      after : Answer × Demo O F → Option (Demo O F)
      after (answer, s) = elim answer [
        | ok ↦ post_all (post_handlers size clock_second flash defaults atoi) xs s
        | unknown ↦ none
        | refused ↦ none
      ]

  post_all-nothing :
      (s : Demo O F) → post_all (post_handlers size clock_second flash defaults atoi) [] s ≡ some s
  unfolding post_all
  post_all-nothing s = refl

  -- A form for the sensors, in any order and also with several fields for one sensor, is accepted by
  -- the handlers if each field names a sensor. Afterwards each sensor is switched as the fields that
  -- name it say, one after the other, and the sensors that no field names, wherever they stand, and
  -- everything else are as before: if no two sensors have the same field, and atoi reads `0` and `1` as
  -- these numbers.
  pub post_all-set_by :
      (xs : List (List ℕ × Bool)) (d : Demo O F)
      → atoi (codes "0") ≡ pos 0
      → atoi (codes "1") ≡ pos 1
      → AllDifferent (form_fields d.readings)
      → All (λ x. is_among x.0 (form_fields d.readings) ≡ true) xs
      → post_all (post_handlers size clock_second flash defaults atoi) (map setting xs) d
        ≡ some (record d { readings = map (set_by xs) d.readings })
  post_all-set_by [] d off on different known =
      post_all-nothing d ∙ ap (λ rs. some (record d { readings = rs })) (sym (map-id d.readings))
  post_all-set_by ((name, b) ∷ xs) d off on different known =
      let one =
        switch_readings-set_one d.readings name (atoi (setting (name, b)).text) b different known.0
          (read b) in
      let ran = run_handlers-sensor d name (setting (name, b)).text _ _ one in
      let d' = record d { readings = map (set_one (name, b)) d.readings } in
      let same = sym (form_fields-set_one (name, b) d.readings) in
      let rest =
        post_all-set_by xs d' off on (subst AllDifferent same different)
          (subst (λ fs. All (λ x. is_among x.0 fs ≡ true) xs) same known.1) in
      post_all-step d (setting (name, b)) (map setting xs) _ _ ran
      ∙ rest
      ∙ ap (λ rs. some (record d { readings = rs }))
          (map-map (set_by xs) (set_one (name, b)) d.readings)
    where
      read : (b : Bool) → switch_of (atoi (setting (name, b)).text) ≡ some b
      read true = ap switch_of on
      read false = ap switch_of off
