-- ===== src/Examples/WebDemo/Sensors/Bits.antt =====
-- The bitmap of cc26xx-web-demo.c for the sensors that are published.
use nsdscourse.Base.{
  ℕ, zero, suc, ◌+◌, ◌*◌, ◌/◌, ◌%◌, ◌≡◌, ◌≢◌, refl, ap, ap₂, sym, ◌∙◌, Bool, Bool-cases, inl, inr,
  true, false, ◌&&◌, ◌||◌, List, [], ◌∷◌, ◌==◌, if◌then◌else◌, arith, All,
}
use nsdscourse.Examples.WebDemo.Sensors.{Reading, set_bit, has_bit, bitmap_of}

half_set : (b : ℕ) → (if b % 2 == 1 then b else b + 1) / 2 ≡ b / 2
half_set b = ground arith

low_set : (b : ℕ) → ((if b % 2 == 1 then b else b + 1) % 2 == 1) ≡ true
low_set b = ground arith

half_digit : (b x : ℕ) → (b % 2 + 2 * x) / 2 ≡ x
half_digit b x = omega arith

low_digit : (b x : ℕ) → (b % 2 + 2 * x) % 2 ≡ b % 2
low_digit b x = omega arith

suc-zero : (m : ℕ) → (suc m == 0) ≡ false
suc-zero m = ground arith

zero-suc : (m : ℕ) → (0 == suc m) ≡ false
zero-suc m = ground arith

suc-suc : (m n : ℕ) → (suc m == suc n) ≡ (m == n)
suc-suc m n = ground arith

has_bit-set_bit :
    (n m bitmap : ℕ) → has_bit (set_bit bitmap n) m ≡ (if m == n then true else has_bit bitmap m)
unfolding set_bit has_bit
has_bit-set_bit zero zero bitmap = low_set bitmap
has_bit-set_bit zero (suc m) bitmap =
    ap (λ b. has_bit b m) (half_set bitmap)
    ∙ ap (λ e. if e then true else has_bit (bitmap / 2) m) (sym (suc-zero m))
has_bit-set_bit (suc n) zero bitmap =
    ap (λ b. b == 1) (low_digit bitmap (set_bit (bitmap / 2) n))
    ∙ ap (λ e. if e then true else (bitmap % 2 == 1)) (sym (zero-suc n))
has_bit-set_bit (suc n) (suc m) bitmap =
    ap (λ b. has_bit b m) (half_digit bitmap (set_bit (bitmap / 2) n))
    ∙ has_bit-set_bit n m (bitmap / 2)
    ∙ ap (λ e. if e then true else has_bit (bitmap / 2) m) (sym (suc-suc m n))

pub has_bit-zero : (n : ℕ) → has_bit 0 n ≡ false
unfolding has_bit
has_bit-zero zero = refl
has_bit-zero (suc n) = has_bit-zero n

-- Some reading of the type is published.
publishes : ℕ → List Reading → Bool
publishes type [] = false
publishes type (r ∷ rs) = (r.publish && (type == r.type)) || publishes type rs

or_assoc : (a b c : Bool) → ((a || b) || c) ≡ (a || (b || c))
or_assoc a b c = ground arith

or-true : (a : Bool) → (a || true) ≡ true
or-true a = ground arith

or-false : (a : Bool) → (a || false) ≡ a
or-false a = ground arith

has_bit-marked :
    (r : Reading) (bitmap type : ℕ)
    → has_bit (if r.publish then set_bit bitmap r.type else bitmap) type
      ≡ (has_bit bitmap type || (r.publish && (type == r.type)))
has_bit-marked r bitmap type = elim (Bool-cases r.publish) [
  | inr p ↦ rw p (sym (or-false (has_bit bitmap type)))
  | inl p ↦ elim (Bool-cases (type == r.type)) [
    | inl e ↦ rw p (has_bit-set_bit r.type type bitmap ∙ rw e (sym (or-true (has_bit bitmap type))))
    | inr e ↦
        rw p (has_bit-set_bit r.type type bitmap ∙ rw e (sym (or-false (has_bit bitmap type))))
  ]
]

has_bit-bitmap_of :
    (rs : List Reading) (bitmap type : ℕ)
    → has_bit (bitmap_of rs bitmap) type ≡ (has_bit bitmap type || publishes type rs)
unfolding bitmap_of publishes
has_bit-bitmap_of [] bitmap type = ground arith
has_bit-bitmap_of (r ∷ rs) bitmap type =
    has_bit-bitmap_of rs (if r.publish then set_bit bitmap r.type else bitmap) type
    ∙ ap (λ h. h || publishes type rs) (has_bit-marked r bitmap type)
    ∙ or_assoc (has_bit bitmap type) _ _

abbrev pub Distinct : List Reading → Type 0
Distinct [] = Unit
Distinct (r ∷ rs) = All (λ s. s.type ≢ r.type) rs × Distinct rs

publishes-absent :
    (type : ℕ) (rs : List Reading) → All (λ s. s.type ≢ type) rs → publishes type rs ≡ false
unfolding publishes
publishes-absent type [] h = refl
publishes-absent type (r ∷ rs) h =
    let differs : (type == r.type) ≡ false = elim (Bool-cases (type == r.type)) [
      | inl e ↦ absurd (h.0 (ground (arith, e)))
      | inr e ↦ e
    ] in
    rw (differs, publishes-absent type rs h.1) (ground arith)

-- The bits of a mark that only concern one type.
unmarked :
    (r : Reading) (bitmap : ℕ) (rs : List Reading)
    → All (λ s. s.type ≢ r.type) rs
    → All (λ s. has_bit bitmap s.type ≡ false) rs
    → All (λ s. has_bit (if r.publish then set_bit bitmap r.type else bitmap) s.type ≡ false) rs
unmarked r bitmap [] d h = tt
unmarked r bitmap (s ∷ rs) d h =
    let differs : (s.type == r.type) ≡ false = elim (Bool-cases (s.type == r.type)) [
      | inl e ↦ absurd (d.0 (ground (arith, e)))
      | inr e ↦ e
    ] in
    (
      has_bit-marked r bitmap s.type ∙ rw (h.0, differs) (ground arith),
      unmarked r bitmap rs d.1 h.1,
    )

-- The bitmap of readings with different types has the bit of each exactly if it is published.
pub has_bit-publish :
    (rs : List Reading) (bitmap : ℕ)
    → Distinct rs
    → All (λ r. has_bit bitmap r.type ≡ false) rs
    → All (λ r. has_bit (bitmap_of rs bitmap) r.type ≡ r.publish) rs
unfolding bitmap_of
has_bit-publish [] bitmap d h = tt
has_bit-publish (r ∷ rs) bitmap d h =
    let marked = if r.publish then set_bit bitmap r.type else bitmap in
    (
      has_bit-bitmap_of rs marked r.type
          ∙ ap₂ (λ a b. a || b) (has_bit-marked r bitmap r.type) (publishes-absent r.type rs d.0)
          ∙ own r.publish (has_bit bitmap r.type) h.0,
      has_bit-publish rs marked d.1 (unmarked r bitmap rs d.0 h.1),
    )
  where
    own : (p h : Bool) → h ≡ false → ((h || (p && (r.type == r.type))) || false) ≡ p
    own p h e = ground arith
