-- ===== src/Contiki/Mqtt/Handler.antt =====
-- `pub_handler` of mqtt-demo.c, which accepts the messages on the topics that end in "json".
use nsdscourse.Base.{
  ℕ, ◌-◌, ◌≡◌, ◌↔◌, refl, sym, ap, ap₂, ◌∙◌, inl, inr, Bool, true, false, Option, none, some, List,
  [], ◌∷◌, ◌++◌, arith, length, length-append, take, drop, take-append-drop, ltb, ◌==◌,
  if◌then◌else◌, Bool-cases,
}
use nsdscourse.Contiki.Mqtt.Text.{codes}

-- `strncmp` on texts of the same length finds no difference.
unfoldable pub same : List ℕ → List ℕ → Bool
same [] [] = true
same [] (y ∷ ys) = false
same (x ∷ xs) [] = false
same (x ∷ xs) (y ∷ ys) = let rest = same xs ys in if x == y then rest else false

-- Whether the message is accepted. A topic of less than four characters is read before its start,
-- which is `none`.
unfoldable pub pub_handler : List ℕ → Option Bool
pub_handler topic =
    if ltb (length topic) 4
    then none
    else some (same (drop (length topic - 4) topic) (codes "json"))

same_refl : (xs : List ℕ) → same xs xs ≡ true
unfolding same
same_refl [] = refl
same_refl (x ∷ xs) = ground (arith, same_refl xs)

same_eq : (xs ys : List ℕ) → same xs ys ≡ true → xs ≡ ys
unfolding same
same_eq [] [] h = refl
same_eq [] (y ∷ ys) h = cc
same_eq (x ∷ xs) [] h = cc
same_eq (x ∷ xs) (y ∷ ys) h = elim (Bool-cases (x == y)) [
  | inl e ↦
      let h' : same xs ys ≡ true = ground (arith, h, e) in
      let k : x ≡ y = ground (arith, e) in ap₂ (λ a as'. a ∷ as') k (same_eq xs ys h')
  | inr e ↦ absurd (ground (arith, h, e))
]

drop-prefix : (p ys : List ℕ) → drop (length p) (p ++ ys) ≡ ys
drop-prefix [] ys = refl
drop-prefix (x ∷ p) ys = drop-prefix p ys

-- A message is accepted exactly when its topic ends in "json".
pub pub_handler_lem :
    (topic : List ℕ)
    → (pub_handler topic ≡ some true) ↔ ((p : List ℕ) × (topic ≡ p ++ codes "json"))
unfolding pub_handler
pub_handler_lem topic = (
  (λ h. elim (Bool-cases (ltb (length topic) 4)) [
    | inl e ↦ absurd (ground (arith, h, e))
    | inr e ↦
        let n = length topic - 4 in
        let s : same (drop n topic) (codes "json") ≡ true = ground (arith, h, e) in
        (take n topic, sym (take-append-drop n topic) ∙ ap (λ r. take n topic ++ r) (same_eq _ _ s))
  ]),
  (λ (p, e).
      let long = length-append p (codes "json") in
      let short : ltb (length (p ++ codes "json")) 4 ≡ false = ground (arith, long) in
      let start : length (p ++ codes "json") - 4 ≡ length p = omega (arith, long) in
      rw (e, short, start, drop-prefix p (codes "json"), same_refl (codes "json")) refl),
)
