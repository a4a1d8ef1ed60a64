-- ===== src/Contiki/Mqtt/Address/Written.antt =====
-- The text that `ipaddr_sprintf` of mqtt-demo.c writes for an IPv6 address.
use nsdscourse.Base.{
  ℕ, zero, suc, ◌*◌, ◌≤◌, ◌≡◌, ◌≢◌, refl, ap, sym, ◌∙◌, true, false, List, [], ◌∷◌, ◌++◌,
  append_assoc, append-nil, arith, length, replicate, All, get_or,
}
use nsdscourse.Contiki.Mqtt.Text.{codes, hex}
use nsdscourse.Contiki.Mqtt.Address.{not_yet, inside, past, groups_of, ipaddr_sprintf}
use nsdscourse.Contiki.Mqtt.Address.Shape.{behind, printed, print_groups-printed}

-- No group is zero.
abbrev pub NonZero : List ℕ → Type 0
NonZero gs = All (λ a. a ≢ 0) gs

-- Groups with `:` between them.
abbrev pub join : List ℕ → List ℕ
join [] = []
join (a ∷ []) = hex a
join (a ∷ b ∷ gs) = hex a ++ (codes ":" ++ join (b ∷ gs))

-- Groups with `:` in front of each.
abbrev colon_each : List ℕ → List ℕ
colon_each [] = []
colon_each (a ∷ gs) = codes ":" ++ (hex a ++ colon_each gs)

join-colon_each : (a : ℕ) (gs : List ℕ) → join (a ∷ gs) ≡ hex a ++ colon_each gs
join-colon_each a [] = sym (append-nil (hex a))
join-colon_each a (b ∷ gs) = ap (λ r. hex a ++ (codes ":" ++ r)) (join-colon_each b gs)

printed-past : (gs : List ℕ) → printed past false gs ≡ colon_each gs
printed-past [] = refl
printed-past (zero ∷ gs) = ap (λ r. codes ":" ++ (hex 0 ++ r)) (printed-past gs)
printed-past (suc a ∷ gs) = ap (λ r. codes ":" ++ (hex (suc a) ++ r)) (printed-past gs)

-- Behind the run of zeros the groups follow with `:` between them.
printed-zeros :
    (k : ℕ) (ys : List ℕ) → get_or ys 0 1 ≢ 0 → printed inside false (replicate k 0 ++ ys) ≡ join ys
printed-zeros (suc k) ys h = printed-zeros k ys h
printed-zeros zero [] h = refl
printed-zeros zero (zero ∷ ys) h = absurd (h refl)
printed-zeros zero (suc a ∷ ys) h =
    ap (λ r. hex (suc a) ++ r) (printed-past ys) ∙ sym (join-colon_each (suc a) ys)

-- In front of it too.
printed-lead :
    (xs rest : List ℕ)
    → NonZero xs
    → printed not_yet false (xs ++ (0 ∷ rest))
      ≡ colon_each xs ++ (codes "::" ++ printed inside false rest)
printed-lead [] rest h = refl
printed-lead (zero ∷ xs) rest h = absurd (h.0 refl)
printed-lead (suc a ∷ xs) rest h =
    ap (λ r. codes ":" ++ (hex (suc a) ++ r)) (printed-lead xs rest h.1)
    ∙ sym (append_assoc (codes ":" ++ hex (suc a)) (colon_each xs) _)

printed-nonzero : (xs : List ℕ) → NonZero xs → printed not_yet false xs ≡ colon_each xs
printed-nonzero [] h = refl
printed-nonzero (zero ∷ xs) h = absurd (h.0 refl)
printed-nonzero (suc a ∷ xs) h = ap (λ r. codes ":" ++ (hex (suc a) ++ r)) (printed-nonzero xs h.1)

printed-with_zeros :
    (xs : List ℕ) (k : ℕ) (ys : List ℕ)
    → NonZero xs
    → get_or ys 0 1 ≢ 0
    → printed not_yet true (xs ++ (0 ∷ (replicate k 0 ++ ys))) ≡ join xs ++ (codes "::" ++ join ys)
printed-with_zeros [] k ys h n = ap (λ r. codes "::" ++ r) (printed-zeros k ys n)
printed-with_zeros (zero ∷ xs) k ys h n = absurd (h.0 refl)
printed-with_zeros (suc a ∷ xs) k ys h n = rw (
  join-colon_each (suc a) xs,
  append_assoc (hex (suc a)) (colon_each xs) (codes "::" ++ join ys),
  printed-lead xs (replicate k 0 ++ ys) h.1,
  printed-zeros k ys n,
)

printed-without_zeros : (xs : List ℕ) → NonZero xs → printed not_yet true xs ≡ join xs
printed-without_zeros [] h = refl
printed-without_zeros (zero ∷ xs) h = absurd (h.0 refl)
printed-without_zeros (suc a ∷ xs) h =
    ap (λ r. hex (suc a) ++ r) (printed-nonzero xs h.1) ∙ sym (join-colon_each (suc a) xs)

length-groups_of : (bytes : List ℕ) → length (groups_of bytes) * 2 ≤ length bytes
unfolding groups_of
length-groups_of [] = omega arith
length-groups_of (hi ∷ []) = omega arith
length-groups_of (hi ∷ lo ∷ bytes) = omega (arith, length-groups_of bytes)

-- An address of 16 bytes fits the caller's 64 characters, so nothing is cut off.
pub ipaddr_sprintf-printed :
    (bytes : List ℕ)
    → length bytes ≡ 16
    → ipaddr_sprintf 64 bytes
      ≡ behind (record { text = []; len = 0 }) (printed not_yet true (groups_of bytes))
unfolding ipaddr_sprintf
ipaddr_sprintf-printed bytes h =
    print_groups-printed 64 (omega arith) (record { text = []; len = 0 }) not_yet true
      (groups_of bytes) refl (omega (arith, length-groups_of bytes))

-- For an address of 16 bytes with a zero group, and the caller's buffer of 64 characters,
-- `ipaddr_sprintf` writes the groups before the first run of zero groups and those behind it in
-- hexadecimal with `:` between them and `::` for the run, and returns the length of that text.
pub ipaddr_sprintf-zeros :
    (bytes xs : List ℕ) (k : ℕ) (ys : List ℕ)
    → length bytes ≡ 16
    → groups_of bytes ≡ xs ++ (0 ∷ (replicate k 0 ++ ys))
    → NonZero xs
    → get_or ys 0 1 ≢ 0
    → ((ipaddr_sprintf 64 bytes).text ≡ join xs ++ (codes "::" ++ join ys))
      × ((ipaddr_sprintf 64 bytes).len ≡ length (join xs ++ (codes "::" ++ join ys)))
ipaddr_sprintf-zeros bytes xs k ys h g nz n =
    let shape = printed-with_zeros xs k ys nz n in
    rw (ipaddr_sprintf-printed bytes h, g, shape) (refl, omega arith)

-- For an address of 16 bytes without a zero group it writes all groups with `:` between them, and
-- returns the length of that text.
pub ipaddr_sprintf-nonzero :
    (bytes : List ℕ)
    → length bytes ≡ 16
    → NonZero (groups_of bytes)
    → ((ipaddr_sprintf 64 bytes).text ≡ join (groups_of bytes))
      × ((ipaddr_sprintf 64 bytes).len ≡ length (join (groups_of bytes)))
ipaddr_sprintf-nonzero bytes h nz =
    rw (ipaddr_sprintf-printed bytes h, printed-without_zeros (groups_of bytes) nz)
      (refl, omega arith)
