-- ===== src/Examples/LargeUpdate/Blocks.antt =====
-- A body put in blocks comes back in blocks.
use nsdscourse.Base.{
  length-take, length-drop, ℕ, zero, suc, ◌+◌, ◌-◌, ◌*◌, ◌<◌, ◌≤◌, ◌≡◌, refl, ap, sym, subst, ◌∙◌,
  Bool-cases, inl, inr, Option, none, some, List, [], ◌∷◌, ◌++◌, concat, append_assoc, append-nil,
  length, length-append, take, take-append, drop, leb, arith,
}
use nsdscourse.Examples.LargeUpdate.{
  max_plugfest_body, Resource, Payload, bytes, res_get_handler, copy_at, res_put_handler, start,
}

take-nil : (n : ℕ) → take {A = ℕ} n [] ≡ []
take-nil zero = refl
take-nil (suc n) = refl

drop-nil : (n : ℕ) → drop {A = ℕ} n [] ≡ []
drop-nil zero = refl
drop-nil (suc n) = refl

drop-zero : (n : ℕ) (xs : List ℕ) → drop (0 + n) xs ≡ drop n xs
drop-zero n xs = ap (λ i. drop i xs) {x = 0 + n} {y = n} (omega arith)

drop-suc : (k n x : ℕ) (xs : List ℕ) → drop (suc k + n) (x ∷ xs) ≡ drop (k + n) xs
drop-suc k n x xs = ap (λ i. drop i (x ∷ xs)) {x = suc k + n} {y = suc (k + n)} (omega arith)

take-drop : (m n : ℕ) (xs : List ℕ) → m ≤ n → take m xs ++ drop m (take n xs) ≡ take n xs
take-drop zero n xs h = refl
take-drop (suc m) zero xs h = ground arith
take-drop (suc m) (suc n) [] h = refl
take-drop (suc m) (suc n) (x ∷ xs) h = ap (λ ys. x ∷ ys) (take-drop m n xs (omega arith))

take-drop-take :
    (k m n : ℕ) (xs : List ℕ)
    → k + m ≤ n
    → take m (drop k xs) ++ drop (k + m) (take n xs) ≡ drop k (take n xs)
take-drop-take zero m n xs h = rw (drop-zero m (take n xs)) (take-drop m n xs (omega arith))
take-drop-take (suc k) m zero xs h = ground arith
take-drop-take (suc k) m (suc n) [] h = rw (take-nil m, drop-nil (suc k + m)) refl
take-drop-take (suc k) m (suc n) (x ∷ xs) h =
    rw (drop-suc k m x (take n xs)) (take-drop-take k m n xs (omega arith))

drop-take : (n : ℕ) (xs : List ℕ) → drop n (take n xs) ≡ []
drop-take zero xs = refl
drop-take (suc n) [] = refl
drop-take (suc n) (x ∷ xs) = drop-take n xs

length-copy_at :
    (store incoming : List ℕ) (at : ℕ)
    → at + length incoming ≤ length store
    → length (copy_at store at incoming) ≡ length store
length-copy_at store incoming at h = grind (arith, length-append, length-take, length-drop)

take-copy_at :
    (store incoming : List ℕ) (at : ℕ)
    → at + length incoming ≤ length store
    → take (at + length incoming) (copy_at store at incoming) ≡ take at store ++ incoming
take-copy_at store incoming at h =
    let before = take at store ++ incoming in
    let rest = drop (at + length incoming) store in
    ap (λ n. take n (copy_at store at incoming)) {x = at + length incoming} {y = length before}
      (grind (arith, length-append, length-take))
    ∙ ap (take (length before)) (sym (append_assoc (take at store) incoming rest))
    ∙ take-append before rest

-- Blocks of a size, the last of them of that size at most, but none of them empty.
abbrev pub AreBlocks : ℕ → List (List ℕ) → Type 0
AreBlocks size [] = ⊥
AreBlocks size (b ∷ []) = (0 < length b) × (length b ≤ size)
AreBlocks size (b ∷ c ∷ cs) = ((0 < length b) × (length b ≡ size)) × AreBlocks size (c ∷ cs)

-- The requests of a client for the blocks, from the number `num` on.
abbrev pub put_all : ℕ → ℕ → ℕ → List (List ℕ) → Resource → Resource
put_all ct size num [] r = r
put_all ct size num (b ∷ bs) r =
    put_all ct size (num + 1) bs (res_put_handler (some ct) b num size r).1

abbrev stored : ℕ → ℕ → List ℕ → Resource → Resource
stored ct at b r = record {
  large_update_size = at + length b;
  large_update_store = copy_at r.large_update_store at b;
  large_update_ct = ct;
}

res_put_handler-stored :
    (ct num size : ℕ) (b : List ℕ) (r : Resource)
    → 0 < length b
    → num * size + length b ≤ max_plugfest_body
    → (res_put_handler (some ct) b num size r).1 ≡ stored ct (num * size) b r
unfolding res_put_handler
res_put_handler-stored ct num size b r h k = ground arith

-- A resource that holds a text.
abbrev Contains : List ℕ → Resource → Type 0
Contains body r =
    (r.large_update_size ≡ length body) × (take r.large_update_size r.large_update_store ≡ body)

stored-Contains :
    (ct at : ℕ) (b : List ℕ) (r : Resource)
    → at + length b ≤ length r.large_update_store
    → Contains (take at r.large_update_store ++ b) (stored ct at b r)
stored-Contains ct at b r h =
    (grind (arith, length-append, length-take), take-copy_at r.large_update_store b at h)

put_all-Contains :
    (ct size num : ℕ) (bs : List (List ℕ)) (r : Resource)
    → AreBlocks size bs
    → length r.large_update_store ≡ max_plugfest_body
    → num * size + length (concat bs) ≤ max_plugfest_body
    → Contains (take (num * size) r.large_update_store ++ concat bs) (put_all ct size num bs r)
put_all-Contains ct size num [] r h full fits = absurd h
put_all-Contains ct size num (b ∷ []) r h full fits =
    let short = ap length (append-nil b) in
    let same = res_put_handler-stored ct num size b r h.0 (omega arith) in
    rw (append-nil b, same) (stored-Contains ct (num * size) b r (omega arith))
put_all-Contains ct size num (b ∷ c ∷ cs) r h full fits =
    let store = r.large_update_store in
    let r' = stored ct (num * size) b r in
    let long = length-append b (concat (c ∷ cs)) in
    let here : num * size + length b ≤ length store = omega arith in
    let next : (num + 1) * size ≡ num * size + length b = ground arith in
    let same = res_put_handler-stored ct num size b r h.0.0 (omega arith) in
    let text : take ((num + 1) * size) r'.large_update_store ++ concat (c ∷ cs)
        ≡ take (num * size) store ++ concat (b ∷ c ∷ cs) =
      ap (λ n. take n r'.large_update_store ++ concat (c ∷ cs)) next
      ∙ ap (λ xs. xs ++ concat (c ∷ cs)) (take-copy_at store b (num * size) here)
      ∙ append_assoc (take (num * size) store) b (concat (c ∷ cs)) in
    let rest =
      put_all-Contains ct size (num + 1) (c ∷ cs) r' h.1
        (length-copy_at store b (num * size) here ∙ full) (omega arith) in
    subst (Contains (take (num * size) store ++ concat (b ∷ c ∷ cs)))
      (ap (put_all ct size (num + 1) (c ∷ cs)) (sym same))
      (subst (λ body. Contains body (put_all ct size (num + 1) (c ∷ cs) r')) text rest)

abbrev pub joined_to : Payload → Option (List ℕ) → Option (List ℕ)
joined_to (bytes b) (some rest) = some (b ++ rest)
joined_to _ _ = none

-- The requests of a client that gets all blocks, at most so many of them.
abbrev pub get_all : ℕ → ℕ → ℕ → Resource → Option (List ℕ)
get_all zero size offset r = none
get_all (suc left) size offset r =
    let (response, moved) = res_get_handler size offset r in
    joined_to response.payload
      (elim moved [ none ↦ some [] | some next ↦ get_all left size next r ])

get_all-drop :
    (left size offset : ℕ) (r : Resource)
    → 0 < size
    → offset < r.large_update_size
    → r.large_update_size ≤ offset + left
    → get_all left size offset r
      ≡ some (drop offset (take r.large_update_size r.large_update_store))
unfolding res_get_handler
get_all-drop zero size offset r h k enough = ground arith
get_all-drop (suc left) size offset r h k enough =
    elim (Bool-cases (leb r.large_update_size (offset + size))) [
      | inl last ↦
          let part =
            take-drop-take offset (r.large_update_size - offset) r.large_update_size
              r.large_update_store (omega arith) in
          let nothing_left : drop (offset + (r.large_update_size - offset))
                (take r.large_update_size r.large_update_store)
              ≡ [] =
            ap (λ n. drop n (take r.large_update_size r.large_update_store))
              {x = offset + (r.large_update_size - offset)} {y = r.large_update_size} (omega arith)
            ∙ drop-take r.large_update_size r.large_update_store in
          let all_of_it =
            append-nil (take (r.large_update_size - offset) (drop offset r.large_update_store)) in
          ground (arith, part, nothing_left, all_of_it)
      | inr more ↦
          let part =
            take-drop-take offset size r.large_update_size r.large_update_store (ground arith) in
          let rest = get_all-drop left size (offset + size) r h (ground arith) (ground arith) in
          ground (arith, part, rest)
    ]

-- A body of one block at least and 2048 bytes at most, put in blocks of one size, is what a client then
-- gets in blocks of any size, the same or another.
pub get_all-put_all :
    (ct size size' : ℕ) (bs : List (List ℕ))
    → AreBlocks size bs
    → 0 < length (concat bs)
    → length (concat bs) ≤ max_plugfest_body
    → 0 < size'
    → get_all max_plugfest_body size' 0 (put_all ct size 0 bs start) ≡ some (concat bs)
get_all-put_all ct size size' bs h some_byte fits pos =
    let r = put_all ct size 0 bs start in
    let (long, body) = put_all-Contains ct size 0 bs start h refl (omega arith) in
    let none_before =
      ap (λ n. take n start.large_update_store ++ concat bs) {x = 0 * size} {y = 0} (omega arith) in
    let whole = long ∙ ap length none_before in
    get_all-drop max_plugfest_body size' 0 r pos (omega arith) (omega arith)
    ∙ ap some (body ∙ none_before)
