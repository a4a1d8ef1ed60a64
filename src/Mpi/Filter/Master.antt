-- ===== src/Mpi/Filter/Master.antt =====
-- Rank 0 of filter.c: whatever the order of arrival, it ends with all that the workers kept.
use nsdscourse.Base.{
  concat, ℕ, ◌+◌, ◌≡◌, refl, ◌∙◌, ap, ap₂, sym, ◌++◌, List, [], ◌∷◌, arith, ◌==◌, if◌then◌else◌,
  length, length-append, length-snoc, replicate, append_assoc, append-nil, All, length-eq-zero,
}
use native.Mathlib.Nat.{zero-add, suc-add}
use nsdscourse.Mpi.Filter.{
  Sent, Expected, add_size, receive_sizes, write_block, receive_blocks, master_receive_results,
  Arrives, none_sent, nothing, something, send_all,
}
use nsdscourse.Mpi.Filter.Multiples.{set-free, multiples, multiples-append, send_lem}

-- How often `v` stands in the list.
abbrev pub count : ℕ → List ℕ → ℕ
count v [] = 0
count v (x ∷ xs) = (if x == v then 1 else 0) + count v xs

abbrev pub blocks : List Sent → List (List ℕ)
blocks [] = []
blocks (s ∷ ss) = s.block ∷ blocks ss

-- A worker announces the length of the array that it sends.
abbrev pub IsHonest : List Sent → Type 0
IsHonest ss = All (λ s. s.size ≡ length s.block) ss

count-append : (v : ℕ) (xs ys : List ℕ) → count v (xs ++ ys) ≡ count v xs + count v ys
count-append v [] ys = omega arith
count-append v (x ∷ xs) ys = omega (arith, count-append v xs ys)

concat-append : (xs ys : List (List ℕ)) → concat (xs ++ ys) ≡ concat xs ++ concat ys
concat-append [] ys = refl
concat-append (x ∷ xs) ys = rw (concat-append xs ys) (sym (append_assoc x (concat xs) (concat ys)))

write_block-free :
    (done b : List ℕ) (room garbage : ℕ)
    → write_block (done ++ replicate (length b + room) garbage) (length done) b
      ≡ (done ++ b) ++ replicate room garbage
unfolding write_block
write_block-free done [] room garbage = rw (zero-add, append-nil)
write_block-free done (x ∷ b) room garbage =
    rw (suc-add, set-free done (length b + room) x garbage)
      (cc (
        write_block-free (done ++ (x ∷ [])) b room garbage,
        length-snoc done x,
        append_assoc done (x ∷ []) b,
      ))

receive_blocks-concat :
    (bs : List (List ℕ)) (done : List ℕ) (garbage : ℕ)
    → receive_blocks (length bs) (done ++ replicate (length (concat bs)) garbage) (length done) bs
      ≡ done ++ concat bs
unfolding receive_blocks
receive_blocks-concat [] done garbage = refl
receive_blocks-concat (b ∷ bs) done garbage =
    rw
      (
        length-append b (concat bs),
        receive_blocks,
        write_block-free done b (length (concat bs)) garbage,
      )
      (cc (
        receive_blocks-concat bs (done ++ b) garbage,
        length-append done b,
        append_assoc done b (concat bs),
      ))

length-insert :
    (before after : List (List ℕ)) (b : List ℕ)
    → length (before ++ (b ∷ after)) ≡ length (before ++ after) + 1
length-insert before after b =
    omega (arith, length-append {0} before (b ∷ after), length-append {0} before after)

count-insert :
    (v : ℕ) (before after : List (List ℕ)) (b : List ℕ)
    → count v (concat (before ++ (b ∷ after))) ≡ count v b + count v (concat (before ++ after))
count-insert v before after b =
    rw (concat-append before (b ∷ after), concat-append before after) (omega (arith, count-append))

length-concat-insert :
    (before after : List (List ℕ)) (b : List ℕ)
    → length (concat (before ++ (b ∷ after))) ≡ length b + length (concat (before ++ after))
length-concat-insert before after b =
    rw (concat-append before (b ∷ after), concat-append before after)
      (omega (arith, length-append {0} {A = ℕ}))

-- What the sizes add up to.
receive_sizes-Arrives :
    (e : Expected) {ss : List Sent} {bs : List (List ℕ)}
    → IsHonest ss
    → Arrives ss bs
    → ((receive_sizes e ss).num_receive ≡ e.num_receive + length bs)
      × ((receive_sizes e ss).out_size ≡ e.out_size + length (concat bs))
unfolding receive_sizes
receive_sizes-Arrives e h none_sent = omega arith
receive_sizes-Arrives e h (nothing {s} z a) =
    ground (arith, receive_sizes-Arrives (add_size e s) h.1 a)
receive_sizes-Arrives e h (something {s} before after nz a p q) =
    rw (q, length-insert before after s.block, length-concat-insert before after s.block, ← p)
      (ground (arith, receive_sizes-Arrives (add_size e s) h.1 a))

-- The messages hold the same numbers, as often, as the workers' arrays.
count-Arrives :
    (v : ℕ) {ss : List Sent} {bs : List (List ℕ)}
    → IsHonest ss
    → Arrives ss bs
    → count v (concat bs) ≡ count v (concat (blocks ss))
count-Arrives v h none_sent = refl
count-Arrives v h (nothing {s} {ss} z a) =
    rw (length-eq-zero s.block (omega (arith, h.0))) (count-Arrives v h.1 a)
count-Arrives v h (something {s} {ss} before after nz a p q) =
    rw (q, count-insert v before after s.block, ← p, count-append v s.block (concat (blocks ss)))
      (omega (arith, count-Arrives v h.1 a))

length-Arrives :
    {ss : List Sent} {bs : List (List ℕ)}
    → IsHonest ss
    → Arrives ss bs
    → length (concat bs) ≡ length (concat (blocks ss))
length-Arrives h none_sent = refl
length-Arrives h (nothing {s} {ss} z a) =
    rw (length-eq-zero s.block (omega (arith, h.0))) (length-Arrives h.1 a)
length-Arrives h (something {s} {ss} before after nz a p q) =
    rw
      (
        q,
        length-concat-insert before after s.block,
        ← p,
        length-append s.block (concat (blocks ss)),
      )
      (omega (arith, length-Arrives h.1 a))

master_receive_results-concat :
    (ss : List Sent) (bs : List (List ℕ)) (garbage : ℕ)
    → IsHonest ss
    → Arrives ss bs
    → master_receive_results ss bs garbage ≡ concat bs
unfolding master_receive_results
master_receive_results-concat ss bs garbage h a =
    let sizes = receive_sizes-Arrives (record { num_receive = 0; out_size = 0 }) h a in
    ground (
      arith,
      sizes,
      length-eq-zero (concat bs),
      zero-add (length bs),
      zero-add (length (concat bs)),
      receive_blocks-concat bs [] garbage,
    )

-- In whatever order the probe finds the messages, rank 0 ends with those messages one after the
-- other: its array has the announced size, and holds every number as often as the workers' arrays.
pub master_receive_results_lem :
    (ss : List Sent) (bs : List (List ℕ)) (garbage : ℕ)
    → IsHonest ss
    → Arrives ss bs
    → (master_receive_results ss bs garbage ≡ concat bs)
      × (length (master_receive_results ss bs garbage) ≡ length (concat (blocks ss)))
      × ((v : ℕ) → count v (master_receive_results ss bs garbage) ≡ count v (concat (blocks ss)))
master_receive_results_lem ss bs garbage h a =
    let e = master_receive_results-concat ss bs garbage h a in
    (e, rw e (length-Arrives h a), λ v. rw e (count-Arrives v h a))

IsHonest-send_all : (xss : List (List ℕ)) (num garbage : ℕ) → IsHonest (send_all xss num garbage)
unfolding send_all
IsHonest-send_all [] num garbage = tt
IsHonest-send_all (xs ∷ xss) num garbage =
    let sent = send_lem xs num garbage in
    (sent.0 ∙ ap length (sym sent.1), IsHonest-send_all xss num garbage)

concat-send_all :
    (xss : List (List ℕ)) (num garbage : ℕ)
    → concat (blocks (send_all xss num garbage)) ≡ multiples (concat xss) num
unfolding send_all
concat-send_all [] num garbage = refl
concat-send_all (xs ∷ xss) num garbage =
    ap₂ ◌++◌ (send_lem xs num garbage).1 (concat-send_all xss num garbage)
    ∙ sym (multiples-append xs (concat xss) num)

-- The whole program: in whatever order the messages arrive, rank 0 ends with every multiple of the
-- number as often as it stands in the workers' arrays, and with nothing else.
pub filter_lem :
    (xss : List (List ℕ)) (num garbage : ℕ) (bs : List (List ℕ)) (v : ℕ)
    → Arrives (send_all xss num garbage) bs
    → count v (master_receive_results (send_all xss num garbage) bs garbage)
      ≡ count v (multiples (concat xss) num)
filter_lem xss num garbage bs v a =
    let r =
      master_receive_results_lem (send_all xss num garbage) bs garbage
        (IsHonest-send_all xss num garbage) a in
    r.2 v ∙ ap (count v) (concat-send_all xss num garbage)
