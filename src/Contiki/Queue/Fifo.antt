-- ===== src/Contiki/Queue/Fifo.antt =====
-- The ten cells of es1.c are a first-in, first-out queue.
use nsdscourse.Base.{
  ℕ, zero, suc, ◌-◌, ◌≤◌, ◌<◌, ◌≡◌, refl, ap, ◌∙◌, List, [], ◌∷◌, ◌++◌, arith, length, take, get_or,
  set, length-set, append_assoc, ltb, ◌&&◌, ◌%◌, true, Bool-cases, if_intro, inl, inr,
}
use native.Mathlib.Numerals.{add-one}
use nsdscourse.Contiki.Queue.{
  Cells, Post, put, shift, popped_of, pop, System, producer, consumer, deliver_first, step, run,
  start, capacity, Event, producer_timer, consumer_timer, deliver, added, popped,
}

-- The items, oldest first.
abbrev pub contents : Cells → List ℕ
contents t = take t.num_el t.queue

-- The items fit into the array.
pub record IsValid (t : Cells) : Type 0 where
  pub cells : length t.queue ≡ capacity
  pub within : t.num_el ≤ capacity

take-set :
    (n : ℕ) (q : List ℕ) (v : ℕ) → n < length q → take (suc n) (set q n v) ≡ take n q ++ (v ∷ [])
take-set n [] v h = absurd (omega arith)
take-set zero (x ∷ q) v h = refl
take-set (suc n) (x ∷ q) v h = ap (λ r. x ∷ r) (take-set n q v (omega arith))

length-shift : (k i : ℕ) (q : List ℕ) → length (shift k i q) ≡ length q
unfolding shift
length-shift zero i q = refl
length-shift (suc k) i q =
    length-shift k (suc i) (set q i (get_or q (suc i) 0)) ∙ length-set q i (get_or q (suc i) 0)

shift-cons : (k i x : ℕ) (q : List ℕ) → shift k (suc i) (x ∷ q) ≡ x ∷ shift k i q
unfolding shift
shift-cons zero i x q = refl
shift-cons (suc k) i x q = shift-cons k (suc i) x (set q i (get_or q (suc i) 0))

take-shift :
    (k : ℕ) (q : List ℕ) → k < length q → take (suc k) q ≡ get_or q 0 0 ∷ take k (shift k 0 q)
unfolding shift
take-shift k [] h = absurd (omega arith)
take-shift zero (x ∷ q) h = refl
take-shift (suc k) (x ∷ []) h = absurd (omega arith)
take-shift (suc k) (x ∷ y ∷ q) h =
    rw (shift-cons k 0 y (y ∷ q)) (ap (λ r. x ∷ r) (take-shift k (y ∷ q) (omega arith)))

take-pop :
    (n : ℕ) (q : List ℕ)
    → 0 < n
    → n ≤ length q
    → take n q ≡ get_or q 0 0 ∷ take (n - 1) (shift (n - 1) 0 q)
take-pop zero q h k = absurd (omega arith)
take-pop (suc n) q h k = let e : suc n - 1 ≡ n = omega arith in rw e (take-shift n q (omega arith))

-- A put with room in the queue writes inside the array and appends the item.
pub put_lem :
    (v : ℕ) (t : Cells)
    → IsValid t
    → t.num_el < capacity
    → IsValid (put v t) × (contents (put v t) ≡ contents t ++ (v ∷ []))
unfolding put
put_lem v t h room = (
  record { cells = length-set t.queue t.num_el v ∙ h.cells; within = omega arith },
  rw add-one (take-set t.num_el t.queue v (omega (arith, h.cells))),
)

-- A pop of a queue that is not empty takes the oldest item and leaves the others in order.
pub pop_lem :
    (t : Cells)
    → IsValid t
    → 0 < t.num_el
    → IsValid (pop t) × (contents t ≡ popped_of t ∷ contents (pop t))
unfolding pop
pop_lem t h some_left = (
  record { cells = length-shift (t.num_el - 1) 0 t.queue ∙ h.cells; within = omega arith },
  take-pop t.num_el t.queue some_left (omega (arith, h.cells, h.within)),
)

-- The array is in order, and what was added is what was popped followed by what is in the queue.
pub record IsFifo (s : System) : Type 0 where
  pub valid : IsValid s.cells
  pub order : s.log_added ≡ s.log_popped ++ contents s.cells

producer-IsFifo : (rand : ℕ) (s : System) → IsFifo s → IsFifo (producer rand s)
unfolding producer
producer-IsFifo rand s h = elim (Bool-cases (s.producer_expired && ltb s.cells.num_el capacity)) [
  | inl e ↦
      let made = put_lem (rand % 10) s.cells h.valid (ground arith) in
      rw e (record {
        valid = made.0;
        order = cc (h.order, made.1, append_assoc s.log_popped (contents s.cells) (rand % 10 ∷ []));
      })
  | inr e ↦ simp e h
]

consumer-IsFifo : (s : System) → IsFifo s → IsFifo (consumer s)
unfolding consumer
consumer-IsFifo s h = elim (Bool-cases s.consumer_started) [
  | inl on ↦ elim (Bool-cases (s.consumer_expired && ltb 0 s.cells.num_el)) [
    | inl e ↦
        let made = pop_lem s.cells h.valid (ground arith) in
        simp (on, e)
          (record {
            valid = made.0;
            order = cc (
              h.order,
              made.1,
              append_assoc s.log_popped (popped_of s.cells ∷ []) (contents (pop s.cells)),
            );
          })
    | inr e ↦ simp (on, e) h
  ]
  | inr off ↦ simp off (record { valid = h.valid; order = h.order })
]

deliver-IsFifo :
    (ps : List Post) (rand : ℕ) (s : System) → IsFifo s → IsFifo (deliver_first ps rand s)
unfolding deliver_first
deliver-IsFifo [] rand s h = h
deliver-IsFifo (added ∷ rest) rand s h =
    consumer-IsFifo (record s { waiting = rest }) (record { valid = h.valid; order = h.order })
deliver-IsFifo (popped ∷ rest) rand s h =
    producer-IsFifo rand (record s { waiting = rest }) (record { valid = h.valid; order = h.order })

step-IsFifo : (s : System) (e : Event) (rand : ℕ) → IsFifo s → IsFifo (step s e rand)
unfolding step
step-IsFifo s producer_timer rand h =
    producer-IsFifo rand (record s { producer_expired = true })
      (record { valid = h.valid; order = h.order })
step-IsFifo s consumer_timer rand h =
    let ringing = record s { consumer_expired = true } in
    if_intro IsFifo s.consumer_started (consumer ringing) s
      (λ on. consumer-IsFifo ringing (record { valid = h.valid; order = h.order })) (λ off. h)
step-IsFifo s deliver rand h = deliver-IsFifo s.waiting rand s h

run-keeps : (s : System) (es : List (Event × ℕ)) → IsFifo s → IsFifo (run s es)
unfolding run
run-keeps s [] h = h
run-keeps s ((e, rand) ∷ es) h = run-keeps (step s e rand) es (step-IsFifo s e rand h)

-- In every run the ten cells are never overrun, and the numbers popped are the numbers added, in
-- the same order, less those that are still in the queue.
pub run-IsFifo :
    (queue : List ℕ) (es : List (Event × ℕ))
    → length queue ≡ capacity
    → IsFifo (run (start queue) es)
run-IsFifo queue es h =
    run-keeps (start queue) es
      (record { valid = record { cells = h; within = omega arith }; order = refl })
