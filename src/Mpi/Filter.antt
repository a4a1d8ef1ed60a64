-- ===== src/Mpi/Filter.antt =====
-- MPI/NSDS_MPI_tutorial/src/filter.c: the workers keep the multiples of a number and send them to
-- rank 0, which collects them. `malloc` gives an array of unknown contents, the argument `garbage`.
-- The numbers are those of `rand() % 100`, so that no `int` is negative.
pub mod Multiples
pub mod Master
mod Tests
use nsdscourse.Base.{
  ℕ, zero, suc, ◌+◌, ◌%◌, ◌≢◌, ◌≡◌, ◌++◌, List, [], ◌∷◌, map, ltb, ◌==◌, if◌then◌else◌, length, set,
  replicate,
}

-- `create_random_array`; the list is what `rand()` returns.
pub create_random_array : List ℕ → ℕ → List ℕ
create_random_array [] max_value = []
create_random_array (r ∷ rs) max_value = r % max_value ∷ create_random_array rs max_value

-- The loop of `get_num_multiples`.
pub count_from : ℕ → List ℕ → ℕ → ℕ
count_from count [] num = count
count_from count (x ∷ xs) num = count_from (if x % num == 0 then count + 1 else count) xs num

pub get_num_multiples : List ℕ → ℕ → ℕ
get_num_multiples xs num = count_from 0 xs num

-- The loop of `get_multiples`: `result[j++] = in[i]`. A `set` out of range changes nothing.
pub copy_from : List ℕ → ℕ → List ℕ → ℕ → List ℕ
copy_from result j [] num = result
copy_from result j (x ∷ xs) num =
    copy_from (if x % num == 0 then set result j x else result) (if x % num == 0 then j + 1 else j)
      xs num

pub get_multiples : List ℕ → ℕ → ℕ → ℕ → List ℕ
get_multiples xs num num_multiples garbage = copy_from (replicate num_multiples garbage) 0 xs num

-- What `send_filtered_results_to_master` sends: the size, and the array if it is not empty.
pub record Sent : Type 0 where
  pub size : ℕ
  pub block : List ℕ

pub send_filtered_results_to_master : List ℕ → ℕ → ℕ → Sent
send_filtered_results_to_master xs num garbage =
    let num_multiples = get_num_multiples xs num in
    record {
      size = num_multiples;
      block = if ltb 0 num_multiples then get_multiples xs num num_multiples garbage else [];
    }

-- The first loop of `master_receive_results`: the sizes in rank order.
pub record Expected : Type 0 where
  pub num_receive : ℕ
  pub out_size : ℕ

abbrev pub add_size : Expected → Sent → Expected
add_size e s = record {
  num_receive = if ltb 0 s.size then e.num_receive + 1 else e.num_receive;
  out_size = e.out_size + s.size;
}

pub receive_sizes : Expected → List Sent → Expected
receive_sizes e [] = e
receive_sizes e (s ∷ ss) = receive_sizes (add_size e s) ss

-- One receive into `&result[first_free_id]`.
pub write_block : List ℕ → ℕ → List ℕ → List ℕ
write_block result first_free_id [] = result
write_block result first_free_id (x ∷ xs) =
    write_block (set result first_free_id x) (first_free_id + 1) xs

-- The second loop of `master_receive_results`; the list holds the messages in the order in which the
-- probe finds them, and a missing message would block.
pub receive_blocks : ℕ → List ℕ → ℕ → List (List ℕ) → List ℕ
receive_blocks zero result first_free_id arrivals = result
receive_blocks (suc n) result first_free_id [] = result
receive_blocks (suc n) result first_free_id (b ∷ bs) =
    receive_blocks n (write_block result first_free_id b) (first_free_id + length b) bs

pub master_receive_results : List Sent → List (List ℕ) → ℕ → List ℕ
master_receive_results sent arrivals garbage =
    let e = receive_sizes (record { num_receive = 0; out_size = 0 }) sent in
    if e.out_size == 0
    then []
    else receive_blocks e.num_receive (replicate e.out_size garbage) 0 arrivals

-- An order in which a probe for any source may find the messages: each worker's array, if it sent
-- one, stands in it once.
pub data Arrives : List Sent → List (List ℕ) → Type 0 where
  none_sent : Arrives [] []
  nothing :
      {s : Sent} {ss : List Sent} {bs : List (List ℕ)}
      → s.size ≡ 0
      → Arrives ss bs
      → Arrives (s ∷ ss) bs
  something :
      {s : Sent} {ss : List Sent} {bs bs' : List (List ℕ)} (before after : List (List ℕ))
      → s.size ≢ 0
      → Arrives ss bs
      → bs ≡ before ++ after
      → bs' ≡ before ++ (s.block ∷ after)
      → Arrives (s ∷ ss) bs'

-- What the workers send, one array for each.
pub send_all : List (List ℕ) → ℕ → ℕ → List Sent
send_all [] num garbage = []
send_all (xs ∷ xss) num garbage =
    send_filtered_results_to_master xs num garbage ∷ send_all xss num garbage
