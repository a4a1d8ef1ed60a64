-- ===== src/Mpi/Filter/Tests.antt =====
-- Runs and instances of filter.c.
use nsdscourse.Base.{concat, ℕ, ◌≡◌, refl, List, [], ◌∷◌, arith}
use nsdscourse.Mpi.Filter.{
  Arrives, none_sent, nothing, something, count_from, get_num_multiples, copy_from, get_multiples,
  send_filtered_results_to_master, send_all, receive_sizes, receive_blocks, write_block,
  master_receive_results,
}
use nsdscourse.Mpi.Filter.Multiples.{multiples}
use nsdscourse.Mpi.Filter.Master.{count, filter_lem}

-- Three workers; the second keeps nothing.
abbrev arrays : List (List ℕ)
arrays = (4 ∷ 7 ∷ 6 ∷ []) ∷ (1 ∷ 3 ∷ []) ∷ (8 ∷ []) ∷ []

-- The message of the third worker overtakes that of the first.
overtaking : Arrives (send_all arrays 2 99) ((8 ∷ []) ∷ (4 ∷ 6 ∷ []) ∷ [])
unfolding send_all send_filtered_results_to_master get_num_multiples count_from get_multiples
    copy_from
overtaking =
    something {bs = (8 ∷ []) ∷ []} ((8 ∷ []) ∷ []) [] (omega arith)
      (nothing refl (something {bs = []} [] [] (omega arith) none_sent refl refl)) refl refl

collected :
    master_receive_results (send_all arrays 2 99) ((8 ∷ []) ∷ (4 ∷ 6 ∷ []) ∷ []) 99 ≡ 8 ∷ 4 ∷ 6 ∷ []
unfolding master_receive_results receive_sizes receive_blocks write_block send_all
    send_filtered_results_to_master get_num_multiples count_from get_multiples copy_from
collected = refl

filter_lem_example :
    count 6 (master_receive_results (send_all arrays 2 99) ((8 ∷ []) ∷ (4 ∷ 6 ∷ []) ∷ []) 99)
    ≡ count 6 (multiples (concat arrays) 2)
filter_lem_example = filter_lem arrays 2 99 ((8 ∷ []) ∷ (4 ∷ 6 ∷ []) ∷ []) 6 overtaking
