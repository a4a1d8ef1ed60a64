-- ===== src/Examples/LargeUpdate/Tests.antt =====
-- Requests for res-plugtest-large-update.c.
use nsdscourse.Base.{ℕ, ◌≡◌, refl, some, List, [], ◌∷◌, concat, replicate, arith}
use nsdscourse.Examples.LargeUpdate.{
  start, max_plugfest_body, failed, request_entity_too_large_4_13, max_size, bad_option_4_02,
  block_out_of_scope, res_get_handler, res_put_handler,
}
use nsdscourse.Examples.LargeUpdate.Blocks.{put_all, get_all, get_all-put_all}

-- A block behind the end of the store, and one got from an empty resource.
too_large :
    res_put_handler (some 0) (7 ∷ []) 128 16 start
    ≡ (failed request_entity_too_large_4_13 max_size, start)
unfolding res_put_handler
too_large = refl

out_of_scope : res_get_handler 16 0 start ≡ (failed bad_option_4_02 block_out_of_scope, some 0)
unfolding res_get_handler
out_of_scope = refl

-- Forty bytes in three blocks.
abbrev blocks : List (List ℕ)
blocks = replicate 16 1 ∷ replicate 16 2 ∷ replicate 8 3 ∷ []

get_all-put_all_example :
    get_all max_plugfest_body 32 0 (put_all 0 16 0 blocks start) ≡ some (concat blocks)
get_all-put_all_example =
    get_all-put_all 0 16 32 blocks
      ((omega arith, refl), ((omega arith, refl), (omega arith, omega arith))) (omega arith)
      (omega arith) (omega arith)
