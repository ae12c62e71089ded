-- ===== src/Thunk/Examples.antt =====
-- A thunk of two arguments, and the theorems at it.
use wyvern.Base.{ℕ, ◌+◌, ◌≡◌, refl, true, List, [], ◌∷◌, some, replicate}
use wyvern.Thunk.{
  compute_struct_type, undef, Thunk, initialize, use_times, store_env, call_delegate, call_memoized,
  compute_and_store, return_memo, load_params,
}
use wyvern.Thunk.Calls.{computations, use_times-initialize}

abbrev sum : List ℕ → ℕ
sum [] = 0
sum (x ∷ xs) = x + sum xs

abbrev memory : Thunk
memory = undef ∷ undef ∷ undef ∷ undef ∷ undef ∷ []

-- Three uses of the thunk, of which the first computes.
three_uses :
    use_times 2 sum true 3 (initialize true 7 (20 ∷ 22 ∷ []) memory) ≡ some (42 ∷ 42 ∷ 42 ∷ [], 1)
unfolding use_times call_delegate call_memoized compute_and_store return_memo load_params initialize
    store_env
three_uses = refl

use_times-initialize_example :
    use_times 2 sum true 3 (initialize true 7 (20 ∷ 22 ∷ []) memory)
    ≡ some (replicate 3 42, computations true 3)
unfolding compute_struct_type
use_times-initialize_example =
    use_times-initialize true 7 32 (20 ∷ 22 ∷ []) (32 ∷ 32 ∷ []) sum 3 memory refl refl
