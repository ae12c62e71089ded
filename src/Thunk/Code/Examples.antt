-- ===== src/Thunk/Code/Examples.antt =====
-- The emitted code at a memoized thunk of two arguments.
use wyvern.Base.{ℕ, suc, ◌≡◌, refl, true, false, not, ◌||◌, List, [], ◌∷◌, some, arith}
use wyvern.Thunk.{undef, delegate, word, bit, Thunk, Evaluation, load_params, compute_struct_type}
use wyvern.Thunk.Code.{
  Machine, enter, run_emitted, generate_thunk_initialization_code, run_delegate,
}
use wyvern.Thunk.Code.Refinement.{
  delayed, forced, force, is_delayed, Represents, run_delegate-force,
  generate_thunk_initialization_code-Represents,
}

abbrev first : List ℕ → ℕ
first [] = 0
first (v ∷ vs) = v

abbrev thunk : Thunk
thunk = delegate 7 ∷ undef ∷ bit false ∷ word 4 ∷ word 5 ∷ []

run_delegate-force_example :
    (e : Evaluation) × (run_delegate 2 first true 10 thunk ≡ some e)
    × (e.value ≡ force first (delayed (4 ∷ 5 ∷ [])))
    × Represents 2 first true e.after (forced (force first (delayed (4 ∷ 5 ∷ []))))
    × (e.computed ≡ (not true || is_delayed (delayed (4 ∷ 5 ∷ []))))
unfolding Represents load_params
run_delegate-force_example =
    run_delegate-force 2 first true 10 thunk (delayed (4 ∷ 5 ∷ [])) (omega arith, refl, refl)

generate_thunk_initialization_code-Represents_example :
    (m : Machine) × (run_emitted suc 0
        (generate_thunk_initialization_code true 7 (3 ∷ 4 ∷ []) 10)
        (enter (undef ∷ undef ∷ undef ∷ undef ∷ undef ∷ []))
      ≡ some m)
    × Represents 2 first true m.thunk (delayed (4 ∷ 5 ∷ []))
unfolding compute_struct_type
generate_thunk_initialization_code-Represents_example =
    generate_thunk_initialization_code-Represents true 7 1 (3 ∷ 4 ∷ []) (1 ∷ 1 ∷ []) suc first 10
      (undef ∷ undef ∷ undef ∷ undef ∷ undef ∷ []) refl refl
