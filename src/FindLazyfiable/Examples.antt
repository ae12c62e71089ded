-- ===== src/FindLazyfiable/Examples.antt =====
-- passes/FindLazyfiable.cpp on a small module, and the theorems at it.

use mathlib.Core.List.Memᴰ
use wyvern.Base.{
  ◌<◌, ap, none, ⊎_elim, ℕ, ◌≡◌, ◌≢◌, refl, ◌↔◌, ◌⊎◌, true, false, [], ◌∷◌, some, arith, get_elem?,
}
use wyvern.Base.Map
use wyvern.Base.Map.{nat_order, pair_order, contains}
use wyvern.Ir.{
  inst, argument, constant, function, phi, ret, branch, call, other, Function, Module, successors,
  block_at,
}
use wyvern.FindLazyfiable.{
  dfs_outcome, found, out_of_fuel, has_use, find_lazyfiable_paths, exit_from, has_return,
  search_args, dfs, search_loop, push_all, has_operand,
}
use wyvern.FindLazyfiable.Dfs.{IsUnused, dfs_outcome_lem}
use wyvern.FindLazyfiable.Promising.{is_promising, IsPromising, find_lazyfiable_paths_lem}
use wyvern.FindLazyfiable.MissingUses.{
  add_missing_uses_in, add_missing_uses, dummy_functions, remove_dummy_functions, missing_uses,
  add_uses, phi_uses, argument_edges, insert_at, insert_before_last, dummy_call, calls_dummy,
  has_users, dummies_of,
}
use wyvern.FindLazyfiable.MissingUses.Uses.{Flows, missing_uses_iff, add_missing_uses_lem}
use wyvern.FindLazyfiable.MissingUses.Removal.{IsFormed, HasFlow, remove_dummy_functions_lem}
use wyvern.FindLazyfiable.Pass.{
  analyze_functions, analyze_calls, analyze_block, analyze_inst, analyze_call, record_args,
  no_results, is_skipped, run_on_module, run_on_module_lem,
}

-- callee(key, value) { return key && value; } : block 1 uses `value`, and the phi node of block 2
-- takes argument 0 from block 0.
abbrev callee : Function
callee = record {
  arg_types = 32 ∷ 32 ∷ [];
  is_var_arg = false;
  blocks =
      (record { id = 1; opcode = other; operands = argument 0 ∷ constant 0 ∷ [] }
        ∷ record { id = 2; opcode = branch (1 ∷ 2 ∷ []); operands = inst 1 ∷ [] }
        ∷ [])
      ∷ (record { id = 3; opcode = other; operands = argument 1 ∷ [] }
          ∷ record { id = 4; opcode = branch (2 ∷ []); operands = [] }
          ∷ [])
      ∷ (record { id = 5; opcode = phi (0 ∷ 1 ∷ []); operands = argument 0 ∷ inst 3 ∷ [] }
          ∷ record { id = 6; opcode = ret; operands = inst 5 ∷ [] }
          ∷ [])
      ∷ [];
}

abbrev caller : Function
caller = record {
  arg_types = 32 ∷ [];
  is_var_arg = false;
  blocks =
      (record { id = 7; opcode = other; operands = argument 0 ∷ [] }
        ∷ record { id = 8; opcode = call (some (function 0)); operands = argument 0 ∷ inst 7 ∷ [] }
        ∷ record { id = 9; opcode = ret; operands = inst 8 ∷ [] }
        ∷ [])
      ∷ [];
}

abbrev sample : Module
sample = callee ∷ caller ∷ []

-- Only the second argument of the callee is promising, and only the second argument of the call is
-- computed by an instruction.
results :
    (is_promising (run_on_module 99 sample).0 0 0 ≡ false)
    × (is_promising (run_on_module 99 sample).0 0 1 ≡ true)
    × (is_promising (run_on_module 99 sample).0 1 0 ≡ false)
    × ((run_on_module 99 sample).0.callsites ≡ ((8, 1), tt) ∷ [])
unfolding run_on_module Map.contains Map.add Map.find Map.insert Map.place analyze_functions
    add_missing_uses add_missing_uses_in add_uses missing_uses phi_uses analyze_calls analyze_block
    analyze_inst analyze_call argument_edges insert_at insert_before_last dummy_call record_args
    find_lazyfiable_paths exit_from has_return search_args dfs dfs_outcome search_loop push_all
    has_use has_operand successors
results = (refl, refl, refl, refl)

-- The theorems.
dfs_outcome_lem_example :
    (dfs_outcome callee 2 (argument 1) 0 ≢ out_of_fuel)
    × ((dfs_outcome callee 2 (argument 1) 0 ≡ found) ↔ IsUnused callee (argument 1) 0 2)
dfs_outcome_lem_example = dfs_outcome_lem callee 2 0 (argument 1) (omega arith) (omega arith)

find_lazyfiable_paths_lem_example :
    (is_promising (find_lazyfiable_paths 0 callee no_results) 0 1 ≡ true)
    ↔ ((is_promising no_results 0 1 ≡ true) ⊎ (◌≡◌ {A = ℕ} 0 0) × IsPromising callee 1)
find_lazyfiable_paths_lem_example = find_lazyfiable_paths_lem 0 callee 0 1 no_results (omega arith)

add_missing_uses_lem_example :
    ((has_use (argument 0) (block_at (add_missing_uses_in 99 callee) 0) ≡ true)
      ↔ (Flows callee.blocks 0 0 ⊎ (has_use (argument 0) (block_at callee 0) ≡ true)))
    × (successors (add_missing_uses_in 99 callee) 0 ≡ successors callee 0)
add_missing_uses_lem_example = add_missing_uses_lem 99 callee 0 0 (ground arith) (omega arith)

callee_edges : (i b : ℕ) → Flows callee.blocks i b → b < 3
unfolding missing_uses phi_uses argument_edges
callee_edges i b flow =
    ⊎_elim (λ e. let same : b ≡ 0 = ap (λ (x : ℕ × ℕ). x.0) e in omega (arith, same))
      (λ q. absurd (Memᴰ.not-nil q)) (Memᴰ.cases_cons ((missing_uses_iff callee.blocks i b).1 flow))

caller_edges : (i b : ℕ) → Flows caller.blocks i b → b < 1
unfolding missing_uses phi_uses argument_edges
caller_edges i b flow = absurd (Memᴰ.not-nil ((missing_uses_iff caller.blocks i b).1 flow))

sample-IsFormed : IsFormed sample
sample-IsFormed F m =
    ⊎_elim (λ e. rw e (ground arith, callee_edges))
      (λ q.
        ⊎_elim (λ e. rw e (ground arith, caller_edges)) (λ r. absurd (Memᴰ.not-nil r))
          (Memᴰ.cases_cons q))
      (Memᴰ.cases_cons m)

remove_dummy_functions_lem_example :
    ((remove_dummy_functions (dummy_functions sample []) (add_missing_uses 99 sample) ≡ none)
      ↔ HasFlow sample)
    × ((HasFlow sample → false ≡ true)
        → remove_dummy_functions (dummy_functions sample []) (add_missing_uses 99 sample)
          ≡ some sample)
remove_dummy_functions_lem_example = remove_dummy_functions_lem 99 sample sample-IsFormed

-- The argument that flows into the callee's phi node makes the removal fail.
sample_faults : (run_on_module 99 sample).1 ≡ none
unfolding run_on_module remove_dummy_functions has_users calls_dummy dummy_functions dummies_of
    Map.contains Map.add Map.find Map.insert Map.place add_missing_uses add_missing_uses_in add_uses
    missing_uses phi_uses argument_edges insert_at insert_before_last dummy_call
sample_faults = refl

run_on_module_lem_example : (is_promising (run_on_module 99 sample).0 0 1 ≡ true) ↔ (
    (F : Function) × (get_elem? (add_missing_uses 99 sample) 0 ≡ some F)
    × (is_skipped F ≡ false)
    × IsPromising F 1)
unfolding add_missing_uses add_missing_uses_in add_uses missing_uses phi_uses argument_edges
    insert_at insert_before_last
run_on_module_lem_example = run_on_module_lem 99 sample 0 1 (omega arith)
