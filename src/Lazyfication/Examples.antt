-- ===== src/Lazyfication/Examples.antt =====
-- The driver of passes/Lazyfication.cpp at a program of one function that calls itself.
use wyvern.Base.{
  ℕ, ◌*◌, ltb, ◌≡◌, ◌↔◌, refl, Bool, true, false, [], ◌∷◌, ◌++◌, Option, none, some, arith, length,
}
use wyvern.Base.Int.{pos}
use wyvern.Base.Map
use wyvern.Base.Map.{Set, contains, add, pair_order}
use wyvern.Report.Attach.{instructions}
use wyvern.Report.{Row}
use wyvern.ProgramSlice.Control.Examples.{flat}
use wyvern.ProgramSlice.Dependences.{as_instruction, find_from, find_in}
use wyvern.ProgramSlice.Outline.Examples.{caller, analyses}
use wyvern.Lazyfication.{
  Site, Lazified, Llvm, Driver, Doubles, types_after, builds_slice, find_clone, count_slice,
  count_site, lazify, lazify_callsite,
}
use wyvern.Lazyfication.Run.{
  arguments, calls_in, calls_of_module, start_driver, profile_file, run_driver,
}
use wyvern.Lazyfication.Guards.{CanLazify, lazify_callsite_lem}
use wyvern.Lazyfication.Counters.{IsConsistent}
use wyvern.Lazyfication.Run.Invariant.{run_driver-IsConsistent}
use wyvern.Lazyfication.Run.Arguments.{arguments_stuck}

abbrev llvm : Llvm
llvm = record {
  dom_tree = λ F. flat 0;
  post_dom_tree = λ F. flat 0;
  preds = λ F b. [];
  analyses = λ M F. analyses;
  write = λ M s index l previous. (M ++ caller ∷ [], (length M, 4));
}

abbrev site : Site
site = record { caller = 0; address = 2 }

abbrev result : Lazified
result = record { arg = 1; callee = 0 }

abbrev twice : Driver
twice = lazify llvm true site 0 result (lazify llvm true site 0 result (start_driver (caller ∷ [])))

-- The same callee, index and argument again: one pair, and a second clone.
counted_twice :
    (twice.num_callsites ≡ 2)
    × (twice.num_functions ≡ 1)
    × (twice.total ≡ 8)
    × (twice.smallest ≡ 4)
    × (length twice.cloned ≡ 2)
unfolding lazify find_clone count_slice count_site start_driver contains add Map.find Map.insert
    Map.place
counted_twice = (refl, refl, refl, refl, refl)

lazify_callsite_lem_example :
    (((lazify_callsite llvm true site 0 (start_driver (caller ∷ []))).0 ≡ true)
      ↔ ((l : Lazified) × CanLazify llvm (start_driver (caller ∷ [])).program site 0 l))
    × ((lazify_callsite llvm true site 0 (start_driver (caller ∷ []))).0 ≡ false
        → (lazify_callsite llvm true site 0 (start_driver (caller ∷ []))).1
          ≡ record (start_driver (caller ∷ [])) { next_type = 2 })
unfolding start_driver types_after builds_slice as_instruction find_from find_in
lazify_callsite_lem_example = lazify_callsite_lem llvm true site 0 (start_driver (caller ∷ []))

abbrev row : Row
row = record {
  caller_name = 102 ∷ [];
  inst_id = 1;
  num_calls = 10;
  unique_evals = pos 1 ∷ [];
  total_evals = pos 3 ∷ [];
}

-- Quotients instead of doubles, with a threshold of one half.
abbrev rarely : Doubles
rarely = record {
  Double = ℕ × ℕ;
  of_u64 = λ n. (n, 1);
  divide = λ x y. (x.0 * y.1, x.1 * y.0);
  less = λ x y. ltb (x.0 * y.1) (y.0 * x.1);
  threshold = (1, 2);
}

run_driver-IsConsistent_example :
    (b : Bool) × (d : Driver) × (run_driver llvm true rarely true
        (profile_file (some ((2, row) ∷ [])))
        (caller ∷ [])
      ≡ some (b, d))
    × IsConsistent d
unfolding calls_of_module calls_in instructions
run_driver-IsConsistent_example =
    run_driver-IsConsistent llvm true rarely true (profile_file (some ((2, row) ∷ [])))
      (caller ∷ []) (omega arith, tt)

-- None of 300 arguments is to be lazified.
abbrev skip : ℕ → Driver → Option (Bool × Driver)
skip i d = none

arguments_stuck_example : arguments skip 100000 300 0 false (start_driver []) ≡ none
arguments_stuck_example =
    arguments_stuck skip 100000 300 0 false (start_driver []) (omega arith) (omega arith)
      (λ i e f. λ h. cc h)
